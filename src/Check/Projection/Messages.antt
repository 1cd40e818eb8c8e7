-- ===== src/Check/Projection/Messages.antt =====
-- What the loop over the messages of `projectSessionStateToSopView` adds up to.
use change_quality_agent.Base.{
  String, truthy_opt, true, false, ◌||◌, none, some, get_or, or_else, List, [], ◌∷◌, ◌++◌, any,
  append-nil, append_assoc, ◌≡◌, refl, sym, ap, ◌∙◌, arith, Bool-cases, Option-cases, inl, inr,
  eq_iff,
}
use change_quality_agent.Base.Dict.{get, has_own, get-put, is_inherited}
use change_quality_agent.Session.Types.{SessionMessage}
use change_quality_agent.Session.Reducer.{step_of}
use change_quality_agent.Check.Projection.{Grouping, note_step, group_message, group_messages}
use change_quality_agent.Check.Projection.Collect.{
  has_step, contents, first_number, breaks, IsConsistent, note_step-grouped, note_step-first,
  pushed, push_chunk-note_step, push_chunk_throws, pushed-IsConsistent,
}

-- What messages add to the variables.
pub record Adds (ms : List SessionMessage) (g g' : Grouping) : Type 0 where
  pub consistent : IsConsistent g'
  pub texts :
      (k : String) → get_or (get k g'.grouped) [] ≡ get_or (get k g.grouped) [] ++ contents k ms
  pub seen : (k : String) → has_own k g'.grouped ≡ (has_own k g.grouped || any (has_step k) ms)
  pub first :
      (k : String) → get k g'.first_sequence ≡ or_else (get k g.first_sequence) (first_number k ms)

pushed-Adds :
    (m : SessionMessage) (g : Grouping) (step : String)
    → truthy_opt (step_of m) ≡ true
    → get_or (step_of m) "" ≡ step
    → is_inherited step ≡ false
    → IsConsistent g
    → Adds (m ∷ []) g (pushed step m.content m.sequence g)
pushed-Adds m g step named same h c =
    let noted = note_step step m.sequence g in
    let texts = get_or (get step g.grouped) [] ++ m.content ∷ [] in
    record {
      consistent = pushed-IsConsistent step m.content m.sequence g h c;
      texts = λ k. ground (
        arith,
        get-put step k texts noted.grouped,
        note_step-grouped k step m.sequence g,
        eq_iff step k,
        append-nil (get_or (get k g.grouped) []),
      );
      seen = λ k. ground (
        arith,
        get-put step k texts noted.grouped,
        note_step-grouped k step m.sequence g,
        eq_iff step k,
        Bool-cases (has_own k g.grouped),
      );
      first = λ k. ground (
        arith,
        note_step-first k step m.sequence g,
        eq_iff step k,
        c.numbered k,
        c.own k,
        Option-cases (get k g.first_sequence),
        Option-cases (get k g.grouped),
      );
    }

group_message-Adds :
    (m : SessionMessage) (g : Grouping)
    → breaks m ≡ false
    → IsConsistent g
    → (g' : Grouping) × (group_message g m ≡ some g') × Adds (m ∷ []) g g'
unfolding group_message
group_message-Adds m g b c = elim (Bool-cases (truthy_opt (step_of m))) [
  | inl named ↦
      let step = get_or (step_of m) "" in
      let plain : is_inherited step ≡ false = ground arith in
      (
        pushed step m.content m.sequence g,
        rw named (push_chunk-note_step step m.content m.sequence g plain),
        pushed-Adds m g step named refl plain c,
      )
  | inr unnamed ↦ (
    g,
    rw unnamed,
    record {
      consistent = c;
      texts = λ k. ground (arith, append-nil (get_or (get k g.grouped) []));
      seen = λ k. ground arith;
      first = λ k. ground arith;
    },
  )
]

contents-cons :
    (k : String) (m : SessionMessage) (ms : List SessionMessage)
    → contents k (m ∷ []) ++ contents k ms ≡ contents k (m ∷ ms)
contents-cons k m ms = ground arith

Adds-trans :
    {m : SessionMessage} {ms : List SessionMessage} {g h i : Grouping}
    → Adds (m ∷ []) g h
    → Adds ms h i
    → Adds (m ∷ ms) g i
Adds-trans {m} {ms} {g} {h} {i} p q = record {
  consistent = q.consistent;
  texts = λ k.
      q.texts k
      ∙ ap (λ t. t ++ contents k ms) (p.texts k)
      ∙ append_assoc (get_or (get k g.grouped) []) (contents k (m ∷ [])) (contents k ms)
      ∙ ap (λ t. get_or (get k g.grouped) [] ++ t) (contents-cons k m ms);
  seen = λ k. ground (arith, p.seen k, q.seen k);
  first = λ k. ground (arith, p.first k, q.first k);
}

-- When no step has an inherited name, the loop ends with the texts and first numbers of all steps.
pub group_messages-Adds :
    (ms : List SessionMessage) (g : Grouping)
    → any breaks ms ≡ false
    → IsConsistent g
    → (g' : Grouping) × (group_messages g ms ≡ some g') × Adds ms g g'
unfolding group_messages
group_messages-Adds [] g b c = (
  g,
  refl,
  record {
    consistent = c;
    texts = λ k. sym (append-nil _);
    seen = λ k. ground arith;
    first = λ k. ground arith;
  },
)
group_messages-Adds (m ∷ ms) g b c =
    let (h, e, p) = group_message-Adds m g (ground arith) c in
    let (i, f, q) = group_messages-Adds ms h (ground arith) p.consistent in
    (i, rw e f, Adds-trans p q)

group_message_throws :
    (m : SessionMessage) (g : Grouping)
    → breaks m ≡ true
    → IsConsistent g
    → group_message g m ≡ none
unfolding group_message
group_message_throws m g b c =
    let named : truthy_opt (step_of m) ≡ true = ground arith in
    rw named (push_chunk_throws (get_or (step_of m) "") m.content m.sequence g c (ground arith))

-- When some step has an inherited name, the loop throws.
pub group_messages_throws :
    (ms : List SessionMessage) (g : Grouping)
    → any breaks ms ≡ true
    → IsConsistent g
    → group_messages g ms ≡ none
unfolding group_messages
group_messages_throws [] g b c = cc
group_messages_throws (m ∷ ms) g b c = elim (Bool-cases (breaks m)) [
  | inl bad ↦ rw (group_message_throws m g bad c)
  | inr fine ↦
      let (h, e, p) = group_message-Adds m g fine c in
      rw e (group_messages_throws ms h (ground arith) p.consistent)
]
