-- ===== src/Check/Projection/Collect.antt =====
-- What the loops of `projectSessionStateToSopView` collect.
use change_quality_agent.Base.{
  ℕ, String, str_eq, truthy_opt, includes, Bool, true, false, ◌&&◌, not, Option, none, some, get_or,
  is_some, List, [], ◌∷◌, ◌++◌, map, filter, any-append, ◌≡◌, refl, ◌∙◌, arith, Bool-cases,
  Option-cases, inl, inr, eq_iff, eq_refl, if◌then◌else◌,
}
use change_quality_agent.Base.Dict.{get, put, has_own, has, get-put, is_inherited}
use change_quality_agent.Session.Types.{SessionMessage}
use change_quality_agent.Session.Reducer.{step_of}
use change_quality_agent.Check.Projection.{Grouping, no_groups, note_step, push_chunk}

-- The message belongs to the step `k`.
abbrev pub has_step : String → SessionMessage → Bool
has_step k m = truthy_opt (step_of m) && str_eq (get_or (step_of m) "") k

-- The texts of a step's messages.
abbrev pub contents : String → List SessionMessage → List String
contents k ms = map (λ m. m.content) (filter (has_step k) ms)

-- The number of the first message of a step.
abbrev pub first_number : String → List SessionMessage → Option ℕ
first_number k [] = none
first_number k (m ∷ ms) = if has_step k m then some m.sequence else first_number k ms

-- The step of the message is named like a member of `Object.prototype`.
abbrev pub breaks : SessionMessage → Bool
breaks m = truthy_opt (step_of m) && is_inherited (get_or (step_of m) "")

-- The three variables know the same steps, and none with an inherited name.
pub record IsConsistent (g : Grouping) : Type 0 where
  pub seen_grouped : (k : String) → includes k g.seen_steps ≡ has_own k g.grouped
  pub numbered : (k : String) → is_some (get k g.first_sequence) ≡ has_own k g.grouped
  pub own : (k : String) → is_inherited k ≡ true → get k g.grouped ≡ none

pub no_groups-IsConsistent : IsConsistent no_groups
unfolding get
no_groups-IsConsistent = record {
  seen_grouped = λ k. refl;
  numbered = λ k. refl;
  own = λ k i. refl;
}

-- After noting a step it is seen, with its first number; other steps are as before.
pub note_step-grouped :
    (k step : String) (n : ℕ) (g : Grouping)
    → get k (note_step step n g).grouped
      ≡ (if str_eq step k && not (has step g.grouped) then some [] else get k g.grouped)
unfolding note_step
note_step-grouped k step n g = elim (Bool-cases (has step g.grouped)) [
  | inl old ↦ rw old (ground arith)
  | inr new ↦ rw (new, get-put) (ground arith)
]

note_step-IsConsistent_new :
    (step : String) (n : ℕ) (g : Grouping)
    → has step g.grouped ≡ false
    → IsConsistent g
    → IsConsistent (note_step step n g)
unfolding note_step
note_step-IsConsistent_new step n g new c = rw new (record {
  seen_grouped = λ k.
      any-append (λ x. str_eq x k) g.seen_steps (step ∷ [])
      ∙ ground (arith, c.seen_grouped k, get-put step k [] g.grouped);
  numbered = λ k.
      ground (arith, c.numbered k, get-put step k [] g.grouped, get-put step k n g.first_sequence);
  own = λ k i. ground (arith, c.own k i, get-put step k [] g.grouped, eq_iff step k);
})

pub note_step-IsConsistent :
    (step : String) (n : ℕ) (g : Grouping) → IsConsistent g → IsConsistent (note_step step n g)
unfolding note_step
note_step-IsConsistent step n g c = elim (Bool-cases (has step g.grouped)) [
  | inl old ↦ rw old c
  | inr new ↦ note_step-IsConsistent_new step n g new c
]

pub note_step-first :
    (k step : String) (n : ℕ) (g : Grouping)
    → get k (note_step step n g).first_sequence
      ≡ (if str_eq step k && not (has step g.grouped) then some n else get k g.first_sequence)
unfolding note_step
note_step-first k step n g = elim (Bool-cases (has step g.grouped)) [
  | inl old ↦ rw old (ground arith)
  | inr new ↦ rw (new, get-put) (ground arith)
]

-- The variables after a message of a step.
abbrev pub pushed : String → String → ℕ → Grouping → Grouping
pushed step chunk n g =
    let noted = note_step step n g in
    record noted { grouped = put step (get_or (get step g.grouped) [] ++ chunk ∷ []) noted.grouped }

pub push_chunk-note_step :
    (step chunk : String) (n : ℕ) (g : Grouping)
    → is_inherited step ≡ false
    → push_chunk step chunk (note_step step n g) ≡ some (pushed step chunk n g)
unfolding push_chunk
push_chunk-note_step step chunk n g h = elim (Option-cases (get step g.grouped)) [
  | inl e ↦ rw (note_step-grouped, e, h, eq_refl step)
  | inr (chunks, e) ↦ rw (note_step-grouped, e, eq_refl step)
]

pub push_chunk_throws :
    (step chunk : String) (n : ℕ) (g : Grouping)
    → IsConsistent g
    → is_inherited step ≡ true
    → push_chunk step chunk (note_step step n g) ≡ none
unfolding push_chunk
push_chunk_throws step chunk n g c h = rw (note_step-grouped, c.own step h, h, eq_refl step)

pub pushed-IsConsistent :
    (step chunk : String) (n : ℕ) (g : Grouping)
    → is_inherited step ≡ false
    → IsConsistent g
    → IsConsistent (pushed step chunk n g)
pushed-IsConsistent step chunk n g h c =
    let noted = note_step step n g in
    let texts = get_or (get step g.grouped) [] ++ chunk ∷ [] in
    let c' = note_step-IsConsistent step n g c in
    let here : has_own step noted.grouped ≡ true =
      ground
        (arith, note_step-grouped step step n g, eq_refl step, Option-cases (get step g.grouped)) in
    record {
      seen_grouped = λ k.
          c'.seen_grouped k
          ∙ ground (arith, get-put step k texts noted.grouped, here, eq_iff step k);
      numbered = λ k.
          c'.numbered k ∙ ground (arith, get-put step k texts noted.grouped, here, eq_iff step k);
      own = λ k i. ground (arith, get-put step k texts noted.grouped, c'.own k i, eq_iff step k);
    }
