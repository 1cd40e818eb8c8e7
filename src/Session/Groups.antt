-- ===== src/Session/Groups.antt =====
-- Messages grouped by their step: `projectSessionMessagesByStep` of reducer.ts.
use change_quality_agent.Base.{
  String, str_eq, Bool, true, false, none, some, get_or, List, [], ◌∷◌, ◌++◌, append_assoc,
  append-nil, any, filter, ◌≡◌, refl, sym, ap, ◌∙◌, arith, Bool-cases, Option-cases, inl, inr,
  eq_iff,
}
use change_quality_agent.Base.Dict.{Dict, get, put, is_inherited, get-put}
use change_quality_agent.Session.Types.{SessionMessage}
use change_quality_agent.Session.Reducer.{
  SessionViewState, push_at, step_of, group_from, project_session_messages_by_step,
}

abbrev pub step_name : SessionMessage → String
step_name m = get_or (step_of m) "unknown"

abbrev pub of_step : String → List SessionMessage → List SessionMessage
of_step k ms = filter (λ m. str_eq (step_name m) k) ms

-- A step is named like a member of `Object.prototype`.
abbrev pub breaks : SessionMessage → Bool
breaks m = is_inherited (step_name m)

-- Only names that are not inherited have a group.
abbrev pub IsClean {ℓ} : {V : Type ℓ} → Dict V → Type ℓ
IsClean g = (k : String) → is_inherited k ≡ true → get k g ≡ none

pub push_at_lem {ℓ} :
    {V : Type ℓ} (k : String) (v : V) (g : Dict (List V))
    → is_inherited k ≡ false
    → push_at k v g ≡ some (put k (get_or (get k g) [] ++ v ∷ []) g)
unfolding push_at
push_at_lem k v g h = elim (Option-cases (get k g)) [ inl e ↦ rw (e, h) | inr (vs, e) ↦ rw e ]

pub push_at_throws {ℓ} :
    {V : Type ℓ} (k : String) (v : V) (g : Dict (List V))
    → IsClean g
    → is_inherited k ≡ true
    → push_at k v g ≡ none
unfolding push_at
push_at_throws k v g c h = rw (c k h, h)

pub put-IsClean {ℓ} :
    {V : Type ℓ} (k : String) (v : V) (g : Dict V)
    → is_inherited k ≡ false
    → IsClean g
    → IsClean (put k v g)
put-IsClean k v g h c j i = get-put k j v g ∙ ground (arith, eq_iff k j, c j i)

pushed_group :
    (j : String) (m : SessionMessage) (g : Dict (List SessionMessage)) (ms : List SessionMessage)
    → get_or (get j (put (step_name m) (get_or (get (step_name m) g) [] ++ m ∷ []) g)) []
        ++ of_step j ms
      ≡ get_or (get j g) [] ++ of_step j (m ∷ ms)
pushed_group j m g ms = elim (Bool-cases (str_eq (step_name m) j)) [
  | inl same ↦
      rw (get-put, same)
        (append_assoc (get_or (get (step_name m) g) []) (m ∷ []) (of_step j ms)
          ∙ ap (λ t. get_or (get t g) [] ++ m ∷ of_step j ms) ((eq_iff _ _).0 same))
  | inr other ↦ rw (get-put, other)
]

group_from-eq :
    (g : Dict (List SessionMessage)) (ms : List SessionMessage)
    → IsClean g
    → any breaks ms ≡ false
    → (r : Dict (List SessionMessage)) × (group_from g ms ≡ some r)
      × ((k : String) → get_or (get k r) [] ≡ get_or (get k g) [] ++ of_step k ms)
unfolding group_from
group_from-eq g [] c h = (g, refl, λ k. sym (append-nil _))
group_from-eq g (m ∷ ms) c h =
    let k = step_name m in
    let fine : is_inherited k ≡ false = ground arith in
    let g' = put k (get_or (get k g) [] ++ m ∷ []) g in
    let (r, e, same) = group_from-eq g' ms (put-IsClean k _ g fine c) (ground arith) in
    (r, rw (push_at_lem k m g fine) e, λ j. same j ∙ pushed_group j m g ms)

group_from_throws :
    (g : Dict (List SessionMessage)) (ms : List SessionMessage)
    → IsClean g
    → any breaks ms ≡ true
    → group_from g ms ≡ none
unfolding group_from
group_from_throws g [] c h = cc
group_from_throws g (m ∷ ms) c h =
    let k = step_name m in
    elim (Bool-cases (is_inherited k)) [
      | inl bad ↦ rw (push_at_throws k m g c bad)
      | inr fine ↦
          rw (push_at_lem k m g fine)
            (group_from_throws (put k _ g) ms (put-IsClean k _ g fine c) (ground arith))
    ]

-- When no message's step is named like a member of `Object.prototype`, the grouping returns, and the
-- group of each name is the messages of that step in their order, "unknown" for those without one.
pub project-of_step :
    (s : SessionViewState)
    → any breaks s.messages ≡ false
    → (r : Dict (List SessionMessage)) × (project_session_messages_by_step s ≡ some r)
      × ((k : String) → get_or (get k r) [] ≡ of_step k s.messages)
unfolding project_session_messages_by_step get
project-of_step s h = group_from-eq [] s.messages (λ k i. refl) h

-- When some message's step is named like a member of `Object.prototype`, the grouping throws.
pub group_throws :
    (s : SessionViewState)
    → any breaks s.messages ≡ true
    → project_session_messages_by_step s ≡ none
unfolding project_session_messages_by_step get
group_throws s h = group_from_throws [] s.messages (λ k i. refl) h
