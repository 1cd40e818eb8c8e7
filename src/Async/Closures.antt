-- ===== src/Async/Closures.antt =====
-- The flags of the effects of frontend/src/features/sop/hooks.ts single out the latest run.
use change_quality_agent.Base.{
  ℕ, ◌+◌, ◌≤◌, ◌<◌, ◌==◌, leb, Bool, true, false, not, Option, none, some, or_else, List, [], ◌∷◌,
  ◌++◌, All, ◌≡◌, refl, ap, ◌∙◌, arith, Bool-cases, inl, inr, ==_iff, if◌then◌else◌,
}
use change_quality_agent.Async.Types.{AsyncState}
use change_quality_agent.Async.Effect.{
  Answer, EffectHook, EffectEvent, rerun, settle, leave, is_cancelled, settled, begin_run, step,
  run, initial,
}

-- An answer to one of the first `k` runs.
abbrev pub is_answer : {A : Type 0} → ℕ → EffectEvent A → Bool
is_answer k (settle n o) = leb n k
is_answer k e = false

-- The last answer to the run `n`.
unfoldable pub last_answer : {A : Type 0} → ℕ → List (EffectEvent A) → Option (Answer A)
last_answer n [] = none
last_answer n (settle m o ∷ es) = or_else (last_answer n es) (if m == n then some o else none)
last_answer n (_ ∷ es) = last_answer n es

-- Every run before the last is cancelled, and none that is to come.
pub record Cancels {A : Type 0} (h : EffectHook A) : Type 0 where
  pub older : (n : ℕ) → n < h.runs → is_cancelled n h ≡ true
  pub newer : (n : ℕ) → h.runs < n → is_cancelled n h ≡ false

module _ {A : Type 0} where
  abbrev pub shown : AsyncState (List A) → Option (Answer A) → AsyncState (List A)
  shown before none = before
  shown before (some o) = settled o

  shown-or_else :
      (before : AsyncState (List A)) (a b : Option (Answer A))
      → shown (shown before b) a ≡ shown before (or_else a b)
  shown-or_else before none b = refl
  shown-or_else before (some o) b = refl

  pub begin_run-Cancels : (b : Bool) (h : EffectHook A) → Cancels h → Cancels (begin_run b h)
  unfolding begin_run
  begin_run-Cancels b h v = record {
    older = λ n l. ground (arith, v.older n, ==_iff h.runs n);
    newer = λ n l. ground (arith, v.newer n, ==_iff h.runs n);
  }

  pub step-Cancels : (h : EffectHook A) (e : EffectEvent A) → Cancels h → Cancels (step h e)
  unfolding step
  step-Cancels h (rerun b) v = begin_run-Cancels b h v
  step-Cancels h (settle n o) v = elim (Bool-cases (is_cancelled n h)) [
    | inl c ↦ rw c v
    | inr c ↦ rw c (record { older = v.older; newer = v.newer })
  ]
  step-Cancels h leave v = record {
    older = λ n l. ground (arith, v.older n, ==_iff h.runs n);
    newer = λ n l. ground (arith, v.newer n, ==_iff h.runs n);
  }

  run-Cancels : (h : EffectHook A) (es : List (EffectEvent A)) → Cancels h → Cancels (run h es)
  unfolding run
  run-Cancels h [] v = v
  run-Cancels h (e ∷ es) v = run-Cancels (step h e) es (step-Cancels h e v)

  run-append :
      (h : EffectHook A) (es ds : List (EffectEvent A)) → run h (es ++ ds) ≡ run (run h es) ds
  unfolding run
  run-append h [] ds = refl
  run-append h (e ∷ es) ds = run-append (step h e) es ds

  -- Just the runs before the last are cancelled.
  abbrev IsLatest : EffectHook A → Type 0
  IsLatest h = (n : ℕ) → n ≤ h.runs → is_cancelled n h ≡ not (n == h.runs)

  begin_run-IsLatest : (b : Bool) (h : EffectHook A) → Cancels h → IsLatest (begin_run b h)
  unfolding begin_run
  begin_run-IsLatest b h v n l =
      ground (arith, v.older n, v.newer n, ==_iff h.runs n, ==_iff n (h.runs + 1))

  settle-shown :
      (n : ℕ) (o : Answer A) (h : EffectHook A)
      → is_cancelled n h ≡ not (n == h.runs)
      → step h (settle n o)
        ≡ record h { state = shown h.state (if n == h.runs then some o else none) }
  unfolding step
  settle-shown n o h c = ground (arith, c)

  run-answers_shown :
      (h : EffectHook A) (es : List (EffectEvent A))
      → IsLatest h
      → All (λ e. is_answer h.runs e ≡ true) es
      → (run h es).state ≡ shown h.state (last_answer h.runs es)
  unfolding run last_answer
  run-answers_shown h [] v q = refl
  run-answers_shown h (settle n o ∷ es) v (p, q) =
      let b = if n == h.runs then some o else none in
      ap (λ g. (run g es).state) (settle-shown n o h (v n (ground arith)))
      ∙ run-answers_shown (record h { state = shown h.state b }) es v q
      ∙ shown-or_else h.state (last_answer h.runs es) b
  run-answers_shown h (rerun b ∷ es) v (p, q) = absurd (ground arith)
  run-answers_shown h (leave ∷ es) v (p, q) = absurd (ground arith)

  pub initial-Cancels : Cancels {A = A} initial
  initial-Cancels = record { older = λ n l. absurd (omega (arith, l)); newer = λ n l. refl }

  -- Whatever has happened before, when the arguments change and then come answers to this run of the
  -- effect and to earlier ones, in any order: the hook shows the last answer to this run, and until
  -- there is one no data, loading exactly if the arguments are all there.
  pub latest_run :
      (es later : List (EffectEvent A)) (ready : Bool)
      → All (λ e. is_answer ((run initial es).runs + 1) e ≡ true) later
      → (run initial (es ++ rerun ready ∷ later)).state
        ≡ shown
            (record { data_ = []; error = none; loading = ready })
            (last_answer ((run initial es).runs + 1) later)
  unfolding run step begin_run
  latest_run es later ready q =
      let h = run initial es in
      ap (λ g. g.state) (run-append initial es (rerun ready ∷ later))
      ∙ run-answers_shown (begin_run ready h) later
          (begin_run-IsLatest ready h (run-Cancels initial es initial-Cancels)) q
