-- ===== src/Async/Effect.antt =====
-- frontend/src/features/sop/hooks.ts: the hooks that load data in an effect and guard against late
-- answers by a flag of each run of the effect, `cancelled`.
use change_quality_agent.Base.{
  ℕ, ◌+◌, ◌==◌, String, truthy, Bool, true, false, ◌&&◌, none, some, List, [], ◌∷◌, any,
  if◌then◌else◌,
}
use change_quality_agent.Http.Errors.{JsError}
use change_quality_agent.Async.Types.{AsyncState}

-- How a request settles, which fails with an `Error`.
pub data Answer (A : Type 0) : Type 0 where
  loaded : List A → Answer A
  failed : JsError → Answer A

-- The state; the number of runs of the effect so far, which numbers them from 1; the runs whose
-- `cancelled` is set.
pub record EffectHook (A : Type 0) : Type 0 where
  pub state : AsyncState (List A)
  pub runs : ℕ
  pub cancelled : List ℕ

-- What the outside does: new arguments, with whether they are all there; the settling of the request
-- of that run; the component leaving.
pub data EffectEvent (A : Type 0) : Type 0 where
  rerun : Bool → EffectEvent A
  settle : ℕ → Answer A → EffectEvent A
  leave : EffectEvent A

module _ {A : Type 0} where
  abbrev pub is_cancelled : ℕ → EffectHook A → Bool
  is_cancelled n h = any (λ m. m == n) h.cancelled

  abbrev pub settled : Answer A → AsyncState (List A)
  settled (loaded v) = record { data_ = v; error = none; loading = false }
  settled (failed e) = record { data_ = []; error = some e; loading = false }

  -- The cleanup of the run before, if there is one.
  abbrev pub cancel : EffectHook A → EffectHook A
  cancel h = record h { cancelled = h.runs ∷ h.cancelled }

  -- A run of the effect of `useSopQualityCheckHistory` and of `useRecentSopQualityChecks`. Without its
  -- arguments it makes no request.
  unfoldable pub begin_run : Bool → EffectHook A → EffectHook A
  begin_run ready h = record (cancel h) {
    state = record { data_ = []; error = none; loading = ready };
    runs = h.runs + 1;
  }

  unfoldable pub step : EffectHook A → EffectEvent A → EffectHook A
  unfolding begin_run
  step h (rerun ready) = begin_run ready h
  step h (settle n o) = if is_cancelled n h then h else record h { state = settled o }
  step h leave = cancel h

  unfoldable pub run : EffectHook A → List (EffectEvent A) → EffectHook A
  run h [] = h
  run h (e ∷ es) = run (step h e) es

  abbrev pub initial : EffectHook A
  initial = record {
    state = record { data_ = []; error = none; loading = false };
    runs = 0;
    cancelled = [];
  }

  -- `!(!sopId || !envKey)`
  unfoldable pub use_sop_quality_check_history :
      String → String → List (EffectEvent A) → EffectHook A
  use_sop_quality_check_history sop_id env_key es =
      run initial (rerun (truthy sop_id && truthy env_key) ∷ es)

  unfoldable pub use_recent_sop_quality_checks : String → List (EffectEvent A) → EffectHook A
  use_recent_sop_quality_checks env_key es = run initial (rerun (truthy env_key) ∷ es)

  -- The effect of `useSopEnvironments` runs once, from a state that loads.
  unfoldable pub use_sop_environments : List (EffectEvent A) → EffectHook A
  use_sop_environments es = run initial (rerun true ∷ es)
