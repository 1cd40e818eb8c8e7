-- ===== src/Async/Mutation.antt =====
-- `runMutation` of frontend/src/features/{mcp,agents,llmProviders}/hooks.ts.
use change_quality_agent.Base.{
  ℕ, ◌+◌, ◌-◌, ltb, Bool, Option, none, some, or_else, List, [], ◌∷◌, if◌then◌else◌,
}
use change_quality_agent.Http.Errors.{JsError, Thrown, an_error, as_error}
use change_quality_agent.Async.Types.{Outcome, success, failure}

-- The state of a mutations hook; only `useAgentMutations` reads `mountedRef`.
pub record Mutations : Type 0 where
  pub pending_count : ℕ
  pub error : Option JsError
  pub mounted : Bool

-- `pending`
abbrev pub pending : Mutations → Bool
pending m = ltb 0 m.pending_count

-- An `onSuccess` that is not given, that returns, and that throws.
pub data Callback : Type 0 where
  absent returned : Callback
  threw : Thrown → Callback

-- The error of a callback, as `asError` gives it.
abbrev pub callback_error : Callback → Option JsError
callback_error (threw e) = some (as_error e)
callback_error _ = none

-- `Math.max(0, current - 1)`; subtraction on ℕ stops at 0.
abbrev pub release : Mutations → Mutations
release m = record m { pending_count = m.pending_count - 1 }

-- `setPendingCount((current) => current + 1); setError(null)`
unfoldable pub begin_mutation : Mutations → Mutations
begin_mutation m = record m { pending_count = m.pending_count + 1; error = none }

module _ {R : Type 0} where
  -- mcp: the rest of `runMutation`, once the action and the two callbacks have settled.
  unfoldable pub end_mcp_mutation :
      Outcome R → Callback → Callback → Mutations → Mutations × Outcome R
  end_mcp_mutation (success r) on_success own_on_success m =
      let callback = or_else (callback_error on_success) (callback_error own_on_success) in
      (release (record m { error = or_else callback m.error }), success r)
  end_mcp_mutation (failure e) on_success own_on_success m =
      (release (record m { error = some (as_error e) }), failure (an_error (as_error e)))

  -- llmProviders: a callback that throws fails the mutation.
  unfoldable pub end_provider_mutation : Outcome R → Callback → Mutations → Mutations × Outcome R
  end_provider_mutation (failure e) on_success m =
      (release (record m { error = some (as_error e) }), failure (an_error (as_error e)))
  end_provider_mutation (success r) (threw e) m =
      (release (record m { error = some (as_error e) }), failure (an_error (as_error e)))
  end_provider_mutation (success r) absent m = (release m, success r)
  end_provider_mutation (success r) returned m = (release m, success r)

  -- agents: the same, but nothing is set once the component has left.
  unfoldable pub end_agent_mutation : Outcome R → Callback → Mutations → Mutations × Outcome R
  unfolding end_provider_mutation
  end_agent_mutation o on_success m =
      let (m', result) = end_provider_mutation o on_success m in
      (if m.mounted then m' else m, result)

unfoldable pub begin_agent_mutation : Mutations → Mutations
unfolding begin_mutation
begin_agent_mutation m = if m.mounted then begin_mutation m else m

-- Mutations that overlap: each begins, and later ends.
pub data MutationEvent (R : Type 0) : Type 0 where
  begun : MutationEvent R
  ended : Outcome R → Callback → Callback → MutationEvent R

unfoldable pub run_mcp : {R : Type 0} → Mutations → List (MutationEvent R) → Mutations
unfolding begin_mutation end_mcp_mutation
run_mcp m [] = m
run_mcp m (begun ∷ es) = run_mcp (begin_mutation m) es
run_mcp m (ended o c d ∷ es) = run_mcp (end_mcp_mutation o c d m).0 es
