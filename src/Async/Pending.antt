-- ===== src/Async/Pending.antt =====
-- When a mutation counts as pending, and which of them fail.
use change_quality_agent.Base.{
  ℕ, suc, ◌+◌, ◌-◌, ◌<◌, Bool, true, false, ◌&&◌, ◌||◌, not, is_some, List, [], ◌∷◌, ◌≡◌, ◌↔◌, refl,
  arith,
}
use change_quality_agent.Async.Types.{Outcome, success, failure}
use change_quality_agent.Async.Mutation.{
  Mutations, pending, Callback, absent, returned, threw, callback_error, begin_mutation,
  end_mcp_mutation, end_provider_mutation, end_agent_mutation, MutationEvent, begun, ended, run_mcp,
}

-- Of `n` mutations under way and those that begin, no more end than there are.
abbrev pub Fits : {R : Type 0} → ℕ → List (MutationEvent R) → Type 0
Fits n [] = Unit
Fits n (begun ∷ es) = Fits (n + 1) es
Fits n (ended o c d ∷ es) = (0 < n) × Fits (n - 1) es

abbrev pub begins : {R : Type 0} → List (MutationEvent R) → ℕ
begins [] = 0
begins (begun ∷ es) = suc (begins es)
begins (ended o c d ∷ es) = begins es

abbrev pub ends : {R : Type 0} → List (MutationEvent R) → ℕ
ends [] = 0
ends (begun ∷ es) = ends es
ends (ended o c d ∷ es) = suc (ends es)

end_mcp-pending :
    {R : Type 0} (o : Outcome R) (c d : Callback) (m : Mutations)
    → (end_mcp_mutation o c d m).0.pending_count ≡ m.pending_count - 1
unfolding end_mcp_mutation
end_mcp-pending (success r) c d m = refl
end_mcp-pending (failure e) c d m = refl

-- As long as no more mutations end than are under way, and whatever overlaps and however each
-- ends, the count is that of the mutations under way.
pub run_mcp-pending_count :
    {R : Type 0} (m : Mutations) (es : List (MutationEvent R))
    → Fits m.pending_count es
    → (run_mcp m es).pending_count + ends es ≡ m.pending_count + begins es
unfolding run_mcp begin_mutation
run_mcp-pending_count m [] f = refl
run_mcp-pending_count m (begun ∷ es) f =
    omega (arith, run_mcp-pending_count (begin_mutation m) es f)
run_mcp-pending_count m (ended o c d ∷ es) (p, f) =
    let m' = (end_mcp_mutation o c d m).0 in
    let same = end_mcp-pending o c d m in
    omega (arith, run_mcp-pending_count m' es (rw same f), same)

-- So `pending` is off exactly if as many have ended as were under way or began.
pub run_mcp-pending :
    {R : Type 0} (m : Mutations) (es : List (MutationEvent R))
    → Fits m.pending_count es
    → (pending (run_mcp m es) ≡ false) ↔ (ends es ≡ m.pending_count + begins es)
run_mcp-pending m es f = ground (arith, run_mcp-pending_count m es f)

abbrev pub succeeds : {R : Type 0} → Outcome R → Bool
succeeds (success r) = true
succeeds (failure e) = false

abbrev pub throws : Callback → Bool
throws c = is_some (callback_error c)

-- A thrown callback fails an agent's and a provider's mutation whose action succeeded. It does not
-- fail one of an MCP server, which shows an error if the action failed, one of its two callbacks
-- threw, or there was an error before.
pub callbacks_and_results :
    {R : Type 0} (o : Outcome R) (c d : Callback) (m : Mutations)
    → (succeeds (end_mcp_mutation o c d m).1 ≡ succeeds o)
      × (succeeds (end_provider_mutation o c m).1 ≡ (succeeds o && not (throws c)))
      × (succeeds (end_agent_mutation o c m).1 ≡ (succeeds o && not (throws c)))
      × (is_some (end_mcp_mutation o c d m).0.error
          ≡ (not (succeeds o) || throws c || throws d || is_some m.error))
unfolding end_mcp_mutation end_agent_mutation end_provider_mutation
callbacks_and_results (success r) absent d m = ground arith
callbacks_and_results (success r) returned d m = ground arith
callbacks_and_results (success r) (threw e) d m = ground arith
callbacks_and_results (failure e) c d m = ground arith
