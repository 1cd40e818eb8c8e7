-- ===== src/Async/Features.antt =====
-- The six hooks that load data: frontend/src/features/{mcp,agents,llmProviders}/hooks.ts.
use change_quality_agent.Base.{
  ℕ, String, Option, none, some, List, [], ◌∷◌, Bool, true, false, str_eq, if◌then◌else◌,
}
use change_quality_agent.Async.Request.{
  Hook, Event, refetch, finish, run, list_begin, list_initial, detail_begin, detail_initial,
  detail_refetch,
}
use change_quality_agent.Async.Types.{Outcome}

module _ {Summary : Type 0} where
  -- A list hook asks when it is shown.
  unfoldable pub use_mcp_servers : List (Event (List Summary)) → Hook (List Summary)
  use_mcp_servers es = run list_begin [] list_initial (refetch ∷ es)

  unfoldable pub use_agents : List (Event (List Summary)) → Hook (List Summary)
  use_agents es = run list_begin [] list_initial (refetch ∷ es)

  unfoldable pub use_llm_providers : List (Event (List Summary)) → Hook (List Summary)
  use_llm_providers es = run list_begin [] list_initial (refetch ∷ es)

-- What the outside does to a detail hook: another id, a call of `refetch`, an answer, leaving.
pub data DetailEvent (Detail : Type 0) : Type 0 where
  select : Option String → DetailEvent Detail
  reload : DetailEvent Detail
  answer : ℕ → Outcome (Option Detail) → DetailEvent Detail
  leave : DetailEvent Detail

abbrev pub same_id : Option String → Option String → Bool
same_id none none = true
same_id (some s) (some t) = str_eq s t
same_id _ _ = false

module _ {Detail : Type 0} where
  -- The hook beside the id it is called with.
  unfoldable pub detail_step :
      Option String × Hook (Option Detail)
      → DetailEvent Detail
      → Option String × Hook (Option Detail)
  detail_step (id, h) (select next) =
      if same_id next id then (id, h) else (next, detail_refetch next h)
  detail_step (id, h) reload = (id, detail_refetch id h)
  detail_step (id, h) (answer n o) = (id, finish detail_begin none n o h)
  detail_step (id, h) leave = (id, record h { mounted = false })

  unfoldable pub detail_run :
      Option String × Hook (Option Detail)
      → List (DetailEvent Detail)
      → Option String × Hook (Option Detail)
  unfolding detail_step
  detail_run d [] = d
  detail_run d (e ∷ es) = detail_run (detail_step d e) es

  unfoldable pub use_mcp_server_detail :
      Option String → List (DetailEvent Detail) → Option String × Hook (Option Detail)
  use_mcp_server_detail id es = detail_run (id, detail_refetch id detail_initial) es

  unfoldable pub use_agent_detail :
      Option String → List (DetailEvent Detail) → Option String × Hook (Option Detail)
  use_agent_detail id es = detail_run (id, detail_refetch id detail_initial) es

  unfoldable pub use_llm_provider_detail :
      Option String → List (DetailEvent Detail) → Option String × Hook (Option Detail)
  use_llm_provider_detail id es = detail_run (id, detail_refetch id detail_initial) es
