-- ===== src/Tables/Rows.antt =====
-- The rows that the list pages show: frontend/src/features/mcp/pages/McpListPage.tsx,
-- agents/pages/AgentListPage.tsx and llmProviders/pages/LlmProviderListPage.tsx, with the rows'
-- types. The parameter is `toLowerCase`.
use change_quality_agent.Base.{
  ℕ, ◌==◌, String, truthy, Bool, true, false, ◌&&◌, ◌||◌, not, Option, none, some, get_or, List,
  filter, if◌then◌else◌,
}
use change_quality_agent.Base.Scan.{trim}
use change_quality_agent.Mcp.Form.{McpTransport, McpDesiredState}
use change_quality_agent.Mcp.Menu.{McpServerRuntimeStatus}
use change_quality_agent.Tables.Search.{contains}

pub record McpServerSummary : Type 0 where
  pub id : String
  pub name : String
  pub transport : McpTransport
  pub command : Option String
  pub args : List String
  pub url : Option String
  pub enabled : Bool
  pub desired_state : McpDesiredState
  pub runtime_status : McpServerRuntimeStatus
  pub last_checked_at : Option String
  pub last_error : Option String
  pub tool_count : ℕ

pub record AgentVersionSummary : Type 0 where
  pub model : String
  pub provider_id : Option String

pub record AgentSummary : Type 0 where
  pub id : String
  pub display_name : String
  pub description : Option String
  pub enabled : Bool
  pub has_draft : Bool
  pub latest_version : Option AgentVersionSummary
  pub updated_at : String

-- The row of a provider, in the tables of providers and of agents.
pub record LlmProviderSummary : Type 0 where
  pub id : String
  pub display_name : String
  pub provider_type : String
  pub base_url : Option String
  pub api_key_configured : Bool
  pub enabled : Bool

-- `McpStatusFilter`: `none` is "all".
abbrev pub McpStatusFilter : Type 0
McpStatusFilter = Option McpServerRuntimeStatus

abbrev status_number : McpServerRuntimeStatus → ℕ
status_number McpServerRuntimeStatus.unknown = 0
status_number McpServerRuntimeStatus.starting = 1
status_number McpServerRuntimeStatus.running = 2
status_number McpServerRuntimeStatus.stopping = 3
status_number McpServerRuntimeStatus.stopped = 4
status_number McpServerRuntimeStatus.error = 5

-- `statusFilter !== "all" && server.runtime_status !== statusFilter`
abbrev pub is_other_status : McpStatusFilter → McpServerRuntimeStatus → Bool
is_other_status none status = false
is_other_status (some wanted) status = not (status_number status == status_number wanted)

module _ (lower : String → String) where
  abbrev pub query_of : String → String
  query_of search_text = lower (trim search_text)

  unfoldable pub shows_server : McpStatusFilter → String → McpServerSummary → Bool
  shows_server status_filter query server =
      if is_other_status status_filter server.runtime_status
      then false
      else if truthy query && not (contains (lower server.name) query)
      then false
      else true

  -- McpListPage: `filteredServers`
  unfoldable pub filtered_servers :
      McpStatusFilter → String → List McpServerSummary → List McpServerSummary
  unfolding shows_server
  filtered_servers status_filter search_text servers =
      filter (shows_server status_filter (query_of search_text)) servers

  abbrev pub latest_model : AgentSummary → String
  latest_model agent = elim agent.latest_version [ none ↦ "" | some version ↦ version.model ]

  unfoldable pub shows_agent : String → AgentSummary → Bool
  shows_agent query agent =
      contains (lower agent.id) query
      || contains (lower agent.display_name) query
      || contains (lower (get_or agent.description "")) query
      || contains (lower (latest_model agent)) query

  -- AgentListPage: `filteredAgents`
  unfoldable pub filtered_agents : String → List AgentSummary → List AgentSummary
  unfolding shows_agent
  filtered_agents search_text agents =
      if not (truthy (query_of search_text))
      then agents
      else filter (shows_agent (query_of search_text)) agents

  unfoldable pub shows_provider : String → LlmProviderSummary → Bool
  shows_provider query provider =
      contains (lower provider.id) query
      || contains (lower provider.display_name) query
      || contains (lower provider.provider_type) query

  -- LlmProviderListPage: `filteredProviders`
  unfoldable pub filtered_providers : String → List LlmProviderSummary → List LlmProviderSummary
  unfolding shows_provider
  filtered_providers search_text providers =
      if not (truthy (query_of search_text))
      then providers
      else filter (shows_provider (query_of search_text)) providers
