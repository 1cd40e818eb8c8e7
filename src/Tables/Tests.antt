-- ===== src/Tables/Tests.antt =====
-- The tables at concrete rows, and the theorems on them.
use change_quality_agent.Base.{String, true, none, some, List, [], ◌∷◌, ◌≡◌, refl}
use change_quality_agent.Base.Scan.{trim}
use change_quality_agent.Mcp.Form.{McpTransport, McpDesiredState}
use change_quality_agent.Mcp.Menu.{McpServerRuntimeStatus}
use change_quality_agent.Tables.Search.{contains}
use change_quality_agent.Tables.Rows.{
  McpServerSummary, AgentSummary, LlmProviderSummary, McpStatusFilter, query_of, filtered_servers,
  filtered_agents, filtered_providers,
}
use change_quality_agent.Tables.Narrowing.{Matching, search_narrows}

-- A `toLowerCase` for texts that are in lower case.
abbrev same_text : String → String
same_text s = s

abbrev files : McpServerSummary
files = record {
  id = "s1";
  name = "files";
  transport = McpTransport.stdio;
  command = some "npx";
  args = [];
  url = none;
  enabled = true;
  desired_state = McpDesiredState.running;
  runtime_status = McpServerRuntimeStatus.running;
  last_checked_at = none;
  last_error = none;
  tool_count = 1;
}

abbrev search : McpServerSummary
search = record files {
  id = "s2";
  name = "search";
  runtime_status = McpServerRuntimeStatus.stopped;
}

abbrev both : List McpServerSummary
both = files ∷ search ∷ []

found : filtered_servers same_text none " sea " both ≡ search ∷ []
unfolding filtered_servers contains trim
found = refl

query_inside : contains (query_of same_text " sea") (query_of same_text "e") ≡ true
unfolding contains trim
query_inside = refl

search_narrows_example :
    Matching same_text "e"
    × ((status : McpStatusFilter) (servers : List McpServerSummary)
        → filtered_servers same_text status " sea" (filtered_servers same_text status "e" servers)
          ≡ filtered_servers same_text status " sea" servers)
    × ((agents : List AgentSummary)
        → filtered_agents same_text " sea" (filtered_agents same_text "e" agents)
          ≡ filtered_agents same_text " sea" agents)
    × ((providers : List LlmProviderSummary)
        → filtered_providers same_text " sea" (filtered_providers same_text "e" providers)
          ≡ filtered_providers same_text " sea" providers)
search_narrows_example = search_narrows same_text "e" " sea" query_inside
