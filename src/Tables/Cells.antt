-- ===== src/Tables/Cells.antt =====
-- What the tables show of the rows: McpServerTable.tsx, AgentTable.tsx and LlmProviderTable.tsx under
-- frontend/src/features/*/components. The parameter is how a moment is written for the browser's
-- locale: `none` if the text is none.
use change_quality_agent.Base.{
  ℕ, ◌<◌, ◌≤◌, String, str_eq, truthy, truthy_opt, join, Bool, true, false, ◌||◌, not, Option, none,
  some, is_some, get_or, or_else, any, length, find, List, [], ◌∷◌, filter, ◌≡◌, refl, arith,
  if◌then◌else◌,
}
use change_quality_agent.Http.Errors.{JsError, message_of}
use change_quality_agent.Async.Types.{AsyncState}
use change_quality_agent.Mcp.Form.{McpTransport}
use change_quality_agent.Pages.Servers.{get_mcp_error_message}
use change_quality_agent.Tables.Rows.{
  McpServerSummary, AgentSummary, LlmProviderSummary, McpStatusFilter, filtered_servers,
  shows_server, query_of,
}

-- The body of a table.
pub data Body (Row : Type 0) : Type 0 where
  loading empty : Body Row
  failed : String → Body Row
  rows : List Row → Body Row

abbrev pub rows_or_empty : {Row : Type 0} → List Row → Body Row
rows_or_empty [] = empty
rows_or_empty (x ∷ xs) = rows (x ∷ xs)

unfoldable pub mcp_server_body :
    AsyncState (List McpServerSummary) → List McpServerSummary → Body McpServerSummary
mcp_server_body s servers =
    let message = get_mcp_error_message s.error in
    if s.loading
    then loading
    else if truthy_opt message
    then failed (get_or message "")
    else rows_or_empty servers

abbrev pub body_of : {Row : Type 0} → Bool → Option JsError → List Row → Body Row
body_of is_loading none xs = if is_loading then loading else rows_or_empty xs
body_of is_loading (some e) xs = if is_loading then loading else failed (message_of e)

-- AgentListPage: the table of agents waits for the providers too.
unfoldable pub agent_body :
    AsyncState (List AgentSummary)
    → AsyncState (List LlmProviderSummary)
    → List AgentSummary
    → Body AgentSummary
agent_body s providers agents =
    body_of (s.loading || providers.loading) (or_else s.error providers.error) agents

unfoldable pub llm_provider_body :
    AsyncState (List LlmProviderSummary) → List LlmProviderSummary → Body LlmProviderSummary
llm_provider_body s providers = body_of s.loading s.error providers

-- `getCommandSummary`
unfoldable pub get_command_summary : McpServerSummary → String
get_command_summary server = elim server.transport [
  | McpTransport.http ↦ get_or server.url "-"
  | McpTransport.stdio ↦ get_or server.command "-"
]

abbrev pub joined_args : List String → String
joined_args [] = "未配置 args"
joined_args (x ∷ xs) = join " " (x ∷ xs)

-- `getConfigSummary`
unfoldable pub get_config_summary : McpServerSummary → String
get_config_summary server = elim server.transport [
  | McpTransport.http ↦ get_or server.url "-"
  | McpTransport.stdio ↦ joined_args server.args
]

module _ (format : String → Option String) where
  -- `formatLastChecked`
  unfoldable pub format_last_checked : Option String → String
  format_last_checked value =
      if not (truthy_opt value)
      then "未检查"
      else (let text = get_or value "" in get_or (format text) text)

  -- `formatAgentUpdatedAt`
  unfoldable pub format_agent_updated_at : String → String
  format_agent_updated_at value = if not (truthy value) then "-" else get_or (format value) value

-- The footer of the table of servers: the total, and the number shown if a status is chosen.
unfoldable pub footer : McpStatusFilter → List McpServerSummary → ℕ × Option ℕ
footer status_filter servers =
    (length servers, if is_some status_filter then some (length servers) else none)

-- The provider of an agent's version, and whether it is disabled.
pub record ProviderDisplay : Type 0 where
  pub disabled : Bool
  pub label : String

-- `resolveProviderDisplay`
unfoldable pub resolve_provider_display : Option String → List LlmProviderSummary → ProviderDisplay
resolve_provider_display provider_id providers =
    if not (truthy_opt provider_id)
    then record { disabled = false; label = "CodeAgent" }
    else (let id = get_or provider_id "" in
        elim (find (λ item. str_eq item.id id) providers) [
          | none ↦ record { disabled = false; label = id }
          | some provider ↦ record {
            disabled = not provider.enabled;
            label = provider.display_name;
          }
        ])

-- AgentRow: the model and the provider.
unfoldable pub agent_row : AgentSummary → List LlmProviderSummary → String × ProviderDisplay
unfolding resolve_provider_display
agent_row agent providers = elim agent.latest_version [
  | none ↦ ("未发布", record { disabled = false; label = "未发布" })
  | some version ↦ (version.model, resolve_provider_display version.provider_id providers)
]

length-filter {ℓ} : {A : Type ℓ} (p : A → Bool) (xs : List A) → length (filter p xs) ≤ length xs
length-filter p [] = omega arith
length-filter p (x ∷ xs) = ground (arith, length-filter p xs)

length-filter_some {ℓ} :
    {A : Type ℓ} (p : A → Bool) (xs : List A)
    → any (λ x. not (p x)) xs ≡ true
    → length (filter p xs) < length xs
length-filter_some p [] h = absurd (cc)
length-filter_some p (x ∷ xs) h = ground (arith, length-filter p xs, length-filter_some p xs)

-- The footer of the table of servers, whatever is searched for: when a server is hidden, the total
-- that is shown is less than the number of servers, and where a status is chosen it is the same
-- number as that of those shown.
pub footer_misses_hidden :
    (lower : String → String) (status : McpStatusFilter) (text : String)
    (servers : List McpServerSummary)
    → any (λ s. not (shows_server lower status (query_of lower text) s)) servers ≡ true
    → ((footer status (filtered_servers lower status text servers)).0 < length servers)
      × ((footer status (filtered_servers lower status text servers)).1 ≡ (
          if is_some status
          then some (footer status (filtered_servers lower status text servers)).0
          else none))
unfolding footer filtered_servers
footer_misses_hidden lower status text servers h =
    (length-filter_some (shows_server lower status (query_of lower text)) servers h, refl)
