-- ===== src/Pages/Servers.antt =====
-- frontend/src/features/mcp/pages: the handlers of McpListPage.tsx, McpDetailPage.tsx and
-- McpServerFormPage.tsx, and which errors components/errorMessages.ts tells apart.
use change_quality_agent.Base.{
  ℕ, ◌==◌, String, str_eq, str_append, truthy_opt, Bool, false, ◌||◌, Option, none, some, get_or,
  List, find, if◌then◌else◌,
}
use change_quality_agent.Base.Json.{Json}
use change_quality_agent.Http.Errors.{
  JsError, api_error, status_error, plain_error, message_of, as_error,
}
use change_quality_agent.Async.Types.{Outcome, success, failure}
use change_quality_agent.Api.Calls.{Call, Lifecycle, restart}
use change_quality_agent.Async.Wrappers.{
  create_server, update_server, delete_server, restart_server, server_action,
}
use change_quality_agent.Pages.Handler.{
  Handler, returned, confirm, mutate, refetch_list, refetch_detail, navigate, await_value, id_of,
  path_of,
}

-- `getErrorStatus`
unfoldable pub get_error_status : JsError → Option ℕ
get_error_status (api_error status status_text detail) = some status
get_error_status (status_error status message) = some status
get_error_status (plain_error message) = none

abbrev pub has_status : ℕ → Option ℕ → Bool
has_status n none = false
has_status n (some status) = status == n

-- `error instanceof ApiError && error.detail`
abbrev pub detail_or_message : JsError → String
detail_or_message (api_error status status_text detail) =
    if truthy_opt detail then get_or detail "" else message_of (api_error status status_text detail)
detail_or_message e = message_of e

unfoldable pub get_mcp_error_message : Option JsError → Option String
unfolding get_error_status
get_mcp_error_message none = none
get_mcp_error_message (some error) =
    let status = get_error_status error in
    if has_status 409 status
    then some "请先停止服务再修改配置"
    else if has_status 404 status
    then some "MCP 服务不存在，请刷新列表后重试"
    else if has_status 502 status || has_status 503 status
    then some "MCP 服务操作失败，请执行 check 后重试"
    else some (detail_or_message error)

unfoldable pub is_mcp_not_found_error : Option JsError → Bool
unfolding get_error_status
is_mcp_not_found_error none = false
is_mcp_not_found_error (some error) = has_status 404 (get_error_status error)

-- What the pages read of a server: its id and its name.
pub record Named : Type 0 where
  pub id : String
  pub name : String

-- `${verb} ${name}？`
abbrev pub question : String → String → String
question verb name = str_append verb (str_append " " (str_append name "？"))

-- McpListPage: `getServerName`
unfoldable pub get_server_name : List Named → String → String
get_server_name servers server_id = elim (find (λ s. str_eq s.id server_id) servers) [
  | none ↦ "这个 MCP Server"
  | some s ↦ s.name
]

-- McpListPage: `runMutation`; an error is left to the hook.
abbrev pub list_settled : Outcome Json → Handler
list_settled (success value) = refetch_list returned
list_settled (failure e) = returned

unfoldable pub run_list_mutation : Call → Handler
run_list_mutation c = mutate c list_settled

-- McpListPage: the handlers that the table is given, for a lifecycle action and for a deletion.
unfoldable pub on_list_action : List Named → String → Lifecycle → Handler
unfolding run_list_mutation get_server_name
on_list_action servers id restart =
    confirm (question "确认重启" (get_server_name servers id))
      λ yes_. if yes_ then run_list_mutation (restart_server id) else returned
on_list_action servers id action = run_list_mutation (server_action action id)

unfoldable pub on_list_delete : List Named → String → Handler
unfolding run_list_mutation get_server_name
on_list_delete servers id =
    confirm (question "确认删除" (get_server_name servers id))
      λ yes_. if yes_ then run_list_mutation (delete_server id) else returned

-- McpDetailPage: `runMutation`
unfoldable pub detail_settled : Outcome Json → Handler
unfolding is_mcp_not_found_error
detail_settled (success value) = refetch_list (refetch_detail returned)
detail_settled (failure e) =
    if is_mcp_not_found_error (some (as_error e))
    then refetch_list returned
    else refetch_list (refetch_detail returned)

unfoldable pub run_detail_mutation : Call → Handler
unfolding detail_settled
run_detail_mutation c = mutate c detail_settled

-- McpDetailPage: the menu of the server that is shown.
unfoldable pub on_detail_action : Named → Lifecycle → Handler
unfolding run_detail_mutation
on_detail_action server restart =
    confirm (question "确认重启" server.name)
      λ yes_. if yes_ then run_detail_mutation (restart_server server.id) else returned
on_detail_action server action = run_detail_mutation (server_action action server.id)

-- McpDetailPage: `handleDelete`
unfoldable pub handle_delete : Option Named → Handler
handle_delete none = returned
handle_delete (some server) = confirm (question "确认删除" server.name) λ yes_.
    if yes_
    then await_value (delete_server server.id) (λ _. refetch_list (navigate "/mcp" none returned))
    else returned

-- McpCreatePage: `onCreate`
unfoldable pub on_create : Json → Handler
on_create payload =
    await_value (create_server payload)
      λ created. navigate (path_of "/mcp" (id_of created)) (some "MCP Server 已创建。") returned

-- McpEditPage: `onUpdate`; `target` is the id of the page.
unfoldable pub on_update : String → String → Json → Handler
on_update target server_id payload =
    await_value (update_server server_id payload)
      λ _. refetch_detail (navigate (path_of "/mcp" target) (some "MCP Server 配置已保存。") returned)
