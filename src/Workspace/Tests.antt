-- ===== src/Workspace/Tests.antt =====
-- The workspace for concrete users, and the theorems on it.
use change_quality_agent.Base.{
  true, false, any, none, some, length, truthy, List, [], ◌∷◌, ◌≤◌, ◌≡◌, ◌↔◌, ◌⊎◌, refl,
  if◌then◌else◌,
}
use change_quality_agent.Async.Effect.{loaded}
use change_quality_agent.Async.Effect as Effect
use change_quality_agent.Http.Errors.{Thrown, an_error, api_error}
use change_quality_agent.Auth.Context.{CurrentUser, anonymous, authenticated, Provider}
use change_quality_agent.Routing.Routes.{
  mcp, use_authz, workspace_route, get_workspace_route_key, get_visible_workspace_sidebar_routes,
  protected_route, outlet,
}
use change_quality_agent.Routing.Access.{same_key}
use change_quality_agent.Workspace.Shell.{
  mcp_edit, page, refused, authenticated_workspace, handle_route_click, path_after,
}
use change_quality_agent.Workspace.Clicks.{May, page_iff, click_opens}
use change_quality_agent.Workspace.Accounts.{Event, press, picker_step, run_picker, shown_in}
use change_quality_agent.Workspace.SignIn.{Answers, run_picker-Answers}
use change_quality_agent.Workspace.Recent.{SopEnvironment, SopQualityCheckHistoryItem, panel_parts}
use change_quality_agent.Workspace.Recent as Recent
use change_quality_agent.Workspace.Listing.Panel.{first_key}
use change_quality_agent.Workspace.Listing.{run-panel}

abbrev admin : CurrentUser
admin = record { id = "1"; account = "admin"; is_admin = true; meta = [] }

abbrev common : CurrentUser
common = record { id = "2"; account = "common"; is_admin = false; meta = [] }

refused_page : authenticated_workspace true (authenticated common) mcp_edit ≡ refused
unfolding authenticated_workspace protected_route workspace_route
refused_page = refl

page_iff_example :
    (authenticated_workspace true (authenticated admin) mcp_edit ≡ page mcp_edit)
    ↔ May (authenticated admin) mcp_edit
page_iff_example = page_iff true (authenticated admin) mcp_edit

mcp_is_listed :
    any
      (λ r. same_key r.key mcp)
      (get_visible_workspace_sidebar_routes (use_authz (authenticated admin)))
    ≡ true
unfolding get_visible_workspace_sidebar_routes use_authz
mcp_is_listed = refl

click_opens_example :
    (get_workspace_route_key (
        path_after "/agents/new"
          (handle_route_click (get_workspace_route_key "/agents/new") false mcp))
      ≡ mcp)
    × (protected_route
          (workspace_route (
            get_workspace_route_key (
              path_after "/agents/new"
                (handle_route_click (get_workspace_route_key "/agents/new") false mcp))))
          (authenticated admin)
        ≡ outlet)
click_opens_example = click_opens (authenticated admin) "/agents/new" false mcp mcp_is_listed

abbrev signed_out : Provider
signed_out = record { state = anonymous; request_id = 1; mounted = true }

abbrev pressed : List Event
pressed = press "admin" ∷ press "common" ∷ []

abbrev unknown : Thrown
unknown = an_error (api_error 404 "Not Found" (some "no such account"))

run_picker-Answers_example :
    ((run_picker (shown_in signed_out) pressed).under_way ≤ 1)
    × Answers picker_step (run_picker (shown_in signed_out) pressed) admin unknown
run_picker-Answers_example = run_picker-Answers signed_out pressed admin unknown refl

abbrev uat : SopEnvironment
uat = record { key = "uat"; name_en = "UAT"; name_zh = "验收" }

abbrev old_check : SopQualityCheckHistoryItem
old_check = record {
  check_id = "c1";
  sop_id = some "S-1";
  env_key = some "uat";
  status = some "completed";
  created_at = none;
}

-- The environments arrive; a refresh overtakes the first request, whose answer comes too late.
abbrev overtaken : List Recent.Event
overtaken =
    Recent.found (loaded (uat ∷ []))
    ∷ Recent.refresh
    ∷ Recent.listed 2 (loaded [])
    ∷ Recent.listed 3 (loaded (old_check ∷ []))
    ∷ []

shown_checks :
    panel_parts (Recent.run Recent.opened overtaken) ≡ Recent.checks (old_check ∷ []) ∷ []
unfolding panel_parts Recent.run Recent.opened Recent.step Recent.choose Recent.choose_first
    Effect.step Effect.begin_run Effect.run Effect.use_sop_environments
    Effect.use_recent_sop_quality_checks
shown_checks = refl

run-panel_example :
    (length (panel_parts (Recent.run Recent.opened overtaken))
      ≡ (if (Recent.run Recent.opened overtaken).recent_open then 1 else 0))
    × ((truthy (Recent.run Recent.opened overtaken).selected_env ≡ false)
        ⊎ (first_key (Recent.run Recent.opened overtaken).environments.state.data_
            ≡ (Recent.run Recent.opened overtaken).selected_env))
run-panel_example = run-panel overtaken
