-- ===== src/Workspace/Clicks.antt =====
-- Which pages are shown to whom, and where a click leads.
use change_quality_agent.Base.{String, Bool, true, false, any, ◌≡◌, ◌↔◌, refl, arith}
use change_quality_agent.Auth.Context.{AuthState, loading, anonymous, authenticated}
use change_quality_agent.Routing.Routes.{
  WorkspaceRouteKey, sop, mcp, llm_providers, agents, workspace_route, get_workspace_route_key,
  get_visible_workspace_sidebar_routes, use_authz, protected_route, outlet,
}
use change_quality_agent.Routing.Access.{same_key, sidebar_iff}
use change_quality_agent.Workspace.Shell.{
  AppRoute, index, chat, mcp_list, mcp_create, mcp_edit, mcp_detail, llm_provider_list,
  llm_provider_create, llm_provider_edit, llm_provider_detail, agent_list, agent_create, agent_edit,
  other, page, authenticated_workspace, handle_route_click, path_after,
}

-- The page of a route is for every user who is signed in, or only for an admin.
abbrev pub May : AuthState → AppRoute → Type 0
May (authenticated user) chat = Unit
May (authenticated user) index = ⊥
May (authenticated user) other = ⊥
May (authenticated user) route = user.is_admin ≡ true
May auth route = ⊥

-- The page of a route is shown exactly to those for whom it is: the chat to everyone who is signed
-- in, all others only to an admin; and the two routes that lead elsewhere have none.
pub page_iff :
    (dev : Bool) (auth : AuthState) (route : AppRoute)
    → (authenticated_workspace dev auth route ≡ page route) ↔ May auth route
unfolding authenticated_workspace protected_route workspace_route
page_iff dev loading route = (λ e. cc, λ m. absurd m)
page_iff dev anonymous route = (λ e. ground arith, λ m. absurd m)
page_iff dev (authenticated user) index = (λ e. cc, λ m. absurd m)
page_iff dev (authenticated user) chat = (λ e. tt, λ m. refl)
page_iff dev (authenticated user) other = (λ e. cc, λ m. absurd m)
page_iff dev (authenticated user) mcp_list = (λ e. ground arith, λ m. ground arith)
page_iff dev (authenticated user) mcp_create = (λ e. ground arith, λ m. ground arith)
page_iff dev (authenticated user) mcp_edit = (λ e. ground arith, λ m. ground arith)
page_iff dev (authenticated user) mcp_detail = (λ e. ground arith, λ m. ground arith)
page_iff dev (authenticated user) llm_provider_list = (λ e. ground arith, λ m. ground arith)
page_iff dev (authenticated user) llm_provider_create = (λ e. ground arith, λ m. ground arith)
page_iff dev (authenticated user) llm_provider_edit = (λ e. ground arith, λ m. ground arith)
page_iff dev (authenticated user) llm_provider_detail = (λ e. ground arith, λ m. ground arith)
page_iff dev (authenticated user) agent_list = (λ e. ground arith, λ m. ground arith)
page_iff dev (authenticated user) agent_create = (λ e. ground arith, λ m. ground arith)
page_iff dev (authenticated user) agent_edit = (λ e. ground arith, λ m. ground arith)

path-key : (k : WorkspaceRouteKey) → get_workspace_route_key (workspace_route k).path ≡ k
unfolding get_workspace_route_key workspace_route
path-key sop = refl
path-key mcp = refl
path-key llm_providers = refl
path-key agents = refl

leads :
    (active : WorkspaceRouteKey) (pathname : String) (registered : Bool) (k : WorkspaceRouteKey)
    → get_workspace_route_key pathname ≡ active
    → get_workspace_route_key (path_after pathname (handle_route_click active registered k)) ≡ k
unfolding handle_route_click path_after workspace_route
leads sop pathname true sop h = h
leads sop pathname false sop h = path-key sop
leads mcp pathname registered sop h = path-key sop
leads llm_providers pathname registered sop h = path-key sop
leads agents pathname registered sop h = path-key sop
leads sop pathname registered mcp h = path-key mcp
leads mcp pathname registered mcp h = h
leads llm_providers pathname registered mcp h = path-key mcp
leads agents pathname registered mcp h = path-key mcp
leads sop pathname registered llm_providers h = path-key llm_providers
leads mcp pathname registered llm_providers h = path-key llm_providers
leads llm_providers pathname registered llm_providers h = h
leads agents pathname registered llm_providers h = path-key llm_providers
leads sop pathname registered agents h = path-key agents
leads mcp pathname registered agents h = path-key agents
leads llm_providers pathname registered agents h = path-key agents
leads agents pathname registered agents h = h

-- A click on a route that the sidebar lists for a user, wherever the page is, leads to that route,
-- which is the active one afterwards, and is not refused.
pub click_opens :
    (auth : AuthState) (pathname : String) (registered : Bool) (k : WorkspaceRouteKey)
    → any (λ r. same_key r.key k) (get_visible_workspace_sidebar_routes (use_authz auth)) ≡ true
    → let active = get_workspace_route_key pathname in
      let next = path_after pathname (handle_route_click active registered k) in
      (get_workspace_route_key next ≡ k)
      × (protected_route (workspace_route (get_workspace_route_key next)) auth ≡ outlet)
click_opens auth pathname registered k visible =
    let there = leads (get_workspace_route_key pathname) pathname registered k refl in
    (there, rw there ((sidebar_iff k auth).0 visible))
