-- ===== src/Workspace/Shell.antt =====
-- frontend/src/app/App.tsx and WorkspaceSidebar.tsx: the table of routes, what is shown on each, and
-- where a click in the sidebar leads.
use change_quality_agent.Base.{String, Bool, ◌&&◌, Option, none, some, if◌then◌else◌}
use change_quality_agent.Auth.Context.{AuthState, loading, anonymous, authenticated}
use change_quality_agent.Routing.Routes.{
  WorkspaceRouteKey, sop, mcp, llm_providers, agents, workspace_route, protected_route, forbidden,
  outlet, Rendered,
}
use change_quality_agent.Routing.Access.{same_key}

-- The routes of `App`, each with an element: the index and the route `*` lead to `/sop`.
pub data AppRoute : Type 0 where
  index chat : AppRoute
  mcp_list mcp_create mcp_edit mcp_detail : AppRoute
  llm_provider_list llm_provider_create llm_provider_edit llm_provider_detail : AppRoute
  agent_list agent_create agent_edit : AppRoute
  other : AppRoute

-- The paths, relative to `/`.
unfoldable pub path_of : AppRoute → String
path_of index = ""
path_of chat = "sop"
path_of mcp_list = "mcp"
path_of mcp_create = "mcp/new"
path_of mcp_edit = "mcp/:serverId/edit"
path_of mcp_detail = "mcp/:serverId"
path_of llm_provider_list = "llm-providers"
path_of llm_provider_create = "llm-providers/new"
path_of llm_provider_edit = "llm-providers/:providerId/edit"
path_of llm_provider_detail = "llm-providers/:providerId"
path_of agent_list = "agents"
path_of agent_create = "agents/new"
path_of agent_edit = "agents/:agentId/edit"
path_of other = "*"

-- The `ProtectedRoute` around a route.
unfoldable pub guard_of : AppRoute → Option WorkspaceRouteKey
guard_of mcp_list = some mcp
guard_of mcp_create = some mcp
guard_of mcp_edit = some mcp
guard_of mcp_detail = some mcp
guard_of llm_provider_list = some llm_providers
guard_of llm_provider_create = some llm_providers
guard_of llm_provider_edit = some llm_providers
guard_of llm_provider_detail = some llm_providers
guard_of agent_list = some agents
guard_of agent_create = some agents
guard_of agent_edit = some agents
guard_of route = none

-- What is on the screen: `AuthStatus` in its two forms, the choice of a user, a refusal, the way to
-- another path, or the page of a route.
pub data Screen : Type 0 where
  busy picker authentication_required refused : Screen
  navigates : String → Screen
  page : AppRoute → Screen

unfoldable pub element_of : AppRoute → Screen
element_of index = navigates "/sop"
element_of other = navigates "/sop"
element_of route = page route

abbrev pub behind_guard : Rendered → Screen → Screen
behind_guard forbidden screen = refused
behind_guard outlet screen = screen

-- `WorkspaceFrame`, at a route
unfoldable pub workspace_frame : AuthState → AppRoute → Screen
unfolding guard_of element_of
workspace_frame auth route = elim (guard_of route) [
  | none ↦ element_of route
  | some key ↦ behind_guard (protected_route (workspace_route key) auth) (element_of route)
]

-- `AuthenticatedWorkspace`; `dev` is `import.meta.env.DEV`.
unfoldable pub authenticated_workspace : Bool → AuthState → AppRoute → Screen
unfolding workspace_frame
authenticated_workspace dev loading route = busy
authenticated_workspace dev anonymous route = if dev then picker else authentication_required
authenticated_workspace dev (authenticated user) route = workspace_frame (authenticated user) route

-- What a click does: nothing, the registered handler of a new conversation, or a navigation.
pub data Click : Type 0 where
  nothing new_conversation : Click
  goes_to : String → Click

-- App: `handleNavigate`
unfoldable pub handle_navigate : WorkspaceRouteKey → Click
unfolding workspace_route
handle_navigate key = goes_to (workspace_route key).path

-- App: `handleNewConversation`; `registered` is whether there is a handler.
unfoldable pub app_new_conversation : WorkspaceRouteKey → Bool → Click
app_new_conversation active registered =
    if same_key active sop && registered then new_conversation else goes_to "/sop"

-- WorkspaceSidebar: `handleNewConversation`
unfoldable pub sidebar_new_conversation : WorkspaceRouteKey → Bool → Click
unfolding app_new_conversation handle_navigate
sidebar_new_conversation active registered =
    if same_key active sop then app_new_conversation active registered else handle_navigate sop

-- WorkspaceSidebar: `handleRouteClick`
unfoldable pub handle_route_click : WorkspaceRouteKey → Bool → WorkspaceRouteKey → Click
unfolding sidebar_new_conversation handle_navigate
handle_route_click active registered key =
    if same_key key sop
    then sidebar_new_conversation active registered
    else if same_key key active
    then nothing
    else handle_navigate key

-- The path after a click.
unfoldable pub path_after : String → Click → String
path_after pathname (goes_to path) = path
path_after pathname _ = pathname
