-- ===== src/Routing/Routes.antt =====
-- frontend/src/app/routing/workspaceRoutes.ts, useAuthz.ts and ProtectedRoute.tsx
use text.Mathlib.Text.{starts_with}
use change_quality_agent.Base.{
  String, Bool, true, false, ◌&&◌, ◌||◌, not, List, [], ◌∷◌, filter, if◌then◌else◌,
}
use change_quality_agent.Auth.Context.{AuthState, authenticated}

pub data WorkspaceRouteKey : Type 0 where
  sop mcp llm_providers agents : WorkspaceRouteKey

-- `requires_admin` is `false` where the source leaves it out.
pub record WorkspaceRouteDefinition : Type 0 where
  pub key : WorkspaceRouteKey
  pub label : String
  pub path : String
  pub show_in_sidebar : Bool
  pub requires_admin : Bool

pub record AuthzState : Type 0 where
  pub is_admin : Bool

-- `user?.is_admin === true`
unfoldable pub use_authz : AuthState → AuthzState
use_authz (authenticated user) = record { is_admin = user.is_admin }
use_authz _ = record { is_admin = false }

unfoldable pub workspace_route : WorkspaceRouteKey → WorkspaceRouteDefinition
workspace_route sop = record {
  key = sop;
  label = "发起新SOP质检";
  path = "/sop";
  show_in_sidebar = true;
  requires_admin = false;
}
workspace_route mcp = record {
  key = mcp;
  label = "MCP 管理";
  path = "/mcp";
  show_in_sidebar = true;
  requires_admin = true;
}
workspace_route llm_providers = record {
  key = llm_providers;
  label = "LLM Provider 管理";
  path = "/llm-providers";
  show_in_sidebar = true;
  requires_admin = true;
}
workspace_route agents = record {
  key = agents;
  label = "Agent 配置";
  path = "/agents";
  show_in_sidebar = true;
  requires_admin = true;
}

unfoldable pub workspace_sidebar_routes : List WorkspaceRouteDefinition
unfolding workspace_route
workspace_sidebar_routes =
    workspace_route sop
    ∷ workspace_route mcp
    ∷ workspace_route llm_providers
    ∷ workspace_route agents
    ∷ []

unfoldable pub get_workspace_route_key : String → WorkspaceRouteKey
unfolding workspace_route
get_workspace_route_key pathname =
    if starts_with pathname (workspace_route llm_providers).path
    then llm_providers
    else if starts_with pathname (workspace_route agents).path
    then agents
    else if starts_with pathname (workspace_route mcp).path
    then mcp
    else sop

unfoldable pub can_access_workspace_route : WorkspaceRouteDefinition → AuthzState → Bool
can_access_workspace_route route authz = not route.requires_admin || authz.is_admin

unfoldable pub get_visible_workspace_sidebar_routes : AuthzState → List WorkspaceRouteDefinition
unfolding workspace_sidebar_routes can_access_workspace_route
get_visible_workspace_sidebar_routes authz =
    filter (λ route. route.show_in_sidebar && can_access_workspace_route route authz)
      workspace_sidebar_routes

-- What `ProtectedRoute` renders.
pub data Rendered : Type 0 where
  forbidden outlet : Rendered

unfoldable pub protected_route : WorkspaceRouteDefinition → AuthState → Rendered
unfolding use_authz can_access_workspace_route
protected_route route auth =
    if not (can_access_workspace_route route (use_authz auth)) then forbidden else outlet
