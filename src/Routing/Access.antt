-- ===== src/Routing/Access.antt =====
-- Who sees and who opens which route.
use change_quality_agent.Base.{
  Bool, true, false, not, any, ◌≡◌, ◌≢◌, ◌↔◌, ◌⊎◌, inl, inr, refl, arith, if◌then◌else◌,
}
use change_quality_agent.Auth.Context.{AuthState, loading, anonymous, authenticated, CurrentUser}
use change_quality_agent.Routing.Routes.{
  WorkspaceRouteKey, sop, mcp, llm_providers, agents, use_authz, workspace_route,
  get_visible_workspace_sidebar_routes, forbidden, outlet, protected_route,
}

abbrev pub same_key : WorkspaceRouteKey → WorkspaceRouteKey → Bool
same_key sop sop = true
same_key mcp mcp = true
same_key llm_providers llm_providers = true
same_key agents agents = true
same_key _ _ = false

admin_only :
    (auth : AuthState) {k : WorkspaceRouteKey}
    → k ≢ sop
    → ((if not (use_authz auth).is_admin then forbidden else outlet) ≡ outlet)
      ↔ ((k ≡ sop) ⊎ ((u : CurrentUser) × (auth ≡ authenticated u) × (u.is_admin ≡ true)))
unfolding use_authz
admin_only (authenticated u) ne = (λ e. inr (u, refl, ground arith), λ h. ground arith)
admin_only loading ne = (λ e. cc, λ h. ground arith)
admin_only anonymous ne = (λ e. cc, λ h. ground arith)

-- A route other than the SOP page opens only for an authenticated admin; the SOP page opens for all.
pub protected_route_iff :
    (k : WorkspaceRouteKey) (auth : AuthState)
    → (protected_route (workspace_route k) auth ≡ outlet)
      ↔ ((k ≡ sop) ⊎ ((u : CurrentUser) × (auth ≡ authenticated u) × (u.is_admin ≡ true)))
unfolding protected_route workspace_route
protected_route_iff sop auth = (λ e. inl refl, λ h. refl)
protected_route_iff mcp auth = admin_only auth (λ e. cc)
protected_route_iff llm_providers auth = admin_only auth (λ e. cc)
protected_route_iff agents auth = admin_only auth (λ e. cc)

-- The sidebar links exactly the routes that the user can open.
pub sidebar_iff :
    (k : WorkspaceRouteKey) (auth : AuthState)
    → (any (λ r. same_key r.key k) (get_visible_workspace_sidebar_routes (use_authz auth)) ≡ true)
      ↔ (protected_route (workspace_route k) auth ≡ outlet)
unfolding get_visible_workspace_sidebar_routes protected_route
sidebar_iff sop auth = ground arith
sidebar_iff mcp auth = ground arith
sidebar_iff llm_providers auth = ground arith
sidebar_iff agents auth = ground arith
