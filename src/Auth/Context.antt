-- ===== src/Auth/Context.antt =====
-- frontend/src/features/auth/AuthContext.tsx and types.ts
use change_quality_agent.Base.{
  ℕ, ◌+◌, ◌==◌, String, Bool, true, false, ◌&&◌, List, [], ◌∷◌, if◌then◌else◌,
}
use change_quality_agent.Base.Dict.{Dict}
use change_quality_agent.Base.Json.{Json}
use change_quality_agent.Async.Types.{Outcome, success, failure}

pub record CurrentUser : Type 0 where
  pub id : String
  pub account : String
  pub is_admin : Bool
  pub meta : Dict Json

pub data AuthState : Type 0 where
  loading anonymous : AuthState
  authenticated : CurrentUser → AuthState

-- The state, with `requestIdRef` and `mountedRef`.
pub record Provider : Type 0 where
  pub state : AuthState
  pub request_id : ℕ
  pub mounted : Bool

abbrev pub initial : Provider
initial = record { state = loading; request_id = 0; mounted = true }

-- A call up to its `await`, and the settling of the request of that number.
pub data Event : Type 0 where
  refresh login logout : Event
  refreshed logged_in : ℕ → Outcome CurrentUser → Event
  logged_out : ℕ → Outcome (Unit {0}) → Event
  unmount : Event

-- `mountedRef.current && requestIdRef.current === requestId`
abbrev pub is_current : ℕ → Provider → Bool
is_current n p = p.mounted && p.request_id == n

abbrev pub next_request : Provider → Provider
next_request p = record p { request_id = p.request_id + 1 }

abbrev pub show : ℕ → AuthState → Provider → Provider
show n s p = if is_current n p then record p { state = s } else p

unfoldable pub step : Provider → Event → Provider
step p refresh = record (next_request p) { state = loading }
step p login = next_request p
step p logout = next_request p
step p (refreshed n (success user)) = show n (authenticated user) p
step p (refreshed n (failure e)) = show n anonymous p
step p (logged_in n (success user)) = show n (authenticated user) p
step p (logged_in n (failure e)) = p
step p (logged_out n (success _)) = show n anonymous p
step p (logged_out n (failure e)) = p
step p unmount = record p { mounted = false }

unfoldable pub run : Provider → List Event → Provider
run p [] = p
run p (e ∷ es) = run (step p e) es
