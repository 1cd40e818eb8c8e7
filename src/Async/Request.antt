-- ===== src/Async/Request.antt =====
-- The hooks that load data and guard against late answers by a request number: `useMcpServers` and
-- `useMcpServerDetail` of frontend/src/features/mcp/hooks.ts, and their like for agents and providers.
use change_quality_agent.Base.{
  ℕ, ◌+◌, ◌==◌, String, truthy_opt, Bool, true, false, ◌&&◌, Option, none, some, List, [], ◌∷◌,
  if◌then◌else◌,
}
use change_quality_agent.Http.Errors.{as_error}
use change_quality_agent.Async.Types.{AsyncState, Outcome, success, failure}

-- The state, with `requestIdRef` and `mountedRef`.
pub record Hook (T : Type 0) : Type 0 where
  pub state : AsyncState T
  pub request_id : ℕ
  pub mounted : Bool

-- What the outside does: a call of `refetch`, the settling of the request of that number, the
-- component leaving and coming back.
pub data Event (T : Type 0) : Type 0 where
  refetch : Event T
  settle : ℕ → Outcome T → Event T
  unmount remount : Event T

-- A hook shows `begin` when a request starts, and `empty` where one fails.
module _ {T : Type 0} (begin : AsyncState T → AsyncState T) (empty : T) where
  abbrev pub settled : Outcome T → AsyncState T
  settled (success v) = record { data_ = v; error = none; loading = false }
  settled (failure e) = record { data_ = empty; error = some (as_error e); loading = false }

  unfoldable pub start : Hook T → Hook T
  start h = record h { state = begin h.state; request_id = h.request_id + 1 }

  -- The code behind `await`.
  unfoldable pub finish : ℕ → Outcome T → Hook T → Hook T
  finish n o h = if h.mounted && h.request_id == n then record h { state = settled o } else h

  unfoldable pub step : Hook T → Event T → Hook T
  unfolding start finish
  step h refetch = start h
  step h (settle n o) = finish n o h
  step h unmount = record h { mounted = false }
  step h remount = record h { mounted = true }

  unfoldable pub run : Hook T → List (Event T) → Hook T
  run h [] = h
  run h (e ∷ es) = run (step h e) es

-- A list hook keeps the list while it loads again.
abbrev pub list_begin : {A : Type 0} → AsyncState (List A) → AsyncState (List A)
list_begin current = record current { error = none; loading = true }

abbrev pub list_initial : {A : Type 0} → Hook (List A)
list_initial = record {
  state = record { data_ = []; error = none; loading = true };
  request_id = 0;
  mounted = true;
}

-- A detail hook shows nothing while it loads.
abbrev pub detail_begin : {A : Type 0} → AsyncState (Option A) → AsyncState (Option A)
detail_begin _ = record { data_ = none; error = none; loading = true }

abbrev pub detail_idle : {A : Type 0} → AsyncState (Option A)
detail_idle = record { data_ = none; error = none; loading = false }

abbrev pub detail_initial : {A : Type 0} → Hook (Option A)
detail_initial = record { state = detail_idle; request_id = 0; mounted = true }

-- `refetch` of a detail hook: without an id no request is made.
unfoldable pub detail_refetch : {A : Type 0} → Option String → Hook (Option A) → Hook (Option A)
unfolding start
detail_refetch id h =
    if truthy_opt id
    then start detail_begin none h
    else record h { state = detail_idle; request_id = h.request_id + 1 }
