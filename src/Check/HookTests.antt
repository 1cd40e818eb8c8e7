-- ===== src/Check/HookTests.antt =====
-- The theorems on `useSopQualityCheck` at a concrete check.
use change_quality_agent.Base.{
  ◌+◌, true, false, ◌&&◌, ◌||◌, not, none, some, is_some, List, [], ◌∷◌, any, ◌≡◌, refl,
}
use change_quality_agent.Session.Reducer.{create_initial_session_view_state}
use change_quality_agent.Session.Connection.{one_of}
use change_quality_agent.Async.Types.{success}
use change_quality_agent.Check.Types.{
  SopQualityCheckStatus, SopQualityCheckDetail, EventType, SopQualityCheckEvent,
}
use change_quality_agent.Check.Projection.Collect.{breaks}
use change_quality_agent.Check.Hook
use change_quality_agent.Check.Live.{run-live, run-ended}
use change_quality_agent.Check.Result.{
  effective_state, session_id_of, visible_detail, effective_state-throws,
}

abbrev running_detail : SopQualityCheckDetail
running_detail = record {
  check_id = "c1";
  sop_id = "sop-1";
  error = none;
  status = SopQualityCheckStatus.running;
  display_state = record { latest_sequence = 3; nodes = []; is_running = true };
  session_id = some 7;
}

abbrev event_of_type : EventType → SopQualityCheckEvent
event_of_type type = record {
  check_id = "c1";
  sequence = 4;
  type = type;
  node = none;
  channel = none;
  message = none;
}

-- The detail of a running check comes, and its source opens.
abbrev opening : List Hook.Action
opening = Hook.answered 1 "c1" (success running_detail) ∷ Hook.opened 0 ∷ []

abbrev afterwards : List Hook.Action
afterwards =
    Hook.received 0 none (some (event_of_type EventType.started))
    ∷ Hook.broken 0 false
    ∷ Hook.fire
    ∷ []

run-live_example :
    let h = Hook.run (Hook.mount "c1") opening in
    (h.open_sources ≡ one_of h.source)
    × ((is_some h.source || h.timer) ≡ (h.active && not h.terminal))
    × ((is_some h.source && h.timer) ≡ false)
    × ((Hook.cleanup h).open_sources ≡ [])
    × ((Hook.cleanup h).timer ≡ false)
run-live_example = run-live "c1" opening

run-ended_example :
    let ended =
      Hook.step
        (Hook.run (Hook.mount "c1") opening)
        (Hook.received 0 none (some (event_of_type EventType.completed))) in
    (Hook.run ended afterwards ≡ ended)
    × (ended.open_sources ≡ [])
    × (ended.request ≡ (Hook.run (Hook.mount "c1") opening).request + 1)
unfolding Hook.run Hook.step Hook.mount Hook.on_check Hook.cleanup Hook.close_current_source
    Hook.stream_effect Hook.connect Hook.on_answer Hook.on_detail
run-ended_example =
    run-ended "c1" opening afterwards 0 none (event_of_type EventType.completed) refl refl refl
      (refl, (refl, (refl, tt)))

effective_state-throws_example :
    is_some (effective_state (Hook.run (Hook.mount "c1") opening) create_initial_session_view_state)
    ≡ not (
        is_some (session_id_of (visible_detail (Hook.run (Hook.mount "c1") opening)))
        && any breaks create_initial_session_view_state.messages)
effective_state-throws_example =
    effective_state-throws (Hook.run (Hook.mount "c1") opening) create_initial_session_view_state
