-- ===== src/Check/PageTests.antt =====
-- The theorems on a check's page at concrete actions.
use change_quality_agent.Base.{true, false, none, some, List, [], ◌∷◌, ◌≡◌, ◌↔◌, refl}
use change_quality_agent.Async.Types.{success}
use change_quality_agent.Session.Reducer.{create_initial_session_view_state}
use change_quality_agent.Session.Stream as Session
use change_quality_agent.Check.Types.{SopQualityCheckStatus, SopQualityCheckDetail}
use change_quality_agent.Check.Hook as Hook
use change_quality_agent.Check.Page.{
  PageAction, check_action, session_action, render, open_page, step, run, shown,
}
use change_quality_agent.Check.Switching.{IsUnderWay, run-followed, run-unfollowed}

abbrev detail_of : SopQualityCheckStatus → SopQualityCheckDetail
detail_of status = record {
  check_id = "c1";
  sop_id = "sop-1";
  status = status;
  error = none;
  display_state = record { latest_sequence = 3; nodes = []; is_running = true };
  session_id = some 7;
}

-- The session of a running check is followed and comes; then the check is over.
abbrev following : List PageAction
following =
    check_action (Hook.answered 1 "c1" (success (detail_of SopQualityCheckStatus.running)))
    ∷ session_action (Session.history [])
    ∷ session_action (Session.opened 0)
    ∷ []

abbrev ending : List PageAction
ending =
    check_action (Hook.answered 1 "c1" (success (detail_of SopQualityCheckStatus.running)))
    ∷ session_action (Session.history [])
    ∷ check_action Hook.refresh
    ∷ check_action (Hook.answered 2 "c1" (success (detail_of SopQualityCheckStatus.succeeded)))
    ∷ []

run-followed_example :
    ((run (open_page "c1") following).session_stream.session_id ≡ some 7)
    ↔ IsUnderWay (run (open_page "c1") following).hook 7
run-followed_example = run-followed "c1" following 7

run-unfollowed_example :
    let p = run (open_page "c1") ending in
    (p.session_stream.open_sources ≡ [])
    × (p.session_stream.timer ≡ false)
    × (p.session_stream.state ≡ create_initial_session_view_state)
    × (shown p ≡ some p.hook.state)
unfolding run step render open_page Hook.mount Hook.step Hook.on_check Hook.cleanup
    Hook.close_current_source Hook.stream_effect Hook.connect Hook.on_answer Hook.on_detail
run-unfollowed_example = run-unfollowed "c1" ending refl
