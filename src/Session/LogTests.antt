-- ===== src/Session/LogTests.antt =====
-- The theorems on the log of a session at concrete events.
use change_quality_agent.Base.{ℕ, none, List, [], ◌∷◌, ◌≡◌, refl}
use change_quality_agent.Session.Types.{
  SessionMessageRole, MessageEvent, SessionStreamEvent, message, completed,
}
use change_quality_agent.Session.Reducer.{create_initial_session_view_state, stored, run}
use change_quality_agent.Session.Refinement.{log_of, write_all, run-log_of}
use change_quality_agent.Session.Orders.{exchange, run-Reordered}

abbrev numbered : ℕ → MessageEvent
numbered n = record {
  session_id = 1;
  sequence = n;
  role = SessionMessageRole.assistant;
  content = "text";
  additional_kwargs = [];
  created_at = none;
}

abbrev forth : List SessionStreamEvent
forth = message (numbered 4) ∷ message (numbered 7) ∷ completed 8 ∷ []

abbrev back : List SessionStreamEvent
back = message (numbered 7) ∷ message (numbered 4) ∷ completed 8 ∷ []

run-log_of_example :
    log_of (run create_initial_session_view_state forth)
    ≡ write_all (log_of create_initial_session_view_state) forth
run-log_of_example = run-log_of create_initial_session_view_state forth tt

run-Reordered_example :
    log_of (run create_initial_session_view_state forth)
    ≡ log_of (run create_initial_session_view_state back)
run-Reordered_example =
    run-Reordered (λ n. stored (numbered n)) create_initial_session_view_state tt
      (refl, (refl, (tt, tt))) (exchange (message (numbered 4)) (message (numbered 7)))
