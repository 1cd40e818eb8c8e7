-- ===== src/Chat/Tests.antt =====
-- The theorems on the page at concrete events.
use change_quality_agent.Base.{true, false, none, some, is_some, List, [], ◌∷◌, ◌≡◌, refl}
use change_quality_agent.Base.Scan.{trim}
use change_quality_agent.Http.Errors.{a_value}
use change_quality_agent.Async.Types.{success, failure}
use change_quality_agent.Chat.Page.{
  StartSopQualityCheckResult, ChatPage, initial, Event, environments, type_sop, submit, pick_env,
  answered, observed_at_start, without, handle_send, on_route, on_started, settle_send,
  settle_found, on_answer, handle_environment_change, step, run,
}
use change_quality_agent.Chat.Starts.{run-starting, started_is_observed}

-- A start that is overtaken when another environment is picked, and one behind it.
abbrev events : List Event
events =
    environments ("prod" ∷ "test" ∷ [])
    ∷ type_sop " sop-1 "
    ∷ submit
    ∷ pick_env "test"
    ∷ submit
    ∷ []

abbrev sent : ChatPage
sent = run (initial "" none) events

run-starting_example :
    (sent.starting ≡ is_some (observed_at_start sent.start_request sent.unanswered))
    × ((step sent (answered sent.start_request (failure (a_value "lost")))).starting ≡ false)
unfolding run step
run-starting_example = run-starting "" none events (failure (a_value "lost"))

abbrev result : StartSopQualityCheckResult
result = record { active = true; check_id = "c1" }

abbrev observing : ChatPage
observing = step sent (answered 3 (success result))

started_is_observed_example :
    (observing.observed_check_id ≡ some "c1")
    × (observing.route_check_id ≡ some "c1")
    × (observing.starting ≡ false)
    × (observing.start_message ≡ none)
unfolding run step handle_send handle_environment_change observed_at_start without on_answer
    settle_found settle_send on_started on_route trim
started_is_observed_example = started_is_observed sent none result refl refl refl
