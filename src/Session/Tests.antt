-- ===== src/Session/Tests.antt =====
-- The theorems on sessions at concrete sessions.
use change_quality_agent.Base.{
  ℕ, ◌≤◌, String, true, false, ◌&&◌, ◌||◌, not, none, some, is_some, List, [], ◌∷◌, ◌++◌, map, All,
  ◌≡◌, refl,
}
use change_quality_agent.Base.Dict.{Dict}
use change_quality_agent.Base.Json.{Json, Members}
use change_quality_agent.Session.Types.{
  SessionMessageRole, SessionMessage, MessageEvent, DeltaEvent, SessionStreamEvent, message,
  message_delta, completed,
}
use change_quality_agent.Session.Reducer.{
  ConnectionStatus, SessionViewState, hydrate_session_view_state, has_sequence, run,
}
use change_quality_agent.Session.Delivery.{Distinct, delivered, exactly_once, run_redelivered}
use change_quality_agent.Session.Stream
use change_quality_agent.Session.Connection.{one_of, run-connection}
use change_quality_agent.Session.Liveness.{source_of, answered, run-ends}
use change_quality_agent.Session.Greatest.{greatest}
use change_quality_agent.Session.Resume.{run-reconnect}

abbrev in_step : String → Dict Json
in_step step = ("step", Json.str step) ∷ []

abbrev past : List SessionMessage
past =
    record {
      id = "a";
      session_id = 1;
      sequence = 3;
      role = SessionMessageRole.assistant;
      content = "loaded";
      additional_kwargs = in_step "load_sop";
      created_at = "";
    }
    ∷ []

abbrev event_of_step : ℕ → String → MessageEvent
event_of_step n step = record {
  session_id = 1;
  sequence = n;
  role = SessionMessageRole.assistant;
  content = "text";
  additional_kwargs = in_step step;
  created_at = none;
}

abbrev delta_of_step : String → String → DeltaEvent
delta_of_step step text = record {
  session_id = 1;
  sequence = none;
  role = SessionMessageRole.assistant;
  content = text;
  additional_kwargs = in_step step;
}

-- A redelivered message and a new one, with a delta between them.
abbrev arriving : List SessionStreamEvent
arriving =
    message (event_of_step 3 "load_sop")
    ∷ message_delta (delta_of_step "review_sop" "he")
    ∷ message (event_of_step 4 "review_sop")
    ∷ completed 1
    ∷ []

abbrev shown : SessionViewState
shown = hydrate_session_view_state past

exactly_once_example :
    let s = run (hydrate_session_view_state past) arriving in
    Distinct s.messages
    × ((n : ℕ) → has_sequence n s.messages ≡ (has_sequence n past || delivered n arriving))
    × All (λ m. m.sequence ≤ s.latest_sequence) s.messages
exactly_once_example = exactly_once past arriving (refl, tt)

run_redelivered_example :
    run (run shown arriving) (map message (event_of_step 4 "review_sop" ∷ [])) ≡ run shown arriving
run_redelivered_example =
    run_redelivered shown arriving (event_of_step 4 "review_sop" ∷ []) (refl, tt)

-- A session is opened, its history comes, and its source opens, brings a message and breaks.
abbrev session_actions : List Stream.Action
session_actions =
    Stream.set_session (some 7)
    ∷ Stream.history past
    ∷ Stream.opened 0
    ∷ Stream.received 0 Stream.message_name (some (message (event_of_step 4 "review_sop")))
    ∷ Stream.broken 0
    ∷ []

run-connection_example :
    let h = Stream.run Stream.unmounted session_actions in
    (h.open_sources ≡ one_of h.source)
    × ((is_some h.source || h.timer) ≡ (h.active && not h.terminal))
    × ((is_some h.source && h.timer) ≡ false)
    × ((h.active && h.fetching) ≡ false)
run-connection_example = run-connection session_actions

run-reconnect_example :
    (Stream.step (Stream.run Stream.unmounted session_actions) Stream.fire).urls
    ≡ (Stream.run Stream.unmounted session_actions).urls
      ++ Stream.build_session_stream_url 7
          (greatest (Stream.run Stream.unmounted session_actions).state.messages)
        ∷ []
unfolding Stream.run Stream.step Stream.handle Stream.accept Stream.dispatch Stream.close
    Stream.connect Stream.cleanup Stream.begin_session Stream.start_stream Stream.history_for
    Stream.on_history Stream.on_error
run-reconnect_example = run-reconnect session_actions 7 refl refl

run-ends_example :
    let h = Stream.run Stream.unmounted session_actions in
    let g = answered h (event_of_step 5 "load_sop" ∷ []) 6 in
    (Stream.is_current (source_of (Stream.step h Stream.fire)) (Stream.step h Stream.fire) ≡ true)
    × (g.terminal ≡ true)
    × (g.state.connection_status ≡ ConnectionStatus.closed)
    × (g.open_sources ≡ [])
    × (g.timer ≡ false)
    × ((n : ℕ)
        → has_sequence n g.state.messages ≡ (
            has_sequence n h.state.messages
            || delivered n (message (event_of_step 5 "load_sop") ∷ [])))
unfolding Stream.run Stream.step Stream.handle Stream.accept Stream.dispatch Stream.close
    Stream.connect Stream.cleanup Stream.begin_session Stream.start_stream Stream.history_for
    Stream.on_history Stream.on_error Stream.on_timer
run-ends_example = run-ends session_actions (event_of_step 5 "load_sop" ∷ []) 6 refl refl

-- The fields of a message on the wire, and a parser that knows two texts.
abbrev wire_fields : Members
wire_fields =
    Members.member "session_id" (Json.num 7) (Members.member "sequence" (Json.num 4) Members.end)
