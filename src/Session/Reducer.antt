-- ===== src/Session/Reducer.antt =====
-- frontend/src/features/sessions/reducer.ts
use change_quality_agent.Base.{
  ℕ, max, ◌==◌, String, str_eq, str_append, truthy, truthy_opt, decimal, Bool, true, false, Option,
  none, some, get_or, is_some, ◌>>=◌, List, [], ◌∷◌, ◌++◌, any, if◌then◌else◌,
}
use change_quality_agent.Base.Dict.{Dict, get, put, remove, is_inherited}
use change_quality_agent.Base.Json.{Json, read_string}
use change_quality_agent.Session.Types.{
  SessionMessage, MessageEvent, DeltaEvent, SessionStreamEvent, message, message_delta, completed,
  failed, interrupted,
}

pub data ConnectionStatus : Type 0 where
  idle connecting open_ reconnecting closed : ConnectionStatus

pub record SessionViewState : Type 0 where
  pub latest_sequence : ℕ
  pub messages : List SessionMessage
  pub live_buffers : Dict String
  pub connection_status : ConnectionStatus
  pub thinking : Dict Bool

abbrev pub create_initial_session_view_state : SessionViewState
create_initial_session_view_state = record {
  latest_sequence = 0;
  messages = [];
  live_buffers = [];
  connection_status = idle;
  thinking = [];
}

-- `messages.reduce((max, message) => Math.max(max, message.sequence), n)`
abbrev pub max_sequence : ℕ → List SessionMessage → ℕ
max_sequence n [] = n
max_sequence n (m ∷ ms) = max_sequence (max n m.sequence) ms

unfoldable pub hydrate_session_view_state : List SessionMessage → SessionViewState
hydrate_session_view_state messages = record create_initial_session_view_state {
  latest_sequence = max_sequence 0 messages;
  messages = messages;
}

-- The key of the live buffer that a message belongs to.
unfoldable pub buffer_key : Dict Json → String
buffer_key additional =
    let step = read_string (get "step" additional) in
    let turn_id = read_string (get "turn_id" additional) in
    if truthy_opt step
    then str_append "step:" (get_or step "")
    else if truthy_opt turn_id
    then str_append "turn:" (get_or turn_id "")
    else "default"

abbrev pub has_sequence : ℕ → List SessionMessage → Bool
has_sequence n ms = any (λ existing. existing.sequence == n) ms

abbrev pub stored : MessageEvent → SessionMessage
stored event = record {
  id = str_append "msg-" (decimal event.sequence);
  session_id = event.session_id;
  sequence = event.sequence;
  role = event.role;
  content = event.content;
  additional_kwargs = event.additional_kwargs;
  created_at = get_or event.created_at "";
}

-- `channel === "thinking"`
abbrev pub is_thinking : Option String → Bool
is_thinking none = false
is_thinking (some channel) = str_eq channel "thinking"

-- The branch for `message`.
unfoldable pub reduce_message : SessionViewState → MessageEvent → SessionViewState
reduce_message state event =
    if has_sequence event.sequence state.messages then state else record state {
      latest_sequence = max state.latest_sequence event.sequence;
      messages = state.messages ++ stored event ∷ [];
      live_buffers = remove (buffer_key event.additional_kwargs) state.live_buffers;
    }

-- The branch for `message_delta`.
unfoldable pub reduce_delta : SessionViewState → DeltaEvent → SessionViewState
reduce_delta state event =
    let step_key = buffer_key event.additional_kwargs in
    if is_thinking (read_string (get "channel" event.additional_kwargs))
    then record state { thinking = put step_key true state.thinking }
    else if truthy event.content
    then record state {
      live_buffers =
          put step_key (str_append (get_or (get step_key state.live_buffers) "") event.content)
            state.live_buffers;
    }
    else state

unfoldable pub reduce_session_stream_event :
    SessionViewState → SessionStreamEvent → SessionViewState
reduce_session_stream_event state (message event) = reduce_message state event
reduce_session_stream_event state (message_delta event) = reduce_delta state event
reduce_session_stream_event state (completed _) = state
reduce_session_stream_event state (failed _) = state
reduce_session_stream_event state (interrupted _) = state

-- The state after the events, in their order.
unfoldable pub run : SessionViewState → List SessionStreamEvent → SessionViewState
run state [] = state
run state (e ∷ es) = run (reduce_session_stream_event state e) es

-- `grouped[step] = grouped[step] ?? []; grouped[step].push(message)`. An inherited name has a
-- value without a `push`, and the call throws a TypeError: `none`.
unfoldable pub push_at {ℓ} : {V : Type ℓ} → String → V → Dict (List V) → Option (Dict (List V))
push_at k v m =
    if is_some (get k m)
    then some (put k (get_or (get k m) [] ++ v ∷ []) m)
    else if is_inherited k
    then none
    else some (put k (v ∷ []) m)

abbrev pub step_of : SessionMessage → Option String
step_of m = read_string (get "step" m.additional_kwargs)

-- The loop of `projectSessionMessagesByStep`.
unfoldable pub group_from :
    Dict (List SessionMessage) → List SessionMessage → Option (Dict (List SessionMessage))
group_from grouped [] = some grouped
group_from grouped (m ∷ ms) = do
  next ← push_at (get_or (step_of m) "unknown") m grouped
  group_from next ms

unfoldable pub project_session_messages_by_step :
    SessionViewState → Option (Dict (List SessionMessage))
unfolding group_from
project_session_messages_by_step state = group_from [] state.messages
