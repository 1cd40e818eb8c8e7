-- ===== src/Session/Stream.antt =====
-- frontend/src/features/sessions/hooks.ts: `useSessionStream`, and the URL of sessions/api.ts
use change_quality_agent.Base.{
  ℕ, ◌+◌, max, ◌==◌, String, str_append, decimal, Bool, true, false, ◌&&◌, not, Option, none, some,
  List, [], ◌∷◌, ◌++◌, filter, if◌then◌else◌,
}
use change_quality_agent.Http.Errors.{JsError, Thrown, as_error}
use change_quality_agent.Session.Types.{SessionMessage, SessionStreamEvent, message, message_delta}
use change_quality_agent.Session.Reducer.{
  ConnectionStatus, SessionViewState, create_initial_session_view_state, hydrate_session_view_state,
  reduce_session_stream_event,
}

-- A number is encoded as its digits.
unfoldable pub build_session_stream_url : ℕ → ℕ → String
unfolding decimal
build_session_stream_url session_id after =
    str_append "/api/sessions/"
      (str_append (decimal session_id) (str_append "/stream?after=" (decimal after)))

-- The state of the hook, its refs, and the variables of its two effects. The event sources made so
-- far are numbered; `open_sources` are those not closed, and `urls` those of all of them.
pub record Stream : Type 0 where
  pub session_id : Option ℕ
  pub cursor : ℕ
  pub terminal : Bool
  pub state : SessionViewState
  pub error : Option JsError
  pub loading : Bool
  pub hydrated_for : Option ℕ
  pub fetching : Bool  -- the history is asked for, and the effect is not cancelled
  pub active : Bool  -- the second effect runs: `isClosed` is false
  pub source : Option ℕ
  pub timer : Bool
  pub created : ℕ
  pub open_sources : List ℕ
  pub urls : List String

-- Before the first effect runs.
abbrev pub unmounted : Stream
unmounted = record {
  session_id = none;
  cursor = 0;
  terminal = false;
  state = create_initial_session_view_state;
  error = none;
  loading = false;
  hydrated_for = none;
  fetching = false;
  active = false;
  source = none;
  timer = false;
  created = 0;
  open_sources = [];
  urls = [];
}

-- The name under which an event of the source is dispatched. One without a name is a "message",
-- which has two listeners: `onmessage` and the one added for that name.
pub data EventName : Type 0 where
  message_name other_listed not_listed : EventName

-- What the outside does: a new `sessionId`, the history, the source of that number opening, bringing
-- data (`none` if it does not parse) and failing, the reconnect timer, the component leaving.
pub data Action : Type 0 where
  set_session : Option ℕ → Action
  history : List SessionMessage → Action
  history_failed : Thrown → Action
  opened : ℕ → Action
  received : ℕ → EventName → Option SessionStreamEvent → Action
  broken : ℕ → Action
  fire : Action
  unmount : Action

abbrev pub same : Option ℕ → Option ℕ → Bool
same none none = true
same (some a) (some b) = a == b
same _ _ = false

abbrev pub with_status : ConnectionStatus → Stream → Stream
with_status c h = record h { state = record (h.state) { connection_status = c } }

-- `eventSource.close(); eventSource = null`
unfoldable pub close : Stream → Stream
close h = elim h.source [
  | none ↦ h
  | some n ↦ record h { source = none; open_sources = filter (λ m. not (m == n)) h.open_sources }
]

-- `connect`, for the session `id`
unfoldable pub connect : ℕ → Stream → Stream
connect id h =
    if h.active
    then record h {
      source = some h.created;
      created = h.created + 1;
      open_sources = h.open_sources ++ h.created ∷ [];
      urls = h.urls ++ build_session_stream_url id h.cursor ∷ [];
    }
    else h

-- `!(isClosed || eventSource !== source || terminalRef.current)`
abbrev pub is_current : ℕ → Stream → Bool
is_current n h = h.active && same h.source (some n) && not h.terminal

-- `handle`, for an event that parses
unfoldable pub accept : SessionStreamEvent → Stream → Stream
unfolding close
accept (message e) h = record h {
  cursor = max h.cursor e.sequence;
  state = reduce_session_stream_event h.state (message e);
}
accept (message_delta e) h = record h {
  state = reduce_session_stream_event h.state (message_delta e);
}
accept _ h = with_status ConnectionStatus.closed (close (record h { terminal = true }))

unfoldable pub handle : ℕ → Option SessionStreamEvent → Stream → Stream
unfolding accept
handle n none h = h
handle n (some e) h = if is_current n h then accept e h else h

-- The listeners that run for an event of that name.
unfoldable pub dispatch : ℕ → EventName → Option SessionStreamEvent → Stream → Stream
unfolding handle
dispatch n message_name e h = handle n e (handle n e h)
dispatch n other_listed e h = handle n e h
dispatch n not_listed e h = h

-- The cleanup of both effects.
unfoldable pub cleanup : Stream → Stream
unfolding close
cleanup h = close (record h { fetching = false; active = false; timer = false })

-- The first effect, for a new session.
unfoldable pub begin_session : Option ℕ → Stream → Stream
begin_session id h =
    let fresh = record h {
      session_id = id;
      cursor = 0;
      terminal = false;
      error = none;
      hydrated_for = none;
      state = create_initial_session_view_state;
    } in
    elim id [
      | none ↦ record fresh { loading = false }
      | some n ↦ record fresh { loading = true; fetching = true }
    ]

-- The second effect, when the session is hydrated.
unfoldable pub start_stream : ℕ → Stream → Stream
unfolding connect
start_stream id h =
    connect id (with_status ConnectionStatus.connecting (record h { active = true }))

-- The history of the session arrives.
unfoldable pub history_for : Option ℕ → List SessionMessage → Stream → Stream
unfolding start_stream
history_for none messages h = h
history_for (some id) messages h =
    if h.fetching
    then (let state = hydrate_session_view_state messages in
        start_stream id (record h {
          cursor = state.latest_sequence;
          state = state;
          hydrated_for = some id;
          loading = false;
          fetching = false;
        }))
    else h

unfoldable pub on_history : List SessionMessage → Stream → Stream
unfolding history_for
on_history messages h = history_for h.session_id messages h

unfoldable pub on_error : ℕ → Stream → Stream
unfolding close
on_error n h =
    if is_current n h
    then record (with_status ConnectionStatus.reconnecting (close h)) { timer = true }
    else h

unfoldable pub on_timer : Stream → Stream
unfolding connect
on_timer h = elim h.session_id [
  | none ↦ h
  | some id ↦ if h.timer then connect id (record h { timer = false }) else h
]

unfoldable pub step : Stream → Action → Stream
unfolding dispatch cleanup begin_session on_history on_error on_timer
step h (set_session id) = if same id h.session_id then h else begin_session id (cleanup h)
step h (history messages) = on_history messages h
step h (history_failed e) =
    if h.fetching
    then record h { error = some (as_error e); loading = false; fetching = false }
    else h
step h (opened n) = if is_current n h then with_status ConnectionStatus.open_ h else h
step h (received n name e) = dispatch n name e h
step h (broken n) = on_error n h
step h fire = on_timer h
step h unmount = cleanup h

unfoldable pub run : Stream → List Action → Stream
run h [] = h
run h (a ∷ as_) = run (step h a) as_
