-- ===== src/Check/Hook.antt =====
-- frontend/src/features/sop-quality-checks/hooks.ts: `useSopQualityCheck`, and the URL of api.ts. An
-- effect is run again at the render that needs it; nothing arrives in between.
use change_quality_agent.Base.{
  ℕ, ◌+◌, max, ◌==◌, String, str_eq, str_append, decimal, Bool, true, false, ◌&&◌, not, Option,
  none, some, List, [], ◌∷◌, ◌++◌, filter, if◌then◌else◌,
}
use change_quality_agent.Base.Uri.{encode_uri_component}
use change_quality_agent.Http.Errors.{JsError, as_error}
use change_quality_agent.Async.Types.{Outcome, success, failure}
use change_quality_agent.Session.Reducer.{ConnectionStatus}
use change_quality_agent.Check.Types.{
  SopQualityCheckStatus, SopQualityCheckDetail, EventType, SopQualityCheckEvent,
}
use change_quality_agent.Check.Reducer.{
  SopQualityCheckViewState, create_initial_view_state, hydrate_from_display_state,
  reduce_sop_quality_check_event,
}

-- `TERMINAL_CHECK_STATUSES.includes(status)`
abbrev pub is_terminal_status : SopQualityCheckStatus → Bool
is_terminal_status SopQualityCheckStatus.pending = false
is_terminal_status SopQualityCheckStatus.running = false
is_terminal_status status = true

-- `isTerminalEvent`
abbrev pub is_terminal_event : EventType → Bool
is_terminal_event EventType.completed = true
is_terminal_event EventType.failed = true
is_terminal_event EventType.interrupted = true
is_terminal_event type = false

-- `parsedId` of the event's id is `none` if it is not a number.
unfoldable pub next_cursor : ℕ → Option ℕ → SopQualityCheckEvent → ℕ
next_cursor current none event = max current event.sequence
next_cursor current (some parsed_id) event = max current parsed_id

-- The state and the refs of the hook, and the variables of its stream effect: `active` is
-- `!isClosed`; the sources made so far are numbered, those not closed are `open_sources`.
pub record CheckHook : Type 0 where
  pub check_id : String
  pub request : ℕ
  pub cursor : ℕ
  pub terminal : Bool
  pub detail : Option SopQualityCheckDetail
  pub detail_error : Option (String × JsError)
  pub loading : Bool
  pub state : SopQualityCheckViewState
  pub active : Bool
  pub source : Option ℕ
  pub timer : Bool
  pub created : ℕ
  pub open_sources : List ℕ
  pub urls : List String

-- Before the first effects run.
abbrev pub unmounted : CheckHook
unmounted = record {
  check_id = "";
  request = 0;
  cursor = 0;
  terminal = false;
  detail = none;
  detail_error = none;
  loading = true;
  state = create_initial_view_state;
  active = false;
  source = none;
  timer = false;
  created = 0;
  open_sources = [];
  urls = [];
}

-- What the outside does: a new `checkId`, a call of `refreshDetail`, the answer to the request of
-- that number and check, the source of that number opening, bringing an event (`none` if it does not
-- parse) with its id, and failing (`true` for an event that carries data), the timer. When the component
-- leaves, `cleanup` runs and nothing else does.
pub data Action : Type 0 where
  set_check : String → Action
  refresh : Action
  answered : ℕ → String → Outcome SopQualityCheckDetail → Action
  opened : ℕ → Action
  received : ℕ → Option ℕ → Option SopQualityCheckEvent → Action
  broken : ℕ → Bool → Action
  fire : Action

abbrev pub is_source : Option ℕ → ℕ → Bool
is_source none n = false
is_source (some m) n = m == n

-- `isCurrentSource`
abbrev pub is_current : ℕ → CheckHook → Bool
is_current n h = h.active && not h.terminal && is_source h.source n

abbrev pub with_status : ConnectionStatus → CheckHook → CheckHook
with_status c h = record h { state = record (h.state) { connection_status = c } }

-- `refreshDetail`, before its `await`
abbrev pub refresh_detail : CheckHook → CheckHook
refresh_detail h = record h { request = h.request + 1; loading = true; detail_error = none }

-- `closeCurrentSource`
unfoldable pub close_current_source : CheckHook → CheckHook
close_current_source h = elim h.source [
  | none ↦ h
  | some n ↦ record h { source = none; open_sources = filter (λ m. not (m == n)) h.open_sources }
]

-- The cleanup of the stream effect.
unfoldable pub cleanup : CheckHook → CheckHook
unfolding close_current_source
cleanup h = close_current_source (record h { active = false; timer = false })

unfoldable pub build_sop_quality_check_stream_url : String → ℕ → String
unfolding encode_uri_component
build_sop_quality_check_stream_url check_id after =
    str_append "/api/sop-quality-checks/"
      (str_append (encode_uri_component check_id) (str_append "/stream?after=" (decimal after)))

unfoldable pub connect : CheckHook → CheckHook
connect h =
    if h.active && not h.terminal
    then record h {
      source = some h.created;
      created = h.created + 1;
      open_sources = h.open_sources ++ h.created ∷ [];
      urls = h.urls ++ build_sop_quality_check_stream_url h.check_id h.cursor ∷ [];
    }
    else h

-- The stream effect, for the `detail` of the render.
unfoldable pub stream_effect : Option SopQualityCheckDetail → CheckHook → CheckHook
unfolding connect
stream_effect none h = h
stream_effect (some detail) h =
    if is_terminal_status detail.status
    then h
    else connect (with_status ConnectionStatus.connecting (record h { active = true }))

-- The first effect.
abbrev pub reset : String → CheckHook → CheckHook
reset id h = record h {
  check_id = id;
  cursor = 0;
  terminal = false;
  detail = none;
  detail_error = none;
  loading = true;
  state = create_initial_view_state;
}

-- A new `checkId`: all effects run again. The stream effect still sees the old detail, and where
-- there was one it is cleaned up again by the render without it.
unfoldable pub on_check : String → CheckHook → CheckHook
on_check id h = cleanup (stream_effect h.detail (refresh_detail (reset id (cleanup h))))

-- What `refreshDetail` sets when the detail has come.
abbrev pub with_detail : SopQualityCheckDetail → CheckHook → CheckHook
with_detail next_detail h =
    let terminal = is_terminal_status next_detail.status in
    let status = if terminal then ConnectionStatus.closed else ConnectionStatus.idle in
    record h {
      cursor = next_detail.display_state.latest_sequence;
      terminal = terminal;
      detail = some next_detail;
      state = record (hydrate_from_display_state next_detail.display_state) {
        connection_status = status;
      };
      loading = false;
    }

-- The new detail makes the stream effect run again.
unfoldable pub on_detail : SopQualityCheckDetail → CheckHook → CheckHook
on_detail next_detail h = stream_effect (some next_detail) (cleanup (with_detail next_detail h))

-- `refreshDetail`, behind its `await`
unfoldable pub on_answer : ℕ → String → Outcome SopQualityCheckDetail → CheckHook → CheckHook
unfolding on_detail
on_answer n id (success d) h = if h.request == n && str_eq h.check_id id then on_detail d h else h
on_answer n id (failure e) h =
    if h.request == n && str_eq h.check_id id
    then record h { detail_error = some (id, as_error e); loading = false }
    else h

abbrev pub with_event : Option ℕ → SopQualityCheckEvent → CheckHook → CheckHook
with_event event_id e h = record h {
  cursor = next_cursor h.cursor event_id e;
  state = reduce_sop_quality_check_event h.state e;
}

-- `handleCheckMessage`, for an event of this check
unfoldable pub accept : Option ℕ → SopQualityCheckEvent → CheckHook → CheckHook
accept event_id e h =
    if is_terminal_event e.type
    then refresh_detail
        (close_current_source (record (with_event event_id e h) { terminal = true }))
    else elim e.type [
      | EventType.checkpoint ↦ refresh_detail (with_event event_id e h)
      | other ↦ with_event event_id e h
    ]

unfoldable pub on_event : ℕ → Option ℕ → Option SopQualityCheckEvent → CheckHook → CheckHook
unfolding accept
on_event n event_id none h = h
on_event n event_id (some e) h =
    if is_current n h && str_eq e.check_id h.check_id then accept event_id e h else h

unfoldable pub on_error : ℕ → Bool → CheckHook → CheckHook
on_error n is_message h =
    if is_current n h && not is_message
    then record (with_status ConnectionStatus.reconnecting (close_current_source h)) {
      timer = true;
    }
    else h

-- The component is shown for a check.
unfoldable pub mount : String → CheckHook
mount id = on_check id unmounted

unfoldable pub step : CheckHook → Action → CheckHook
unfolding on_check on_answer on_event on_error connect
step h (set_check id) = if str_eq id h.check_id then h else on_check id h
step h refresh = refresh_detail h
step h (answered n id o) = on_answer n id o h
step h (opened n) = if is_current n h then with_status ConnectionStatus.open_ h else h
step h (received n event_id e) = on_event n event_id e h
step h (broken n is_message) = on_error n is_message h
step h fire = if h.timer then connect (record h { timer = false }) else h

unfoldable pub run : CheckHook → List Action → CheckHook
run h [] = h
run h (a ∷ as_) = run (step h a) as_
