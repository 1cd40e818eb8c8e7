-- ===== src/Session/Connection.antt =====
-- The connection of `useSessionStream` at any moment of any history.
use change_quality_agent.Base.{
  ℕ, true, false, ◌&&◌, not, Option, none, some, List, [], ◌∷◌, ◌≡◌, refl, arith, Bool-cases, inl,
  inr, is_some, ◌||◌,
}
use change_quality_agent.Session.Types.{
  SessionMessage, SessionStreamEvent, message, message_delta, completed, failed, interrupted,
}
use change_quality_agent.Session.Reducer.{
  ConnectionStatus, SessionViewState, reduce_session_stream_event, reduce_message, reduce_delta,
}
use change_quality_agent.Session.Stream.{
  Stream, unmounted, EventName, message_name, other_listed, not_listed, Action, set_session,
  history, history_failed, opened, received, broken, fire, unmount, is_current, same, close, accept,
  handle, dispatch, cleanup, begin_session, start_stream, on_history, on_error, on_timer, step, run,
}

abbrev pub one_of : Option ℕ → List ℕ
one_of none = []
one_of (some n) = n ∷ []

-- The open sources are the current one, if there is one; none is
-- open or due while the second effect is off, before the history has come, and after the end.
pub record Inv (h : Stream) : Type 0 where
  pub sources : h.open_sources ≡ one_of h.source
  pub inactive : h.active ≡ false → (h.source ≡ none) × (h.timer ≡ false)
  pub asking : h.fetching ≡ true → (h.active ≡ false) × (h.terminal ≡ false)
  pub waiting : h.timer ≡ true → h.source ≡ none
  pub ended :
      h.terminal ≡ true
      → (h.source ≡ none)
        × (h.timer ≡ false)
        × (h.state.connection_status ≡ ConnectionStatus.closed)
  pub connected : h.active ≡ true → h.terminal ≡ false → (is_some h.source || h.timer) ≡ true
  pub owned : h.active ≡ true → is_some h.session_id ≡ true

pub unmounted-Inv : Inv unmounted
unmounted-Inv = ground arith

-- Closing leaves no source open.
close-source :
    (h : Stream)
    → h.open_sources ≡ one_of h.source
    → close h ≡ record h { source = none; open_sources = [] }
unfolding close
close-source h s = ground arith

cleanup-Inv : (h : Stream) → Inv h → Inv (cleanup h)
unfolding cleanup
cleanup-Inv h v =
    ground (arith, close-source (record h { fetching = false; active = false; timer = false }))

begin_session-Inv :
    (id : Option ℕ) (h : Stream)
    → Inv h
    → h.active ≡ false
    → h.fetching ≡ false
    → Inv (begin_session id h)
unfolding begin_session
begin_session-Inv id h v a f = ground arith

start_stream-Inv :
    (id : ℕ) (h : Stream)
    → Inv h
    → h.active ≡ false
    → h.terminal ≡ false
    → h.fetching ≡ false
    → h.session_id ≡ some id
    → Inv (start_stream id h)
unfolding start_stream
start_stream-Inv id h v a t f o = ground arith

on_history-Inv : (ms : List SessionMessage) (h : Stream) → Inv h → Inv (on_history ms h)
unfolding on_history
on_history-Inv ms h v = ground arith

on_error-Inv : (n : ℕ) (h : Stream) → Inv h → Inv (on_error n h)
unfolding on_error
on_error-Inv n h v = ground (arith, close-source h)

on_timer-Inv : (h : Stream) → Inv h → Inv (on_timer h)
unfolding on_timer
on_timer-Inv h v = ground arith

reduce-connection_status :
    (s : SessionViewState) (e : SessionStreamEvent)
    → (reduce_session_stream_event s e).connection_status ≡ s.connection_status
unfolding reduce_session_stream_event reduce_message reduce_delta
reduce-connection_status s (message e) = ground arith
reduce-connection_status s (message_delta e) = ground arith
reduce-connection_status s _ = refl

accept-Inv :
    (n : ℕ) (e : SessionStreamEvent) (h : Stream) → is_current n h ≡ true → Inv h → Inv (accept e h)
unfolding accept
accept-Inv n (message e) h c v = ground (arith, reduce-connection_status h.state (message e))
accept-Inv n (message_delta e) h c v =
    ground (arith, reduce-connection_status h.state (message_delta e))
accept-Inv n (completed i) h c v = ground (arith, close-source (record h { terminal = true }))
accept-Inv n (failed i) h c v = ground (arith, close-source (record h { terminal = true }))
accept-Inv n (interrupted i) h c v = ground (arith, close-source (record h { terminal = true }))

handle-Inv : (n : ℕ) (e : Option SessionStreamEvent) (h : Stream) → Inv h → Inv (handle n e h)
unfolding handle
handle-Inv n none h v = v
handle-Inv n (some e) h v = elim (Bool-cases (is_current n h)) [
  | inl now ↦ rw now (accept-Inv n e h now v)
  | inr late ↦ rw late v
]

dispatch-Inv :
    (n : ℕ) (name : EventName) (e : Option SessionStreamEvent) (h : Stream)
    → Inv h
    → Inv (dispatch n name e h)
unfolding dispatch
dispatch-Inv n message_name e h v = handle-Inv n e (handle n e h) (handle-Inv n e h v)
dispatch-Inv n other_listed e h v = handle-Inv n e h v
dispatch-Inv n not_listed e h v = v

cleanup-idle : (h : Stream) → ((cleanup h).active ≡ false) × ((cleanup h).fetching ≡ false)
unfolding cleanup close
cleanup-idle h = ground arith

-- Every action keeps the connection in order.
pub step-Inv : (h : Stream) (a : Action) → Inv h → Inv (step h a)
unfolding step
step-Inv h (set_session id) v = elim (Bool-cases (same id h.session_id)) [
  | inl old ↦ rw old v
  | inr new ↦
      let (a, f) = cleanup-idle h in rw new (begin_session-Inv id (cleanup h) (cleanup-Inv h v) a f)
]
step-Inv h (history ms) v = on_history-Inv ms h v
step-Inv h (history_failed e) v = ground arith
step-Inv h (opened n) v = ground arith
step-Inv h (received n name e) v = dispatch-Inv n name e h v
step-Inv h (broken n) v = on_error-Inv n h v
step-Inv h fire v = on_timer-Inv h v
step-Inv h unmount v = cleanup-Inv h v

pub run-Inv : (h : Stream) (as_ : List Action) → Inv h → Inv (run h as_)
unfolding run
run-Inv h [] v = v
run-Inv h (a ∷ as_) v = run-Inv (step h a) as_ (step-Inv h a v)

shape :
    (h : Stream)
    → Inv h
    → (h.open_sources ≡ one_of h.source)
      × ((is_some h.source || h.timer) ≡ (h.active && not h.terminal))
      × ((is_some h.source && h.timer) ≡ false)
      × ((h.active && h.fetching) ≡ false)
shape h v = ground (arith, v.sources, v.inactive, v.asking, v.waiting, v.ended, v.connected)

-- From the start, after any actions: no source is open but the current one; while the effect of the
-- stream is off or the session has ended, none is open and none is due; while it is on and the
-- session has not ended, one is open or due, and never both; and the effect is off while the history
-- is asked for.
pub run-connection :
    (as_ : List Action)
    → let h = run unmounted as_ in
      (h.open_sources ≡ one_of h.source)
      × ((is_some h.source || h.timer) ≡ (h.active && not h.terminal))
      × ((is_some h.source && h.timer) ≡ false)
      × ((h.active && h.fetching) ≡ false)
run-connection as_ = shape (run unmounted as_) (run-Inv unmounted as_ unmounted-Inv)
