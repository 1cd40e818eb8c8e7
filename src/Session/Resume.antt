-- ===== src/Session/Resume.antt =====
-- Where `useSessionStream` takes up a broken stream.
use change_quality_agent.Base.{
  ℕ, max, true, false, Option, none, some, List, [], ◌∷◌, ◌++◌, ◌≡◌, refl, sym, ap, ◌∙◌, arith,
  Bool-cases, inl, inr,
}
use change_quality_agent.Session.Types.{
  SessionMessage, SessionStreamEvent, message, message_delta, completed, failed, interrupted,
}
use change_quality_agent.Session.Reducer.{
  ConnectionStatus, SessionViewState, hydrate_session_view_state, reduce_session_stream_event,
}
use change_quality_agent.Session.Bounded.{
  IsBounded, reduce_delta-frame, reduce-IsBounded, hydrate-IsBounded,
  reduce_message-latest_sequence,
}
use change_quality_agent.Session.Greatest.{greatest, IsExact, hydrate-IsExact, reduce-IsExact}
use change_quality_agent.Session.Stream.{
  Stream, unmounted, message_name, other_listed, not_listed, Action, set_session, history,
  history_failed, opened, received, broken, fire, unmount, is_current, same, with_status, close,
  accept, handle, dispatch, cleanup, begin_session, start_stream, history_for, on_history, on_error,
  on_timer, step, run, build_session_stream_url,
}
use change_quality_agent.Session.Connection.{Inv, run-Inv, unmounted-Inv}

-- The cursor is the latest number, which is the greatest of those held.
pub record IsSynced (h : Stream) : Type 0 where
  pub in_step : h.cursor ≡ h.state.latest_sequence
  pub bounded : IsBounded h.state
  pub exact : IsExact h.state

-- The number that an event brings.
abbrev pub number_of : SessionStreamEvent → ℕ → ℕ
number_of (message e) n = e.sequence
number_of _ n = n

close-frame : (h : Stream) → ((close h).cursor ≡ h.cursor) × ((close h).state ≡ h.state)
unfolding close
close-frame h = ground arith

ended-IsSynced :
    (h : Stream)
    → IsSynced h
    → IsSynced (with_status ConnectionStatus.closed (close (record h { terminal = true })))
ended-IsSynced h v =
    let (c, s) = close-frame (record h { terminal = true }) in
    record { in_step = rw (c, s) v.in_step; bounded = rw s v.bounded; exact = rw s v.exact }

pub reduce-latest_sequence :
    (s : SessionViewState) (e : SessionStreamEvent)
    → IsBounded s
    → (reduce_session_stream_event s e).latest_sequence
      ≡ max s.latest_sequence (number_of e s.latest_sequence)
unfolding reduce_session_stream_event
reduce-latest_sequence s (message e) b = reduce_message-latest_sequence s e b
reduce-latest_sequence s (message_delta e) b = (reduce_delta-frame s e).1 ∙ omega arith
reduce-latest_sequence s (completed i) b = omega arith
reduce-latest_sequence s (failed i) b = omega arith
reduce-latest_sequence s (interrupted i) b = omega arith

accept-IsSynced : (e : SessionStreamEvent) (h : Stream) → IsSynced h → IsSynced (accept e h)
unfolding accept
accept-IsSynced (message e) h v = record {
  in_step = omega (arith, v.in_step, reduce-latest_sequence h.state (message e) v.bounded);
  bounded = reduce-IsBounded h.state (message e) v.bounded;
  exact = reduce-IsExact h.state (message e) v.exact;
}
accept-IsSynced (message_delta e) h v = record {
  in_step = omega (arith, v.in_step, reduce-latest_sequence h.state (message_delta e) v.bounded);
  bounded = reduce-IsBounded h.state (message_delta e) v.bounded;
  exact = reduce-IsExact h.state (message_delta e) v.exact;
}
accept-IsSynced (completed i) h v = ended-IsSynced h v
accept-IsSynced (failed i) h v = ended-IsSynced h v
accept-IsSynced (interrupted i) h v = ended-IsSynced h v

handle-IsSynced :
    (n : ℕ) (e : Option SessionStreamEvent) (h : Stream) → IsSynced h → IsSynced (handle n e h)
unfolding handle
handle-IsSynced n none h v = v
handle-IsSynced n (some e) h v = elim (Bool-cases (is_current n h)) [
  | inl now ↦ rw now (accept-IsSynced e h v)
  | inr late ↦ rw late v
]

-- A step that keeps the cursor and the view, but for its connection status.
abbrev Keeps : Stream → Stream → Type 0
Keeps h g =
    (g.cursor ≡ h.cursor)
    × (g.state.latest_sequence ≡ h.state.latest_sequence)
    × (g.state.messages ≡ h.state.messages)

Keeps-IsSynced : {h g : Stream} → Keeps h g → IsSynced h → IsSynced g
Keeps-IsSynced (c, l, m) v = record {
  in_step = c ∙ v.in_step ∙ sym l;
  bounded = rw (m, l) v.bounded;
  exact = rw (m, l) v.exact;
}

cleanup-Keeps : (h : Stream) → Keeps h (cleanup h)
unfolding cleanup close
cleanup-Keeps h = ground arith

on_error-Keeps : (n : ℕ) (h : Stream) → Keeps h (on_error n h)
unfolding on_error close
on_error-Keeps n h = ground arith

on_timer-Keeps : (h : Stream) → Keeps h (on_timer h)
unfolding on_timer
on_timer-Keeps h = ground arith

begin_session-IsSynced : (id : Option ℕ) (h : Stream) → IsSynced (begin_session id h)
unfolding begin_session greatest
begin_session-IsSynced none h = record { in_step = refl; bounded = tt; exact = refl }
begin_session-IsSynced (some id) h = record { in_step = refl; bounded = tt; exact = refl }

start_stream-IsSynced : (id : ℕ) (h : Stream) → IsSynced h → IsSynced (start_stream id h)
unfolding start_stream
start_stream-IsSynced id h v = Keeps-IsSynced {h = h} (ground arith) v

abbrev hydrated : ℕ → List SessionMessage → Stream → Stream
hydrated id ms h = record h {
  cursor = (hydrate_session_view_state ms).latest_sequence;
  state = hydrate_session_view_state ms;
  hydrated_for = some id;
  loading = false;
  fetching = false;
}

history_for-IsSynced :
    (o : Option ℕ) (ms : List SessionMessage) (h : Stream)
    → IsSynced h
    → IsSynced (history_for o ms h)
unfolding history_for
history_for-IsSynced none ms h v = v
history_for-IsSynced (some id) ms h v = elim (Bool-cases h.fetching) [
  | inl f ↦ simp f (
      start_stream-IsSynced id (hydrated id ms h)
        (record { in_step = refl; bounded = hydrate-IsBounded ms; exact = hydrate-IsExact ms }))
  | inr f ↦ simp f v
]

step-IsSynced : (h : Stream) (a : Action) → IsSynced h → IsSynced (step h a)
unfolding step
step-IsSynced h (set_session id) v = elim (Bool-cases (same id h.session_id)) [
  | inl old ↦ rw old v
  | inr new ↦ rw new (begin_session-IsSynced id (cleanup h))
]
step-IsSynced h (history ms) v = unfold on_history in history_for-IsSynced h.session_id ms h v
step-IsSynced h (history_failed e) v = Keeps-IsSynced {h = h} (ground arith) v
step-IsSynced h (opened n) v = Keeps-IsSynced {h = h} (ground arith) v
step-IsSynced h (received n message_name e) v =
    unfold dispatch in handle-IsSynced n e (handle n e h) (handle-IsSynced n e h v)
step-IsSynced h (received n other_listed e) v = unfold dispatch in handle-IsSynced n e h v
step-IsSynced h (received n not_listed e) v = unfold dispatch in v
step-IsSynced h (broken n) v = Keeps-IsSynced (on_error-Keeps n h) v
step-IsSynced h fire v = Keeps-IsSynced (on_timer-Keeps h) v
step-IsSynced h unmount v = Keeps-IsSynced (cleanup-Keeps h) v

unmounted-IsSynced : IsSynced unmounted
unfolding greatest
unmounted-IsSynced = record { in_step = refl; bounded = tt; exact = refl }

run-IsSynced : (h : Stream) (as_ : List Action) → IsSynced h → IsSynced (run h as_)
unfolding run
run-IsSynced h [] v = v
run-IsSynced h (a ∷ as_) v = run-IsSynced (step h a) as_ (step-IsSynced h a v)

timer-urls :
    (h : Stream) (id : ℕ)
    → Inv h
    → IsSynced h
    → h.session_id ≡ some id
    → h.timer ≡ true
    → (on_timer h).urls ≡ h.urls ++ build_session_stream_url id (greatest h.state.messages) ∷ []
unfolding on_timer
timer-urls h id v w e t =
    let on : h.active ≡ true = ground (arith, v.inactive) in
    ground (arith, ap (build_session_stream_url id) (w.in_step ∙ w.exact))

-- From the start, after any actions that leave a session with a reconnect due: when the timer
-- fires, a source is made whose URL asks for what comes behind the greatest number of the messages
-- held, or behind 0 if none is.
pub run-reconnect :
    (as_ : List Action) (id : ℕ)
    → (run unmounted as_).session_id ≡ some id
    → (run unmounted as_).timer ≡ true
    → (step (run unmounted as_) fire).urls
      ≡ (run unmounted as_).urls
        ++ build_session_stream_url id (greatest (run unmounted as_).state.messages) ∷ []
unfolding step
run-reconnect as_ id e t =
    timer-urls (run unmounted as_) id (run-Inv unmounted as_ unmounted-Inv)
      (run-IsSynced unmounted as_ unmounted-IsSynced) e t
