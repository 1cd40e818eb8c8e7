-- ===== src/Session/Steady.antt =====
-- What the outside leaves as it is in the stream of a session.
use change_quality_agent.Base.{ℕ, Bool, true, false, Option, none, some, ◌≡◌, refl, ap, ◌∙◌, arith}
use change_quality_agent.Session.Types.{
  SessionStreamEvent, message, message_delta, completed, failed, interrupted,
}
use change_quality_agent.Session.Stream.{
  Stream, Action, set_session, history, history_failed, opened, received, broken, fire, unmount,
  message_name, other_listed, not_listed, close, connect, accept, handle, dispatch, history_for,
  on_history, start_stream, on_error, on_timer, step,
}
use change_quality_agent.Session.Connection.{Inv}

-- The session that the stream is called with, and that it stays mounted, are up to the component.
abbrev pub is_outside : Action → Bool
is_outside (set_session id) = false
is_outside unmount = false
is_outside _ = true

accept-session_id : (e : SessionStreamEvent) (h : Stream) → (accept e h).session_id ≡ h.session_id
unfolding accept close
accept-session_id (message e) h = refl
accept-session_id (message_delta e) h = refl
accept-session_id (completed i) h = ground arith
accept-session_id (failed i) h = ground arith
accept-session_id (interrupted i) h = ground arith

handle-session_id :
    (n : ℕ) (e : Option SessionStreamEvent) (h : Stream) → (handle n e h).session_id ≡ h.session_id
unfolding handle
handle-session_id n none h = refl
handle-session_id n (some e) h = ground (arith, accept-session_id e h)

-- What the outside does leaves the session as it is.
pub step-session_id :
    (h : Stream) (a : Action) → is_outside a ≡ true → (step h a).session_id ≡ h.session_id
unfolding step on_history history_for start_stream connect on_error on_timer close dispatch
step-session_id h (set_session id) o = absurd cc
step-session_id h unmount o = absurd cc
step-session_id h (history ms) o = ground arith
step-session_id h (history_failed e) o = ground arith
step-session_id h (opened n) o = ground arith
step-session_id h (received n message_name e) o =
    handle-session_id n e (handle n e h) ∙ handle-session_id n e h
step-session_id h (received n other_listed e) o = handle-session_id n e h
step-session_id h (received n not_listed e) o = refl
step-session_id h (broken n) o = ground arith
step-session_id h fire o = ground arith

handle-quiet :
    (n : ℕ) (e : Option SessionStreamEvent) (h : Stream) → h.active ≡ false → handle n e h ≡ h
unfolding handle
handle-quiet n none h off = refl
handle-quiet n (some e) h off = ground (arith, off)

-- Without a session, the second effect is off.
off : (h : Stream) → Inv h → h.session_id ≡ none → h.active ≡ false
off h v alone = ground (arith, alone, v.owned)

-- What the outside does to a stream without a session leaves what it shows as it is.
pub step-quiet :
    (h : Stream) (a : Action)
    → Inv h
    → h.session_id ≡ none
    → is_outside a ≡ true
    → (step h a).state ≡ h.state
unfolding step on_history history_for on_error on_timer dispatch
step-quiet h (set_session id) v alone o = absurd cc
step-quiet h unmount v alone o = absurd cc
step-quiet h (history ms) v alone o = ground (arith, alone)
step-quiet h (history_failed e) v alone o = ground arith
step-quiet h (opened n) v alone o = ground (arith, off h v alone)
step-quiet h (received n message_name e) v alone o =
    let same = handle-quiet n e h (off h v alone) in rw same (ap (λ g. g.state) same)
step-quiet h (received n other_listed e) v alone o =
    ap (λ g. g.state) (handle-quiet n e h (off h v alone))
step-quiet h (received n not_listed e) v alone o = refl
step-quiet h (broken n) v alone o = ground (arith, off h v alone)
step-quiet h fire v alone o = ground (arith, alone)
