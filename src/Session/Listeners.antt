-- ===== src/Session/Listeners.antt =====
-- An event that reaches two listeners of `useSessionStream`.
use change_quality_agent.Base.{
  ℕ, true, false, some, ◌≡◌, refl, sym, ap, ◌∙◌, arith, Bool-cases, inl, inr,
}
use change_quality_agent.Session.Types.{MessageEvent, SessionStreamEvent, message}
use change_quality_agent.Session.Reducer.{
  SessionViewState, reduce_session_stream_event, reduce_message,
}
use change_quality_agent.Session.Stream.{Stream, message_name, is_current, accept, handle, dispatch}
use change_quality_agent.Session.Delivery.{reduce_message-held, reduce_message-holds}

reduce_message-again :
    (s : SessionViewState) (e : MessageEvent)
    → reduce_message (reduce_message s e) e ≡ reduce_message s e
reduce_message-again s e = reduce_message-held (reduce_message s e) e (reduce_message-holds s e)

accept-again :
    (e : MessageEvent) (h : Stream)
    → accept (message e) (accept (message e) h) ≡ accept (message e) h
unfolding accept reduce_session_stream_event
accept-again e h = ground (arith, reduce_message-again h.state e)

pub handle-now :
    (n : ℕ) (e : SessionStreamEvent) (h : Stream)
    → is_current n h ≡ true
    → handle n (some e) h ≡ accept e h
unfolding handle
handle-now n e h now = rw now refl

pub accept-is_current :
    (n : ℕ) (e : MessageEvent) (h : Stream) → is_current n (accept (message e) h) ≡ is_current n h
unfolding accept
accept-is_current n e h = refl

handle-again :
    (n : ℕ) (e : MessageEvent) (h : Stream)
    → is_current n h ≡ true
    → handle n (some (message e)) (accept (message e) h) ≡ accept (message e) h
handle-again n e h now =
    handle-now n (message e) (accept (message e) h) (accept-is_current n e h ∙ now)
    ∙ accept-again e h

handle-late :
    (n : ℕ) (e : SessionStreamEvent) (h : Stream) → is_current n h ≡ false → handle n (some e) h ≡ h
unfolding handle
handle-late n e h late = rw late refl

-- A persisted message that arrives under the name "message" reaches both listeners, and the second
-- changes nothing.
pub dispatch-message :
    (n : ℕ) (e : MessageEvent) (h : Stream)
    → dispatch n message_name (some (message e)) h ≡ handle n (some (message e)) h
unfolding dispatch
dispatch-message n e h = elim (Bool-cases (is_current n h)) [
  | inl now ↦
      ap (handle n (some (message e))) (handle-now n (message e) h now)
      ∙ handle-again n e h now
      ∙ sym (handle-now n (message e) h now)
  | inr late ↦ ap (handle n (some (message e))) (handle-late n (message e) h late)
]
