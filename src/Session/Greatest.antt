-- ===== src/Session/Greatest.antt =====
-- The latest number of the view is the greatest of those of the messages that it holds: reducer.ts.
use change_quality_agent.Base.{ℕ, max, List, [], ◌∷◌, ◌++◌, ◌≡◌, arith, Bool-cases, inl, inr}
use change_quality_agent.Session.Types.{
  SessionMessage, MessageEvent, SessionStreamEvent, message, message_delta, completed, failed,
  interrupted,
}
use change_quality_agent.Session.Reducer.{
  SessionViewState, has_sequence, stored, max_sequence, hydrate_session_view_state, reduce_message,
  reduce_session_stream_event,
}
use change_quality_agent.Session.Bounded.{reduce_delta-frame}

-- The greatest number of the messages, 0 without any.
unfoldable pub greatest : List SessionMessage → ℕ
greatest [] = 0
greatest (m ∷ ms) = max m.sequence (greatest ms)

greatest-append :
    (ms : List SessionMessage) (m : SessionMessage)
    → greatest (ms ++ m ∷ []) ≡ max (greatest ms) m.sequence
unfolding greatest
greatest-append [] m = omega arith
greatest-append (n ∷ ms) m = omega (arith, greatest-append ms m)

max_sequence-greatest : (n : ℕ) (ms : List SessionMessage) → max_sequence n ms ≡ max n (greatest ms)
unfolding greatest
max_sequence-greatest n [] = omega arith
max_sequence-greatest n (m ∷ ms) = omega (arith, max_sequence-greatest (max n m.sequence) ms)

-- The latest number is the greatest of those of the messages held.
abbrev pub IsExact : SessionViewState → Type 0
IsExact s = s.latest_sequence ≡ greatest s.messages

pub hydrate-IsExact : (ms : List SessionMessage) → IsExact (hydrate_session_view_state ms)
unfolding hydrate_session_view_state
hydrate-IsExact ms = omega (arith, max_sequence-greatest 0 ms)

reduce_message-IsExact :
    (s : SessionViewState) (e : MessageEvent) → IsExact s → IsExact (reduce_message s e)
unfolding reduce_message
reduce_message-IsExact s e x = elim (Bool-cases (has_sequence e.sequence s.messages)) [
  | inl old ↦ rw old x
  | inr new ↦ rw new (omega (arith, x, greatest-append s.messages (stored e)))
]

pub reduce-IsExact :
    (s : SessionViewState) (e : SessionStreamEvent)
    → IsExact s
    → IsExact (reduce_session_stream_event s e)
unfolding reduce_session_stream_event
reduce-IsExact s (message e) x = reduce_message-IsExact s e x
reduce-IsExact s (message_delta e) x = let (ms, n) = reduce_delta-frame s e in rw (ms, n) x
reduce-IsExact s (completed n) x = x
reduce-IsExact s (failed n) x = x
reduce-IsExact s (interrupted n) x = x
