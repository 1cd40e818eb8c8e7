-- ===== src/Session/Bounded.antt =====
-- The numbers of the messages held, and the latest: reducer.ts.
use change_quality_agent.Base.{
  ℕ, max, ◌≤◌, true, List, [], ◌∷◌, All, All-append, ◌≡◌, arith, Bool-cases, inl, inr,
}
use change_quality_agent.Session.Types.{
  SessionMessage, MessageEvent, DeltaEvent, SessionStreamEvent, message, message_delta, completed,
  failed, interrupted,
}
use change_quality_agent.Session.Reducer.{
  SessionViewState, has_sequence, reduce_message, reduce_delta, reduce_session_stream_event,
  max_sequence, hydrate_session_view_state,
}

All-mono :
    (ms : List SessionMessage) (a b : ℕ)
    → a ≤ b
    → All (λ m. m.sequence ≤ a) ms
    → All (λ m. m.sequence ≤ b) ms
All-mono [] a b h k = tt
All-mono (m ∷ ms) a b h (p, k) = (omega arith, All-mono ms a b h k)

-- No number held is above the latest.
abbrev pub IsBounded : SessionViewState → Type 0
IsBounded s = All (λ m. m.sequence ≤ s.latest_sequence) s.messages

reduce_message-IsBounded :
    (s : SessionViewState) (e : MessageEvent) → IsBounded s → IsBounded (reduce_message s e)
unfolding reduce_message
reduce_message-IsBounded s e b = elim (Bool-cases (has_sequence e.sequence s.messages)) [
  | inl old ↦ rw old b
  | inr new ↦ rw new (
      All-append _ s.messages _
        (All-mono s.messages s.latest_sequence (max s.latest_sequence e.sequence) (omega arith) b)
        (omega arith, tt))
]

pub reduce_delta-frame :
    (s : SessionViewState) (e : DeltaEvent)
    → ((reduce_delta s e).messages ≡ s.messages)
      × ((reduce_delta s e).latest_sequence ≡ s.latest_sequence)
unfolding reduce_delta
reduce_delta-frame s e = ground arith

pub reduce-IsBounded :
    (s : SessionViewState) (e : SessionStreamEvent)
    → IsBounded s
    → IsBounded (reduce_session_stream_event s e)
unfolding reduce_session_stream_event
reduce-IsBounded s (message e) b = reduce_message-IsBounded s e b
reduce-IsBounded s (message_delta e) b = let (ms, n) = reduce_delta-frame s e in rw (ms, n) b
reduce-IsBounded s (completed n) b = b
reduce-IsBounded s (failed n) b = b
reduce-IsBounded s (interrupted n) b = b

max_sequence-le : (n : ℕ) (ms : List SessionMessage) → n ≤ max_sequence n ms
max_sequence-le n [] = omega arith
max_sequence-le n (m ∷ ms) = omega (arith, max_sequence-le (max n m.sequence) ms)

max_sequence_bounds :
    (n : ℕ) (ms : List SessionMessage) → All (λ m. m.sequence ≤ max_sequence n ms) ms
max_sequence_bounds n [] = tt
max_sequence_bounds n (m ∷ ms) = (
  omega (arith, max_sequence-le (max n m.sequence) ms),
  max_sequence_bounds (max n m.sequence) ms,
)

pub hydrate-IsBounded : (ms : List SessionMessage) → IsBounded (hydrate_session_view_state ms)
unfolding hydrate_session_view_state
hydrate-IsBounded ms = max_sequence_bounds 0 ms

has_sequence-le :
    (n k : ℕ) (ms : List SessionMessage)
    → All (λ m. m.sequence ≤ k) ms
    → has_sequence n ms ≡ true
    → n ≤ k
has_sequence-le n k [] b h = cc
has_sequence-le n k (m ∷ ms) (p, b) h = ground (arith, has_sequence-le n k ms b)

-- The latest number after a message is the greater of the two, held already or not.
pub reduce_message-latest_sequence :
    (s : SessionViewState) (e : MessageEvent)
    → IsBounded s
    → (reduce_message s e).latest_sequence ≡ max s.latest_sequence e.sequence
unfolding reduce_message
reduce_message-latest_sequence s e b =
    ground (arith, has_sequence-le e.sequence s.latest_sequence s.messages b)
