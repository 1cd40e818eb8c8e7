-- ===== src/Session/Delivery.antt =====
-- Which messages a session holds after any events: reducer.ts, the branch for `message`.
use change_quality_agent.Base.{
  ℕ, ◌≤◌, ◌==◌, ==_iff, Bool, true, false, ◌||◌, List, [], ◌∷◌, ◌++◌, map, any, any-append, All,
  ◌≡◌, refl, ap, ◌∙◌, arith, Bool-cases, inl, inr,
}
use change_quality_agent.Session.Types.{
  SessionMessage, MessageEvent, SessionStreamEvent, message, message_delta, completed, failed,
  interrupted,
}
use change_quality_agent.Session.Reducer.{
  SessionViewState, stored, has_sequence, reduce_message, reduce_session_stream_event, run,
  hydrate_session_view_state,
}
use change_quality_agent.Session.Bounded.{
  IsBounded, reduce_delta-frame, reduce-IsBounded, hydrate-IsBounded,
}

-- No two messages have one sequence number.
abbrev pub Distinct : List SessionMessage → Type 0
Distinct [] = Unit
Distinct (m ∷ ms) = (has_sequence m.sequence ms ≡ false) × Distinct ms

pub record IsWellFormed (s : SessionViewState) : Type 0 where
  pub distinct : Distinct s.messages
  pub bounded : IsBounded s

-- Some event of the list brings the message numbered `n`.
abbrev pub brings : ℕ → SessionStreamEvent → Bool
brings n (message e) = e.sequence == n
brings n _ = false

abbrev pub delivered : ℕ → List SessionStreamEvent → Bool
delivered n es = any (brings n) es

Distinct-append :
    (ms : List SessionMessage) (m : SessionMessage)
    → Distinct ms
    → has_sequence m.sequence ms ≡ false
    → Distinct (ms ++ m ∷ [])
Distinct-append [] m d h = (refl, tt)
Distinct-append (x ∷ ms) m (p, d) h = (
  any-append (λ e. e.sequence == x.sequence) ms (m ∷ []) ∙ ground arith,
  Distinct-append ms m d (ground arith),
)

reduce-Distinct :
    (s : SessionViewState) (e : SessionStreamEvent)
    → Distinct s.messages
    → Distinct (reduce_session_stream_event s e).messages
unfolding reduce_session_stream_event reduce_message
reduce-Distinct s (message e) d = elim (Bool-cases (has_sequence e.sequence s.messages)) [
  | inl old ↦ rw old d
  | inr new ↦ rw new (Distinct-append s.messages (stored e) d new)
]
reduce-Distinct s (message_delta e) d = rw (reduce_delta-frame s e).0 d
reduce-Distinct s (completed n) d = d
reduce-Distinct s (failed n) d = d
reduce-Distinct s (interrupted n) d = d

reduce-IsWellFormed :
    (s : SessionViewState) (e : SessionStreamEvent)
    → IsWellFormed s
    → IsWellFormed (reduce_session_stream_event s e)
reduce-IsWellFormed s e w = record {
  distinct = reduce-Distinct s e w.distinct;
  bounded = reduce-IsBounded s e w.bounded;
}

-- Whatever events arrive, no two messages share a sequence number, and none is above the latest.
pub run-IsWellFormed :
    (s : SessionViewState) (es : List SessionStreamEvent) → IsWellFormed s → IsWellFormed (run s es)
unfolding run
run-IsWellFormed s [] w = w
run-IsWellFormed s (e ∷ es) w =
    run-IsWellFormed (reduce_session_stream_event s e) es (reduce-IsWellFormed s e w)

-- A history with distinct sequence numbers hydrates to a well-formed state.
pub hydrate-IsWellFormed :
    (ms : List SessionMessage) → Distinct ms → IsWellFormed (hydrate_session_view_state ms)
unfolding hydrate_session_view_state
hydrate-IsWellFormed ms d = record { distinct = d; bounded = hydrate-IsBounded ms }

-- A message that is held already changes nothing.
pub reduce_message-held :
    (s : SessionViewState) (e : MessageEvent)
    → has_sequence e.sequence s.messages ≡ true
    → reduce_message s e ≡ s
unfolding reduce_message
reduce_message-held s e h = rw h

held-same :
    (n : ℕ) (s : SessionViewState) (e : MessageEvent)
    → has_sequence e.sequence s.messages ≡ true
    → has_sequence n s.messages ≡ (has_sequence n s.messages || brings n (message e))
held-same n s e h = elim (Bool-cases (e.sequence == n)) [
  | inl same ↦
      let held : has_sequence n s.messages ≡ true = rw (← (==_iff e.sequence n).0 same) h in rw held
  | inr other ↦ ground arith
]

reduce-has_sequence :
    (n : ℕ) (s : SessionViewState) (e : SessionStreamEvent)
    → has_sequence n (reduce_session_stream_event s e).messages
      ≡ (has_sequence n s.messages || brings n e)
unfolding reduce_session_stream_event reduce_message
reduce-has_sequence n s (message e) = elim (Bool-cases (has_sequence e.sequence s.messages)) [
  | inl old ↦ rw old (held-same n s e old)
  | inr new ↦ rw new (any-append (λ m. m.sequence == n) s.messages (stored e ∷ []) ∙ ground arith)
]
reduce-has_sequence n s (message_delta e) = rw (reduce_delta-frame s e).0 (ground arith)
reduce-has_sequence n s (completed m) = ground arith
reduce-has_sequence n s (failed m) = ground arith
reduce-has_sequence n s (interrupted m) = ground arith

-- A message that has arrived is held.
pub reduce_message-holds :
    (s : SessionViewState) (e : MessageEvent)
    → has_sequence e.sequence (reduce_message s e).messages ≡ true
unfolding reduce_session_stream_event
reduce_message-holds s e =
    reduce-has_sequence e.sequence s (message e)
    ∙ ground (arith, (==_iff e.sequence e.sequence).1 refl)

-- The messages held are those held before and those that the events bring, each number once.
pub run-has_sequence :
    (n : ℕ) (s : SessionViewState) (es : List SessionStreamEvent)
    → has_sequence n (run s es).messages ≡ (has_sequence n s.messages || delivered n es)
unfolding run
run-has_sequence n s [] = ground arith
run-has_sequence n s (e ∷ es) =
    run-has_sequence n (reduce_session_stream_event s e) es
    ∙ ground (arith, reduce-has_sequence n s e)

-- Redelivering messages that are held already changes nothing at all.
pub run-replay :
    (s : SessionViewState) (es : List MessageEvent)
    → All (λ e. has_sequence e.sequence s.messages ≡ true) es
    → run s (map message es) ≡ s
unfolding run reduce_session_stream_event
run-replay s [] h = refl
run-replay s (e ∷ es) (p, h) =
    ap (λ t. run t (map message es)) (reduce_message-held s e p) ∙ run-replay s es h

-- From a history with distinct numbers, any events leave each message held or brought exactly once,
-- and none that was neither; no number held is above the latest.
pub exactly_once :
    (history : List SessionMessage) (es : List SessionStreamEvent)
    → Distinct history
    → let s = run (hydrate_session_view_state history) es in
      Distinct s.messages
      × ((n : ℕ) → has_sequence n s.messages ≡ (has_sequence n history || delivered n es))
      × All (λ m. m.sequence ≤ s.latest_sequence) s.messages
unfolding hydrate_session_view_state
exactly_once history es d =
    let start = hydrate_session_view_state history in
    let w = run-IsWellFormed start es (hydrate-IsWellFormed history d) in
    (w.distinct, (λ n. run-has_sequence n start es), w.bounded)

run-held :
    (s : SessionViewState) (es : List SessionStreamEvent) (rs : List MessageEvent)
    → All (λ e. delivered e.sequence es ≡ true) rs
    → All (λ e. has_sequence e.sequence (run s es).messages ≡ true) rs
run-held s es [] h = tt
run-held s es (r ∷ rs) (p, h) =
    (run-has_sequence r.sequence s es ∙ ground arith, run-held s es rs h)

-- After any events, redelivering any messages among them, in any order, changes nothing.
pub run_redelivered :
    (s : SessionViewState) (es : List SessionStreamEvent) (rs : List MessageEvent)
    → All (λ e. delivered e.sequence es ≡ true) rs
    → run (run s es) (map message rs) ≡ run s es
run_redelivered s es rs h = run-replay (run s es) rs (run-held s es rs h)
