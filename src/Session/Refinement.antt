-- ===== src/Session/Refinement.antt =====
-- The reducer and a log in which every number is written once.
use change_quality_agent.Base.{
  ℕ, max, ◌==◌, ==_iff, true, Option, none, some, is_some, or_else, List, [], ◌∷◌, ◌++◌, ◌≡◌, refl,
  sym, ap, ◌∙◌, arith, Bool-cases, inl, inr, if◌then◌else◌,
}
use change_quality_agent.Session.Types.{
  SessionMessage, MessageEvent, SessionStreamEvent, message, message_delta, completed, failed,
  interrupted,
}
use change_quality_agent.Session.Reducer.{
  SessionViewState, stored, has_sequence, reduce_message, reduce_session_stream_event, run,
}
use change_quality_agent.Session.Bounded.{IsBounded, reduce_delta-frame, reduce-IsBounded}
use change_quality_agent.Session.Resume.{reduce-latest_sequence}

-- What a session promises: the message written under each number, and the latest number.
pub record SessionLog : Type 0 where
  pub entry : ℕ → Option SessionMessage
  pub latest : ℕ

-- The message that an event writes under a number.
abbrev pub written : ℕ → MessageEvent → Option SessionMessage
written n e = if e.sequence == n then some (stored e) else none

-- What is written first stays.
abbrev pub write_once : SessionLog → SessionStreamEvent → SessionLog
write_once l (message e) = record {
  entry = λ n. or_else (l.entry n) (written n e);
  latest = max l.latest e.sequence;
}
write_once l _ = l

abbrev pub write_all : SessionLog → List SessionStreamEvent → SessionLog
write_all l [] = l
write_all l (e ∷ es) = write_all (write_once l e) es

-- The first message of that number.
abbrev pub find_sequence : ℕ → List SessionMessage → Option SessionMessage
find_sequence n [] = none
find_sequence n (m ∷ ms) = if m.sequence == n then some m else find_sequence n ms

-- The log that a view shows: it forgets the order in which the messages came, and what is live.
abbrev pub log_of : SessionViewState → SessionLog
log_of s = record { entry = λ n. find_sequence n s.messages; latest = s.latest_sequence }

pub same_log : (k l : SessionLog) → ((n : ℕ) → k.entry n ≡ l.entry n) → k.latest ≡ l.latest → k ≡ l
same_log k l e m = λ i. record { entry = λ n. e n i; latest = m i }

has_sequence-find_sequence :
    (n : ℕ) (ms : List SessionMessage) → has_sequence n ms ≡ is_some (find_sequence n ms)
has_sequence-find_sequence n [] = refl
has_sequence-find_sequence n (m ∷ ms) = ground (arith, has_sequence-find_sequence n ms)

find_sequence-append :
    (n : ℕ) (ms : List SessionMessage) (m : SessionMessage)
    → find_sequence n (ms ++ m ∷ [])
      ≡ or_else (find_sequence n ms) (if m.sequence == n then some m else none)
find_sequence-append n [] m = ground arith
find_sequence-append n (x ∷ ms) m = ground (arith, find_sequence-append n ms m)

or_else-held : (o p : Option SessionMessage) → is_some o ≡ true → or_else o p ≡ o
or_else-held none p h = ground (arith, h)
or_else-held (some m) p h = refl

written-held :
    (n : ℕ) (ms : List SessionMessage) (e : MessageEvent)
    → has_sequence e.sequence ms ≡ true
    → find_sequence n ms ≡ or_else (find_sequence n ms) (written n e)
written-held n ms e old = elim (Bool-cases (e.sequence == n)) [
  | inl same ↦
      let held : is_some (find_sequence n ms) ≡ true =
        sym (has_sequence-find_sequence n ms) ∙ rw (← (==_iff e.sequence n).0 same) old in
      sym (or_else-held (find_sequence n ms) (written n e) held)
  | inr other ↦ ground arith
]

reduce_message-entry :
    (n : ℕ) (s : SessionViewState) (e : MessageEvent)
    → find_sequence n (reduce_message s e).messages
      ≡ or_else (find_sequence n s.messages) (written n e)
unfolding reduce_message
reduce_message-entry n s e = elim (Bool-cases (has_sequence e.sequence s.messages)) [
  | inl old ↦ rw old (written-held n s.messages e old)
  | inr new ↦ rw new (find_sequence-append n s.messages (stored e))
]

reduce-log_of :
    (s : SessionViewState) (e : SessionStreamEvent)
    → IsBounded s
    → log_of (reduce_session_stream_event s e) ≡ write_once (log_of s) e
unfolding reduce_session_stream_event
reduce-log_of s (message e) b =
    same_log _ _ (λ n. reduce_message-entry n s e) (reduce-latest_sequence s (message e) b)
reduce-log_of s (message_delta e) b =
    let (m, l) = reduce_delta-frame s e in same_log _ _ (λ n. ap (find_sequence n) m) l
reduce-log_of s (completed n) b = refl
reduce-log_of s (failed n) b = refl
reduce-log_of s (interrupted n) b = refl

-- The reducer implements a log in which every number is written once: whatever events arrive, the
-- message that the view holds first under a number, for every number, and its latest number are
-- those that the log would have, from a view in which no number is above the latest.
pub run-log_of :
    (s : SessionViewState) (es : List SessionStreamEvent)
    → IsBounded s
    → log_of (run s es) ≡ write_all (log_of s) es
unfolding run
run-log_of s [] b = refl
run-log_of s (e ∷ es) b =
    run-log_of (reduce_session_stream_event s e) es (reduce-IsBounded s e b)
    ∙ ap (λ l. write_all l es) (reduce-log_of s e b)
