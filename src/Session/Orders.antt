-- ===== src/Session/Orders.antt =====
-- In which order the events of a session arrive does not matter for what it holds.
use change_quality_agent.Base.{
  ℕ, ==_iff, Option, or_else, List, ◌∷◌, ◌≡◌, refl, sym, ap, ◌∙◌, arith, All,
}
use change_quality_agent.Session.Types.{SessionMessage, MessageEvent, SessionStreamEvent, message}
use change_quality_agent.Session.Reducer.{SessionViewState, stored, run}
use change_quality_agent.Session.Bounded.{IsBounded}
use change_quality_agent.Session.Refinement.{
  SessionLog, written, write_once, write_all, log_of, same_log, run-log_of,
}

-- The event brings the message that the server has under its number.
abbrev pub IsOf : (ℕ → SessionMessage) → SessionStreamEvent → Type 0
IsOf server (message e) = stored e ≡ server e.sequence
IsOf server _ = Unit

-- One list of events in another order, by exchanges of neighbours.
pub data Reordered : List SessionStreamEvent → List SessionStreamEvent → Type 0 where
  as_is : {es : List SessionStreamEvent} → Reordered es es
  exchange :
      (d e : SessionStreamEvent) {es : List SessionStreamEvent}
      → Reordered (d ∷ e ∷ es) (e ∷ d ∷ es)
  behind :
      (e : SessionStreamEvent) {es fs : List SessionStreamEvent}
      → Reordered es fs
      → Reordered (e ∷ es) (e ∷ fs)
  then_ : {es fs gs : List SessionStreamEvent} → Reordered es fs → Reordered fs gs → Reordered es gs

All-Reordered :
    (P : SessionStreamEvent → Type 0) {es fs : List SessionStreamEvent}
    → Reordered es fs
    → All P es
    → All P fs
All-Reordered P as_is h = h
All-Reordered P (exchange d e) (x, (y, h)) = (y, (x, h))
All-Reordered P (behind e p) (x, h) = (x, All-Reordered P p h)
All-Reordered P (then_ p q) h = All-Reordered P q (All-Reordered P p h)

written-same :
    (server : ℕ → SessionMessage) (n : ℕ) (o : Option SessionMessage) (d e : MessageEvent)
    → stored d ≡ server d.sequence
    → stored e ≡ server e.sequence
    → or_else (or_else o (written n d)) (written n e)
      ≡ or_else (or_else o (written n e)) (written n d)
written-same server n o d e x y = ground (arith, ==_iff d.sequence n, ==_iff e.sequence n)

write_once_comm :
    (server : ℕ → SessionMessage) (l : SessionLog) (d e : SessionStreamEvent)
    → IsOf server d
    → IsOf server e
    → write_once (write_once l d) e ≡ write_once (write_once l e) d
write_once_comm server l (message d) (message e) x y =
    same_log _ _ (λ n. written-same server n (l.entry n) d e x y) (omega arith)
write_once_comm server l (message d) _ x y = refl
write_once_comm server l _ _ x y = refl

write_all-Reordered :
    (server : ℕ → SessionMessage) (l : SessionLog) {es fs : List SessionStreamEvent}
    → Reordered es fs
    → All (IsOf server) es
    → write_all l es ≡ write_all l fs
write_all-Reordered server l as_is h = refl
write_all-Reordered server l (exchange d e {es}) (x, (y, h)) =
    ap (λ k. write_all k es) (write_once_comm server l d e x y)
write_all-Reordered server l (behind e p) (x, h) = write_all-Reordered server (write_once l e) p h
write_all-Reordered server l (then_ p q) h =
    write_all-Reordered server l p h
    ∙ write_all-Reordered server l q (All-Reordered (IsOf server) p h)

-- When every message that arrives is the one that the server has under its number, the order in
-- which the events arrive does not matter for what the session holds: in any other order of them,
-- the message under each number and the latest number are the same.
pub run-Reordered :
    (server : ℕ → SessionMessage) (s : SessionViewState) {es fs : List SessionStreamEvent}
    → IsBounded s
    → All (IsOf server) es
    → Reordered es fs
    → log_of (run s es) ≡ log_of (run s fs)
run-Reordered server s {es} {fs} b h p =
    run-log_of s es b ∙ write_all-Reordered server (log_of s) p h ∙ sym (run-log_of s fs b)
