-- ===== src/Chat/Starts.antt =====
-- Only the latest start counts, and the page shows that it starts exactly until that is answered.
use change_quality_agent.Base.{
  ℕ, ◌+◌, ◌<◌, ◌==◌, String, truthy, true, false, ◌&&◌, not, Option, none, some, is_some, List, [],
  ◌∷◌, ◌≡◌, refl, sym, ap, eq_iff, arith, Bool-cases, inl, inr, ==_iff, if◌then◌else◌,
}
use change_quality_agent.Async.Types.{Outcome, success, failure}
use change_quality_agent.Chat.Page.{
  StartSopQualityCheckResult, ChatPage, initial, Event, environments, type_sop, submit, pick_env,
  new_conversation, route, answered, same_check, observed_at_start, without, can_send, handle_send,
  on_route, joined_message, on_started, settle_send, settle_found, on_answer,
  handle_environment_change, handle_new_conversation, choose_env, step, run,
}

observed_at_start-without :
    (m n : ℕ) (rs : List (ℕ × Option String))
    → observed_at_start m (without n rs) ≡ (if m == n then none else observed_at_start m rs)
unfolding observed_at_start without
observed_at_start-without m n [] = ground arith
observed_at_start-without m n ((k, o) ∷ rs) =
    ground (arith, observed_at_start-without m n rs, ==_iff k n, ==_iff k m, ==_iff m n)

-- The page is starting exactly while the latest start is unanswered, and no later one is known.
record IsTracked (p : ChatPage) : Type 0 where
  latest : p.starting ≡ is_some (observed_at_start p.start_request p.unanswered)
  known : (n : ℕ) → p.start_request < n → observed_at_start n p.unanswered ≡ none

-- The parts of the page that follow the starts.
abbrev SameStarts : ChatPage → ChatPage → Type 0
SameStarts p q =
    (q.start_request ≡ p.start_request) × (q.unanswered ≡ p.unanswered) × (q.starting ≡ p.starting)

SameStarts-IsTracked : (p q : ChatPage) → SameStarts p q → IsTracked p → IsTracked q
SameStarts-IsTracked p q (r, u, s) v = record {
  latest = rw (r, u, s) v.latest;
  known = rw (r, u) v.known;
}

on_route-SameStarts : (r : Option String) (p : ChatPage) → SameStarts p (on_route r p)
unfolding on_route
on_route-SameStarts none p = ground arith
on_route-SameStarts (some id) p = ground arith

choose_env-SameStarts : (keys : List String) (p : ChatPage) → SameStarts p (choose_env keys p)
choose_env-SameStarts [] p = (refl, refl, refl)
choose_env-SameStarts (key ∷ keys) p = ground arith

handle_send-IsTracked : (p : ChatPage) → IsTracked p → IsTracked (handle_send p)
unfolding handle_send observed_at_start
handle_send-IsTracked p v = elim (Bool-cases (can_send p)) [
  | inl can ↦ rw can (record {
    latest = ground (arith, ==_iff (p.start_request + 1) (p.start_request + 1));
    known = λ n l. ground (arith, v.known n, ==_iff (p.start_request + 1) n);
  })
  | inr cannot ↦ rw cannot v
]

-- A later request is begun, or none.
skip-IsTracked :
    (p q : ChatPage)
    → (q.start_request ≡ p.start_request + 1)
    → (q.unanswered ≡ p.unanswered)
    → (q.starting ≡ false)
    → IsTracked p
    → IsTracked q
skip-IsTracked p q r u s v = record {
  latest = rw (r, u, s, v.known (p.start_request + 1) (omega arith)) refl;
  known = λ n l. rw u (v.known n (omega (arith, l, r)));
}

on_started-SameStarts :
    (result : StartSopQualityCheckResult) (p : ChatPage) → SameStarts p (on_started result p)
unfolding on_started
on_started-SameStarts result p =
    let message =
      if result.active then some (joined_message result.check_id) else p.start_message in
    on_route-SameStarts (some result.check_id)
      (record p { observed_check_id = some result.check_id; start_message = message })

settle_send-frame :
    (n : ℕ) (observed : Option String) (o : Outcome StartSopQualityCheckResult) (p : ChatPage)
    → let q = settle_send n observed o p in
      (q.start_request ≡ p.start_request)
      × (q.unanswered ≡ p.unanswered)
      × (q.starting ≡ (p.starting && not (p.start_request == n)))
unfolding settle_send
settle_send-frame n observed (success result) p = ground (arith, on_started-SameStarts result p)
settle_send-frame n observed (failure e) p = ground arith

settle_found-IsTracked :
    (n : ℕ) (o : Outcome StartSopQualityCheckResult) (found : Option (Option String)) (p : ChatPage)
    → observed_at_start n p.unanswered ≡ found
    → IsTracked p
    → IsTracked (settle_found n o found p)
unfolding settle_found
settle_found-IsTracked n o none p e v = v
settle_found-IsTracked n o (some observed) p e v =
    let (r, u, s) =
      settle_send-frame n observed o (record p { unanswered = without n p.unanswered }) in
    record {
      latest =
          rw (r, u, s, observed_at_start-without p.start_request n p.unanswered)
            (ground (arith, v.latest));
      known = λ m l.
          rw (u, observed_at_start-without m n p.unanswered)
            (ground (arith, v.known m (rw (sym r) l)));
    }

on_answer-IsTracked :
    (n : ℕ) (o : Outcome StartSopQualityCheckResult) (p : ChatPage)
    → IsTracked p
    → IsTracked (on_answer n o p)
unfolding on_answer
on_answer-IsTracked n o p v = settle_found-IsTracked n o (observed_at_start n p.unanswered) p refl v

settle_found-starting :
    (o : Outcome StartSopQualityCheckResult) (found : Option (Option String)) (p : ChatPage)
    → p.starting ≡ is_some found
    → (settle_found p.start_request o found p).starting ≡ false
unfolding settle_found
settle_found-starting o none p s = s
settle_found-starting o (some observed) p s =
    let n = p.start_request in
    let (r, u, t) =
      settle_send-frame n observed o (record p { unanswered = without n p.unanswered }) in
    rw t (ground (arith, ==_iff n n))

step-IsTracked : (p : ChatPage) (e : Event) → IsTracked p → IsTracked (step p e)
unfolding step handle_environment_change handle_new_conversation
step-IsTracked p (environments keys) v =
    SameStarts-IsTracked p (choose_env keys p) (choose_env-SameStarts keys p) v
step-IsTracked p (type_sop text) v = record { latest = v.latest; known = v.known }
step-IsTracked p submit v = elim (Bool-cases (not p.starting && can_send p)) [
  | inl can ↦ rw can (handle_send-IsTracked p v)
  | inr cannot ↦ rw cannot v
]
step-IsTracked p (pick_env key) v =
    skip-IsTracked p (handle_environment_change key p) refl refl refl v
step-IsTracked p new_conversation v = skip-IsTracked p (handle_new_conversation p) refl refl refl v
step-IsTracked p (route r) v = SameStarts-IsTracked p (on_route r p) (on_route-SameStarts r p) v
step-IsTracked p (answered n o) v = on_answer-IsTracked n o p v

run-IsTracked : (p : ChatPage) (es : List Event) → IsTracked p → IsTracked (run p es)
unfolding run
run-IsTracked p [] v = v
run-IsTracked p (e ∷ es) v = run-IsTracked (step p e) es (step-IsTracked p e v)

initial-IsTracked : (id : String) (r : Option String) → IsTracked (initial id r)
unfolding observed_at_start
initial-IsTracked id r = record { latest = refl; known = λ n l. refl }

-- After any events on the page, and however many starts were overtaken: the page shows that it is
-- starting exactly while its latest start is unanswered, and the answer to that start, whether it
-- succeeds or fails, ends it.
pub run-starting :
    (id : String) (r : Option String) (es : List Event) (o : Outcome StartSopQualityCheckResult)
    → let p = run (initial id r) es in
      (p.starting ≡ is_some (observed_at_start p.start_request p.unanswered))
      × ((step p (answered p.start_request o)).starting ≡ false)
unfolding step on_answer
run-starting id r es o =
    let p = run (initial id r) es in
    let v = run-IsTracked (initial id r) es (initial-IsTracked id r) in
    (v.latest, settle_found-starting o (observed_at_start p.start_request p.unanswered) p v.latest)

-- The parts of the page that an answer may show.
abbrev pub Shows : ChatPage → ChatPage → Type 0
Shows p q =
    (q.observed_check_id ≡ p.observed_check_id)
    × (q.route_check_id ≡ p.route_check_id)
    × (q.start_error ≡ p.start_error)
    × (q.start_message ≡ p.start_message)
    × (q.starting ≡ p.starting)

settle_found-Shows :
    (n : ℕ) (o : Outcome StartSopQualityCheckResult) (found : Option (Option String)) (p : ChatPage)
    → (p.start_request == n) ≡ false
    → Shows p (settle_found n o found p)
unfolding settle_found settle_send
settle_found-Shows n o none p h = (refl, refl, refl, refl, refl)
settle_found-Shows n o (some observed) p h = rw h (refl, refl, refl, refl, refl)

same_check-≡ : (a b : Option String) → same_check a b ≡ true → a ≡ b
same_check-≡ none none e = refl
same_check-≡ none (some b) e = ground (arith, e)
same_check-≡ (some a) none e = ground (arith, e)
same_check-≡ (some a) (some b) e = ap some (ground (arith, e, eq_iff a b))

on_route-at :
    (id : String) (p : ChatPage)
    → truthy id ≡ true
    → p.observed_check_id ≡ some id
    → let q = on_route (some id) p in
      (q.observed_check_id ≡ some id)
      × (q.route_check_id ≡ some id)
      × (q.start_message
          ≡ (if same_check (some id) p.route_check_id then p.start_message else none))
unfolding on_route
on_route-at id p t o = elim (Bool-cases (same_check (some id) p.route_check_id)) [
  | inl e ↦ rw e (o, sym (same_check-≡ (some id) p.route_check_id e), refl)
  | inr e ↦ rw (e, t) (refl, refl, refl)
]

settle_send-observed :
    (n : ℕ) (observed : Option String) (result : StartSopQualityCheckResult) (p : ChatPage)
    → p.start_request ≡ n
    → same_check p.observed_check_id observed ≡ true
    → settle_send n observed (success result) p ≡ record (on_started result p) { starting = false }
unfolding settle_send
settle_send-observed n observed result p e s = ground (arith, e, s, ==_iff n n)

-- When the latest start succeeds while the page observes what it did when it was sent, the page
-- observes the started check at its route. The message that it joined a running check stays only if
-- the route was that check's already: otherwise the effect on the new route takes it away.
pub started_is_observed :
    (p : ChatPage) (observed : Option String) (result : StartSopQualityCheckResult)
    → observed_at_start p.start_request p.unanswered ≡ some observed
    → same_check p.observed_check_id observed ≡ true
    → truthy result.check_id ≡ true
    → let q = step p (answered p.start_request (success result)) in
      (q.observed_check_id ≡ some result.check_id)
      × (q.route_check_id ≡ some result.check_id)
      × (q.starting ≡ false)
      × (q.start_message ≡ (
          if same_check (some result.check_id) p.route_check_id
          then (if result.active then some (joined_message result.check_id) else p.start_message)
          else none))
unfolding step on_answer settle_found on_started
started_is_observed p observed result e s t =
    let id = result.check_id in
    let n = p.start_request in
    let w = record p { unanswered = without n p.unanswered } in
    let message = if result.active then some (joined_message id) else p.start_message in
    let (o, r, m) =
      on_route-at id (record w { observed_check_id = some id; start_message = message }) t refl in
    rw (e, settle_send-observed n observed result w refl s) (o, r, refl, m)
