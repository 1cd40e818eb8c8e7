-- ===== src/Check/Live.antt =====
-- The stream of `useSopQualityCheck` at any moment, and after the end of the check.
use change_quality_agent.Base.{
  ℕ, ◌+◌, String, str_eq, Bool, true, false, ◌&&◌, ◌||◌, not, Option, none, some, is_some, List, [],
  ◌∷◌, All, ◌≡◌, refl, ap, ◌∙◌, arith, Bool-cases, inl, inr, eq_iff,
}
use change_quality_agent.Async.Types.{Outcome, success, failure}
use change_quality_agent.Session.Connection.{one_of}
use change_quality_agent.Check.Types.{SopQualityCheckDetail, SopQualityCheckEvent}
use change_quality_agent.Check.Hook.{
  is_terminal_event, CheckHook, unmounted, Action, set_check, refresh, answered, opened, received,
  broken, fire, is_current, refresh_detail, reset, with_detail, with_event, close_current_source,
  cleanup, connect, stream_effect, on_check, on_detail, on_answer, accept, on_event, on_error,
  mount, step, run,
}

-- No source is open but the current one; one is open or due exactly while the stream effect is on
-- and the check has not ended; and never are both.
pub record IsConnected (h : CheckHook) : Type 0 where
  pub sources : h.open_sources ≡ one_of h.source
  pub due : (is_some h.source || h.timer) ≡ (h.active && not h.terminal)
  pub single : (is_some h.source && h.timer) ≡ false

-- Nothing is open and nothing is due.
abbrev pub IsQuiet : CheckHook → Type 0
IsQuiet h = (h.source ≡ none) × (h.open_sources ≡ []) × (h.timer ≡ false)

close-source :
    (h : CheckHook)
    → h.open_sources ≡ one_of h.source
    → close_current_source h ≡ record h { source = none; open_sources = [] }
unfolding close_current_source
close-source h s = ground arith

cleanup_lem :
    (h : CheckHook)
    → h.open_sources ≡ one_of h.source
    → cleanup h ≡ record h { active = false; timer = false; source = none; open_sources = [] }
unfolding cleanup
cleanup_lem h s = close-source (record h { active = false; timer = false }) s

stream_effect-IsConnected :
    (o : Option SopQualityCheckDetail) (h : CheckHook)
    → IsQuiet h
    → h.active ≡ false
    → IsConnected (stream_effect o h)
unfolding stream_effect connect
stream_effect-IsConnected none h (s, o, t) a = ground arith
stream_effect-IsConnected (some d) h (s, o, t) a = ground arith

cleanup-IsQuiet :
    (h : CheckHook)
    → h.open_sources ≡ one_of h.source
    → IsQuiet (cleanup h) × ((cleanup h).active ≡ false)
cleanup-IsQuiet h s = rw (cleanup_lem h s) ((refl, refl, refl), refl)

cleanup-IsConnected : (h : CheckHook) → h.open_sources ≡ one_of h.source → IsConnected (cleanup h)
cleanup-IsConnected h s =
    rw (cleanup_lem h s) (record { sources = refl; due = refl; single = refl })

on_detail-IsConnected :
    (d : SopQualityCheckDetail) (h : CheckHook) → IsConnected h → IsConnected (on_detail d h)
unfolding on_detail
on_detail-IsConnected d h v =
    let (q, a) = cleanup-IsQuiet (with_detail d h) v.sources in
    stream_effect-IsConnected (some d) (cleanup (with_detail d h)) q a

on_check-IsConnected : (id : String) (h : CheckHook) → IsConnected h → IsConnected (on_check id h)
unfolding on_check
on_check-IsConnected id h v =
    let (q, a) = cleanup-IsQuiet h v.sources in
    cleanup-IsConnected (stream_effect h.detail (refresh_detail (reset id (cleanup h))))
      (stream_effect-IsConnected h.detail (refresh_detail (reset id (cleanup h))) q a).sources

on_answer-IsConnected :
    (n : ℕ) (id : String) (o : Outcome SopQualityCheckDetail) (h : CheckHook)
    → IsConnected h
    → IsConnected (on_answer n id o h)
unfolding on_answer
on_answer-IsConnected n id (success d) h v = ground (arith, on_detail-IsConnected d h v)
on_answer-IsConnected n id (failure e) h v = ground (arith, v.sources, v.due, v.single)

accept-IsConnected :
    (i : Option ℕ) (e : SopQualityCheckEvent) (h : CheckHook)
    → IsConnected h
    → h.timer ≡ false
    → IsConnected (accept i e h)
unfolding accept
accept-IsConnected i e h v t =
    let ended = with_event i e h in
    ground
      (arith, v.sources, v.due, v.single, close-source (record ended { terminal = true }) v.sources)

on_error-IsConnected :
    (n : ℕ) (m : Bool) (h : CheckHook) → IsConnected h → IsConnected (on_error n m h)
unfolding on_error
on_error-IsConnected n m h v = ground (arith, v.sources, v.due, v.single, close-source h v.sources)

on_event-IsConnected :
    (n : ℕ) (i : Option ℕ) (e : Option SopQualityCheckEvent) (h : CheckHook)
    → IsConnected h
    → IsConnected (on_event n i e h)
unfolding on_event
on_event-IsConnected n i none h v = v
on_event-IsConnected n i (some e) h v =
    elim (Bool-cases (is_current n h && str_eq e.check_id h.check_id)) [
      | inl now ↦ rw now (accept-IsConnected i e h v (ground (arith, v.single)))
      | inr late ↦ rw late v
    ]

fired-IsConnected : (h : CheckHook) → IsConnected h → IsConnected (step h fire)
unfolding step connect
fired-IsConnected h v = ground (arith, v.sources, v.due, v.single)

step-IsConnected : (h : CheckHook) (a : Action) → IsConnected h → IsConnected (step h a)
unfolding step
step-IsConnected h (set_check id) v = elim (Bool-cases (str_eq id h.check_id)) [
  | inl old ↦ rw old v
  | inr new ↦ rw new (on_check-IsConnected id h v)
]
step-IsConnected h refresh v = record { sources = v.sources; due = v.due; single = v.single }
step-IsConnected h (answered n id o) v = on_answer-IsConnected n id o h v
step-IsConnected h (opened n) v = ground (arith, v.sources, v.due, v.single)
step-IsConnected h (received n i e) v = on_event-IsConnected n i e h v
step-IsConnected h (broken n m) v = on_error-IsConnected n m h v
step-IsConnected h fire v = fired-IsConnected h v

run-IsConnected : (h : CheckHook) (as_ : List Action) → IsConnected h → IsConnected (run h as_)
unfolding run
run-IsConnected h [] v = v
run-IsConnected h (a ∷ as_) v = run-IsConnected (step h a) as_ (step-IsConnected h a v)

mount-IsConnected : (id : String) → IsConnected (mount id)
unfolding mount
mount-IsConnected id =
    on_check-IsConnected id unmounted (record { sources = refl; due = refl; single = refl })

-- A hook shown for a check, after any actions: no source is open but the current one; one is open or
-- due exactly while the stream effect is on and the check has not ended, and never both; and when
-- the component leaves, none stays open or due.
pub run-live :
    (id : String) (as_ : List Action)
    → let h = run (mount id) as_ in
      (h.open_sources ≡ one_of h.source)
      × ((is_some h.source || h.timer) ≡ (h.active && not h.terminal))
      × ((is_some h.source && h.timer) ≡ false)
      × ((cleanup h).open_sources ≡ [])
      × ((cleanup h).timer ≡ false)
run-live id as_ =
    let v = run-IsConnected (mount id) as_ (mount-IsConnected id) in
    let (q, a) = cleanup-IsQuiet (run (mount id) as_) v.sources in
    (v.sources, v.due, v.single, q.1, q.2)

-- An action of a source or of the timer.
abbrev pub of_stream : Action → Bool
of_stream (opened n) = true
of_stream (received n i e) = true
of_stream (broken n m) = true
of_stream fire = true
of_stream a = false

over-step :
    (h : CheckHook) (a : Action)
    → h.terminal ≡ true
    → h.timer ≡ false
    → of_stream a ≡ true
    → step h a ≡ h
unfolding step on_event on_error
over-step h (opened n) over t s = ground arith
over-step h (received n i none) over t s = refl
over-step h (received n i (some e)) over t s = ground arith
over-step h (broken n m) over t s = ground arith
over-step h fire over t s = ground arith
over-step h (set_check id) over t s = absurd cc
over-step h refresh over t s = absurd cc
over-step h (answered n id o) over t s = absurd cc

over-run :
    (h : CheckHook) (as_ : List Action)
    → h.terminal ≡ true
    → h.timer ≡ false
    → All (λ a. of_stream a ≡ true) as_
    → run h as_ ≡ h
unfolding run
over-run h [] over t s = refl
over-run h (a ∷ as_) over t (s, ss) =
    ap (λ g. run g as_) (over-step h a over t s) ∙ over-run h as_ over t ss

ended-step :
    (h : CheckHook) (n : ℕ) (i : Option ℕ) (e : SopQualityCheckEvent)
    → IsConnected h
    → is_current n h ≡ true
    → e.check_id ≡ h.check_id
    → is_terminal_event e.type ≡ true
    → let g = step h (received n i (some e)) in
      (g.terminal ≡ true) × (g.timer ≡ false) × (g.open_sources ≡ []) × (g.request ≡ h.request + 1)
unfolding step on_event accept
ended-step h n i e v now mine over =
    let closed = close-source (record (with_event i e h) { terminal = true }) v.sources in
    ground (arith, v.single, eq_iff e.check_id h.check_id, closed)

-- A hook shown for a check, after any actions: when its current source brings an event of this check
-- that ends it, the detail is asked for, no source is open, and nothing that a source or the timer
-- does afterwards changes anything.
pub run-ended :
    (id : String) (as_ later : List Action) (n : ℕ) (i : Option ℕ) (e : SopQualityCheckEvent)
    → is_current n (run (mount id) as_) ≡ true
    → e.check_id ≡ (run (mount id) as_).check_id
    → is_terminal_event e.type ≡ true
    → All (λ a. of_stream a ≡ true) later
    → let ended = step (run (mount id) as_) (received n i (some e)) in
      (run ended later ≡ ended)
      × (ended.open_sources ≡ [])
      × (ended.request ≡ (run (mount id) as_).request + 1)
run-ended id as_ later n i e now mine over streams =
    let h = run (mount id) as_ in
    let v = run-IsConnected (mount id) as_ (mount-IsConnected id) in
    let (t, s, o, r) = ended-step h n i e v now mine over in
    (over-run (step h (received n i (some e))) later t s streams, o, r)
