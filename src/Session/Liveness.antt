-- ===== src/Session/Liveness.antt =====
-- What `useSessionStream` comes to once its server answers.
use change_quality_agent.Base.{
  ℕ, true, false, ◌||◌, some, get_or, List, [], ◌∷◌, ◌++◌, map, ◌≡◌, refl, ap, ◌∙◌, arith, ==_iff,
}
use change_quality_agent.Session.Types.{MessageEvent, message, completed}
use change_quality_agent.Session.Reducer.{ConnectionStatus, has_sequence, run as reduce_all}
use change_quality_agent.Session.Stream.{
  Stream, unmounted, message_name, other_listed, Action, received, fire, is_current, accept,
  connect, close, dispatch, on_timer, step, run,
}
use change_quality_agent.Session.Delivery.{delivered, run-has_sequence}
use change_quality_agent.Session.Listeners.{handle-now, accept-is_current, dispatch-message}
use change_quality_agent.Session.Connection.{Inv, run-Inv, step-Inv, unmounted-Inv, one_of}

-- The source of that number brings the messages, in their order.
abbrev pub brought : ℕ → List MessageEvent → List Action
brought n [] = []
brought n (e ∷ es) = received n message_name (some (message e)) ∷ brought n es

-- The number of the open source.
abbrev pub source_of : Stream → ℕ
source_of h = get_or h.source 0

fire-opens :
    (h : Stream)
    → Inv h
    → h.active ≡ true
    → h.terminal ≡ false
    → (is_current (source_of (step h fire)) (step h fire) ≡ true) × ((step h fire).state ≡ h.state)
unfolding step on_timer connect
fire-opens h v a t =
    ground (arith, ==_iff (get_or h.source 0) (get_or h.source 0), ==_iff h.created h.created)

run-brought :
    (n : ℕ) (e : MessageEvent) (es : List MessageEvent) (h : Stream)
    → is_current n h ≡ true
    → run h (brought n (e ∷ es)) ≡ run (accept (message e) h) (brought n es)
unfolding run step
run-brought n e es h now =
    ap (λ g. run g (brought n es)) (dispatch-message n e h ∙ handle-now n (message e) h now)

brought-state :
    (n : ℕ) (es : List MessageEvent) (h : Stream)
    → is_current n h ≡ true
    → (is_current n (run h (brought n es)) ≡ true)
      × ((run h (brought n es)).state ≡ reduce_all h.state (map message es))
unfolding run reduce_all accept
brought-state n [] h now = (now, refl)
brought-state n (e ∷ es) h now =
    rw (run-brought n e es h now)
      (brought-state n es (accept (message e) h) (accept-is_current n e h ∙ now))

run-append :
    (h : Stream) (as_ : List Action) (a : Action) → run h (as_ ++ a ∷ []) ≡ step (run h as_) a
unfolding run
run-append h [] a = refl
run-append h (b ∷ as_) a = run-append (step h b) as_ a

ending :
    (n i : ℕ) (h : Stream)
    → Inv h
    → is_current n h ≡ true
    → let g = step h (received n other_listed (some (completed i))) in
      (g.terminal ≡ true) × (g.state.messages ≡ h.state.messages)
unfolding step dispatch accept close
ending n i h v now = rw (handle-now n (completed i) h now) (ground arith)

-- The reconnect timer fires, the open source brings the messages, and then the end.
abbrev pub answered : Stream → List MessageEvent → ℕ → Stream
answered h es i =
    let g = step h fire in
    let n = source_of g in run g (brought n es ++ received n other_listed (some (completed i)) ∷ [])

ends :
    (h : Stream) (es : List MessageEvent) (i : ℕ)
    → Inv h
    → h.active ≡ true
    → h.terminal ≡ false
    → let g = answered h es i in
      (is_current (source_of (step h fire)) (step h fire) ≡ true)
      × (g.terminal ≡ true)
      × (g.state.connection_status ≡ ConnectionStatus.closed)
      × (g.open_sources ≡ [])
      × (g.timer ≡ false)
      × ((n : ℕ)
          → has_sequence n g.state.messages
            ≡ (has_sequence n h.state.messages || delivered n (map message es)))
ends h es i v a t =
    let g = step h fire in
    let (now, held) = fire-opens h v a t in
    let n = source_of g in
    let last = received n other_listed (some (completed i)) in
    let b = run g (brought n es) in
    let (later, state) = brought-state n es g now in
    let w = run-Inv g (brought n es) (step-Inv h fire v) in
    let (over, messages) = ending n i b w later in
    let (closed, quiet, status) = (step-Inv b last w).ended over in
    rw (run-append g (brought n es) last) (
      now,
      over,
      status,
      (step-Inv b last w).sources ∙ ap one_of closed,
      quiet,
      λ k.
          ap (has_sequence k)
            (messages ∙ ap (λ s. s.messages) (state ∙ ap (λ s. reduce_all s (map message es)) held))
          ∙ run-has_sequence k h.state (map message es),
    )

-- From the start, after any actions that leave the stream of a session on and not ended, whether a
-- source is open or broken: once the reconnect timer has fired, there is an open source to which
-- every delivery counts. When it brings any messages and then the end, the stream has ended: its
-- status is closed, no source is open or due, and the messages held are those held before and those
-- that were brought, by number.
pub run-ends :
    (as_ : List Action) (es : List MessageEvent) (i : ℕ)
    → (run unmounted as_).active ≡ true
    → (run unmounted as_).terminal ≡ false
    → let h = run unmounted as_ in
      let g = answered h es i in
      (is_current (source_of (step h fire)) (step h fire) ≡ true)
      × (g.terminal ≡ true)
      × (g.state.connection_status ≡ ConnectionStatus.closed)
      × (g.open_sources ≡ [])
      × (g.timer ≡ false)
      × ((n : ℕ)
          → has_sequence n g.state.messages
            ≡ (has_sequence n h.state.messages || delivered n (map message es)))
run-ends as_ es i a t =
    let h = run unmounted as_ in let v = run-Inv unmounted as_ unmounted-Inv in ends h es i v a t
