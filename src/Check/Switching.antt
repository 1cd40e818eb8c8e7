-- ===== src/Check/Switching.antt =====
-- What is left of a check, or of its session, when the page leaves it.
use change_quality_agent.Base.{
  String, ℕ, Bool, ◌&&◌, if◌then◌else◌, true, not, sym, eq_iff, ◌↔◌, Option-cases, inl, inr, str_eq,
  false, Option, none, some, List, [], ◌≡◌, refl, ap, ◌∙◌, arith,
}
use change_quality_agent.Session.Reducer.{create_initial_session_view_state}
use change_quality_agent.Check.Types.{SopQualityCheckStatus, SopQualityCheckDetail}
use change_quality_agent.Check.Hook.{
  CheckHook, refresh_detail, reset, cleanup, set_check, is_terminal_status,
}
use change_quality_agent.Check.Hook as Hook
use change_quality_agent.Check.Result.{effective_for, effective_state}
use change_quality_agent.Check.Page.{
  CheckPage, PageAction, check_action, followed, render, open_page, step, run, shown,
}
use change_quality_agent.Check.Followed.{
  step-IsTogether, run-IsTogether, open_page-IsTogether, unfollowed,
}

close-view :
    (h : CheckHook)
    → ((Hook.close_current_source h).detail ≡ h.detail)
      × ((Hook.close_current_source h).state ≡ h.state)
unfolding Hook.close_current_source
close-view h = ground arith

stream_effect-view :
    (d : Option SopQualityCheckDetail) (h : CheckHook)
    → ((Hook.stream_effect d h).detail ≡ h.detail)
      × ((Hook.stream_effect d h).state.nodes ≡ h.state.nodes)
      × ((Hook.stream_effect d h).state.events ≡ h.state.events)
unfolding Hook.stream_effect Hook.connect
stream_effect-view none h = (refl, refl, refl)
stream_effect-view (some d) h = ground arith

-- Another check begins without a detail, and with an empty view.
set_check-view :
    (id : String) (h : CheckHook)
    → str_eq id h.check_id ≡ false
    → let g = Hook.step h (set_check id) in
      (g.detail ≡ none) × (g.state.nodes ≡ []) × (g.state.events ≡ [])
unfolding Hook.step Hook.on_check Hook.cleanup
set_check-view id h other =
    let begun = refresh_detail (reset id (cleanup h)) in
    let (d, n, e) = stream_effect-view h.detail begun in
    let (cd, cs) =
      close-view (record (Hook.stream_effect h.detail begun) { active = false; timer = false }) in
    rw other (cd ∙ d, ap (λ s. s.nodes) cs ∙ n, ap (λ s. s.events) cs ∙ e)

-- A check that is not over.
abbrev pub is_open : SopQualityCheckStatus → Bool
is_open SopQualityCheckStatus.pending = true
is_open SopQualityCheckStatus.running = true
is_open SopQualityCheckStatus.succeeded = false
is_open SopQualityCheckStatus.failed = false
is_open SopQualityCheckStatus.cancelled = false
is_open SopQualityCheckStatus.interrupted = false

-- The detail that the hook holds is one of its check, which is not over and has that session.
abbrev pub IsUnderWay : CheckHook → ℕ → Type 0
IsUnderWay h n =
    (d : SopQualityCheckDetail) × (h.detail ≡ some d)
    × (d.check_id ≡ h.check_id)
    × (is_open d.status ≡ true)
    × (d.session_id ≡ some n)

not_terminal : (s : SopQualityCheckStatus) → not (is_terminal_status s) ≡ is_open s
not_terminal SopQualityCheckStatus.pending = refl
not_terminal SopQualityCheckStatus.running = refl
not_terminal SopQualityCheckStatus.succeeded = refl
not_terminal SopQualityCheckStatus.failed = refl
not_terminal SopQualityCheckStatus.cancelled = refl
not_terminal SopQualityCheckStatus.interrupted = refl

followed-IsUnderWay : (h : CheckHook) (n : ℕ) → followed h ≡ some n → IsUnderWay h n
followed-IsUnderWay h n e = elim (Option-cases h.detail) [
  | inl absent ↦ absurd (let c = rw absent at e in cc)
  | inr (d, held) ↦
      let c = rw held at e in
      let (own, open_, named) : (str_eq d.check_id h.check_id ≡ true)
          × (not (is_terminal_status d.status) ≡ true)
          × (d.session_id ≡ some n) =
        ground (arith, c) in
      (
        d,
        held,
        ground (arith, own, eq_iff d.check_id h.check_id),
        sym (not_terminal d.status) ∙ open_,
        named,
      )
]

IsUnderWay-followed : (h : CheckHook) (n : ℕ) → IsUnderWay h n → followed h ≡ some n
IsUnderWay-followed h n (d, held, own, open_, named) =
    let e : str_eq d.check_id h.check_id ≡ true =
      ground (arith, own, eq_iff d.check_id h.check_id) in
    rw (held, e, not_terminal d.status, open_) named

-- The session of the check that the page is on, while that is not over.
abbrev pub under_way : CheckHook → Option ℕ
under_way h = elim h.detail [
  | none ↦ none
  | some d ↦ if str_eq d.check_id h.check_id && is_open d.status then d.session_id else none
]

followed-under_way : (h : CheckHook) → under_way h ≡ none → followed h ≡ none
followed-under_way h e = elim (Option-cases h.detail) [
  | inl absent ↦ rw absent refl
  | inr (d, held) ↦ let c = rw held at e in rw held (ground (arith, c, not_terminal d.status))
]

-- A page that follows no session shows the check's own view.
shown-own : (p : CheckPage) → followed p.hook ≡ none → shown p ≡ some p.hook.state
unfolding effective_state effective_for
shown-own p e = rw e refl

-- A check's page, after any actions on the check and on its session in any order: the stream is that
-- of a session exactly if the detail that the hook holds is one of the check that the page is on, is
-- pending or running, and names that session.
pub run-followed :
    (check_id : String) (as_ : List PageAction) (n : ℕ)
    → let p = run (open_page check_id) as_ in
      (p.session_stream.session_id ≡ some n) ↔ IsUnderWay p.hook n
run-followed check_id as_ n =
    let v = run-IsTogether (open_page check_id) as_ (open_page-IsTogether check_id) in
    let h = (run (open_page check_id) as_).hook in
    (λ e. followed-IsUnderWay h n (sym v.follows ∙ e), λ u. v.follows ∙ IsUnderWay-followed h n u)

-- A check's page, after any actions, where the hook holds no detail of the check that the page is
-- on, or one that is over or has no session: no source of a
-- session is open, no reconnect is due, nothing is left of a session that was followed, and the page
-- shows the check's own view.
pub run-unfollowed :
    (check_id : String) (as_ : List PageAction)
    → under_way (run (open_page check_id) as_).hook ≡ none
    → let p = run (open_page check_id) as_ in
      (p.session_stream.open_sources ≡ [])
      × (p.session_stream.timer ≡ false)
      × (p.session_stream.state ≡ create_initial_session_view_state)
      × (shown p ≡ some p.hook.state)
run-unfollowed check_id as_ over =
    let p = run (open_page check_id) as_ in
    let e = followed-under_way p.hook over in
    let v = run-IsTogether (open_page check_id) as_ (open_page-IsTogether check_id) in
    let (s, t, i) = unfollowed (followed p.hook) p.session_stream v e in (s, t, i, shown-own p e)

-- A check's page, after any actions: when it is given another check, it shows no node and no event,
-- nothing is left of the session that was followed, and no source of a session is open.
pub run-switched :
    (check_id other : String) (as_ : List PageAction)
    → str_eq other (run (open_page check_id) as_).hook.check_id ≡ false
    → let q = step (run (open_page check_id) as_) (check_action (set_check other)) in
      (shown q ≡ some q.hook.state)
      × (q.hook.state.nodes ≡ [])
      × (q.hook.state.events ≡ [])
      × (q.session_stream.state ≡ create_initial_session_view_state)
      × (q.session_stream.open_sources ≡ [])
unfolding step render
run-switched check_id other as_ new =
    let p = run (open_page check_id) as_ in
    let q = step p (check_action (set_check other)) in
    let v = run-IsTogether (open_page check_id) as_ (open_page-IsTogether check_id) in
    let (d, n, e) = set_check-view other p.hook new in
    let alone : followed q.hook ≡ none = rw d refl in
    let (s, t, i) =
      unfollowed (followed q.hook) q.session_stream
        (step-IsTogether p (check_action (set_check other)) v) alone in
    (shown-own q alone, n, e, i, s)
