-- ===== src/Check/Result.antt =====
-- frontend/src/features/sop-quality-checks/hooks.ts: what `useSopQualityCheck` returns, where the
-- stream of the check's session takes the place of the check's own nodes.
use change_quality_agent.Base.{
  ℕ, max, str_eq, Bool, false, ◌&&◌, ◌||◌, not, Option, none, some, is_some, any, ◌≡◌, refl, ap,
  ◌∙◌, arith, Bool-cases, inl, inr, if◌then◌else◌,
}
use change_quality_agent.Http.Errors.{JsError}
use change_quality_agent.Session.Reducer.{SessionViewState}
use change_quality_agent.Check.Projection.Collect.{breaks}
use change_quality_agent.Check.Types.{SopQualityCheckDetail}
use change_quality_agent.Check.Reducer.{SopQualityCheckViewState}
use change_quality_agent.Check.Projection.{SopProjection, project_session_state_to_sop_view}
use change_quality_agent.Check.Projection.View.{project_throws, project-shows}
use change_quality_agent.Check.Hook.{is_terminal_status, CheckHook}

-- A detail of another check is not shown, and neither is an error of another.
abbrev pub visible_detail : CheckHook → Option SopQualityCheckDetail
visible_detail h = elim h.detail [
  | none ↦ none
  | some d ↦ if str_eq d.check_id h.check_id then some d else none
]

abbrev pub visible_error : CheckHook → Option JsError
visible_error h = elim h.detail_error [
  | none ↦ none
  | some (id, e) ↦ if str_eq id h.check_id then some e else none
]

-- The check shown is not over.
abbrev pub shown_running : Option SopQualityCheckDetail → Bool
shown_running none = false
shown_running (some d) = not (is_terminal_status d.status)

-- The session whose stream is followed.
abbrev pub session_id_of : Option SopQualityCheckDetail → Option ℕ
session_id_of none = none
session_id_of (some d) = if not (is_terminal_status d.status) then d.session_id else none

abbrev pub with_projection :
    SopQualityCheckViewState → SessionViewState → Bool → SopProjection → SopQualityCheckViewState
with_projection state session is_running projection = record state {
  latest_sequence = max state.latest_sequence projection.latest_sequence;
  nodes = projection.nodes;
  is_running = is_running;
  connection_status = session.connection_status;
}

-- The memo's result, for the session followed and the projection; `none` is a TypeError.
unfoldable pub effective_for :
    CheckHook → SessionViewState → Option ℕ → Option SopProjection → Option SopQualityCheckViewState
effective_for h session none projection = some h.state
effective_for h session (some id) none = none
effective_for h session (some id) (some projection) =
    some (with_projection h.state session (shown_running (visible_detail h)) projection)

unfoldable pub effective_state : CheckHook → SessionViewState → Option SopQualityCheckViewState
unfolding effective_for
effective_state h session =
    effective_for h session (session_id_of (visible_detail h))
      (project_session_state_to_sop_view session (shown_running (visible_detail h)))

-- The `loading` that is returned.
abbrev pub result_loading : CheckHook → Bool
result_loading h = h.loading || not (is_some (visible_detail h)) && not (is_some (visible_error h))

projects :
    (s : SessionViewState) (b : Bool)
    → is_some (project_session_state_to_sop_view s b) ≡ not (any breaks s.messages)
projects s b = elim (Bool-cases (any breaks s.messages)) [
  | inl bad ↦ rw bad (ap is_some (project_throws s b bad))
  | inr good ↦ let (r, e, _) = project-shows s b good in rw good (ap is_some e)
]

is_some-effective_for :
    (h : CheckHook) (s : SessionViewState) (o : Option ℕ) (p : Option SopProjection)
    → is_some (effective_for h s o p) ≡ (not (is_some o) || is_some p)
unfolding effective_for
is_some-effective_for h s none p = refl
is_some-effective_for h s (some id) none = refl
is_some-effective_for h s (some id) (some r) = refl

-- The page has a state to show unless the detail shown names a session to follow, and some message
-- of that session has a step named like a member of `Object.prototype`.
pub effective_state-throws :
    (h : CheckHook) (s : SessionViewState)
    → is_some (effective_state h s)
      ≡ not (is_some (session_id_of (visible_detail h)) && any breaks s.messages)
unfolding effective_state
effective_state-throws h s =
    is_some-effective_for h s (session_id_of (visible_detail h)) _
    ∙ ground (arith, projects s (shown_running (visible_detail h)))
