-- ===== src/Check/Page.antt =====
-- frontend/src/features/sop-quality-checks/hooks.ts: `useSopQualityCheck` with the `useSessionStream`
-- inside it, which follows the session of the check that is shown.
use change_quality_agent.Base.{String, ℕ, Option, List, [], ◌∷◌, if◌then◌else◌}
use change_quality_agent.Session.Stream.{Stream, set_session}
use change_quality_agent.Session.Stream as Session
use change_quality_agent.Session.Steady.{is_outside}
use change_quality_agent.Check.Reducer.{SopQualityCheckViewState}
use change_quality_agent.Check.Hook.{CheckHook, mount}
use change_quality_agent.Check.Hook as Hook
use change_quality_agent.Check.Result.{visible_detail, session_id_of, effective_state}

pub record CheckPage : Type 0 where
  pub hook : CheckHook
  pub session_stream : Stream

-- What the outside does to the hook itself, and to the stream of the session.
pub data PageAction : Type 0 where
  check_action : Hook.Action → PageAction
  session_action : Session.Action → PageAction

-- `sessionId`
abbrev pub followed : CheckHook → Option ℕ
followed h = session_id_of (visible_detail h)

-- `useSessionStream(sessionId)` at the next render
unfoldable pub render : CheckPage → CheckPage
render p = record p {
  session_stream = Session.step p.session_stream (set_session (followed p.hook));
}

unfoldable pub open_page : String → CheckPage
open_page check_id = render (record { hook = mount check_id; session_stream = Session.unmounted })

unfoldable pub step : CheckPage → PageAction → CheckPage
step p (check_action a) = render (record p { hook = Hook.step p.hook a })
step p (session_action a) =
    if is_outside a then record p { session_stream = Session.step p.session_stream a } else p

unfoldable pub run : CheckPage → List PageAction → CheckPage
run p [] = p
run p (a ∷ as_) = run (step p a) as_

-- The `state` that is returned.
abbrev pub shown : CheckPage → Option SopQualityCheckViewState
shown p = effective_state p.hook p.session_stream.state
