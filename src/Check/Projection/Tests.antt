-- ===== src/Check/Projection/Tests.antt =====
-- The theorems on the projection at concrete sessions.
use change_quality_agent.Base.{
  ℕ, String, join, true, false, ◌&&◌, ◌||◌, not, none, some, is_some, [], ◌∷◌, any, ◌≡◌, refl,
  if◌then◌else◌,
}
use change_quality_agent.Base.Dict.{get, is_inherited}
use change_quality_agent.Base.Json.{Json}
use change_quality_agent.Session.Types.{SessionMessageRole, SessionMessage}
use change_quality_agent.Session.Reducer.{SessionViewState, create_initial_session_view_state}
use change_quality_agent.Check.Types.{NodeStatus, SopQualityNodeState}
use change_quality_agent.Check.Projection.{SopProjection, project_session_state_to_sop_view}
use change_quality_agent.Check.Projection.Collect.{has_step, contents, first_number}
use change_quality_agent.Check.Projection.Nodes.{is_live}
use change_quality_agent.Check.Projection.View.{project-shows, project-settled}

abbrev message_of : ℕ → String → String → SessionMessage
message_of n step content = record {
  id = "a";
  session_id = 1;
  sequence = n;
  role = SessionMessageRole.assistant;
  content = content;
  additional_kwargs = ("step", Json.str step) ∷ [];
  created_at = "";
}

abbrev running_session : SessionViewState
running_session = record create_initial_session_view_state {
  latest_sequence = 2;
  messages = message_of 1 "load_sop" "a" ∷ message_of 2 "load_sop" "b" ∷ [];
  live_buffers = ("step:review_sop", "he") ∷ [];
}

project-shows_example :
    (r : SopProjection) × (project_session_state_to_sop_view running_session true ≡ some r)
    × ((k : String)
        → is_some (get k r.nodes) ≡ (
            any (has_step k) running_session.messages
            || (true && is_live k running_session && not (is_inherited k))))
unfolding is_inherited get
project-shows_example = project-shows running_session true refl

project-settled_example :
    (r : SopProjection) × (project_session_state_to_sop_view running_session false ≡ some r)
    × ((k : String)
        → get k r.nodes ≡ (
            if any (has_step k) running_session.messages
            then some (record {
              status = NodeStatus.done;
              stream_text = some (join "\n" (contents k running_session.messages));
              thinking_text = none;
              error = none;
              first_sequence = first_number k running_session.messages;
            })
            else none))
unfolding is_inherited get
project-settled_example = project-settled running_session refl

abbrev live_node : SopQualityNodeState
live_node = record {
  status = NodeStatus.running;
  stream_text = some "he";
  thinking_text = none;
  error = none;
  first_sequence = some 3;
}

abbrev done_node : SopQualityNodeState
done_node = record {
  status = NodeStatus.done;
  stream_text = some "a\nb";
  thinking_text = none;
  error = none;
  first_sequence = some 1;
}
