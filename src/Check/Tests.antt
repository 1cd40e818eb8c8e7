-- ===== src/Check/Tests.antt =====
-- The theorems on checks at concrete checks.
use change_quality_agent.Base.{
  ◌&&◌, String, Bool, true, false, none, some, List, [], ◌∷◌, ◌≡◌, refl, if◌then◌else◌,
}
use change_quality_agent.Base.Dict.{has_own, is_inherited}
use change_quality_agent.Check.Types.{SopQualityCheckStatus, SopQualityCheckDetail, NodeStatus}
use change_quality_agent.Check.Reducer.{SopQualityCheckViewState, create_initial_view_state}
use change_quality_agent.Check.Observer.{ObserverView, observer_view}
use change_quality_agent.Check.Turns.{count_turns, observer_view-turns}

abbrev view : SopQualityCheckViewState
view = create_initial_view_state

-- An order on names that takes all for equal.
abbrev any_le : String → String → Bool
any_le s t = true

abbrev registered : List String
registered = "load_sop" ∷ "review_sop" ∷ []

abbrev two_nodes : SopQualityCheckViewState
two_nodes = record view {
  nodes =
      (
        "x",
        record {
          status = NodeStatus.done;
          stream_text = some "";
          thinking_text = none;
          error = none;
          first_sequence = some 2;
        },
      )
      ∷ (
        "load_sop",
        record {
          status = NodeStatus.done;
          stream_text = some "";
          thinking_text = none;
          error = none;
          first_sequence = none;
        },
      )
      ∷ [];
}

abbrev detail : SopQualityCheckDetail
detail = record {
  check_id = "c1";
  sop_id = "sop-1";
  status = SopQualityCheckStatus.running;
  error = none;
  display_state = record { latest_sequence = 0; nodes = []; is_running = true };
  session_id = none;
}

observer_view-turns_example :
    (v : ObserverView) × (observer_view any_le detail two_nodes registered ≡ some v)
    × ((k : String) → count_turns k v.turns ≡ (if has_own k two_nodes.nodes then 1 else 0))
    × ((k : String) → (v.placeholder && has_own k two_nodes.nodes) ≡ false)
unfolding is_inherited
observer_view-turns_example =
    observer_view-turns any_le detail two_nodes registered (refl, (refl, tt)) (refl, (refl, tt))
      (refl, (refl, tt)) (refl, (refl, tt))
