-- ===== src/Check/Reducer.antt =====
-- frontend/src/features/sop-quality-checks/reducer.ts, the events of a check
use change_quality_agent.Base.{
  ℕ, max, ltb, ◌==◌, String, str_append, truthy_opt, includes, Bool, true, false, not, Option, none,
  some, get_or, or_else, List, [], ◌∷◌, ◌++◌, map, filter, if◌then◌else◌,
}
use change_quality_agent.Base.Dict.{Dict, get, put, has, is_inherited}
use change_quality_agent.Base.Sort.{sort_by}
use change_quality_agent.Session.Reducer.{ConnectionStatus}
use change_quality_agent.Check.Types.{
  NodeStatus, SopQualityNodeState, SopQualityDisplayState, EventType, Channel, SopQualityCheckEvent,
}

pub record SopQualityCheckViewState : Type 0 where
  pub latest_sequence : ℕ
  pub nodes : Dict SopQualityNodeState
  pub events : List SopQualityCheckEvent
  pub needs_refresh : Bool
  pub is_running : Bool
  pub connection_status : ConnectionStatus

abbrev pub create_initial_view_state : SopQualityCheckViewState
create_initial_view_state = record {
  latest_sequence = 0;
  nodes = [];
  events = [];
  needs_refresh = false;
  is_running = true;
  connection_status = ConnectionStatus.idle;
}

abbrev pub hydrate_from_display_state : SopQualityDisplayState → SopQualityCheckViewState
hydrate_from_display_state display_state = record create_initial_view_state {
  latest_sequence = display_state.latest_sequence;
  nodes = display_state.nodes;
  is_running = display_state.is_running;
}

abbrev pub create_node_state : SopQualityNodeState
create_node_state = record {
  status = NodeStatus.idle;
  stream_text = some "";
  thinking_text = none;
  error = none;
  first_sequence = none;
}

-- What `{ ...inherited }` leaves of an inherited value: no property of a node.
abbrev pub inherited_node : SopQualityNodeState
inherited_node = record create_node_state { stream_text = none }

-- `nodes[id] ?? createNodeState()`
unfoldable pub current_node : String → Dict SopQualityNodeState → SopQualityNodeState
current_node id nodes =
    get_or (get id nodes) (if is_inherited id then inherited_node else create_node_state)

-- The text of `${text}`, where `text` may be undefined.
abbrev pub template : Option String → String
template none = "undefined"
template (some text) = text

-- The node that a message leaves, on each channel; `result` leaves it alone.
unfoldable pub message_node :
    Option Channel → SopQualityNodeState → SopQualityCheckEvent → SopQualityNodeState
message_node (some Channel.thinking) n event = record n {
  status = NodeStatus.running;
  thinking_text = or_else event.message n.thinking_text;
  first_sequence = or_else n.first_sequence (some event.sequence);
}
message_node (some Channel.summary) n event = record n {
  status = NodeStatus.running;
  stream_text = or_else event.message n.stream_text;
  first_sequence = or_else n.first_sequence (some event.sequence);
}
message_node (some Channel.result) n event = n
message_node none n event = record n {
  status = NodeStatus.running;
  stream_text = some (str_append (template n.stream_text) (get_or event.message ""));
  first_sequence = or_else n.first_sequence (some event.sequence);
}

-- `event.channel === "result"`
abbrev pub is_result : Option Channel → Bool
is_result (some Channel.result) = true
is_result _ = false

unfoldable pub append_event_node_message :
    SopQualityCheckViewState → SopQualityCheckEvent → SopQualityCheckViewState
append_event_node_message state event =
    if truthy_opt event.node
    then (let id = get_or event.node "" in
        if is_result event.channel then state else record state {
          nodes =
              put id (message_node event.channel (current_node id state.nodes) event) state.nodes;
        })
    else state

-- `status === "error" ? event.message ?? currentNode.error : undefined`
abbrev pub error_text : NodeStatus → Option String → Option String → Option String
error_text NodeStatus.error message old = or_else message old
error_text _ message old = none

abbrev pub updated_node :
    NodeStatus → SopQualityNodeState → SopQualityCheckEvent → SopQualityNodeState
updated_node status n event = record n {
  status = status;
  stream_text = or_else event.message n.stream_text;
  error = error_text status event.message n.error;
  first_sequence = or_else n.first_sequence (some event.sequence);
}

unfoldable pub update_event_node :
    SopQualityCheckViewState → SopQualityCheckEvent → NodeStatus → SopQualityCheckViewState
update_event_node state event status =
    if truthy_opt event.node
    then (let id = get_or event.node "" in
        record state {
          nodes = put id (updated_node status (current_node id state.nodes) event) state.nodes;
        })
    else state

abbrev pub settled_status : NodeStatus → NodeStatus
settled_status NodeStatus.running = NodeStatus.done
settled_status status = status

abbrev pub settle_node : SopQualityNodeState → SopQualityNodeState
settle_node n = record n { status = settled_status n.status }

unfoldable pub settle_running_nodes : Dict SopQualityNodeState → Dict SopQualityNodeState
settle_running_nodes nodes = map (λ e. (e.0, settle_node e.1)) nodes

abbrev pub noted : SopQualityCheckViewState → SopQualityCheckEvent → SopQualityCheckViewState
noted state event = record state {
  latest_sequence = max state.latest_sequence event.sequence;
  events = state.events ++ event ∷ [];
}

-- The end of a check that failed or was interrupted.
abbrev pub ended :
    SopQualityCheckViewState → SopQualityCheckEvent → NodeStatus → SopQualityCheckViewState
ended state event status = record (update_event_node state event status) {
  needs_refresh = true;
  is_running = false;
  connection_status = ConnectionStatus.closed;
}

-- The branch for each type, over the state in which the event is noted.
unfoldable pub reduce_noted :
    EventType → SopQualityCheckViewState → SopQualityCheckEvent → SopQualityCheckViewState
reduce_noted EventType.checkpoint s event = record (update_event_node s event NodeStatus.done) {
  needs_refresh = true;
}
reduce_noted EventType.started s event = record (update_event_node s event NodeStatus.running) {
  is_running = true;
}
reduce_noted EventType.messages s event = append_event_node_message s event
reduce_noted EventType.updates s event = update_event_node s event NodeStatus.running
reduce_noted EventType.completed s event = record s {
  nodes = settle_running_nodes s.nodes;
  needs_refresh = true;
  is_running = false;
  connection_status = ConnectionStatus.closed;
}
reduce_noted EventType.failed s event = ended s event NodeStatus.error
reduce_noted EventType.interrupted s event = ended s event NodeStatus.interrupted
reduce_noted EventType.created s event = s

unfoldable pub reduce_sop_quality_check_event :
    SopQualityCheckViewState → SopQualityCheckEvent → SopQualityCheckViewState
unfolding reduce_noted
reduce_sop_quality_check_event state event = reduce_noted event.type (noted state event) event

-- The state after the events, in their order.
unfoldable pub run : SopQualityCheckViewState → List SopQualityCheckEvent → SopQualityCheckViewState
run state [] = state
run state (e ∷ es) = run (reduce_sop_quality_check_event state e) es

abbrev pub max_safe_integer : ℕ
max_safe_integer = 9007199254740991

-- `firstSequence ?? Number.MAX_SAFE_INTEGER`
abbrev pub rank : Option ℕ → ℕ
rank first = get_or first max_safe_integer

-- `locale_le a b` is `a.localeCompare(b) <= 0`, which depends on the browser's locale.
module _ (locale_le : String → String → Bool) where
  abbrev pub node_le : String × SopQualityNodeState → String × SopQualityNodeState → Bool
  node_le (left_id, left_node) (right_id, right_node) =
      let l = rank left_node.first_sequence in
      let r = rank right_node.first_sequence in
      if l == r then locale_le left_id right_id else ltb l r

  unfoldable pub get_ordered_node_ids : SopQualityCheckViewState → List String → List String
  unfolding sort_by
  get_ordered_node_ids state registered_node_ids =
      let registered = filter (λ node_id. has node_id state.nodes) registered_node_ids in
      let unknown = filter (λ e. not (includes e.0 registered_node_ids)) state.nodes in
      registered ++ map (λ e. e.0) (sort_by node_le unknown)
