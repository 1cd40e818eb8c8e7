-- ===== src/Check/Observer.antt =====
-- frontend/src/features/sop-quality-checks/components/SopQualityCheckObserver.tsx: what is shown of a
-- check. `none` stands for a render that throws.
use change_quality_agent.Base.{
  String, str_append, truthy, truthy_opt, join, Bool, true, false, ◌&&◌, not, Option, none, some,
  get_or, or_else, ◌>>=◌, List, [], ◌∷◌, ◌++◌, filter, if◌then◌else◌,
}
use change_quality_agent.Base.Scan.{trim}
use change_quality_agent.Base.Dict.{Dict, get, is_inherited}
use change_quality_agent.Base.Json.{read_string}
use change_quality_agent.Http.Errors.{JsError, message_of}
use change_quality_agent.Session.Reducer.{ConnectionStatus}
use change_quality_agent.Check.Types.{
  SopQualityCheckStatus, NodeStatus, SopQualityNodeState, SopQualityCheckDetail, EventType,
  SopQualityCheckEvent,
}
use change_quality_agent.Check.Reducer.{SopQualityCheckViewState, get_ordered_node_ids}

abbrev pub default_registered_node_ids : List String
default_registered_node_ids = "load_sop" ∷ "review_sop" ∷ "summarize_result" ∷ "submit_result" ∷ []

abbrev pub node_labels : Dict String
node_labels =
    ("load_sop", "读取 SOP")
    ∷ ("review_sop", "质检分析")
    ∷ ("summarize_result", "生成总结")
    ∷ ("submit_result", "提交结果")
    ∷ []

-- `NODE_LABELS[nodeId] ?? nodeId`, which is no text for an inherited name.
unfoldable pub node_label : String → Option String
node_label node_id =
    or_else (get node_id node_labels) (if is_inherited node_id then none else some node_id)

-- The text of `NodeStatusChip`.
unfoldable pub status_chip : NodeStatus → Bool → String
status_chip status true = "流式输出中"
status_chip NodeStatus.done false = "已完成"
status_chip NodeStatus.error false = "失败"
status_chip NodeStatus.interrupted false = "已中断"
status_chip NodeStatus.idle false = "等待中"
status_chip NodeStatus.running false = "运行中"

-- What stands below the header of a turn: a text, which may be streaming, the typing indicator,
-- nothing, or that there is no output.
pub data Body : Type 0 where
  text_body : Bool → String → Body
  typing nothing no_output : Body

pub record AssistantTurn : Type 0 where
  pub node_id : String
  pub label : Option String
  pub chip : String
  pub thinking : Option String
  pub body : Body
  pub error : Option String

abbrev pub is_error : NodeStatus → Bool
is_error NodeStatus.error = true
is_error status = false

abbrev pub is_running_status : NodeStatus → Bool
is_running_status NodeStatus.running = true
is_running_status status = false

unfoldable pub body_of : String → NodeStatus → Bool → Body
body_of text status is_running =
    if truthy (trim text)
    then text_body is_running text
    else if is_running
    then typing
    else if is_error status
    then nothing
    else no_output

-- A text that is not empty.
abbrev pub shown_text : Option String → Option String
shown_text text = if truthy_opt text then text else none

unfoldable pub assistant_turn : String → String → SopQualityNodeState → Bool → AssistantTurn
assistant_turn node_id text node is_running = record {
  node_id = node_id;
  label = node_label node_id;
  chip = status_chip node.status is_running;
  thinking = if truthy (trim (get_or node.thinking_text "")) then node.thinking_text else none;
  body = body_of text node.status is_running;
  error = shown_text node.error;
}

-- `<AssistantTurn>` for a node and its text. Without one, `text.trim()` throws.
unfoldable pub turn_with :
    String → Bool → SopQualityNodeState → Option String → Option (List AssistantTurn)
turn_with node_id running node none = none
turn_with node_id running node (some text) =
    some (assistant_turn node_id text node (running && is_running_status node.status) ∷ [])

-- What is shown for `state.nodes[nodeId]`. An inherited value has no text.
unfoldable pub turn_for : String → Bool → Option SopQualityNodeState → Option (List AssistantTurn)
unfolding turn_with
turn_for node_id running none = if is_inherited node_id then none else some []
turn_for node_id running (some node) = turn_with node_id running node node.stream_text

abbrev pub turn_of : SopQualityCheckViewState → String → Option (List AssistantTurn)
turn_of state node_id = turn_for node_id state.is_running (get node_id state.nodes)

unfoldable pub turns_of : SopQualityCheckViewState → List String → Option (List AssistantTurn)
turns_of state [] = some []
turns_of state (id ∷ ids) = do
  turn ← turn_of state id
  rest ← turns_of state ids
  some (turn ++ rest)

-- An event that ended the check itself, with a message.
abbrev pub check_failure : SopQualityCheckEvent → Option String
check_failure event = elim event.type [
  | EventType.failed ↦ if truthy_opt event.node then none else shown_text event.message
  | other ↦ none
]

-- The loop of `collectCheckError`, from the last event.
unfoldable pub last_failure : List SopQualityCheckEvent → Option String
last_failure [] = none
last_failure (event ∷ events) = or_else (last_failure events) (check_failure event)

unfoldable pub collect_check_error :
    SopQualityCheckViewState → SopQualityCheckDetail → Option String
collect_check_error state detail =
    or_else (detail.error >>= (λ error. read_string (get "message" error)))
      (last_failure state.events)

unfoldable pub status_label : SopQualityCheckStatus → String
status_label SopQualityCheckStatus.running = "进行中"
status_label SopQualityCheckStatus.succeeded = "成功"
status_label SopQualityCheckStatus.failed = "失败"
status_label SopQualityCheckStatus.cancelled = "已取消"
status_label SopQualityCheckStatus.interrupted = "已中断"
status_label SopQualityCheckStatus.pending = "等待中"

unfoldable pub connection_label : ConnectionStatus → String
connection_label ConnectionStatus.idle = "等待连接"
connection_label ConnectionStatus.connecting = "连接中"
connection_label ConnectionStatus.reconnecting = "重新连接中"
connection_label ConnectionStatus.closed = "已断开"
connection_label ConnectionStatus.open_ = "open"

abbrev pub is_open : ConnectionStatus → Bool
is_open ConnectionStatus.open_ = true
is_open status = false

unfoldable pub footnote : SopQualityCheckViewState → SopQualityCheckDetail → String
unfolding status_label connection_label
footnote state detail = join " · " (
    filter truthy (
      if state.is_running && not (is_open state.connection_status)
      then status_label detail.status ∷ connection_label state.connection_status ∷ []
      else status_label detail.status ∷ []))

pub record ObserverView : Type 0 where
  pub human : String
  pub turns : List AssistantTurn
  pub placeholder : Bool
  pub check_error : Option String
  pub footnote : String

abbrev pub is_nil : List String → Bool
is_nil [] = true
is_nil (x ∷ xs) = false

-- What `SopQualityCheckObserver` shows.
pub data Screen : Type 0 where
  alert : String → Screen
  loading_check no_check : Screen
  check_view : Option ObserverView → Screen

abbrev pub view_from :
    SopQualityCheckDetail
    → SopQualityCheckViewState
    → List String
    → List AssistantTurn
    → ObserverView
view_from detail state ids turns = record {
  human = str_append "请对 SOP `" (str_append detail.sop_id "` 执行一次质量检查。");
  turns = turns;
  placeholder =
      is_nil ids && not (truthy_opt (collect_check_error state detail)) && state.is_running;
  check_error = shown_text (collect_check_error state detail);
  footnote = footnote state detail;
}

module _ (locale_le : String → String → Bool) where
  -- `SopQualityCheckObserverView`
  unfoldable pub observer_view :
      SopQualityCheckDetail → SopQualityCheckViewState → List String → Option ObserverView
  unfolding turns_of
  observer_view detail state registered =
      let ids = get_ordered_node_ids locale_le state registered in
      do turns ← turns_of state ids; some (view_from detail state ids turns)

  unfoldable pub observer :
      Option JsError
      → Bool
      → Option SopQualityCheckDetail
      → SopQualityCheckViewState
      → List String
      → Screen
  observer (some error) loading detail state registered = alert (message_of error)
  observer none loading none state registered = if loading then loading_check else no_check
  observer none loading (some detail) state registered =
      check_view (observer_view detail state registered)
