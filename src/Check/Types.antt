-- ===== src/Check/Types.antt =====
-- frontend/src/features/sop-quality-checks/types.ts
use change_quality_agent.Base.{ℕ, String, Bool, Option}
use change_quality_agent.Base.Dict.{Dict}
use change_quality_agent.Base.Json.{Json}

pub data SopQualityCheckStatus : Type 0 where
  pending running succeeded failed cancelled interrupted : SopQualityCheckStatus

-- The status of a node.
pub data NodeStatus : Type 0 where
  idle running done error interrupted : NodeStatus

-- `stream_text` is absent only in a node that was read from an inherited property.
pub record SopQualityNodeState : Type 0 where
  pub status : NodeStatus
  pub stream_text : Option String
  pub thinking_text : Option String
  pub error : Option String
  pub first_sequence : Option ℕ

pub record SopQualityDisplayState : Type 0 where
  pub latest_sequence : ℕ
  pub nodes : Dict SopQualityNodeState
  pub is_running : Bool

-- The fields that the client reads.
pub record SopQualityCheckDetail : Type 0 where
  pub check_id : String
  pub sop_id : String
  pub status : SopQualityCheckStatus
  pub error : Option (Dict Json)
  pub display_state : SopQualityDisplayState
  pub session_id : Option ℕ

-- The type of an event.
pub data EventType : Type 0 where
  created started messages updates checkpoint completed failed interrupted : EventType

-- The channel of an event.
pub data Channel : Type 0 where
  thinking summary result : Channel

pub record SopQualityCheckEvent : Type 0 where
  pub check_id : String
  pub sequence : ℕ
  pub type : EventType
  pub node : Option String
  pub channel : Option Channel
  pub message : Option String
