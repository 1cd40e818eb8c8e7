-- ===== src/Session/Types.antt =====
-- frontend/src/features/sessions/types.ts
use change_quality_agent.Base.{ℕ, String, Option}
use change_quality_agent.Base.Dict.{Dict}
use change_quality_agent.Base.Json.{Json}

pub data SessionMessageRole : Type 0 where
  user assistant tool system : SessionMessageRole

pub record SessionMessage : Type 0 where
  pub id : String
  pub session_id : ℕ
  pub sequence : ℕ
  pub role : SessionMessageRole
  pub content : String
  pub additional_kwargs : Dict Json
  pub created_at : String

-- The event `message`.
pub record MessageEvent : Type 0 where
  pub session_id : ℕ
  pub sequence : ℕ
  pub role : SessionMessageRole
  pub content : String
  pub additional_kwargs : Dict Json
  pub created_at : Option String

-- The event `message_delta`.
pub record DeltaEvent : Type 0 where
  pub session_id : ℕ
  pub sequence : Option ℕ
  pub role : SessionMessageRole
  pub content : String
  pub additional_kwargs : Dict Json

pub data SessionStreamEvent : Type 0 where
  message : MessageEvent → SessionStreamEvent
  message_delta : DeltaEvent → SessionStreamEvent
  completed failed interrupted : ℕ → SessionStreamEvent
