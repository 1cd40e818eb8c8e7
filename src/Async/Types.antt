-- ===== src/Async/Types.antt =====
-- `AsyncState` of the hooks' files.
use change_quality_agent.Base.{Bool, Option}
use change_quality_agent.Http.Errors.{JsError, Thrown}

pub record AsyncState (T : Type 0) : Type 0 where
  pub data_ : T
  pub error : Option JsError
  pub loading : Bool

-- How a promise settles.
pub data Outcome (T : Type 0) : Type 0 where
  success : T → Outcome T
  failure : Thrown → Outcome T
