-- ===== src/Http/Errors.antt =====
-- frontend/src/lib/apiClient.ts, the error class, and what the hooks make of a thrown value
use change_quality_agent.Base.{
  ℕ, String, str_append, truthy_opt, decimal, Option, get_or, if◌then◌else◌,
}

-- `ApiError`, any other error that carries a numeric `status`, and an error without one.
pub data JsError : Type 0 where
  api_error : ℕ → String → Option String → JsError
  status_error : ℕ → String → JsError
  plain_error : String → JsError

-- The message that `ApiError`'s constructor passes to `Error`.
unfoldable pub api_message : ℕ → String → Option String → String
unfolding decimal
api_message status status_text detail =
    let head =
      str_append "API request failed: "
        (str_append (decimal status) (str_append " " status_text)) in
    if truthy_opt detail then str_append head (str_append ": " (get_or detail "")) else head

-- `error.message`
unfoldable pub message_of : JsError → String
unfolding api_message
message_of (api_error status status_text detail) = api_message status status_text detail
message_of (status_error status message) = message
message_of (plain_error message) = message

-- What `catch` binds: an error, or another value, by its `String(value)`.
pub data Thrown : Type 0 where
  an_error : JsError → Thrown
  a_value : String → Thrown

-- `asError` of the hooks
unfoldable pub as_error : Thrown → JsError
as_error (an_error e) = e
as_error (a_value s) = plain_error s
