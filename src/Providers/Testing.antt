-- ===== src/Providers/Testing.antt =====
-- frontend/src/features/llmProviders/pages/LlmProviderDetailPage.tsx: testing the models of a provider.
use change_quality_agent.Base.{
  ℕ, String, str_eq, truthy, Bool, false, Option, none, some, get_or, ◌>>=◌, List, [], ◌∷◌,
  if◌then◌else◌,
}
use change_quality_agent.Base.Scan.{trim}
use change_quality_agent.Base.Dict.{Dict, get, put}
use change_quality_agent.Base.Json.{Json, read_string}
use change_quality_agent.Http.Errors.{Thrown, an_error, a_value, message_of}
use change_quality_agent.Async.Types.{Outcome, success, failure}

pub data Status : Type 0 where
  ok failed : Status

pub record LlmProviderModelTestResponse : Type 0 where
  pub status : Status
  pub latency_ms : ℕ
  pub message : Option String
  pub error : Option String
  pub request : Option (Dict Json)
  pub response : Option (Dict Json)

-- The state of `DetailContent`, and the models whose tests are not answered.
pub record DetailContent : Type 0 where
  pub test_results : Dict LlmProviderModelTestResponse
  pub pending_model : Option String
  pub unanswered : List String

abbrev pub untested : DetailContent
untested = record { test_results = []; pending_model = none; unanswered = [] }

-- The button of a model is pressed, or the test of a model is answered.
pub data Event : Type 0 where
  press : String → Event
  answered : String → Outcome LlmProviderModelTestResponse → Event

-- `pendingModel === model`
unfoldable pub is_pending : String → DetailContent → Bool
is_pending model c = elim c.pending_model [ none ↦ false | some pending ↦ str_eq pending model ]

-- `error instanceof Error ? error.message : String(error)`
abbrev pub text_of : Thrown → String
text_of (an_error e) = message_of e
text_of (a_value s) = s

abbrev pub result_of : Outcome LlmProviderModelTestResponse → LlmProviderModelTestResponse
result_of (success result) = result
result_of (failure e) = record {
  error = some (text_of e);
  latency_ms = 0;
  message = none;
  request = none;
  response = none;
  status = Status.failed;
}

abbrev pub without_one : String → List String → List String
without_one model [] = []
without_one model (m ∷ ms) = if str_eq m model then ms else m ∷ without_one model ms

-- The button of a model, which is disabled while the model is pending, and `handleTest` up to its `await`.
unfoldable pub start_test : String → DetailContent → DetailContent
unfolding is_pending
start_test model c =
    if is_pending model c
    then c
    else record c { pending_model = some model; unanswered = model ∷ c.unanswered }

-- `handleTest` behind its `await`
unfoldable pub settle_test :
    String → Outcome LlmProviderModelTestResponse → DetailContent → DetailContent
settle_test model o c = record c {
  test_results = put model (result_of o) c.test_results;
  pending_model = none;
  unanswered = without_one model c.unanswered;
}

unfoldable pub step : DetailContent → Event → DetailContent
unfolding start_test settle_test
step c (press model) = start_test model c
step c (answered model o) = settle_test model o c

unfoldable pub run : DetailContent → List Event → DetailContent
run c [] = c
run c (e ∷ es) = run (step c e) es

-- What is shown as the answer of the model.
unfoldable pub response_content : LlmProviderModelTestResponse → String
response_content result =
    let content = result.response >>= (λ response. read_string (get "content" response)) in
    if truthy (trim (get_or content "")) then get_or content "" else get_or result.message ""
