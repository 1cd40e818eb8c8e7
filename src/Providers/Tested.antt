-- ===== src/Providers/Tested.antt =====
-- Which results and which pending model the page shows, for tests that are answered in any order.
use change_quality_agent.Base.{
  String, str_eq, includes, true, ◌||◌, not, Option, none, some, or_else, List, [], ◌∷◌, ◌≡◌, refl,
  ap, ◌∙◌, arith, eq_iff, Bool-cases, inl, inr, if◌then◌else◌,
}
use change_quality_agent.Base.Dict.{get, get-put}
use change_quality_agent.Async.Types.{Outcome}
use change_quality_agent.Providers.Testing.{
  LlmProviderModelTestResponse, DetailContent, untested, Event, press, answered, is_pending,
  result_of, start_test, settle_test, step, run,
}

-- The model that is pending is unanswered.
abbrev pub IsTrue : DetailContent → Type 0
IsTrue c = (m : String) → is_pending m c ≡ true → includes m c.unanswered ≡ true

start_test-IsTrue : (model : String) (c : DetailContent) → IsTrue c → IsTrue (start_test model c)
unfolding start_test is_pending
start_test-IsTrue model c v = elim (Bool-cases (is_pending model c)) [
  | inl now ↦ rw now v
  | inr not_yet ↦ rw not_yet (λ m p. ground (arith, p, eq_iff model m))
]

settle_test-IsTrue :
    (model : String) (o : Outcome LlmProviderModelTestResponse) (c : DetailContent)
    → IsTrue (settle_test model o c)
unfolding settle_test is_pending
settle_test-IsTrue model o c m p = ground (arith, p)

run-IsTrue : (c : DetailContent) (es : List Event) → IsTrue c → IsTrue (run c es)
unfolding run step
run-IsTrue c [] v = v
run-IsTrue c (press model ∷ es) v = run-IsTrue (start_test model c) es (start_test-IsTrue model c v)
run-IsTrue c (answered model o ∷ es) v =
    run-IsTrue (settle_test model o c) es (settle_test-IsTrue model o c)

-- The result of the last answer to a test of the model.
abbrev pub last_answer : String → List Event → Option LlmProviderModelTestResponse
last_answer m [] = none
last_answer m (press model ∷ es) = last_answer m es
last_answer m (answered model o ∷ es) =
    or_else (last_answer m es) (if str_eq model m then some (result_of o) else none)

start_test-results :
    (m : String) (c : DetailContent) → (start_test m c).test_results ≡ c.test_results
unfolding start_test
start_test-results m c = ground arith

run-last_answer :
    (m : String) (c : DetailContent) (es : List Event)
    → get m (run c es).test_results ≡ or_else (last_answer m es) (get m c.test_results)
unfolding run step settle_test
run-last_answer m c [] = refl
run-last_answer m c (press model ∷ es) =
    run-last_answer m (start_test model c) es
    ∙ ap (λ r. or_else (last_answer m es) (get m r)) (start_test-results model c)
run-last_answer m c (answered model o ∷ es) =
    run-last_answer m (settle_test model o c) es
    ∙ ground (arith, get-put model m (result_of o) c.test_results)

untested-IsTrue : IsTrue untested
unfolding is_pending
untested-IsTrue k p = ground (arith, p)

-- After any presses and answers, the tests of the models being answered in any order: what is shown
-- for a model is its own last answer, and nothing before the first, and a model that is shown as
-- pending is one whose test is not answered.
pub run-tests :
    (es : List Event) (m : String)
    → let c = run untested es in
      (get m c.test_results ≡ last_answer m es)
      × ((not (is_pending m c) || includes m c.unanswered) ≡ true)
unfolding get
run-tests es m =
    let c = run untested es in
    let v = run-IsTrue untested es untested-IsTrue in
    (run-last_answer m untested es ∙ ground arith, ground (arith, v m))
