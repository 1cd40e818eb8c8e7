-- ===== src/Api/Answers.antt =====
-- frontend/src/features/*/api.ts, reading the answers of `fetch` that `requestJson` does not read.
use change_quality_agent.Base.{
  ◌==◌, String, truthy, Bool, true, false, ◌||◌, not, Option, none, some, get_or, ◌≡◌, ◌↔◌, refl,
  ap, ◌∙◌, arith, Option-cases, Bool-cases, inl, inr, if◌then◌else◌,
}
use change_quality_agent.Base.Dict.{get}
use change_quality_agent.Base.Json.{Json, Members, record_of, read_string}
use change_quality_agent.Http.Errors.{plain_error, Thrown, an_error}
use change_quality_agent.Http.Client.{
  Response, Settled, resolved, rejected, api_error_from_response, request_json,
}
use change_quality_agent.Async.Types.{Outcome, success, failure}
use change_quality_agent.Chat.Page.{StartSopQualityCheckResult}

-- A value in a test: `null`, `false`, 0 and "" are false.
abbrev pub truthy_json : Json → Bool
truthy_json Json.null = false
truthy_json (Json.bool b) = b
truthy_json (Json.num n) = not (n == 0)
truthy_json (Json.str s) = truthy s
truthy_json _ = true

abbrev pub truthy_field : Option Json → Bool
truthy_field none = false
truthy_field (some v) = truthy_json v

-- What reading a property of `null` throws, and of a text that is no JSON.
abbrev pub type_error : Thrown
type_error = an_error (plain_error "TypeError")

abbrev pub syntax_error : Thrown
syntax_error = an_error (plain_error "SyntaxError")

abbrev pub missing_check_id : Thrown
missing_check_id = an_error (plain_error "SOP quality check response did not include a check id.")

-- `body.check_id` is a text where it is there.
abbrev pub started : Option String → Option Json → Outcome StartSopQualityCheckResult
started check_id created =
    if truthy (get_or check_id "")
    then success (record { active = not (truthy_field created); check_id = get_or check_id "" })
    else failure missing_check_id

-- The rest of `startSopQualityCheck`, once the body is parsed.
abbrev pub start_result : Json → Outcome StartSopQualityCheckResult
start_result Json.null = failure type_error
start_result (Json.obj ms) =
    started (read_string (get "check_id" (record_of ms))) (get "created" (record_of ms))
start_result _ = failure missing_check_id

-- `Array.isArray(response) ? response : response.environments`; `none` is `undefined`.
abbrev pub environments_of : Option Json → Settled
environments_of (some (Json.arr items)) = resolved (some (Json.arr items))
environments_of (some (Json.obj ms)) = resolved (get "environments" (record_of ms))
environments_of (some Json.null) = rejected type_error
environments_of none = rejected type_error
environments_of _ = resolved none

-- What a start that succeeds says of the two fields.
IsStarted : Option Json → Option Json → StartSopQualityCheckResult → Type 0
IsStarted check_id created result =
    (check_id ≡ some (Json.str result.check_id))
    × (truthy result.check_id ≡ true)
    × (result.active ≡ not (truthy_field created))

started-success :
    (c created : Option Json) (result : StartSopQualityCheckResult)
    → started (read_string c) created ≡ success result
    → IsStarted c created result
unfolding IsStarted
started-success (some (Json.str s)) created result h = elim (Bool-cases (truthy s)) [
  | inl filled ↦ ground arith
  | inr empty ↦ absurd (ground arith)
]
started-success (some Json.null) created result h = absurd (cc)
started-success (some (Json.bool b)) created result h = absurd (cc)
started-success (some (Json.num n)) created result h = absurd (cc)
started-success (some (Json.arr a)) created result h = absurd (cc)
started-success (some (Json.obj o)) created result h = absurd (cc)
started-success none created result h = absurd (cc)

start_result-success :
    (body : Json) (result : StartSopQualityCheckResult)
    → start_result body ≡ success result
    → (ms : Members) × (body ≡ Json.obj ms)
      × IsStarted (get "check_id" (record_of ms)) (get "created" (record_of ms)) result
start_result-success (Json.obj ms) result h =
    (ms, refl, started-success (get "check_id" (record_of ms)) _ result h)
start_result-success Json.null result h = absurd (cc)
start_result-success (Json.bool b) result h = absurd (cc)
start_result-success (Json.num n) result h = absurd (cc)
start_result-success (Json.str s) result h = absurd (cc)
start_result-success (Json.arr a) result h = absurd (cc)

module _ (parse : String → Option Json) (stringify : Json → String) where
  -- `deleteMcpServer` and `deleteLlmProvider`
  unfoldable pub delete_answer : Response → Settled
  delete_answer response =
      if not response.ok
      then rejected (an_error (api_error_from_response parse stringify response))
      else resolved none

  -- `testLlmProviderModel`: an answer 502 has the result of the test too.
  unfoldable pub test_answer : Response → Settled
  test_answer response =
      if response.ok || response.status == 502
      then (elim (parse response.text) [
        | none ↦ rejected syntax_error
        | some value ↦ resolved (some value)
      ])
      else rejected (an_error (api_error_from_response parse stringify response))

  -- `startSopQualityCheck`
  unfoldable pub start_answer : Response → Outcome StartSopQualityCheckResult
  start_answer response =
      if not response.ok
      then failure (an_error (api_error_from_response parse stringify response))
      else elim (parse response.text) [
        | none ↦ failure syntax_error
        | some body ↦ start_result body
      ]

  -- `getSopEnvironments`
  unfoldable pub environments_answer : Response → Settled
  environments_answer response = elim (request_json parse stringify response) [
    | resolved value ↦ environments_of value
    | rejected e ↦ rejected e
  ]

  -- A check is started exactly by an ok answer whose JSON body has a check id that is not empty:
  -- with that id, and as one that was active already unless the body says that it was created.
  pub start_answer_iff :
      (r : Response) (result : StartSopQualityCheckResult)
      → (start_answer r ≡ success result) ↔ (
          (ms : Members) × (r.ok ≡ true)
          × (parse r.text ≡ some (Json.obj ms))
          × (get "check_id" (record_of ms) ≡ some (Json.str result.check_id))
          × (truthy result.check_id ≡ true)
          × (result.active ≡ not (truthy_field (get "created" (record_of ms)))))
  unfolding start_answer IsStarted
  start_answer_iff r result = (
    λ h. elim (Bool-cases r.ok) [
      | inl ok ↦ elim (Option-cases (parse r.text)) [
        | inl unread ↦ absurd (let e = rw (ok, unread) at h in cc)
        | inr (body, p) ↦
            let e = rw (ok, p) at h in
            let (ms, q, (i, t, a)) = start_result-success body result e in
            (ms, ok, p ∙ ap some q, i, t, a)
      ]
      | inr bad ↦ absurd (let e = rw bad at h in cc)
    ],
    λ (ms, ok, p, i, t, a). rw (ok, p, i, t, ← a) refl,
  )
