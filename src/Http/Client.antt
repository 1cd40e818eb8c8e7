-- ===== src/Http/Client.antt =====
-- frontend/src/lib/apiClient.ts, reading a response. `JSON.parse` and `JSON.stringify` are
-- parameters; `none` of the first is a thrown SyntaxError.
use change_quality_agent.Base.{
  ℕ, ◌==◌, String, truthy, Bool, true, false, not, ◌&&◌, ◌||◌, Option, none, some, is_some, ◌≡◌,
  arith, Option-cases, if◌then◌else◌,
}
use change_quality_agent.Base.Dict.{get}
use change_quality_agent.Base.Json.{Json, Members, record_of}
use change_quality_agent.Http.Errors.{JsError, api_error, plain_error, Thrown, an_error}

-- What the client reads of a `Response`.
pub record Response : Type 0 where
  pub ok : Bool
  pub status : ℕ
  pub status_text : String
  pub text : String

-- A promise that has settled; `undefined` is `none`.
pub data Settled : Type 0 where
  resolved : Option Json → Settled
  rejected : Thrown → Settled

module _ (parse : String → Option Json) (stringify : Json → String) where
  -- `parsed.detail`, where reading it from `null` throws
  abbrev pub detail_of : Json → String → Option String
  detail_of Json.null body = some body
  detail_of (Json.obj ms) body = elim (get "detail" (record_of ms)) [
    | none ↦ none
    | some v ↦ some (elim v [ Json.str s ↦ s | other ↦ stringify other ])
  ]
  detail_of _ body = none

  unfoldable pub read_error_detail : Response → Option String
  read_error_detail response =
      if truthy response.text
      then (elim (parse response.text) [
        | none ↦ some response.text
        | some parsed ↦ detail_of parsed response.text
      ])
      else none

  unfoldable pub api_error_from_response : Response → JsError
  unfolding read_error_detail
  api_error_from_response response =
      api_error response.status response.status_text (read_error_detail response)

  -- What `requestJson` does with the response of `fetch`.
  unfoldable pub request_json : Response → Settled
  unfolding api_error_from_response
  request_json response =
      if not response.ok
      then rejected (an_error (api_error_from_response response))
      else if response.status == 204
      then resolved none
      else if truthy response.text
      then (elim (parse response.text) [
        | none ↦ rejected (an_error (plain_error "SyntaxError"))
        | some value ↦ resolved (some value)
      ])
      else resolved none

  abbrev pub resolves : Settled → Bool
  resolves (resolved v) = true
  resolves (rejected e) = false

  -- The promise resolves exactly for an ok response that has status 204, no body, or a JSON body.
  pub request_json-resolves :
      (r : Response)
      → resolves (request_json r)
        ≡ (r.ok && (r.status == 204 || not (truthy r.text) || is_some (parse r.text)))
  unfolding request_json
  request_json-resolves r = ground (arith, Option-cases (parse r.text))

  -- An error response whose JSON body has a string `detail` is rejected with that detail.
  pub request_json-detail :
      (r : Response) (ms : Members) (d : String)
      → r.ok ≡ false
      → truthy r.text ≡ true
      → parse r.text ≡ some (Json.obj ms)
      → get "detail" (record_of ms) ≡ some (Json.str d)
      → request_json r ≡ rejected (an_error (api_error r.status r.status_text (some d)))
  unfolding request_json
  request_json-detail r ms d bad body parsed found =
      rw (bad, api_error_from_response, read_error_detail, body, parsed, detail_of, found)
