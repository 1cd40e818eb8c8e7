-- ===== src/Api/Tests.antt =====
-- Requests and answers at concrete values, and the theorems on them.
use change_quality_agent.Base.{
  String, truthy, decimal, true, false, not, Option, none, some, ◌≡◌, ◌↔◌, refl,
}
use change_quality_agent.Base.Dict.{get}
use change_quality_agent.Base.Json.{Json, Members, record_of}
use change_quality_agent.Base.Uri.{encode_uri_component}
use change_quality_agent.Http.Client.{Response}
use change_quality_agent.Async.Types.{success}
use change_quality_agent.Chat.Page.{StartSopQualityCheckResult}
use change_quality_agent.Api.Calls.{
  Method, restart, post_lifecycle, get_sop_quality_check_history, request_of,
}
use change_quality_agent.Api.Distinct.{request_of-injective}
use change_quality_agent.Api.Answers.{truthy_field, start_answer, start_answer_iff}

restarting :
    request_of (post_lifecycle "a/b c" restart)
    ≡ record { method = Method.post; url = "/api/mcp/servers/a%2Fb%20c/restart"; body = none }
unfolding request_of
restarting = refl

history :
    (request_of (get_sop_quality_check_history "质检&1" "uat" 20)).url
    ≡ "/api/sop-quality-checks?sop_id=%E8%B4%A8%E6%A3%80%261&env=uat&limit=20"
unfolding request_of decimal
history = refl

emoji : encode_uri_component "😀é~" ≡ "%F0%9F%98%80%C3%A9~"
unfolding encode_uri_component
emoji = refl

request_of-injective_example : post_lifecycle "a/b c" restart ≡ post_lifecycle "a/b c" restart
request_of-injective_example =
    request_of-injective (post_lifecycle "a/b c" restart) (post_lifecycle "a/b c" restart) refl

abbrev started : Members
started =
    Members.member "check_id" (Json.str "c1")
      (Members.member "created" (Json.bool true) Members.end)

abbrev parse_started : String → Option Json
parse_started text = some (Json.obj started)

abbrev print_nothing : Json → String
print_nothing value = ""

abbrev accepted : Response
accepted = record { ok = true; status = 202; status_text = "Accepted"; text = "{}" }

abbrev new_check : StartSopQualityCheckResult
new_check = record { active = false; check_id = "c1" }

start_answer_iff_example :
    (start_answer parse_started print_nothing accepted ≡ success new_check) ↔ (
      (ms : Members) × (accepted.ok ≡ true)
      × (parse_started accepted.text ≡ some (Json.obj ms))
      × (get "check_id" (record_of ms) ≡ some (Json.str new_check.check_id))
      × (truthy new_check.check_id ≡ true)
      × (new_check.active ≡ not (truthy_field (get "created" (record_of ms)))))
start_answer_iff_example = start_answer_iff parse_started print_nothing accepted new_check
