-- ===== src/Check/Wire/Tests.antt =====
-- Events as text, and the theorem on them at a concrete one.
use change_quality_agent.Base.{
  String, truthy, true, decimal, Option, none, some, ◌≡◌, refl, str_eq, if◌then◌else◌,
}
use change_quality_agent.Base.Scan.{trim}
use change_quality_agent.Base.Dict.{get}
use change_quality_agent.Base.Json.{Json, Members, record_of}
use change_quality_agent.Check.Types.{EventType, SopQualityCheckEvent}
use change_quality_agent.Check.Hook.{received}
use change_quality_agent.Check.Hook as Hook
use change_quality_agent.Check.Wire.{parse_sop_quality_check_event}
use change_quality_agent.Check.Wire.Numbers.{parse_int}
use change_quality_agent.Check.Wire.Reading.{Carries, received_text, step-received_text}

abbrev event : SopQualityCheckEvent
event = record {
  check_id = "c1";
  sequence = 7;
  type = EventType.messages;
  node = some "plan";
  channel = none;
  message = none;
}

-- The members that the service sends.
abbrev members : Members
members = Members.member "check_id" (Json.str "c1") (
    Members.member "sequence" (Json.num 7) (
      Members.member "type" (Json.str "messages") (
        Members.member "node" (Json.str "plan") (
          Members.member "checkpoint_id" Json.null (
            Members.member "task_id" Json.null (
              Members.member "message" Json.null
                (Members.member "created_at" (Json.str "2025-01-01T00:00:00Z") Members.end)))))))

abbrev wire_text : String
wire_text = "{check_id: c1, ...}"

-- A parser that knows one text.
abbrev parse_event : String → Option Json
parse_event text = if str_eq text wire_text then some (Json.obj members) else none

members_carry : Carries (record_of members) event
unfolding get
members_carry = (refl, refl, refl, refl, refl, refl)

signed_numbers : (parse_int " 12px" ≡ some 12) × (parse_int "-3" ≡ some 0) × (parse_int "" ≡ none)
unfolding parse_int
signed_numbers = (refl, refl, refl)

without_number :
    parse_sop_quality_check_event
      (λ text. some (Json.obj (Members.member "check_id" (Json.str "c1") Members.end)))
      "{}"
    ≡ none
unfolding parse_sop_quality_check_event trim get
without_number = refl

not_blank : truthy (trim wire_text) ≡ true
unfolding trim
not_blank = refl

step-received_text_example :
    Hook.step (Hook.mount "c1") (received_text parse_event 0 (decimal 7) wire_text)
    ≡ Hook.step (Hook.mount "c1") (received 0 (some 7) (some event))
step-received_text_example =
    step-received_text parse_event (Hook.mount "c1") 0 event members 7 wire_text not_blank refl
      members_carry
