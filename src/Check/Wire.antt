-- ===== src/Check/Wire.antt =====
-- frontend/src/features/sop-quality-checks/hooks.ts: an event of the stream of a check as text, and
-- its number. `JSON.parse` is a parameter, and its `none` a thrown SyntaxError.
pub mod Numbers
pub mod Reading
mod Tests
use Prim.Native.Char.{code}
use Prim.Native.String.{String}
use change_quality_agent.Base.{
  ℕ, ◌+◌, ◌-◌, ◌*◌, ◌==◌, str_eq, truthy, Bool, true, false, ◌&&◌, not, Option, none, some, is_some,
  ◌>>=◌, if◌then◌else◌,
}
use change_quality_agent.Base.Scan.{trim, trim_start}
use change_quality_agent.Base.Dict.{Dict, get}
use change_quality_agent.Base.Json.{Json, Members, record_of, read_string, read_number}
use change_quality_agent.Base.Text.Decimal.{is_digit}
use change_quality_agent.Check.Types.{EventType, Channel, SopQualityCheckEvent}
use change_quality_agent.Check.Hook as Hook

-- The three tests of `parseSopQualityCheckEvent`.
abbrev pub is_event : Dict Json → Bool
is_event fields =
    is_some (read_string (get "check_id" fields))
    && is_some (read_number (get "sequence" fields))
    && is_some (read_string (get "type" fields))

-- Reading a property of `null` throws, and nothing but an object has these.
abbrev pub event_of : Option Json → Option (Dict Json)
event_of (some (Json.obj ms)) = if is_event (record_of ms) then some (record_of ms) else none
event_of _ = none

abbrev pub type_of : String → Option EventType
type_of s =
    if str_eq s "created"
    then some EventType.created
    else if str_eq s "started"
    then some EventType.started
    else if str_eq s "messages"
    then some EventType.messages
    else if str_eq s "updates"
    then some EventType.updates
    else if str_eq s "checkpoint"
    then some EventType.checkpoint
    else if str_eq s "completed"
    then some EventType.completed
    else if str_eq s "failed"
    then some EventType.failed
    else if str_eq s "interrupted"
    then some EventType.interrupted
    else none

abbrev pub channel_of : String → Option Channel
channel_of s =
    if str_eq s "thinking"
    then some Channel.thinking
    else if str_eq s "summary"
    then some Channel.summary
    else if str_eq s "result"
    then some Channel.result
    else none

-- The event at its declared type, `event as SopQualityCheckEvent`; `none` where a field is not of it.
unfoldable pub typed : Dict Json → Option SopQualityCheckEvent
typed fields = do
  check_id ← read_string (get "check_id" fields)
  sequence ← read_number (get "sequence" fields)
  name ← read_string (get "type" fields)
  type ← type_of name
  some (record {
    check_id = check_id;
    sequence = sequence;
    type = type;
    node = read_string (get "node" fields);
    channel = read_string (get "channel" fields) >>= channel_of;
    message = read_string (get "message" fields);
  })

module _ (parse : String → Option Json) where
  unfoldable pub parse_sop_quality_check_event : String → Option (Dict Json)
  parse_sop_quality_check_event data_ = if truthy (trim data_) then event_of (parse data_) else none
