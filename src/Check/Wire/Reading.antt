-- ===== src/Check/Wire/Reading.antt =====
-- What the hook does with the text of an event.
use Prim.Native.String.{String}
use change_quality_agent.Base.{
  Bool-cases, ℕ, decimal, truthy, true, false, Option, none, some, ◌>>=◌, ◌≡◌, ◌⊎◌, inl, inr, refl,
}
use change_quality_agent.Base.Scan.{trim}
use change_quality_agent.Base.Dict.{Dict, get}
use change_quality_agent.Base.Json.{Json, Members, record_of, read_string}
use change_quality_agent.Check.Types.{EventType, Channel, SopQualityCheckEvent}
use change_quality_agent.Check.Hook.{CheckHook, Action, received, on_event}
use change_quality_agent.Check.Hook as Hook
use change_quality_agent.Check.Wire.{
  event_of, type_of, channel_of, typed, parse_sop_quality_check_event,
}
use change_quality_agent.Check.Wire.Numbers.{parse_int, parse_int-decimal}

abbrev pub event_name : EventType → String
event_name EventType.created = "created"
event_name EventType.started = "started"
event_name EventType.messages = "messages"
event_name EventType.updates = "updates"
event_name EventType.checkpoint = "checkpoint"
event_name EventType.completed = "completed"
event_name EventType.failed = "failed"
event_name EventType.interrupted = "interrupted"

abbrev pub channel_name : Channel → String
channel_name Channel.thinking = "thinking"
channel_name Channel.summary = "summary"
channel_name Channel.result = "result"

abbrev pub channel_text : Option Channel → Option String
channel_text none = none
channel_text (some c) = some (channel_name c)

-- An object that carries an event, whatever other members it has and in whatever order: the node, the
-- channel and the message may be texts, or null or absent where the event has none.
abbrev pub Carries : Dict Json → SopQualityCheckEvent → Type 0
Carries fields e =
    (get "check_id" fields ≡ some (Json.str e.check_id))
    × (get "sequence" fields ≡ some (Json.num e.sequence))
    × (get "type" fields ≡ some (Json.str (event_name e.type)))
    × (read_string (get "node" fields) ≡ e.node)
    × (read_string (get "channel" fields) ≡ channel_text e.channel)
    × (read_string (get "message" fields) ≡ e.message)

type_of-event_name : (t : EventType) → type_of (event_name t) ≡ some t
type_of-event_name EventType.created = refl
type_of-event_name EventType.started = refl
type_of-event_name EventType.messages = refl
type_of-event_name EventType.updates = refl
type_of-event_name EventType.checkpoint = refl
type_of-event_name EventType.completed = refl
type_of-event_name EventType.failed = refl
type_of-event_name EventType.interrupted = refl

channel_of-channel_name : (o : Option Channel) → (channel_text o >>= channel_of) ≡ o
channel_of-channel_name none = refl
channel_of-channel_name (some Channel.thinking) = refl
channel_of-channel_name (some Channel.summary) = refl
channel_of-channel_name (some Channel.result) = refl

event-Carries :
    (ms : Members) (e : SopQualityCheckEvent)
    → Carries (record_of ms) e
    → event_of (some (Json.obj ms)) ≡ some (record_of ms)
event-Carries ms e (c, s, t, _, _, _) = rw (c, s, t) refl

typed-Carries :
    (fields : Dict Json) (e : SopQualityCheckEvent) → Carries fields e → typed fields ≡ some e
unfolding typed
typed-Carries fields e (c, s, t, n, ch, m) =
    rw (c, s, t)
      (rw (type_of-event_name e.type, n, ch, m) (rw (channel_of-channel_name e.channel) refl))

module _ (parse : String → Option Json) where
  -- A message of a source: its `lastEventId` and its `data`.
  unfoldable pub received_text : ℕ → String → String → Action
  unfolding parse_int parse_sop_quality_check_event typed
  received_text n last_event_id data_ =
      received n (parse_int last_event_id) (parse_sop_quality_check_event parse data_ >>= typed)

  -- A message whose text is not blank and has as its JSON value an object that carries an event, and
  -- whose id is a printed number, does to the hook what this event with this number does.
  pub step-received_text :
      (h : CheckHook) (n : ℕ) (e : SopQualityCheckEvent) (ms : Members) (id : ℕ) (data_ : String)
      → truthy (trim data_) ≡ true
      → parse data_ ≡ some (Json.obj ms)
      → Carries (record_of ms) e
      → Hook.step h (received_text n (decimal id) data_)
        ≡ Hook.step h (received n (some id) (some e))
  unfolding received_text parse_sop_quality_check_event
  step-received_text h n e ms id data_ t p c =
      rw (t, p, event-Carries ms e c, parse_int-decimal id)
        (rw (typed-Carries (record_of ms) e c) refl)

  -- One whose text is blank, or whose JSON value is no object with the three fields, changes nothing.
  pub step-unread_text :
      (h : CheckHook) (n : ℕ) (last_event_id data_ : String)
      → (truthy (trim data_) ≡ false) ⊎ (event_of (parse data_) ≡ none)
      → Hook.step h (received_text n last_event_id data_) ≡ h
  unfolding received_text parse_sop_quality_check_event Hook.step on_event
  step-unread_text h n last_event_id data_ (inl blank) = rw blank refl
  step-unread_text h n last_event_id data_ (inr unread) = elim (Bool-cases (truthy (trim data_))) [
    | inl text ↦ rw (text, unread) refl
    | inr blank ↦ rw blank refl
  ]
