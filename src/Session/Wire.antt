-- ===== src/Session/Wire.antt =====
-- frontend/src/features/sessions/hooks.ts: an event of the stream as text. `JSON.parse` is a
-- parameter, and its `none` a thrown SyntaxError.
use change_quality_agent.Base.{
  String, str_eq, truthy, includes, Bool, ◌&&◌, Option, none, some, is_some, List, [], ◌∷◌, ◌++◌,
  append_assoc, append-nil, ◌≡◌, refl, sym, ◌∙◌, if◌then◌else◌, get_or,
}
use change_quality_agent.Base.Scan.{trim}
use change_quality_agent.Base.Dict.{Dict, get, put, IsFresh, put-fresh}
use change_quality_agent.Base.Json.{Json, Members, record_of, read_string, read_number}

-- The five types of `SessionStreamEvent`.
abbrev pub event_types : List String
event_types = "message" ∷ "message_delta" ∷ "completed" ∷ "failed" ∷ "interrupted" ∷ []

-- `{ ...base, ...fields }`
abbrev pub spread : Dict Json → Dict Json → Dict Json
spread base [] = base
spread base ((k, v) ∷ fields) = spread (put k v base) fields

-- The fields of `{ type: "message", ...parsed.message }`, if the message is an object. The elements
-- of an array have none of the names that are read.
abbrev pub unwrapped : Dict Json → Option Json → Dict Json
unwrapped fields (some (Json.obj message)) =
    spread (("type", Json.str "message") ∷ []) (record_of message)
unwrapped fields (some (Json.arr elements)) = ("type", Json.str "message") ∷ []
unwrapped fields _ = fields

-- `normalizeSessionStreamEvent`, of an object
unfoldable pub normalize_session_stream_event : Dict Json → Dict Json
normalize_session_stream_event fields =
    if str_eq (get_or (read_string (get "type" fields)) "") "message"
    then unwrapped fields (get "message" fields)
    else fields

-- The tests of `parseSessionStreamEvent`.
abbrev pub is_event : Dict Json → Bool
is_event fields =
    includes (get_or (read_string (get "type" fields)) "") event_types
    && is_some (read_number (get "session_id" fields))

abbrev pub checked : Dict Json → Option (Dict Json)
checked fields = if is_event fields then some fields else none

-- The event of a parsed value: nothing but an object has a `type`.
abbrev pub event_of : Option Json → Option (Dict Json)
event_of (some (Json.obj ms)) = checked (normalize_session_stream_event (record_of ms))
event_of _ = none

module _ (parse : String → Option Json) where
  unfoldable pub parse_session_stream_event : String → Option (Dict Json)
  parse_session_stream_event data_ = if truthy (trim data_) then event_of (parse data_) else none

spread-fresh : (base fields : Dict Json) → IsFresh base fields → spread base fields ≡ base ++ fields
spread-fresh base [] h = sym (append-nil base)
spread-fresh base ((k, v) ∷ fields) (f, h) =
    rw (put-fresh k v base f)
      (spread-fresh (base ++ (k, v) ∷ []) fields h ∙ append_assoc base ((k, v) ∷ []) fields)

abbrev typed : Dict Json
typed = ("type", Json.str "message") ∷ []

normalize-wrapped :
    (ms : Members)
    → normalize_session_stream_event (typed ++ ("message", Json.obj ms) ∷ [])
      ≡ spread typed (record_of ms)
unfolding normalize_session_stream_event get
normalize-wrapped ms = refl

normalize-flat :
    (fields : Dict Json)
    → get "message" fields ≡ none
    → normalize_session_stream_event (typed ++ fields) ≡ typed ++ fields
unfolding normalize_session_stream_event get
normalize-flat fields n = rw n refl

module _ (parse : String → Option Json) where
  -- A wrapped message whose fields are distinct, with no field "type" or "message", is read as the
  -- same fields beside the type: the two forms that the server may send mean the same.
  pub wrapped_as_flat :
      (wrapped flat : String) (ms : Members)
      → truthy (trim wrapped) ≡ truthy (trim flat)
      → parse wrapped
        ≡ some (
            Json.obj (
              Members.member "type"
                (Json.str "message")
                (Members.member "message" (Json.obj ms) Members.end)))
      → parse flat ≡ some (Json.obj (Members.member "type" (Json.str "message") ms))
      → IsFresh (("type", Json.str "message") ∷ []) (record_of ms)
      → get "message" (record_of ms) ≡ none
      → parse_session_stream_event parse wrapped ≡ parse_session_stream_event parse flat
  unfolding parse_session_stream_event
  wrapped_as_flat wrapped flat ms t w f d n =
      let same =
        normalize-wrapped ms
        ∙ spread-fresh typed (record_of ms) d
        ∙ sym (normalize-flat (record_of ms) n) in
      rw (t, w, f) (rw same refl)
