-- ===== src/Session/LiveText.antt =====
-- The text that streams in before a message is stored: reducer.ts, the branch for `message_delta`.

use text.Mathlib.TextLemmas.{append-nil, append_assoc}
use change_quality_agent.Base.{
  String, str_eq, str_append, false, ◌&&◌, not, get_or, List, [], ◌∷◌, map, ◌≡◌, sym, ap, ◌∙◌,
  arith, eq_iff, if◌then◌else◌,
}
use change_quality_agent.Base.Dict.{get, get-put, get-remove}
use change_quality_agent.Base.Json.{read_string}
use change_quality_agent.Session.Types.{MessageEvent, DeltaEvent, message, message_delta}
use change_quality_agent.Session.Reducer.{
  SessionViewState, buffer_key, is_thinking, has_sequence, reduce_message, reduce_delta,
  reduce_session_stream_event, run,
}

-- What the view shows for a key.
abbrev pub live_text : String → SessionViewState → String
live_text k s = get_or (get k s.live_buffers) ""

-- A delta carries text for `k` unless it only says that the agent is thinking.
abbrev pub text_for : String → DeltaEvent → String
text_for k d =
    if str_eq (buffer_key d.additional_kwargs) k
      && not (is_thinking (read_string (get "channel" d.additional_kwargs)))
    then d.content
    else ""

-- The texts of the deltas for `k`, one after the other.
unfoldable pub text_of : String → List DeltaEvent → String
text_of k [] = ""
text_of k (d ∷ ds) = str_append (text_for k d) (text_of k ds)

reduce_delta-live_text :
    (k : String) (s : SessionViewState) (d : DeltaEvent)
    → live_text k (reduce_delta s d) ≡ str_append (live_text k s) (text_for k d)
unfolding reduce_delta
reduce_delta-live_text k s d =
    let key = buffer_key d.additional_kwargs in
    ground (
      arith,
      eq_iff key k,
      eq_iff d.content "",
      get-put key k (str_append (live_text key s) d.content) s.live_buffers,
      append-nil (live_text k s),
    )

-- Deltas add their texts to the buffer of their own key, in order, and to no other.
pub run-deltas :
    (k : String) (s : SessionViewState) (ds : List DeltaEvent)
    → live_text k (run s (map message_delta ds)) ≡ str_append (live_text k s) (text_of k ds)
unfolding run text_of reduce_session_stream_event
run-deltas k s [] = sym (append-nil _)
run-deltas k s (d ∷ ds) =
    run-deltas k (reduce_delta s d) ds
    ∙ ap (λ t. str_append t (text_of k ds)) (reduce_delta-live_text k s d)
    ∙ append_assoc (live_text k s) (text_for k d) (text_of k ds)

-- A message that is not held yet empties the buffer of its own key and leaves the others alone.
pub reduce_message-live_text :
    (k : String) (s : SessionViewState) (e : MessageEvent)
    → has_sequence e.sequence s.messages ≡ false
    → live_text k (reduce_message s e)
      ≡ (if str_eq (buffer_key e.additional_kwargs) k then "" else live_text k s)
unfolding reduce_message
reduce_message-live_text k s e h =
    ground (arith, get-remove (buffer_key e.additional_kwargs) k s.live_buffers)

-- After a new message, the live text of its key is what the deltas behind it bring, and that of
-- every other key goes on from where it was.
pub run-flush :
    (k : String) (s : SessionViewState) (e : MessageEvent) (ds : List DeltaEvent)
    → has_sequence e.sequence s.messages ≡ false
    → live_text k (run s (message e ∷ map message_delta ds))
      ≡ str_append
          (if str_eq (buffer_key e.additional_kwargs) k then "" else live_text k s)
          (text_of k ds)
unfolding run reduce_session_stream_event
run-flush k s e ds h =
    run-deltas k (reduce_message s e) ds
    ∙ ap (λ t. str_append t (text_of k ds)) (reduce_message-live_text k s e h)
