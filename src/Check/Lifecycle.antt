-- ===== src/Check/Lifecycle.antt =====
-- The log, the cursor and the flags of a check's view, and its end: reducer.ts.
use change_quality_agent.Base.{
  max, ◌≤◌, ◌==◌, Bool, true, false, ◌||◌, Option, none, some, get_or, or_else, List, [], ◌∷◌, ◌++◌,
  any, All, append_assoc, append-nil, ◌≡◌, ◌⊎◌, refl, sym, ap, ◌∙◌, arith, inl,
}
use change_quality_agent.Check.Types.{NodeStatus, EventType, SopQualityCheckEvent}
use change_quality_agent.Check.Reducer.{
  SopQualityCheckViewState, append_event_node_message, update_event_node, noted, reduce_noted,
  reduce_sop_quality_check_event, run,
}

-- Writing a node leaves the rest of the view alone.
abbrev pub SameButNodes : SopQualityCheckViewState → SopQualityCheckViewState → Type 0
SameButNodes s t =
    (t.latest_sequence ≡ s.latest_sequence)
    × (t.events ≡ s.events)
    × (t.needs_refresh ≡ s.needs_refresh)
    × (t.is_running ≡ s.is_running)
    × (t.connection_status ≡ s.connection_status)

update_event_node-SameButNodes :
    (s : SopQualityCheckViewState) (e : SopQualityCheckEvent) (status : NodeStatus)
    → SameButNodes s (update_event_node s e status)
unfolding update_event_node
update_event_node-SameButNodes s e status = ground arith

append-SameButNodes :
    (s : SopQualityCheckViewState) (e : SopQualityCheckEvent)
    → SameButNodes s (append_event_node_message s e)
unfolding append_event_node_message
append-SameButNodes s e = ground arith

-- What an event says of the check running.
abbrev pub says : EventType → Option Bool
says EventType.started = some true
says EventType.completed = some false
says EventType.failed = some false
says EventType.interrupted = some false
says _ = none

abbrev pub asks_refresh : EventType → Bool
asks_refresh EventType.checkpoint = true
asks_refresh EventType.completed = true
asks_refresh EventType.failed = true
asks_refresh EventType.interrupted = true
asks_refresh _ = false

-- What the last event that says something says.
unfoldable pub verdict : List SopQualityCheckEvent → Option Bool
verdict [] = none
verdict (e ∷ es) = or_else (verdict es) (says e.type)

-- The flags after one event.
abbrev Flags : SopQualityCheckViewState → SopQualityCheckEvent → EventType → Type 0
Flags s e t =
    let s' = reduce_noted t (noted s e) e in
    (s'.latest_sequence ≡ max s.latest_sequence e.sequence)
    × (s'.events ≡ s.events ++ e ∷ [])
    × (s'.needs_refresh ≡ (s.needs_refresh || asks_refresh t))
    × (s'.is_running ≡ get_or (says t) s.is_running)

reduce_noted-Flags :
    (t : EventType) (s : SopQualityCheckViewState) (e : SopQualityCheckEvent) → Flags s e t
unfolding reduce_noted
reduce_noted-Flags EventType.created s e = ground arith
reduce_noted-Flags EventType.messages s e = ground (arith, append-SameButNodes (noted s e) e)
reduce_noted-Flags EventType.completed s e = ground arith
reduce_noted-Flags EventType.started s e =
    ground (arith, update_event_node-SameButNodes (noted s e) e NodeStatus.running)
reduce_noted-Flags EventType.updates s e =
    ground (arith, update_event_node-SameButNodes (noted s e) e NodeStatus.running)
reduce_noted-Flags EventType.checkpoint s e =
    ground (arith, update_event_node-SameButNodes (noted s e) e NodeStatus.done)
reduce_noted-Flags EventType.failed s e =
    ground (arith, update_event_node-SameButNodes (noted s e) e NodeStatus.error)
reduce_noted-Flags EventType.interrupted s e =
    ground (arith, update_event_node-SameButNodes (noted s e) e NodeStatus.interrupted)

reduce-Flags :
    (s : SopQualityCheckViewState) (e : SopQualityCheckEvent)
    → ((reduce_sop_quality_check_event s e).latest_sequence ≡ max s.latest_sequence e.sequence)
      × ((reduce_sop_quality_check_event s e).events ≡ s.events ++ e ∷ [])
      × ((reduce_sop_quality_check_event s e).needs_refresh
          ≡ (s.needs_refresh || asks_refresh e.type))
      × ((reduce_sop_quality_check_event s e).is_running ≡ get_or (says e.type) s.is_running)
unfolding reduce_sop_quality_check_event
reduce-Flags s e = reduce_noted-Flags e.type s e

-- After any events the log holds them all in order behind what it held; a refresh is due exactly if
-- one was due or some event asks for one; and the check runs as the last event that says so tells.
pub run-flags :
    (s : SopQualityCheckViewState) (es : List SopQualityCheckEvent)
    → ((run s es).events ≡ s.events ++ es)
      × ((run s es).needs_refresh ≡ (s.needs_refresh || any (λ e. asks_refresh e.type) es))
      × ((run s es).is_running ≡ get_or (verdict es) s.is_running)
unfolding run verdict
run-flags s [] = (sym (append-nil _), ground arith, refl)
run-flags s (e ∷ es) =
    let (_, log, refresh, running) = reduce-Flags s e in
    let (logs, refreshes, runs) = run-flags (reduce_sop_quality_check_event s e) es in
    (logs ∙ ap (λ l. l ++ es) log ∙ append_assoc s.events (e ∷ []) es, ground arith, ground arith)

-- The cursor is the least number that is at least the one before and every event's.
pub run-latest_sequence :
    (s : SopQualityCheckViewState) (es : List SopQualityCheckEvent)
    → (s.latest_sequence ≤ (run s es).latest_sequence)
      × All (λ e. e.sequence ≤ (run s es).latest_sequence) es
      × (((run s es).latest_sequence ≡ s.latest_sequence)
          ⊎ (any (λ e. e.sequence == (run s es).latest_sequence) es ≡ true))
unfolding run
run-latest_sequence s [] = (omega arith, tt, inl refl)
run-latest_sequence s (e ∷ es) =
    let (lo, all, hit) = run-latest_sequence (reduce_sop_quality_check_event s e) es in
    let latest = (reduce-Flags s e).0 in (omega arith, (omega arith, all), ground arith)
