-- ===== src/Check/Frame.antt =====
-- What an event leaves alone, what the end of a check settles, and the streamed text: reducer.ts.
use text.Mathlib.TextLemmas.{append-nil, append_assoc}
use change_quality_agent.Base.{
  String, str_eq, str_append, truthy_opt, true, false, ◌&&◌, not, none, some, get_or, List, [], ◌∷◌,
  Bool, any, All, ◌≡◌, ◌≢◌, refl, sym, ap, ◌∙◌, arith, Bool-cases, inl, inr, ◌>>=◌,
}
use change_quality_agent.Base.Dict.{Dict, get, get-put, get-put_self, is_inherited}
use change_quality_agent.Session.Reducer.{ConnectionStatus}
use change_quality_agent.Check.Types.{
  NodeStatus, SopQualityNodeState, EventType, SopQualityCheckEvent,
}
use change_quality_agent.Check.Reducer.{
  SopQualityCheckViewState, current_node, is_result, message_node, template,
  append_event_node_message, update_event_node, settle_node, settle_running_nodes, noted,
  reduce_noted, reduce_sop_quality_check_event, run,
}
use change_quality_agent.Check.Nodes.{get-settle, touches, writes}

update_event_node-get :
    (k : String) (s : SopQualityCheckViewState) (e : SopQualityCheckEvent) (status : NodeStatus)
    → (truthy_opt e.node && str_eq (get_or e.node "") k) ≡ false
    → get k (update_event_node s e status).nodes ≡ get k s.nodes
unfolding update_event_node
update_event_node-get k s e status h = elim (Bool-cases (truthy_opt e.node)) [
  | inl named ↦ rw (named, get-put) (ground arith)
  | inr other ↦ rw other
]

append-get :
    (k : String) (s : SopQualityCheckViewState) (e : SopQualityCheckEvent)
    → (truthy_opt e.node && str_eq (get_or e.node "") k && not (is_result e.channel)) ≡ false
    → get k (append_event_node_message s e).nodes ≡ get k s.nodes
unfolding append_event_node_message
append-get k s e h = elim (Bool-cases (truthy_opt e.node)) [
  | inl named ↦ elim (Bool-cases (is_result e.channel)) [
    | inl result ↦ rw (named, result)
    | inr text ↦ rw (named, text, get-put) (ground arith)
  ]
  | inr other ↦ rw other
]

-- `completed` writes every node.
abbrev pub Spares : String → SopQualityCheckEvent → Type 0
Spares k e = (touches k e ≡ false) × (e.type ≢ EventType.completed)

reduce_noted-get :
    (t : EventType) (k : String) (s : SopQualityCheckViewState) (e : SopQualityCheckEvent)
    → (truthy_opt e.node && str_eq (get_or e.node "") k && writes t e.channel) ≡ false
    → t ≢ EventType.completed
    → get k (reduce_noted t s e).nodes ≡ get k s.nodes
unfolding reduce_noted
reduce_noted-get EventType.created k s e h c = refl
reduce_noted-get EventType.messages k s e h c = append-get k s e h
reduce_noted-get EventType.completed k s e h c = absurd (c refl)
reduce_noted-get EventType.started k s e h c = update_event_node-get k s e _ (ground arith)
reduce_noted-get EventType.updates k s e h c = update_event_node-get k s e _ (ground arith)
reduce_noted-get EventType.checkpoint k s e h c = update_event_node-get k s e _ (ground arith)
reduce_noted-get EventType.failed k s e h c = update_event_node-get k s e _ (ground arith)
reduce_noted-get EventType.interrupted k s e h c = update_event_node-get k s e _ (ground arith)

-- Events of other nodes, as long as none is `completed`, leave a node exactly as it was.
pub run-get :
    (k : String) (s : SopQualityCheckViewState) (es : List SopQualityCheckEvent)
    → All (Spares k) es
    → get k (run s es).nodes ≡ get k s.nodes
unfolding run reduce_sop_quality_check_event
run-get k s [] h = refl
run-get k s (e ∷ es) ((t, c), h) =
    run-get k (reduce_noted e.type (noted s e) e) es h ∙ reduce_noted-get e.type k (noted s e) e t c

abbrev is_running_status : NodeStatus → Bool
is_running_status NodeStatus.running = true
is_running_status status = false

-- A running node among those held.
abbrev pub any_running : Dict SopQualityNodeState → Bool
any_running ns = any (λ e. is_running_status e.1.status) ns

settle-is_running : (ns : Dict SopQualityNodeState) → any_running (settle_running_nodes ns) ≡ false
unfolding settle_running_nodes
settle-is_running [] = refl
settle-is_running ((k, n) ∷ ns) = ground (arith, settle-is_running ns)

-- `completed` closes the view and asks for a refresh; each node stays, one that was running is done,
-- and any other is as it was, so that no node is running.
pub reduce-completed :
    (s : SopQualityCheckViewState) (e : SopQualityCheckEvent)
    → e.type ≡ EventType.completed
    → let s' = reduce_sop_quality_check_event s e in
      (s'.is_running ≡ false)
      × (s'.connection_status ≡ ConnectionStatus.closed)
      × (s'.needs_refresh ≡ true)
      × ((k : String) → get k s'.nodes ≡ (get k s.nodes >>= λ n. some (settle_node n)))
      × (any_running s'.nodes ≡ false)
unfolding reduce_sop_quality_check_event reduce_noted
reduce-completed s e h =
    rw h (refl, refl, refl, (λ k. get-settle k s.nodes), settle-is_running s.nodes)

-- A message of the node `k` on no channel.
abbrev pub IsPlain : String → SopQualityCheckEvent → Type 0
IsPlain k e = (e.type ≡ EventType.messages) × (e.channel ≡ none) × (e.node ≡ some k)

-- The text that a node shows, or would start from.
abbrev pub text_at : String → SopQualityCheckViewState → String
text_at k s = template (current_node k s.nodes).stream_text

unfoldable pub messages_of : List SopQualityCheckEvent → String
messages_of [] = ""
messages_of (e ∷ es) = str_append (get_or e.message "") (messages_of es)

reduce-plain :
    (k : String) (s : SopQualityCheckViewState) (e : SopQualityCheckEvent)
    → truthy_opt (some k) ≡ true
    → IsPlain k e
    → text_at k (reduce_sop_quality_check_event s e)
      ≡ str_append (text_at k s) (get_or e.message "")
unfolding reduce_sop_quality_check_event reduce_noted append_event_node_message message_node
    current_node
reduce-plain k s e named (t, c, n) = rw (t, c, n, named) (rw get-put_self)

-- Messages of one node, whose name is not empty, on no channel are joined to its text in their
-- order.
pub run-plain :
    (k : String) (s : SopQualityCheckViewState) (es : List SopQualityCheckEvent)
    → truthy_opt (some k) ≡ true
    → All (IsPlain k) es
    → text_at k (run s es) ≡ str_append (text_at k s) (messages_of es)
unfolding run messages_of
run-plain k s [] named h = sym (append-nil _)
run-plain k s (e ∷ es) named (p, h) =
    run-plain k (reduce_sop_quality_check_event s e) es named h
    ∙ ap (λ t. str_append t (messages_of es)) (reduce-plain k s e named p)
    ∙ append_assoc (text_at k s) (get_or e.message "") (messages_of es)

-- A node named like a member of `Object.prototype`, and not held yet, shows "undefined" and behind
-- it the texts of its messages.
pub run-plain_inherited :
    (k : String) (s : SopQualityCheckViewState) (es : List SopQualityCheckEvent)
    → is_inherited k ≡ true
    → get k s.nodes ≡ none
    → truthy_opt (some k) ≡ true
    → All (IsPlain k) es
    → text_at k (run s es) ≡ str_append "undefined" (messages_of es)
unfolding current_node
run-plain_inherited k s es i g named h = run-plain k s es named h ∙ rw (g, i)
