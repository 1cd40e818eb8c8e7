-- ===== src/Check/Nodes.antt =====
-- How the events of a check change its nodes: reducer.ts.
use change_quality_agent.Base.{
  ℕ, String, str_eq, truthy_opt, Bool, true, false, ◌&&◌, not, Option, none, some, get_or, or_else,
  List, [], ◌∷◌, ◌≡◌, refl, ap, ◌∙◌, arith, Bool-cases, inl, inr, eq_iff, if◌then◌else◌, ◌>>=◌,
}
use change_quality_agent.Base.Dict.{Dict, get, put, get-put}
use change_quality_agent.Check.Types.{
  NodeStatus, SopQualityNodeState, EventType, Channel, SopQualityCheckEvent,
}
use change_quality_agent.Check.Reducer.{
  SopQualityCheckViewState, current_node, is_result, message_node, append_event_node_message,
  update_event_node, settle_node, settle_running_nodes, noted, reduce_noted,
  reduce_sop_quality_check_event, run,
}

-- Events of this type write their node.
abbrev pub writes : EventType → Option Channel → Bool
writes EventType.checkpoint c = true
writes EventType.started c = true
writes EventType.messages c = not (is_result c)
writes EventType.updates c = true
writes EventType.failed c = true
writes EventType.interrupted c = true
writes _ c = false

-- The event writes the node `k`.
abbrev pub touches : String → SopQualityCheckEvent → Bool
touches k e = truthy_opt e.node && str_eq (get_or e.node "") k && writes e.type e.channel

abbrev pub first_of : String → Dict SopQualityNodeState → Option ℕ
first_of k nodes = get k nodes >>= λ n. n.first_sequence

abbrev pub first_seen : String → SopQualityCheckViewState → Option ℕ
first_seen k s = first_of k s.nodes

-- The number of the first event that writes `k`.
unfoldable pub first_touch : String → List SopQualityCheckEvent → Option ℕ
first_touch k [] = none
first_touch k (e ∷ es) = if touches k e then some e.sequence else first_touch k es

pub get-settle :
    (k : String) (nodes : Dict SopQualityNodeState)
    → get k (settle_running_nodes nodes) ≡ (get k nodes >>= λ n. some (settle_node n))
unfolding settle_running_nodes get
get-settle k [] = refl
get-settle k ((j, n) ∷ nodes) = ground (arith, get-settle k nodes)

settle-first_of :
    (k : String) (nodes : Dict SopQualityNodeState)
    → first_of k (settle_running_nodes nodes) ≡ first_of k nodes
settle-first_of k nodes = rw get-settle (ground arith)

current_node-first :
    (k : String) (nodes : Dict SopQualityNodeState)
    → (current_node k nodes).first_sequence ≡ first_of k nodes
unfolding current_node
current_node-first k nodes = ground arith

-- Writing a node that keeps a known first number, and otherwise takes `q`.
write-first_of :
    (id k : String) (n : SopQualityNodeState) (q : ℕ) (nodes : Dict SopQualityNodeState)
    → n.first_sequence ≡ or_else (current_node id nodes).first_sequence (some q)
    → first_of k (put id n nodes)
      ≡ (if str_eq id k then or_else (first_of k nodes) (some q) else first_of k nodes)
write-first_of id k n q nodes h =
    ground (arith, get-put id k n nodes, eq_iff id k, current_node-first id nodes)

update_event_node-first_seen :
    (k : String) (s : SopQualityCheckViewState) (e : SopQualityCheckEvent) (status : NodeStatus)
    → first_seen k (update_event_node s e status) ≡ (
        if truthy_opt e.node && str_eq (get_or e.node "") k
        then or_else (first_seen k s) (some e.sequence)
        else first_seen k s)
unfolding update_event_node
update_event_node-first_seen k s e status = elim (Bool-cases (truthy_opt e.node)) [
  | inl named ↦ rw named (write-first_of (get_or e.node "") k _ e.sequence s.nodes refl)
  | inr other ↦ rw other
]

message_node-first :
    (c : Option Channel) (n : SopQualityNodeState) (e : SopQualityCheckEvent)
    → is_result c ≡ false
    → (message_node c n e).first_sequence ≡ or_else n.first_sequence (some e.sequence)
unfolding message_node
message_node-first none n e h = refl
message_node-first (some Channel.thinking) n e h = refl
message_node-first (some Channel.summary) n e h = refl
message_node-first (some Channel.result) n e h = cc

append-first_seen :
    (k : String) (s : SopQualityCheckViewState) (e : SopQualityCheckEvent)
    → first_seen k (append_event_node_message s e) ≡ (
        if truthy_opt e.node && str_eq (get_or e.node "") k && not (is_result e.channel)
        then or_else (first_seen k s) (some e.sequence)
        else first_seen k s)
unfolding append_event_node_message
append-first_seen k s e = elim (Bool-cases (truthy_opt e.node)) [
  | inl named ↦ elim (Bool-cases (is_result e.channel)) [
    | inl result ↦ ground arith
    | inr text ↦
        rw (named, text)
          (write-first_of (get_or e.node "") k _ e.sequence s.nodes
              (message_node-first e.channel _ e text)
            ∙ ground arith)
  ]
  | inr other ↦ rw other
]

reduce_noted-first_seen :
    (t : EventType) (k : String) (s : SopQualityCheckViewState) (e : SopQualityCheckEvent)
    → first_seen k (reduce_noted t s e) ≡ (
        if truthy_opt e.node && str_eq (get_or e.node "") k && writes t e.channel
        then or_else (first_seen k s) (some e.sequence)
        else first_seen k s)
unfolding reduce_noted
reduce_noted-first_seen EventType.created k s e = ground arith
reduce_noted-first_seen EventType.started k s e =
    ground (arith, update_event_node-first_seen k s e NodeStatus.running)
reduce_noted-first_seen EventType.messages k s e = append-first_seen k s e
reduce_noted-first_seen EventType.updates k s e =
    ground (arith, update_event_node-first_seen k s e NodeStatus.running)
reduce_noted-first_seen EventType.checkpoint k s e =
    ground (arith, update_event_node-first_seen k s e NodeStatus.done)
reduce_noted-first_seen EventType.completed k s e = ground (arith, settle-first_of k s.nodes)
reduce_noted-first_seen EventType.failed k s e =
    ground (arith, update_event_node-first_seen k s e NodeStatus.error)
reduce_noted-first_seen EventType.interrupted k s e =
    ground (arith, update_event_node-first_seen k s e NodeStatus.interrupted)

reduce-first_seen :
    (k : String) (s : SopQualityCheckViewState) (e : SopQualityCheckEvent)
    → first_seen k (reduce_sop_quality_check_event s e)
      ≡ (if touches k e then or_else (first_seen k s) (some e.sequence) else first_seen k s)
unfolding reduce_sop_quality_check_event
reduce-first_seen k s e = reduce_noted-first_seen e.type k (noted s e) e

or_else-some :
    (b : Bool) (o p : Option ℕ) (q : ℕ)
    → or_else (if b then or_else o (some q) else o) p ≡ or_else o (if b then some q else p)
or_else-some true none p q = refl
or_else-some true (some x) p q = refl
or_else-some false o p q = refl

-- After any events, the first number of a node is the one that it had, and otherwise that of the
-- first event that wrote it: no later event moves it.
pub run-first_seen :
    (k : String) (s : SopQualityCheckViewState) (es : List SopQualityCheckEvent)
    → first_seen k (run s es) ≡ or_else (first_seen k s) (first_touch k es)
unfolding run first_touch
run-first_seen k s [] = ground arith
run-first_seen k s (e ∷ es) =
    run-first_seen k (reduce_sop_quality_check_event s e) es
    ∙ ap (λ o. or_else o (first_touch k es)) (reduce-first_seen k s e)
    ∙ or_else-some (touches k e) (first_seen k s) (first_touch k es) e.sequence
