-- ===== src/Check/Projection/View.antt =====
-- The view that `projectSessionStateToSopView` returns.
use change_quality_agent.Base.{
  ℕ, String, join, Bool, true, false, ◌&&◌, ◌||◌, not, Option, none, some, some-eq-some, is_some,
  List, [], any, ◌≡◌, sym, ap, ◌∙◌, arith, Bool-cases, inl, inr, eq_iff, if◌then◌else◌,
}
use change_quality_agent.Base.Dict.{get, has_own, is_inherited, get-nil}
use change_quality_agent.Session.Reducer.{SessionViewState, max_sequence}
use change_quality_agent.Check.Types.{NodeStatus, SopQualityNodeState}
use change_quality_agent.Check.Projection.{
  SopProjection, Grouping, no_groups, group_messages, all_steps, sort_steps, step_node, build_nodes,
  project_session_state_to_sop_view,
}
use change_quality_agent.Check.Projection.Collect.{
  has_step, contents, first_number, breaks, IsConsistent, no_groups-IsConsistent,
}
use change_quality_agent.Check.Projection.Messages.{group_messages-Adds, group_messages_throws}
use change_quality_agent.Check.Projection.Nodes.{
  includes-sort_steps, get-build_nodes, is_live, all_steps-IsConsistent, all_steps-has_own,
}

-- The projection, from the variables that the first loop leaves.
abbrev view_of : SessionViewState → Bool → Grouping → SopProjection
view_of s b g =
    let (g', last) = all_steps s b g in
    record {
      latest_sequence = max_sequence s.latest_sequence s.messages;
      nodes = build_nodes (step_node s b g' last) [] (sort_steps g'.seen_steps g'.first_sequence);
    }

view_lem :
    (s : SessionViewState) (b : Bool) (g : Grouping)
    → group_messages no_groups s.messages ≡ some g
    → project_session_state_to_sop_view s b ≡ some (view_of s b g)
unfolding project_session_state_to_sop_view
view_lem s b g e = rw e

view_of-get :
    (k : String) (s : SessionViewState) (b : Bool) (g : Grouping)
    → IsConsistent g
    → get k (view_of s b g).nodes ≡ (
        if has_own k g.grouped || (b && is_live k s && not (is_inherited k))
        then some (step_node s b (all_steps s b g).0 (all_steps s b g).1 k)
        else none)
unfolding get
view_of-get k s b g c =
    let a = all_steps s b g in
    get-build_nodes (step_node s b a.0 a.1) k [] (sort_steps a.0.seen_steps a.0.first_sequence)
    ∙ ground (
      arith,
      includes-sort_steps k a.0.seen_steps a.0.first_sequence,
      (all_steps-IsConsistent s b g c).seen_grouped k,
      all_steps-has_own k s b g,
    )

-- When some message's step is named like a member of `Object.prototype`, the projection throws.
pub project_throws :
    (s : SessionViewState) (b : Bool)
    → any breaks s.messages ≡ true
    → project_session_state_to_sop_view s b ≡ none
unfolding project_session_state_to_sop_view
project_throws s b h = rw (group_messages_throws s.messages no_groups h no_groups-IsConsistent)

-- When no message's step is named like a member of `Object.prototype`, the projection returns, and
-- shows a node exactly for each step of a message and, while the check runs, for each step with
-- live text or a thinking mark whose name is not inherited.
pub project-shows :
    (s : SessionViewState) (b : Bool)
    → any breaks s.messages ≡ false
    → (r : SopProjection) × (project_session_state_to_sop_view s b ≡ some r)
      × ((k : String)
          → is_some (get k r.nodes)
            ≡ (any (has_step k) s.messages || (b && is_live k s && not (is_inherited k))))
project-shows s b h =
    let (g, e, a) = group_messages-Adds s.messages no_groups h no_groups-IsConsistent in
    (
      view_of s b g,
      view_lem s b g e,
      λ k. ground (arith, view_of-get k s b g a.consistent, a.seen k, get-nil {V = List String} k),
    )

-- When no message's step is named like a member of `Object.prototype`, the projection of a check
-- that is over returns, and shows each step as done, with the contents of its messages joined by
-- line breaks and the number of the first; and nothing for a step that has no message.
pub project-settled :
    (s : SessionViewState)
    → any breaks s.messages ≡ false
    → (r : SopProjection) × (project_session_state_to_sop_view s false ≡ some r)
      × ((k : String)
          → get k r.nodes ≡ (
              if any (has_step k) s.messages
              then some (record {
                status = NodeStatus.done;
                stream_text = some (join "\n" (contents k s.messages));
                thinking_text = none;
                error = none;
                first_sequence = first_number k s.messages;
              })
              else none))
unfolding all_steps step_node
project-settled s h =
    let (g, e, a) = group_messages-Adds s.messages no_groups h no_groups-IsConsistent in
    (
      view_of s false g,
      view_lem s false g e,
      λ k. ground (
        arith,
        view_of-get k s false g a.consistent,
        a.seen k,
        a.texts k,
        a.first k,
        get-nil {V = List String} k,
        get-nil {V = ℕ} k,
      ),
    )

step_node-running :
    (s : SessionViewState) (b : Bool) (g : Grouping) (last : Option String) (k : String)
    → (step_node s b g last k).status ≡ NodeStatus.running
    → (b ≡ true) × (last ≡ some k)
unfolding step_node
step_node-running s b g none k h = ground arith
step_node-running s b g (some last) k h = ground (arith, eq_iff k last)

view_of-running :
    (k : String) (s : SessionViewState) (b : Bool) (g : Grouping) (n : SopQualityNodeState)
    → IsConsistent g
    → get k (view_of s b g).nodes ≡ some n
    → n.status ≡ NodeStatus.running
    → (b ≡ true) × ((all_steps s b g).1 ≡ some k)
view_of-running k s b g n c found h =
    let a = all_steps s b g in
    let here : step_node s b a.0 a.1 k ≡ n = ground (arith, view_of-get k s b g c) in
    step_node-running s b a.0 a.1 k (rw here h)

throw_returns : {r : SopProjection} → none ≡ some r → ⊥
throw_returns h = cc

-- While the check runs at most one node is running, and once it is over none is.
pub project_running_unique :
    (s : SessionViewState) (b : Bool) (r : SopProjection) (j k : String) (m n : SopQualityNodeState)
    → project_session_state_to_sop_view s b ≡ some r
    → get j r.nodes ≡ some m
    → get k r.nodes ≡ some n
    → m.status ≡ NodeStatus.running
    → n.status ≡ NodeStatus.running
    → (b ≡ true) × (j ≡ k)
project_running_unique s b r j k m n e p q x y = elim (Bool-cases (any breaks s.messages)) [
  | inl bad ↦ absurd (throw_returns (sym (project_throws s b bad) ∙ e))
  | inr fine ↦
      let (g, grouped, a) = group_messages-Adds s.messages no_groups fine no_groups-IsConsistent in
      let same : view_of s b g ≡ r = some-eq-some (sym (view_lem s b g grouped) ∙ e) in
      let (on, at_j) =
        view_of-running j s b g m a.consistent (ap (λ t. get j t.nodes) same ∙ p) x in
      let (_, at_k) = view_of-running k s b g n a.consistent (ap (λ t. get k t.nodes) same ∙ q) y in
      (on, some-eq-some (sym at_j ∙ at_k))
]
