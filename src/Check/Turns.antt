-- ===== src/Check/Turns.antt =====
-- Which turns are shown of a check.
use change_quality_agent.Base.{
  ℕ, ◌≤◌, String, str_eq, includes, Bool, true, false, ◌&&◌, Option, none, some, is_some,
  Option-cases, Bool-cases, List, [], ◌∷◌, All, ◌≡◌, refl, ap, ◌∙◌, arith, eq_iff, eq_refl, inl,
  inr, if◌then◌else◌,
}
use change_quality_agent.Base.Dict.{Dict, get, has_own, keys, is_inherited}
use change_quality_agent.Base.Sort.{count_if}
use change_quality_agent.Check.Types.{SopQualityNodeState, SopQualityCheckDetail}
use change_quality_agent.Check.Reducer.{SopQualityCheckViewState, get_ordered_node_ids}
use change_quality_agent.Check.Order.{Distinct, count, one_if, count-get_ordered_node_ids}
use change_quality_agent.Check.Observer.{
  AssistantTurn, assistant_turn, turn_with, turn_for, turns_of, ObserverView, is_nil, view_from,
  observer_view, is_running_status,
}

-- Every node has a text.
abbrev pub IsTexted : Dict SopQualityNodeState → Type 0
IsTexted nodes = All (λ e. is_some e.1.stream_text ≡ true) nodes

abbrev pub count_turns : String → List AssistantTurn → ℕ
count_turns k ts = count_if (λ t. str_eq t.node_id k) ts

get-texted :
    (k : String) (nodes : Dict SopQualityNodeState) (n : SopQualityNodeState)
    → IsTexted nodes
    → get k nodes ≡ some n
    → is_some n.stream_text ≡ true
unfolding get
get-texted k [] n h e = absurd cc
get-texted k ((j, m) ∷ nodes) n (p, h) e = ground (arith, p, e, get-texted k nodes n h)

-- The ids that are listed at most once for each node have a node.
listed_own :
    (nodes : Dict SopQualityNodeState) (ids : List String)
    → ((k : String) → count k ids ≤ one_if (has_own k nodes))
    → All (λ id. has_own id nodes ≡ true) ids
listed_own nodes [] h = tt
listed_own nodes (id ∷ ids) h =
    (ground (arith, h id, eq_refl id), listed_own nodes ids (λ k. ground (arith, h k)))

not_texted : (n : SopQualityNodeState) → n.stream_text ≡ none → is_some n.stream_text ≡ true → ⊥
not_texted n e h = ground (arith, e, h)

turn_for-own :
    (id : String) (running : Bool) (found : Option SopQualityNodeState)
    → is_some found ≡ true
    → ((n : SopQualityNodeState) → found ≡ some n → is_some n.stream_text ≡ true)
    → (t : AssistantTurn) × (turn_for id running found ≡ some (t ∷ [])) × (t.node_id ≡ id)
unfolding turn_for turn_with assistant_turn
turn_for-own id running none own texted = absurd cc
turn_for-own id running (some n) own texted = elim (Option-cases n.stream_text) [
  | inl no_text ↦ absurd (not_texted n no_text (texted n refl))
  | inr (text, has_text) ↦ (
    assistant_turn id text n (running && is_running_status n.status),
    rw (has_text, turn_with) refl,
    refl,
  )
]

turns_of-own :
    (s : SopQualityCheckViewState) (ids : List String)
    → IsTexted s.nodes
    → All (λ id. has_own id s.nodes ≡ true) ids
    → (ts : List AssistantTurn) × (turns_of s ids ≡ some ts)
      × ((k : String) → count_turns k ts ≡ count k ids)
unfolding turns_of
turns_of-own s [] h o = ([], refl, λ k. refl)
turns_of-own s (id ∷ ids) h (own, o) =
    let (t, e, at) =
      turn_for-own id s.is_running (get id s.nodes) own
        (λ n found. get-texted id s.nodes n h found) in
    let (ts, es, counts) = turns_of-own s ids h o in
    (t ∷ ts, rw (e, es) refl, λ k. ground (arith, counts k, at))

none_inherited :
    (k : String) (ids : List String)
    → All (λ id. is_inherited id ≡ false) ids
    → (includes k ids && is_inherited k) ≡ false
none_inherited k [] h = refl
none_inherited k (id ∷ ids) (p, h) = elim (Bool-cases (is_inherited k)) [
  | inl bad ↦ ground (arith, p, bad, ap is_inherited, eq_iff id k, none_inherited k ids h)
  | inr fine ↦ ground (arith, fine)
]

is_nil-count : (k : String) (ids : List String) → is_nil ids ≡ true → count k ids ≡ 0
is_nil-count k [] h = refl
is_nil-count k (id ∷ ids) h = absurd cc

module _ (locale_le : String → String → Bool) where
  -- If the registered ids are distinct and none is inherited, if the names of the nodes are distinct
  -- and every node has a text: the view of a check is shown, with one turn for each node and no
  -- other, and it shows the placeholder only if there is no node.
  pub observer_view-turns :
      (detail : SopQualityCheckDetail) (s : SopQualityCheckViewState) (registered : List String)
      → Distinct registered
      → Distinct (keys s.nodes)
      → All (λ id. is_inherited id ≡ false) registered
      → IsTexted s.nodes
      → (v : ObserverView) × (observer_view locale_le detail s registered ≡ some v)
        × ((k : String) → count_turns k v.turns ≡ (if has_own k s.nodes then 1 else 0))
        × ((k : String) → (v.placeholder && has_own k s.nodes) ≡ false)
  unfolding observer_view
  observer_view-turns detail s registered d keys_d plain texted =
      let ids = get_ordered_node_ids locale_le s registered in
      let once : (k : String) → count k ids ≡ (if has_own k s.nodes then 1 else 0) = λ k.
        count-get_ordered_node_ids locale_le k s registered d keys_d
          (none_inherited k registered plain) in
      let (ts, e, counts) =
        turns_of-own s ids texted (listed_own s.nodes ids (λ k. omega (arith, once k))) in
      (
        view_from detail s ids ts,
        rw e refl,
        (λ k. counts k ∙ once k),
        λ k. ground (arith, once k, is_nil-count k ids),
      )
