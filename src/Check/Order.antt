-- ===== src/Check/Order.antt =====
-- The order in which the nodes are shown: `getOrderedNodeIds` of reducer.ts.
use change_quality_agent.Base.{
  ℕ, ◌+◌, String, str_eq, includes, Bool, true, false, ◌&&◌, not, List, [], ◌∷◌, ◌++◌, map, filter,
  ◌≡◌, ◌⊎◌, refl, ◌∙◌, arith, eq_iff, if◌then◌else◌,
}
use change_quality_agent.Base.Dict.{Dict, keys, has, has_own, has_own-keys, is_inherited}
use change_quality_agent.Base.Sort.{
  count_if, sort_by, sort_by-count_if, sort_by-IsOrdered, IsOrdered,
}
use change_quality_agent.Check.Types.{SopQualityNodeState}
use change_quality_agent.Check.Reducer.{SopQualityCheckViewState, node_le, get_ordered_node_ids}

-- No text stands twice.
abbrev pub Distinct : List String → Type 0
Distinct [] = Unit
Distinct (x ∷ xs) = (includes x xs ≡ false) × Distinct xs

abbrev pub count : String → List String → ℕ
count k xs = count_if (λ x. str_eq x k) xs

abbrev pub one_if : Bool → ℕ
one_if b = if b then 1 else 0

count-filter :
    (p : String → Bool) (k : String) (xs : List String)
    → Distinct xs
    → count k (filter p xs) ≡ one_if (includes k xs && p k)
count-filter p k [] d = refl
count-filter p k (x ∷ xs) (fresh, d) = ground (arith, count-filter p k xs d, eq_iff x k)

module _ {ℓ} {A : Type ℓ} where
  pub count_if-append :
      (p : A → Bool) (xs ys : List A) → count_if p (xs ++ ys) ≡ count_if p xs + count_if p ys
  count_if-append p [] ys = omega arith
  count_if-append p (x ∷ xs) ys = ground (arith, count_if-append p xs ys)

  pub count_if-map {κ} :
      {B : Type κ} (f : B → A) (p : A → Bool) (xs : List B)
      → count_if p (map f xs) ≡ count_if (λ x. p (f x)) xs
  count_if-map f p [] = refl
  count_if-map f p (x ∷ xs) = ground (arith, count_if-map f p xs)

count_if-filter-keys :
    (p : String → Bool) (k : String) (nodes : Dict SopQualityNodeState)
    → count_if (λ e. str_eq e.0 k) (filter (λ e. p e.0) nodes) ≡ count k (filter p (keys nodes))
count_if-filter-keys p k [] = refl
count_if-filter-keys p k (e ∷ nodes) = ground (arith, count_if-filter-keys p k nodes)

module _ (locale_le : String → String → Bool) where
  -- Each node is listed exactly once, and nothing else is, if the registered ids and the names of
  -- the nodes are distinct, and the id in question is not registered under the name of a member of
  -- `Object.prototype`.
  pub count-get_ordered_node_ids :
      (k : String) (s : SopQualityCheckViewState) (registered : List String)
      → Distinct registered
      → Distinct (keys s.nodes)
      → (includes k registered && is_inherited k) ≡ false
      → count k (get_ordered_node_ids locale_le s registered) ≡ (if has_own k s.nodes then 1 else 0)
  unfolding get_ordered_node_ids
  count-get_ordered_node_ids k s registered d keys_d plain =
      let unlisted : String → Bool = λ id. not (includes id registered) in
      let unknown = filter (λ e. unlisted e.0) s.nodes in
      count_if-append (λ x. str_eq x k) (filter (λ id. has id s.nodes) registered)
        (map (λ e. e.0) (sort_by (node_le locale_le) unknown))
      ∙ ground (
        arith,
        count-filter (λ id. has id s.nodes) k registered d,
        count_if-map (λ e. e.0) (λ x. str_eq x k) (sort_by (node_le locale_le) unknown),
        sort_by-count_if (node_le locale_le) (λ e. str_eq e.0 k) unknown,
        count_if-filter-keys unlisted k s.nodes,
        count-filter unlisted k (keys s.nodes) keys_d,
        has_own-keys k s.nodes,
      )

-- `localeCompare` is a total preorder on the texts.
module _ (locale_le : String → String → Bool)
    (total : (a b : String) → (locale_le a b ≡ true) ⊎ (locale_le b a ≡ true))
    (trans : (a b c : String)
      → locale_le a b ≡ true
      → locale_le b c ≡ true
      → locale_le a c ≡ true) where
  node_le-total :
      (a b : String × SopQualityNodeState)
      → (node_le locale_le a b ≡ true) ⊎ (node_le locale_le b a ≡ true)
  node_le-total (i, a) (j, b) = ground (arith, total i j)

  node_le_trans :
      (a b c : String × SopQualityNodeState)
      → node_le locale_le a b ≡ true
      → node_le locale_le b c ≡ true
      → node_le locale_le a c ≡ true
  node_le_trans (i, a) (j, b) (k, c) p q = ground (arith, trans i j k)

  -- If `localeCompare` is total and transitive: the registered ids that have a node come first, in
  -- the order registered. Behind them stand the ids of the other nodes by their first number, the
  -- nodes without one last, and by `localeCompare` where the numbers agree; no other node is lost
  -- or repeated.
  pub get_ordered_node_ids-IsOrdered :
      (s : SopQualityCheckViewState) (registered : List String)
      → (unknown : Dict SopQualityNodeState) × (get_ordered_node_ids locale_le s registered
          ≡ filter (λ id. has id s.nodes) registered ++ keys unknown)
        × IsOrdered (node_le locale_le) unknown
        × ((p : String × SopQualityNodeState → Bool)
            → count_if p unknown ≡ count_if p (filter (λ e. not (includes e.0 registered)) s.nodes))
  unfolding get_ordered_node_ids
  get_ordered_node_ids-IsOrdered s registered =
      let others = filter (λ e. not (includes e.0 registered)) s.nodes in
      (
        sort_by (node_le locale_le) others,
        refl,
        sort_by-IsOrdered (node_le locale_le) node_le-total node_le_trans others,
        λ p. sort_by-count_if (node_le locale_le) p others,
      )
