-- ===== src/Tables/Search.antt =====
-- JavaScript's `text.includes(query)`.
use Prim.Native.String.{String, ◌++◌}
use text.Mathlib.Text.{starts_with}
use text.Mathlib.TextEquality.{starts_with_iff, eq_iff}
use text.Mathlib.TextLemmas.{nil-append, cons-append, append_assoc, append-eq-nil_iff, cons≢nil}
use text.Mathlib.TextPositions.{starts_with-append}
use mathlib.Core.Bool.{Bool, true, ◌||◌}
use mathlib.Core.Path.{◌≡◌, refl, sym, ap, ◌∙◌}
use native.Mathlib.Omega.{arith}
use change_quality_agent.Base.{truthy, Bool-cases, inl, inr}

unfoldable pub contains : String → String → Bool
contains String.[] query = starts_with String.[] query
contains (String.◌∷◌ c s) query = starts_with (String.◌∷◌ c s) query || contains s query

-- The text is something, the query, and something.
abbrev Around : String → String → Type 0
Around s query = (before : String) × (behind : String) × (s ≡ before ++ (query ++ behind))

starts-Around : (s query : String) → starts_with s query ≡ true → Around s query
starts-Around s query h =
    let (behind, e) = (starts_with_iff s query).0 h in ("", behind, sym e ∙ sym (nil-append _))

contains-Around : (s query : String) → contains s query ≡ true → Around s query
unfolding contains
contains-Around String.[] query h = starts-Around String.[] query h
contains-Around (String.◌∷◌ c s) query h = elim (Bool-cases (starts_with (String.◌∷◌ c s) query)) [
  | inl starts ↦ starts-Around (String.◌∷◌ c s) query starts
  | inr not_yet ↦
      let (before, behind, e) = contains-Around s query (ground arith) in
      (String.◌∷◌ c before, behind, ap (String.◌∷◌ c) e ∙ sym (cons-append c before _))
]

starts-contains : (s query : String) → starts_with s query ≡ true → contains s query ≡ true
unfolding contains
starts-contains String.[] query h = h
starts-contains (String.◌∷◌ c s) query h = rw h refl

Around-contains :
    (before query behind : String) → contains (before ++ (query ++ behind)) query ≡ true
unfolding contains
Around-contains String.[] query behind =
    rw nil-append (starts-contains (query ++ behind) query (starts_with-append query behind))
Around-contains (String.◌∷◌ c before) query behind =
    rw cons-append (ground (arith, Around-contains before query behind))

regroup : (a b c d q : String) → (a ++ c) ++ (q ++ (d ++ b)) ≡ a ++ ((c ++ (q ++ d)) ++ b)
regroup a b c d q = simp append_assoc

inside : (a b c d q : String) → contains (a ++ ((c ++ (q ++ d)) ++ b)) q ≡ true
inside a b c d q = rw (← regroup a b c d q) (Around-contains (a ++ c) q (d ++ b))

-- A text that holds a longer query holds each query inside it.
pub contains_trans :
    (s longer shorter : String)
    → contains s longer ≡ true
    → contains longer shorter ≡ true
    → contains s shorter ≡ true
contains_trans s longer shorter h k =
    let (a, b, e) = contains-Around s longer h in
    let (c, d, f) = contains-Around longer shorter k in
    let g = e ∙ ap (λ m. a ++ (m ++ b)) f in ap (λ m. contains m shorter) g ∙ inside a b c d shorter

truthy-nil : (query : String) → starts_with String.[] query ≡ true → truthy query ≡ true → ⊥
truthy-nil query h t =
    let (behind, e) = (starts_with_iff String.[] query).0 h in
    let empty = (append-eq-nil_iff.0 e).0 in ground (arith, eq_iff query "", empty)

-- What holds a text that is not empty is not empty.
pub contains-truthy :
    (s query : String) → contains s query ≡ true → truthy query ≡ true → truthy s ≡ true
unfolding contains
contains-truthy String.[] query h t = absurd (truthy-nil query h t)
contains-truthy (String.◌∷◌ c s) query h t =
    ground (arith, eq_iff (String.◌∷◌ c s) "", cons≢nil {x = c} {xs = s})

pub contains_nothing : (s : String) → contains s "" ≡ true
contains_nothing s =
    ap (λ t. contains t "") (sym (nil-append s) ∙ sym (nil-append (◌++◌ "" s)))
    ∙ Around-contains "" "" s
