-- ===== src/Base/Dict.antt =====
-- JavaScript records with string keys: an object literal `{}` used as a map, in insertion order.
-- An object also answers `in` and `[]` for the names that it inherits from `Object.prototype`.
use Prim.Native.String.{String}
use mathlib.Core.Path.{◌≡◌, refl}
use mathlib.Core.Bool.{Bool, false, ◌||◌}
use mathlib.Core.Option.{Option, none, some}
use mathlib.Core.List.{List, [], ◌∷◌, ◌++◌, map}
use native.Mathlib.Omega.{arith}
use text.Mathlib.TextEquality.{eq_iff}
use text.Mathlib.TextPositions.{eq_refl}
use change_quality_agent.Base.Tests.{if◌then◌else◌, is_some}
use change_quality_agent.Base.Text.{str_eq, includes}

abbrev pub Dict {ℓ} : Type ℓ → Type ℓ
Dict V = List (String × V)

-- The names that every object inherits; none of their values has a `push`.
abbrev pub prototype_names : List String
prototype_names =
    "constructor" ∷ "__defineGetter__" ∷ "__defineSetter__" ∷ "hasOwnProperty" ∷ "__lookupGetter__"
    ∷ "__lookupSetter__" ∷ "isPrototypeOf" ∷ "propertyIsEnumerable" ∷ "toString" ∷ "valueOf"
    ∷ "__proto__" ∷ "toLocaleString" ∷ []

unfoldable pub is_inherited : String → Bool
is_inherited k = includes k prototype_names

module _ {ℓ} {V : Type ℓ} where
  -- The own property `m[k]`.
  unfoldable pub get : String → Dict V → Option V
  get k [] = none
  get k ((j, v) ∷ m) = if str_eq j k then some v else get k m

  -- `{ ...m, [k]: v }`, and `m[k] = v`: an old key keeps its place, a new one comes last.
  unfoldable pub put : String → V → Dict V → Dict V
  put k v [] = (k, v) ∷ []
  put k v ((j, w) ∷ m) = if str_eq j k then (j, v) ∷ m else (j, w) ∷ put k v m

  -- `const { [k]: _, ...rest } = m`
  unfoldable pub remove : String → Dict V → Dict V
  remove k [] = []
  remove k ((j, w) ∷ m) = if str_eq j k then remove k m else (j, w) ∷ remove k m

  -- `Object.keys(m)`
  abbrev pub keys : Dict V → List String
  keys m = map (λ e. e.0) m

  abbrev pub has_own : String → Dict V → Bool
  has_own k m = is_some (get k m)

  -- `k in m`
  abbrev pub has : String → Dict V → Bool
  has k m = has_own k m || is_inherited k

  pub get-nil : (k : String) → ◌≡◌ {A = Option V} (get k []) none
  unfolding get
  get-nil k = refl

  pub get-put :
      (k j : String) (v : V) (m : Dict V)
      → get j (put k v m) ≡ (if str_eq k j then some v else get j m)
  unfolding get put
  get-put k j v [] = refl
  get-put k j v ((i, w) ∷ m) = ground (arith, eq_iff k j, eq_iff i k, eq_iff i j, get-put k j v m)

  pub get-remove :
      (k j : String) (m : Dict V) → get j (remove k m) ≡ (if str_eq k j then none else get j m)
  unfolding get remove
  get-remove k j [] = ground arith
  get-remove k j ((i, w) ∷ m) = ground (arith, eq_iff k j, eq_iff i k, eq_iff i j, get-remove k j m)

  pub has_own-keys : (k : String) (m : Dict V) → has_own k m ≡ includes k (keys m)
  unfolding get
  has_own-keys k [] = refl
  has_own-keys k ((i, w) ∷ m) = ground (arith, has_own-keys k m)

  pub keys-put :
      (k : String) (v : V) (m : Dict V)
      → keys (put k v m) ≡ (if has_own k m then keys m else keys m ++ k ∷ [])
  unfolding get put
  keys-put k v [] = refl
  keys-put k v ((i, w) ∷ m) = ground (arith, keys-put k v m)

  pub get-put_self : (k : String) (v : V) (m : Dict V) → get k (put k v m) ≡ some v
  get-put_self k v m = simp (get-put, eq_refl)

  -- The names of `fields` are distinct, and none is in `base`.
  abbrev pub IsFresh : Dict V → Dict V → Type 0
  IsFresh base [] = Unit
  IsFresh base ((k, v) ∷ fields) = (has_own k base ≡ false) × IsFresh (base ++ (k, v) ∷ []) fields

  -- A new name comes last.
  pub put-fresh :
      (k : String) (v : V) (base : Dict V)
      → has_own k base ≡ false
      → put k v base ≡ base ++ (k, v) ∷ []
  unfolding put get
  put-fresh k v [] h = refl
  put-fresh k v ((j, w) ∷ base) h = ground (arith, put-fresh k v base)
