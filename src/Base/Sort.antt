-- ===== src/Base/Sort.antt =====
-- `Array.prototype.sort` with a comparator: a stable sort, here by insertion from the right.
use Prim.Native.Nat.{ℕ, suc}
use mathlib.Core.Path.{◌≡◌, refl, ◌∙◌}
use mathlib.Core.Bool.{Bool, true, false}
use mathlib.Core.Logic.{◌⊎◌, inl, inr}
use mathlib.Core.List.{List, [], ◌∷◌}
use native.Mathlib.Omega.{arith}
use change_quality_agent.Base.Tests.{if◌then◌else◌, Bool-cases}
use change_quality_agent.Base.Lists.{All, any}

-- `le a b` is `compare(a, b) <= 0`.
module _ {ℓ} {A : Type ℓ} (le : A → A → Bool) where
  unfoldable pub insert_by : A → List A → List A
  insert_by x [] = x ∷ []
  insert_by x (y ∷ ys) = if le x y then x ∷ y ∷ ys else y ∷ insert_by x ys

  unfoldable pub sort_by : List A → List A
  unfolding insert_by
  sort_by [] = []
  sort_by (x ∷ xs) = insert_by x (sort_by xs)

  -- Each element is at most every later one.
  abbrev pub IsOrdered : List A → Type ℓ
  IsOrdered [] = Unit
  IsOrdered (x ∷ xs) = All (λ y. le x y ≡ true) xs × IsOrdered xs

-- How many elements pass a test.
module _ {ℓ} {A : Type ℓ} where
  abbrev pub count_if : (A → Bool) → List A → ℕ
  count_if p [] = 0
  count_if p (x ∷ xs) = if p x then suc (count_if p xs) else count_if p xs

  insert_by-count_if :
      (le : A → A → Bool) (p : A → Bool) (x : A) (ys : List A)
      → count_if p (insert_by le x ys) ≡ count_if p (x ∷ ys)
  unfolding insert_by
  insert_by-count_if le p x [] = refl
  insert_by-count_if le p x (y ∷ ys) = ground (arith, insert_by-count_if le p x ys)

  -- A sort keeps every element, as often as it stood there.
  pub sort_by-count_if :
      (le : A → A → Bool) (p : A → Bool) (xs : List A) → count_if p (sort_by le xs) ≡ count_if p xs
  unfolding sort_by
  sort_by-count_if le p [] = refl
  sort_by-count_if le p (x ∷ xs) =
      insert_by-count_if le p x (sort_by le xs) ∙ ground (arith, sort_by-count_if le p xs)

  insert_by-any :
      (le : A → A → Bool) (p : A → Bool) (x : A) (ys : List A)
      → any p (insert_by le x ys) ≡ any p (x ∷ ys)
  unfolding insert_by
  insert_by-any le p x [] = refl
  insert_by-any le p x (y ∷ ys) = ground (arith, insert_by-any le p x ys)

  pub sort_by-any :
      (le : A → A → Bool) (p : A → Bool) (xs : List A) → any p (sort_by le xs) ≡ any p xs
  unfolding sort_by
  sort_by-any le p [] = refl
  sort_by-any le p (x ∷ xs) =
      insert_by-any le p x (sort_by le xs) ∙ ground (arith, sort_by-any le p xs)

  insert_by-All {κ} :
      (le : A → A → Bool) (P : A → Type κ) (x : A) (ys : List A)
      → P x
      → All P ys
      → All P (insert_by le x ys)
  unfolding insert_by
  insert_by-All le P x [] h k = (h, tt)
  insert_by-All le P x (y ∷ ys) h (p, k) = elim (Bool-cases (le x y)) [
    | inl small ↦ rw small (h, (p, k))
    | inr large ↦ rw large (p, insert_by-All le P x ys h k)
  ]

-- The comparator of a total preorder.
module _ {ℓ} {A : Type ℓ} (le : A → A → Bool)
    (total : (a b : A) → (le a b ≡ true) ⊎ (le b a ≡ true))
    (trans : (a b c : A) → le a b ≡ true → le b c ≡ true → le a c ≡ true) where
  All-trans :
      (x y : A) (ys : List A)
      → le x y ≡ true
      → All (λ z. le y z ≡ true) ys
      → All (λ z. le x z ≡ true) ys
  All-trans x y [] h k = tt
  All-trans x y (z ∷ ys) h (p, k) = (trans x y z h p, All-trans x y ys h k)

  flip : (x y : A) → le x y ≡ false → le y x ≡ true
  flip x y h = ground (arith, total x y)

  insert_by-IsOrdered : (x : A) (ys : List A) → IsOrdered le ys → IsOrdered le (insert_by le x ys)
  unfolding insert_by
  insert_by-IsOrdered x [] o = (tt, tt)
  insert_by-IsOrdered x (y ∷ ys) (h, o) = elim (Bool-cases (le x y)) [
    | inl small ↦ rw small ((small, All-trans x y ys small h), (h, o))
    | inr large ↦
        rw large (
          insert_by-All le (λ z. le y z ≡ true) x ys (flip x y large) h,
          insert_by-IsOrdered x ys o,
        )
  ]

  pub sort_by-IsOrdered : (xs : List A) → IsOrdered le (sort_by le xs)
  unfolding sort_by
  sort_by-IsOrdered [] = tt
  sort_by-IsOrdered (x ∷ xs) = insert_by-IsOrdered x (sort_by le xs) (sort_by-IsOrdered xs)
