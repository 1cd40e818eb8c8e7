-- ===== src/Base/Text/Decimal.antt =====
-- A printed number is made of digits, and tells which number it is.
use Prim.Native.Nat.{ℕ, zero, suc, ◌+◌, ◌-◌, ◌*◌, ◌/◌, ◌%◌, ◌<◌}
use Prim.Native.Char.{code}
use Prim.Native.String.{String, ◌++◌}
use mathlib.Core.Bool.{Bool, true, false, ◌&&◌}
use mathlib.Core.Logic.{inl, inr}
use mathlib.Core.Path.{◌≡◌, refl, ap, ◌∙◌}
use native.Mathlib.Omega.{arith}
use text.Mathlib.TextLemmas.{nil-append, cons-append}
use change_quality_agent.Base.Tests.{ltb, leb, Bool-cases}
use change_quality_agent.Base.Text.{digit, digits_from, decimal}

abbrev pub is_digit : ℕ → Bool
is_digit c = leb 48 c && leb c 57

abbrev pub IsNumeral : String → Type 0
IsNumeral String.[] = Unit
IsNumeral (String.◌∷◌ c s) = (is_digit (code c) ≡ true) × IsNumeral s

IsNumeral-append : (s t : String) → IsNumeral s → IsNumeral t → IsNumeral (s ++ t)
IsNumeral-append String.[] t h k = rw nil-append k
IsNumeral-append (String.◌∷◌ c s) t (h, hs) k = rw cons-append (h, IsNumeral-append s t hs k)

-- The number that is read digit by digit behind `n`.
unfoldable pub value : ℕ → String → ℕ
value n String.[] = n
value n (String.◌∷◌ c s) = value (n * 10 + (code c - 48)) s

value-append : (n : ℕ) (s t : String) → value n (s ++ t) ≡ value (value n s) t
unfolding value
value-append n String.[] t = rw nil-append refl
value-append n (String.◌∷◌ c s) t = rw cons-append (value-append (n * 10 + (code c - 48)) s t)

digit-IsNumeral : (n : ℕ) → IsNumeral (digit n)
unfolding digit
digit-IsNumeral zero = (refl, tt)
digit-IsNumeral (suc zero) = (refl, tt)
digit-IsNumeral (suc (suc zero)) = (refl, tt)
digit-IsNumeral (suc (suc (suc zero))) = (refl, tt)
digit-IsNumeral (suc (suc (suc (suc zero)))) = (refl, tt)
digit-IsNumeral (suc (suc (suc (suc (suc zero))))) = (refl, tt)
digit-IsNumeral (suc (suc (suc (suc (suc (suc zero)))))) = (refl, tt)
digit-IsNumeral (suc (suc (suc (suc (suc (suc (suc zero))))))) = (refl, tt)
digit-IsNumeral (suc (suc (suc (suc (suc (suc (suc (suc zero)))))))) = (refl, tt)
digit-IsNumeral (suc (suc (suc (suc (suc (suc (suc (suc (suc n))))))))) = (refl, tt)

value-digit : (m n : ℕ) → n < 10 → value m (digit n) ≡ m * 10 + n
unfolding digit value
value-digit m zero h = refl
value-digit m (suc zero) h = refl
value-digit m (suc (suc zero)) h = refl
value-digit m (suc (suc (suc zero))) h = refl
value-digit m (suc (suc (suc (suc zero)))) h = refl
value-digit m (suc (suc (suc (suc (suc zero))))) h = refl
value-digit m (suc (suc (suc (suc (suc (suc zero)))))) h = refl
value-digit m (suc (suc (suc (suc (suc (suc (suc zero))))))) h = refl
value-digit m (suc (suc (suc (suc (suc (suc (suc (suc zero)))))))) h = refl
value-digit m (suc (suc (suc (suc (suc (suc (suc (suc (suc zero))))))))) h = refl
value-digit m (suc (suc (suc (suc (suc (suc (suc (suc (suc (suc n)))))))))) h = absurd (omega arith)

digits_from-IsNumeral : (f n : ℕ) → IsNumeral (digits_from f n)
unfolding digits_from
digits_from-IsNumeral zero n = tt
digits_from-IsNumeral (suc f) n = elim (Bool-cases (ltb n 10)) [
  | inl last ↦ rw last (digit-IsNumeral n)
  | inr more ↦ rw more (
      IsNumeral-append (digits_from f (n / 10)) (digit (n % 10)) (digits_from-IsNumeral f (n / 10))
        (digit-IsNumeral (n % 10)))
]

value-digits_from : (f n : ℕ) → n < f → value 0 (digits_from f n) ≡ n
unfolding digits_from
value-digits_from zero n h = absurd (omega arith)
value-digits_from (suc f) n h = elim (Bool-cases (ltb n 10)) [
  | inl last ↦ rw last (value-digit 0 n (ground arith) ∙ omega arith)
  | inr more ↦ rw more (
      value-append 0 (digits_from f (n / 10)) (digit (n % 10))
      ∙ ap (λ m. value m (digit (n % 10))) (value-digits_from f (n / 10) (ground arith))
      ∙ value-digit (n / 10) (n % 10) (omega arith)
      ∙ omega arith)
]

pub decimal-IsNumeral : (n : ℕ) → IsNumeral (decimal n)
unfolding decimal
decimal-IsNumeral n = digits_from-IsNumeral (suc n) n

-- The number that a numeral stands for.
unfoldable pub number_of : String → ℕ
unfolding value
number_of s = value 0 s

pub number_of-decimal : (n : ℕ) → number_of (decimal n) ≡ n
unfolding number_of decimal
number_of-decimal n = value-digits_from (suc n) n (omega arith)

abbrev pub starts_digit : String → Bool
starts_digit String.[] = false
starts_digit (String.◌∷◌ c s) = is_digit (code c)

starts_digit-append : (s t : String) → starts_digit s ≡ true → starts_digit (s ++ t) ≡ true
starts_digit-append String.[] t h = absurd (cc)
starts_digit-append (String.◌∷◌ c s) t h = rw cons-append h

digit-starts_digit : (n : ℕ) → starts_digit (digit n) ≡ true
unfolding digit
digit-starts_digit zero = refl
digit-starts_digit (suc zero) = refl
digit-starts_digit (suc (suc zero)) = refl
digit-starts_digit (suc (suc (suc zero))) = refl
digit-starts_digit (suc (suc (suc (suc zero)))) = refl
digit-starts_digit (suc (suc (suc (suc (suc zero))))) = refl
digit-starts_digit (suc (suc (suc (suc (suc (suc zero)))))) = refl
digit-starts_digit (suc (suc (suc (suc (suc (suc (suc zero))))))) = refl
digit-starts_digit (suc (suc (suc (suc (suc (suc (suc (suc zero)))))))) = refl
digit-starts_digit (suc (suc (suc (suc (suc (suc (suc (suc (suc n))))))))) = refl

digits_from-starts_digit : (f n : ℕ) → starts_digit (digits_from (suc f) n) ≡ true
unfolding digits_from
digits_from-starts_digit zero n = elim (Bool-cases (ltb n 10)) [
  | inl last ↦ rw last (digit-starts_digit n)
  | inr more ↦ rw (more, nil-append) (digit-starts_digit (n % 10))
]
digits_from-starts_digit (suc f) n = elim (Bool-cases (ltb n 10)) [
  | inl last ↦ rw last (digit-starts_digit n)
  | inr more ↦ rw more (
      starts_digit-append (digits_from (suc f) (n / 10)) (digit (n % 10))
        (digits_from-starts_digit f (n / 10)))
]

pub decimal-starts_digit : (n : ℕ) → starts_digit (decimal n) ≡ true
unfolding decimal
decimal-starts_digit n = digits_from-starts_digit n n
