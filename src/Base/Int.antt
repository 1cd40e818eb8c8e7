-- ===== src/Base/Int.antt =====
-- Whole numbers, as the client computes with them: coordinates may be negative.
use Prim.Native.Nat.{ℕ, ◌+◌, ◌-◌}
use mathlib.Core.Bool.{Bool, true, false}
use change_quality_agent.Base.Tests.{if◌then◌else◌, leb}

-- `negsuc n` is the number -(n + 1).
pub data ℤ : Type 0 where
  pos negsuc : ℕ → ℤ

-- `m - n` of two numbers that are not negative
abbrev pub difference : ℕ → ℕ → ℤ
difference m n = if leb n m then pos (m - n) else negsuc (n - m - 1)

abbrev pub plus : ℤ → ℕ → ℤ
plus (pos m) n = pos (m + n)
plus (negsuc m) n = difference n (m + 1)

abbrev pub minus : ℤ → ℕ → ℤ
minus (pos m) n = difference m n
minus (negsuc m) n = negsuc (m + n)

abbrev pub at_most : ℤ → ℤ → Bool
at_most (pos m) (pos n) = leb m n
at_most (pos m) (negsuc n) = false
at_most (negsuc m) (pos n) = true
at_most (negsuc m) (negsuc n) = leb n m

-- `Math.max` and `Math.min`
abbrev pub greater : ℤ → ℤ → ℤ
greater a b = if at_most a b then b else a

abbrev pub lesser : ℤ → ℤ → ℤ
lesser a b = if at_most a b then a else b
