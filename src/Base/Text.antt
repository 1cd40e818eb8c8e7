-- ===== src/Base/Text.antt =====
-- Text: whole strings are compared and joined, and a number is printed in decimal.
pub mod Decimal
use Prim.Native.Nat.{ℕ, zero, suc, ◌/◌, ◌%◌}
use Prim.Native.String.{String, ◌++◌}
use mathlib.Core.Bool.{Bool, false, not}
use mathlib.Core.List.{List}
use mathlib.Core.Option.{Option, none, some}
use text.Mathlib.Text.{◌==◌}
use change_quality_agent.Base.Tests.{ltb, if◌then◌else◌}
use change_quality_agent.Base.Lists.{any}

-- `===` on strings
abbrev pub str_eq : String → String → Bool
str_eq s t = s == t

-- the template `${s}${t}`
abbrev pub str_append : String → String → String
str_append s t = s ++ t

-- A string is true in a test unless it is empty.
abbrev pub truthy : String → Bool
truthy s = not (s == "")

-- So is a `string | null | undefined`.
abbrev pub truthy_opt : Option String → Bool
truthy_opt none = false
truthy_opt (some s) = truthy s

-- `xs.includes(s)`
abbrev pub includes : String → List String → Bool
includes s xs = any (λ x. x == s) xs

-- `xs.join(sep)`
abbrev pub join : String → List String → String
join sep List.[] = ""
join sep (List.◌∷◌ x List.[]) = x
join sep (List.◌∷◌ x (List.◌∷◌ y ys)) = x ++ (sep ++ join sep (List.◌∷◌ y ys))

digit : ℕ → String
digit zero = "0"
digit (suc zero) = "1"
digit (suc (suc zero)) = "2"
digit (suc (suc (suc zero))) = "3"
digit (suc (suc (suc (suc zero)))) = "4"
digit (suc (suc (suc (suc (suc zero))))) = "5"
digit (suc (suc (suc (suc (suc (suc zero)))))) = "6"
digit (suc (suc (suc (suc (suc (suc (suc zero))))))) = "7"
digit (suc (suc (suc (suc (suc (suc (suc (suc zero)))))))) = "8"
digit _ = "9"

-- The fuel is at least the number of digits.
digits_from : ℕ → ℕ → String
digits_from zero n = ""
digits_from (suc f) n =
    let rest = digits_from f (n / 10) in if ltb n 10 then digit n else rest ++ digit (n % 10)

-- `${n}` for a natural number
unfoldable pub decimal : ℕ → String
unfolding digit digits_from
decimal n = digits_from (suc n) n
