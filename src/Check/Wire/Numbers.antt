-- ===== src/Check/Wire/Numbers.antt =====
-- `Number.parseInt(text, 10)` of the number of an event, and events that are written and read back.
use Prim.Native.Char.{code}
use Prim.Native.String.{String}
use change_quality_agent.Base.{
  ℕ, ◌+◌, ◌-◌, ◌*◌, ◌==◌, decimal, true, false, Option, none, some, ◌≡◌, refl, ap, ◌∙◌, arith,
  if◌then◌else◌,
}
use change_quality_agent.Base.Scan.{is_blank, trim_start}
use change_quality_agent.Base.Text.Decimal.{
  is_digit, IsNumeral, decimal-IsNumeral, value, number_of, number_of-decimal, starts_digit,
  decimal-starts_digit,
}

-- The number that the digits at the start of the text make, behind `n`.
unfoldable pub read_digits : ℕ → String → ℕ
read_digits n String.[] = n
read_digits n (String.◌∷◌ c s) =
    let rest = read_digits (n * 10 + (code c - 48)) s in if is_digit (code c) then rest else n

abbrev pub unsigned : String → Option ℕ
unsigned s = if starts_digit s then some (read_digits 0 s) else none

-- A number below 0 is given as 0: a cursor, which is the greater of the two, is the same.
abbrev pub not_above_zero : Option ℕ → Option ℕ
not_above_zero none = none
not_above_zero (some n) = some 0

abbrev pub signed : String → Option ℕ
signed String.[] = none
signed (String.◌∷◌ c s) =
    if code c == b'-'
    then not_above_zero (unsigned s)
    else if code c == b'+'
    then unsigned s
    else unsigned (String.◌∷◌ c s)

-- White space, a sign, and the digits up to what is none; `none` is NaN.
unfoldable pub parse_int : String → Option ℕ
unfolding read_digits trim_start is_blank
parse_int s = signed (trim_start s)

read_digits-value : (n : ℕ) (s : String) → IsNumeral s → read_digits n s ≡ value n s
unfolding read_digits value
read_digits-value n String.[] h = refl
read_digits-value n (String.◌∷◌ c s) (h, hs) =
    rw h (read_digits-value (n * 10 + (code c - 48)) s hs)

digit-solid : (c : ℕ) → is_digit c ≡ true → is_blank c ≡ false
unfolding is_blank
digit-solid c h = ground arith

signed-digit : (s : String) → starts_digit s ≡ true → signed (trim_start s) ≡ some (read_digits 0 s)
unfolding trim_start
signed-digit String.[] h = absurd (cc)
signed-digit (String.◌∷◌ c s) h = rw (digit-solid (code c) h) (ground arith)

-- The printed form of a number is read as that number.
pub parse_int-decimal : (n : ℕ) → parse_int (decimal n) ≡ some n
unfolding parse_int value number_of
parse_int-decimal n =
    signed-digit (decimal n) (decimal-starts_digit n)
    ∙ ap some (read_digits-value 0 (decimal n) (decimal-IsNumeral n) ∙ number_of-decimal n)
