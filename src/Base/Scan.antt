-- ===== src/Base/Scan.antt =====
-- What JavaScript's `trim`, `split(/\r?\n/)`, `indexOf` and `slice` do to a text.
pub mod Laws
use Prim.Native.Char.{Char, code}
use Prim.Native.String.{String}
use Prim.Native.Nat.{ℕ}
use mathlib.Core.Bool.{Bool, true, false, not, ◌&&◌, ◌||◌}
use mathlib.Core.List.{List}
use mathlib.Core.Option.{Option, none, some}
use change_quality_agent.Base.Tests.{leb, ◌==◌, if◌then◌else◌}

-- The white space and line ends that `trim` takes away.
unfoldable pub is_blank : ℕ → Bool
is_blank c =
    (leb 9 c && leb c 13)
    || c == 32
    || c == 160
    || c == 5760
    || (leb 8192 c && leb c 8202)
    || c == 8232
    || c == 8233
    || c == 8239
    || c == 8287
    || c == 12288
    || c == 65279

abbrev pub is_space : Char → Bool
is_space c = is_blank (code c)

unfoldable pub trim_start : String → String
trim_start String.[] = String.[]
trim_start (String.◌∷◌ c s) = let rest = trim_start s in if is_space c then rest else String.◌∷◌ c s

-- `c` in front of a text whose end is trimmed.
abbrev pub keep_before : Char → String → String
keep_before c String.[] = if is_space c then String.[] else String.◌∷◌ c String.[]
keep_before c (String.◌∷◌ d s) = String.◌∷◌ c (String.◌∷◌ d s)

unfoldable pub trim_end : String → String
trim_end String.[] = String.[]
trim_end (String.◌∷◌ c s) = keep_before c (trim_end s)

unfoldable pub trim : String → String
unfolding is_blank trim_start trim_end
trim s = trim_end (trim_start s)

-- `c` in front of the first line.
abbrev pub cons_first : Char → List String → List String
cons_first c List.[] = List.◌∷◌ (String.◌∷◌ c String.[]) List.[]
cons_first c (List.◌∷◌ l ls) = List.◌∷◌ (String.◌∷◌ c l) ls

abbrev pub is_code : ℕ → Char → Bool
is_code n c = code c == n

abbrev pub starts_newline : String → Bool
starts_newline String.[] = false
starts_newline (String.◌∷◌ c s) = is_code 10 c

-- `s.split(/\r?\n/)`: a carriage return goes with the line feed behind it.
unfoldable pub split_lines : String → List String
split_lines String.[] = List.◌∷◌ String.[] List.[]
split_lines (String.◌∷◌ c s) =
    let rest = split_lines s in
    if is_code 10 c
    then List.◌∷◌ String.[] rest
    else if is_code 13 c && starts_newline s
    then rest
    else cons_first c rest

-- The text before and behind the first "=": `slice(0, i)` and `slice(i + 1)` for `i = indexOf("=")`.
unfoldable pub cut : String → Option (String × String)
cut String.[] = none
cut (String.◌∷◌ c s) =
    let rest = cut s in
    if is_code 61 c
    then some (String.[], s)
    else elim rest [ none ↦ none | some (before, behind) ↦ some (String.◌∷◌ c before, behind) ]
