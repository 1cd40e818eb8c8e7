-- ===== src/Base/Scan/Laws.antt =====
-- Trimming and splitting what was joined.
use Prim.Native.Char.{Char}
use Prim.Native.String.{String, ◌++◌}
use Prim.Native.Nat.{ℕ}
use mathlib.Core.Path.{◌≡◌, refl, ap, ◌∙◌}
use mathlib.Core.Bool.{Bool, true, false, not}
use mathlib.Core.List.{List}
use mathlib.Core.Option.{some}
use native.Mathlib.Omega.{arith}
use text.Mathlib.TextLemmas.{nil-append, cons-append, cons≢nil}
use text.Mathlib.TextEquality.{eq_iff}
use change_quality_agent.Base.Lists.{All}
use change_quality_agent.Base.Text.{join, truthy}
use change_quality_agent.Base.Scan.{
  is_space, trim_start, keep_before, trim_end, trim, is_code, starts_newline, split_lines, cut,
}

-- No character of the text has that code.
abbrev pub Lacks : ℕ → String → Type 0
Lacks n String.[] = Unit
Lacks n (String.◌∷◌ c s) = (is_code n c ≡ false) × Lacks n s

-- Not empty, and the first character is no white space.
abbrev pub starts_solid : String → Bool
starts_solid String.[] = false
starts_solid (String.◌∷◌ c s) = not (is_space c)

-- The text has no white space at its end.
abbrev pub IsEndTrimmed : String → Type 0
IsEndTrimmed s = trim_end s ≡ s

trim_start-solid : (s : String) → starts_solid s ≡ true → trim_start s ≡ s
unfolding trim_start
trim_start-solid String.[] h = refl
trim_start-solid (String.◌∷◌ c s) h = ground arith

pub trim-solid : (s : String) → starts_solid s ≡ true → IsEndTrimmed s → trim s ≡ s
unfolding trim
trim-solid s h e = ap trim_end (trim_start-solid s h) ∙ e

keep_before-solid : (c : Char) (s : String) → is_space c ≡ false → keep_before c s ≡ String.◌∷◌ c s
keep_before-solid c String.[] h = rw h refl
keep_before-solid c (String.◌∷◌ d s) h = refl

keep_before-append :
    (d : Char) (s : String) (c : Char) (t : String)
    → keep_before d (s ++ String.◌∷◌ c t) ≡ String.◌∷◌ d (s ++ String.◌∷◌ c t)
keep_before-append d String.[] c t = rw nil-append refl
keep_before-append d (String.◌∷◌ e s) c t = rw cons-append refl

-- A character that is no white space keeps everything before it.
pub trim_end-append :
    (s : String) (c : Char) (t : String)
    → is_space c ≡ false
    → trim_end (s ++ String.◌∷◌ c t) ≡ s ++ String.◌∷◌ c (trim_end t)
unfolding trim_end
trim_end-append String.[] c t h =
    rw (nil-append (String.◌∷◌ c t), nil-append (String.◌∷◌ c (trim_end t)))
      (keep_before-solid c (trim_end t) h)
trim_end-append (String.◌∷◌ d s) c t h =
    rw (cons-append d s (String.◌∷◌ c t), cons-append d s (String.◌∷◌ c (trim_end t)))
      (ap (keep_before d) (trim_end-append s c t h) ∙ keep_before-append d s c (trim_end t))

pub cut-append :
    (s : String) (c : Char) (t : String)
    → Lacks 61 s
    → is_code 61 c ≡ true
    → cut (s ++ String.◌∷◌ c t) ≡ some (s, t)
unfolding cut
cut-append String.[] c t h e = rw nil-append (ground arith)
cut-append (String.◌∷◌ d s) c t (h, hs) e = rw cons-append (ground (arith, cut-append s c t hs e))

Lacks-starts_newline : (s : String) → Lacks 10 s → starts_newline s ≡ false
Lacks-starts_newline String.[] h = refl
Lacks-starts_newline (String.◌∷◌ c s) (h, hs) = h

pub split_lines-line : (s : String) → Lacks 10 s → split_lines s ≡ List.◌∷◌ s List.[]
unfolding split_lines
split_lines-line String.[] h = refl
split_lines-line (String.◌∷◌ c s) (h, hs) =
    ground (arith, split_lines-line s hs, Lacks-starts_newline s hs)

-- A line feed ends a line that has neither a line feed nor a carriage return.
pub split_lines-append :
    (s : String) (c : Char) (t : String)
    → Lacks 10 s
    → Lacks 13 s
    → is_code 10 c ≡ true
    → split_lines (s ++ String.◌∷◌ c t) ≡ List.◌∷◌ s (split_lines t)
unfolding split_lines
split_lines-append String.[] c t h k e = rw nil-append (ground arith)
split_lines-append (String.◌∷◌ d s) c t (h, hs) (k, ks) e =
    rw cons-append (ground (arith, split_lines-append s c t hs ks e))

-- No line end stands in the text.
abbrev pub IsLine : String → Type 0
IsLine s = Lacks 10 s × Lacks 13 s

pub Lacks-append : (n : ℕ) (s t : String) → Lacks n s → Lacks n t → Lacks n (s ++ t)
Lacks-append n String.[] t h k = rw nil-append k
Lacks-append n (String.◌∷◌ c s) t (h, hs) k = rw cons-append (h, Lacks-append n s t hs k)

pub IsLine-append : (s t : String) → IsLine s → IsLine t → IsLine (s ++ t)
IsLine-append s t (h, k) (h', k') = (Lacks-append 10 s t h h', Lacks-append 13 s t k k')

newline-append : (s : String) → "\n" ++ s ≡ String.◌∷◌ "\n" s
newline-append s = cons-append "\n" String.[] s ∙ ap (String.◌∷◌ "\n") (nil-append s)

-- Lines that were joined are split again.
pub split_lines-join :
    (x : String) (xs : List String)
    → All IsLine (List.◌∷◌ x xs)
    → split_lines (join "\n" (List.◌∷◌ x xs)) ≡ List.◌∷◌ x xs
split_lines-join x List.[] ((h, k), _) = split_lines-line x h
split_lines-join x (List.◌∷◌ y ys) ((h, k), hs) = rw newline-append (
    split_lines-append x "\n" (join "\n" (List.◌∷◌ y ys)) h k refl
    ∙ ap (List.◌∷◌ x) (split_lines-join y ys hs))

pub solid-append : (s t : String) → starts_solid s ≡ true → starts_solid (s ++ t) ≡ true
solid-append String.[] t h = absurd cc
solid-append (String.◌∷◌ c s) t h = rw cons-append h

pub solid-truthy : (s : String) → starts_solid s ≡ true → truthy s ≡ true
solid-truthy String.[] h = absurd cc
solid-truthy (String.◌∷◌ c s) h =
    ground (arith, eq_iff (String.◌∷◌ c s) "", cons≢nil {x = c} {xs = s})
