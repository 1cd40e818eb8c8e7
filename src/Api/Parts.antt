-- ===== src/Api/Parts.antt =====
-- The parts of a URL: the texts between its characters `/ ? & =`.
use Prim.Native.Char.{Char, code}
use Prim.Native.String.{String, ◌++◌}
use text.Mathlib.TextLemmas.{nil-append, cons-append}
use mathlib.Core.List.{List}
use mathlib.Core.Bool.{true}
use mathlib.Core.Path.{◌≡◌, refl, sym}
use native.Mathlib.Omega.{arith}
use change_quality_agent.Base.{ℕ, decimal, Bool-cases, if◌then◌else◌, inl, inr}
use change_quality_agent.Base.Scan.{cons_first}
use change_quality_agent.Base.Text.Decimal.{IsNumeral, is_digit, decimal-IsNumeral}
use change_quality_agent.Base.Uri.Laws.{is_delimiter, IsClean, encode_uri_component-IsClean}
use change_quality_agent.Base.Uri.{is_kept, encode_uri_component}

unfoldable pub parts : String → List String
parts String.[] = List.◌∷◌ String.[] List.[]
parts (String.◌∷◌ c s) =
    let rest = parts s in
    if is_delimiter (code c) then List.◌∷◌ String.[] rest else cons_first c rest

-- The last part of the first text goes on with the first part of the second.
unfoldable pub glue : List String → List String → List String
glue List.[] ys = ys
glue (List.◌∷◌ x List.[]) List.[] = List.◌∷◌ x List.[]
glue (List.◌∷◌ x List.[]) (List.◌∷◌ y ys) = List.◌∷◌ (x ++ y) ys
glue (List.◌∷◌ x (List.◌∷◌ z xs)) ys = List.◌∷◌ x (glue (List.◌∷◌ z xs) ys)

cons_first-cons :
    (c : Char) (xs : List String)
    → (first : String) × (rest : List String) × (cons_first c xs ≡ List.◌∷◌ first rest)
cons_first-cons c List.[] = (String.◌∷◌ c String.[], List.[], refl)
cons_first-cons c (List.◌∷◌ x xs) = (String.◌∷◌ c x, xs, refl)

-- There is a first part.
parts-cons :
    (s : String) → (first : String) × (rest : List String) × (parts s ≡ List.◌∷◌ first rest)
unfolding parts
parts-cons String.[] = (String.[], List.[], refl)
parts-cons (String.◌∷◌ c s) = elim (Bool-cases (is_delimiter (code c))) [
  | inl ends ↦ (String.[], parts s, rw ends refl)
  | inr goes_on ↦ rw goes_on (cons_first-cons c (parts s))
]

glue-cons :
    (x first : String) (rest ys : List String)
    → glue (List.◌∷◌ x (List.◌∷◌ first rest)) ys ≡ List.◌∷◌ x (glue (List.◌∷◌ first rest) ys)
unfolding glue
glue-cons x first rest ys = refl

glue-cons_first :
    (c : Char) (x : String) (xs : List String) (y : String) (ys : List String)
    → glue (cons_first c (List.◌∷◌ x xs)) (List.◌∷◌ y ys)
      ≡ cons_first c (glue (List.◌∷◌ x xs) (List.◌∷◌ y ys))
unfolding glue
glue-cons_first c x List.[] y ys = rw cons-append refl
glue-cons_first c x (List.◌∷◌ z xs) y ys = refl

glue-nil : (y : String) (ys : List String) → glue (parts "") (List.◌∷◌ y ys) ≡ List.◌∷◌ y ys
unfolding parts glue
glue-nil y ys = rw nil-append refl

pub parts-append : (s t : String) → parts (s ++ t) ≡ glue (parts s) (parts t)
unfolding parts
parts-append String.[] t = let (y, ys, e) = parts-cons t in rw (nil-append, e) (sym (glue-nil y ys))
parts-append (String.◌∷◌ c s) t =
    let (x, xs, d) = parts-cons s in
    let (y, ys, e) = parts-cons t in
    let ih = parts-append s t in
    elim (Bool-cases (is_delimiter (code c))) [
      | inl ends ↦ rw (cons-append, ends, ih, d, e) (sym (glue-cons "" x xs (List.◌∷◌ y ys)))
      | inr goes_on ↦ rw (cons-append, goes_on, ih, d, e) (sym (glue-cons_first c x xs y ys))
    ]

pub parts-clean : (s : String) → IsClean s → parts s ≡ List.◌∷◌ s List.[]
unfolding parts
parts-clean String.[] h = refl
parts-clean (String.◌∷◌ c s) (h, hs) = ground (arith, parts-clean s hs)

IsNumeral-IsClean : (s : String) → IsNumeral s → IsClean s
IsNumeral-IsClean String.[] h = tt
IsNumeral-IsClean (String.◌∷◌ c s) (h, hs) = (ground arith, IsNumeral-IsClean s hs)

pub parts-decimal : (n : ℕ) → parts (decimal n) ≡ List.◌∷◌ (decimal n) List.[]
parts-decimal n = parts-clean (decimal n) (IsNumeral-IsClean (decimal n) (decimal-IsNumeral n))

pub parts-encode :
    (s : String) → parts (encode_uri_component s) ≡ List.◌∷◌ (encode_uri_component s) List.[]
parts-encode s = parts-clean (encode_uri_component s) (encode_uri_component-IsClean s)

kept-digit : (c : ℕ) → is_digit c ≡ true → is_kept c ≡ true
unfolding is_kept
kept-digit c h = ground arith

encode-numeral : (s : String) → IsNumeral s → encode_uri_component s ≡ s
unfolding encode_uri_component
encode-numeral String.[] h = refl
encode-numeral (String.◌∷◌ c s) (h, hs) = rw (kept-digit (code c) h, encode-numeral s hs) refl

pub encode-decimal : (n : ℕ) → encode_uri_component (decimal n) ≡ decimal n
encode-decimal n = encode-numeral (decimal n) (decimal-IsNumeral n)
