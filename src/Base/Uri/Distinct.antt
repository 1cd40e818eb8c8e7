-- ===== src/Base/Uri/Distinct.antt =====
-- The bytes of an encoded text can be read back, so that texts with the same encoding are the same.
use Prim.Native.Nat.{ℕ, zero, suc, ◌+◌, ◌-◌, ◌*◌, ◌/◌, ◌%◌, ◌<◌}
use Prim.Native.Char.{Char, char, code}
use Prim.Native.String.{String}
use mathlib.Core.Bool.{true, false}
use mathlib.Core.List.{List, [], ◌∷◌, ◌++◌}
use mathlib.Core.Path.{◌≡◌, refl, sym, ap, ap₂, ◌∙◌}
use mathlib.Core.Logic.{inl, inr, ◌≢◌}
use native.Mathlib.Omega.{arith}
use text.Mathlib.TextEquality.{Char-path}
use change_quality_agent.Base.Tests.{ltb, ◌==◌, if◌then◌else◌, Bool-cases}
use change_quality_agent.Base.Lists.{All}
use change_quality_agent.Base.Uri.{is_kept, utf8, hex_digit, escape, encode_uri_component}

-- The value of a digit in hexadecimal.
hex_value : Char → ℕ
hex_value c = let n = code c in if ltb n b'A' then n - b'0' else n - 55

hex_value-hex_digit : (n : ℕ) → n < 16 → hex_value (hex_digit n) ≡ n
unfolding hex_digit hex_value
hex_value-hex_digit zero h = refl
hex_value-hex_digit (suc zero) h = refl
hex_value-hex_digit (suc (suc zero)) h = refl
hex_value-hex_digit (suc (suc (suc zero))) h = refl
hex_value-hex_digit (suc (suc (suc (suc zero)))) h = refl
hex_value-hex_digit (suc (suc (suc (suc (suc zero))))) h = refl
hex_value-hex_digit (suc (suc (suc (suc (suc (suc zero)))))) h = refl
hex_value-hex_digit (suc (suc (suc (suc (suc (suc (suc zero))))))) h = refl
hex_value-hex_digit (suc (suc (suc (suc (suc (suc (suc (suc zero)))))))) h = refl
hex_value-hex_digit (suc (suc (suc (suc (suc (suc (suc (suc (suc zero))))))))) h = refl
hex_value-hex_digit (suc (suc (suc (suc (suc (suc (suc (suc (suc (suc zero)))))))))) h = refl
hex_value-hex_digit (suc (suc (suc (suc (suc (suc (suc (suc (suc (suc (suc zero))))))))))) h = refl
hex_value-hex_digit (suc (suc (suc (suc (suc (suc (suc (suc (suc (suc (suc (suc zero)))))))))))) h =
    refl
hex_value-hex_digit
      (suc (suc (suc (suc (suc (suc (suc (suc (suc (suc (suc (suc (suc zero))))))))))))) h =
    refl
hex_value-hex_digit
      (suc (suc (suc (suc (suc (suc (suc (suc (suc (suc (suc (suc (suc (suc zero)))))))))))))) h =
    refl
hex_value-hex_digit
      (suc (suc (suc (suc (suc (suc (suc (suc (suc (suc (suc (suc (suc (suc (suc zero)))))))))))))))
      h =
    refl
hex_value-hex_digit
      (suc
        (suc (suc (suc (suc (suc (suc (suc (suc (suc (suc (suc (suc (suc (suc (suc n))))))))))))))))
      h =
    absurd (omega arith)

-- Between two bytes, behind a `%`, and behind the first digit of a byte.
data Place : Type 0 where
  plain percent : Place
  high : ℕ → Place

-- The bytes of an encoded text.
read : Place → String → List ℕ
read place String.[] = []
read plain (String.◌∷◌ c s) =
    let byte = read percent s in
    let rest = read plain s in if code c == b'%' then byte else code c ∷ rest
read percent (String.◌∷◌ c s) = read (high (hex_value c)) s
read (high n) (String.◌∷◌ c s) = (n * 16 + hex_value c) ∷ read plain s

abbrev IsByte : ℕ → Type 0
IsByte b = b < 256

read-escape :
    (bs : List ℕ) (s : String) → All IsByte bs → read plain (escape bs s) ≡ bs ++ read plain s
unfolding read escape
read-escape [] s h = refl
read-escape (b ∷ bs) s (h, hs) =
    rw (hex_value-hex_digit (b / 16) (omega arith), hex_value-hex_digit (b % 16) (omega arith))
      (ground (arith, read-escape bs s hs))

code-lt : (c : Char) → code c < 1114112
code-lt (char n p) = ground arith

utf8-IsByte : (c : ℕ) → c < 1114112 → All IsByte (utf8 c)
unfolding utf8
utf8-IsByte c h = ground arith

-- The bytes tell where those of the first character end, and which character it is.
utf8-first : (c d : ℕ) (xs ys : List ℕ) → utf8 c ++ xs ≡ utf8 d ++ ys → (c ≡ d) × (xs ≡ ys)
unfolding utf8
utf8-first c d xs ys h = ground arith

kept-utf8 : (c : ℕ) → is_kept c ≡ true → (utf8 c ≡ c ∷ []) × ((c == b'%') ≡ false)
unfolding is_kept utf8
kept-utf8 c h = (ground arith, ground arith)

read-encode :
    (c : Char) (s : String)
    → read plain (encode_uri_component (String.◌∷◌ c s))
      ≡ utf8 (code c) ++ read plain (encode_uri_component s)
unfolding encode_uri_component read
read-encode c s = elim (Bool-cases (is_kept (code c))) [
  | inl kept ↦ let (one, other) = kept-utf8 (code c) kept in rw (kept, one, other) refl
  | inr other ↦
      rw other
        (read-escape (utf8 (code c)) (encode_uri_component s) (utf8-IsByte (code c) (code-lt c)))
]

utf8-ne-nil : (c : ℕ) (xs : List ℕ) → [] ≢ utf8 c ++ xs
unfolding utf8
utf8-ne-nil c xs h = ground arith

read_encode-injective :
    (s t : String)
    → read plain (encode_uri_component s) ≡ read plain (encode_uri_component t)
    → s ≡ t
unfolding encode_uri_component read
read_encode-injective String.[] String.[] h = refl
read_encode-injective String.[] (String.◌∷◌ d t) h =
    absurd (utf8-ne-nil (code d) _ (h ∙ read-encode d t))
read_encode-injective (String.◌∷◌ c s) String.[] h =
    absurd (utf8-ne-nil (code c) _ (sym h ∙ read-encode c s))
read_encode-injective (String.◌∷◌ c s) (String.◌∷◌ d t) h =
    let (first, rest) =
      utf8-first (code c) (code d) _ _ (sym (read-encode c s) ∙ h ∙ read-encode d t) in
    ap₂ String.◌∷◌ (Char-path c d first) (read_encode-injective s t rest)

-- Different texts are encoded differently.
pub encode_uri_component-injective :
    (s t : String) → encode_uri_component s ≡ encode_uri_component t → s ≡ t
encode_uri_component-injective s t h = read_encode-injective s t (ap (read plain) h)
