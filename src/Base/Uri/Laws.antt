-- ===== src/Base/Uri/Laws.antt =====
-- What an encoded text holds, and reading its bytes.
use Prim.Native.Nat.{ℕ, zero, suc, ◌/◌, ◌%◌}
use Prim.Native.Char.{code}
use Prim.Native.String.{String}
use mathlib.Core.Bool.{Bool, true, false, ◌||◌}
use mathlib.Core.List.{List, [], ◌∷◌}
use mathlib.Core.Path.{◌≡◌, refl}
use native.Mathlib.Omega.{arith}
use change_quality_agent.Base.Tests.{◌==◌, Bool-cases}
use mathlib.Core.Logic.{inl, inr}
use change_quality_agent.Base.Uri.{is_kept, utf8, hex_digit, escape, encode_uri_component}

-- The characters at which the parts of a URL end: `/ ? & =`.
abbrev pub is_delimiter : ℕ → Bool
is_delimiter c = c == b'/' || c == b'?' || c == b'&' || c == b'='

abbrev pub IsClean : String → Type 0
IsClean String.[] = Unit
IsClean (String.◌∷◌ c s) = (is_delimiter (code c) ≡ false) × IsClean s

hex_digit-clean : (n : ℕ) → is_delimiter (code (hex_digit n)) ≡ false
unfolding hex_digit
hex_digit-clean zero = refl
hex_digit-clean (suc zero) = refl
hex_digit-clean (suc (suc zero)) = refl
hex_digit-clean (suc (suc (suc zero))) = refl
hex_digit-clean (suc (suc (suc (suc zero)))) = refl
hex_digit-clean (suc (suc (suc (suc (suc zero))))) = refl
hex_digit-clean (suc (suc (suc (suc (suc (suc zero)))))) = refl
hex_digit-clean (suc (suc (suc (suc (suc (suc (suc zero))))))) = refl
hex_digit-clean (suc (suc (suc (suc (suc (suc (suc (suc zero)))))))) = refl
hex_digit-clean (suc (suc (suc (suc (suc (suc (suc (suc (suc zero))))))))) = refl
hex_digit-clean (suc (suc (suc (suc (suc (suc (suc (suc (suc (suc zero)))))))))) = refl
hex_digit-clean (suc (suc (suc (suc (suc (suc (suc (suc (suc (suc (suc zero))))))))))) = refl
hex_digit-clean (suc (suc (suc (suc (suc (suc (suc (suc (suc (suc (suc (suc zero)))))))))))) = refl
hex_digit-clean (suc (suc (suc (suc (suc (suc (suc (suc (suc (suc (suc (suc (suc zero))))))))))))) =
    refl
hex_digit-clean
      (suc (suc (suc (suc (suc (suc (suc (suc (suc (suc (suc (suc (suc (suc zero)))))))))))))) =
    refl
hex_digit-clean
      (suc (suc (suc (suc (suc (suc (suc (suc (suc (suc (suc (suc (suc (suc (suc n))))))))))))))) =
    refl

escape-IsClean : (bs : List ℕ) (s : String) → IsClean s → IsClean (escape bs s)
unfolding escape
escape-IsClean [] s h = h
escape-IsClean (b ∷ bs) s h =
    (refl, (hex_digit-clean (b / 16), (hex_digit-clean (b % 16), escape-IsClean bs s h)))

kept-clean : (c : ℕ) → is_kept c ≡ true → is_delimiter c ≡ false
unfolding is_kept
kept-clean c h = ground arith

-- An encoded text has no character at which a part of a URL ends.
pub encode_uri_component-IsClean : (s : String) → IsClean (encode_uri_component s)
unfolding encode_uri_component
encode_uri_component-IsClean String.[] = tt
encode_uri_component-IsClean (String.◌∷◌ c s) = elim (Bool-cases (is_kept (code c))) [
  | inl kept ↦ rw kept (kept-clean (code c) kept, encode_uri_component-IsClean s)
  | inr other ↦
      rw other
        (escape-IsClean (utf8 (code c)) (encode_uri_component s) (encode_uri_component-IsClean s))
]
