-- ===== src/Providers/Reading.antt =====
-- The texts of the form: read as in the form of an MCP server, and read back as they were written.
use change_quality_agent.Base.{
  String, truthy, includes, false, Option, none, some, List, [], ◌∷◌, ◌++◌, All, All-implies,
  append_assoc, append-nil, ◌≡◌, refl, sym, ◌∙◌, arith, Bool-cases, inl, inr,
}
use change_quality_agent.Base.Scan.{trim, split_lines, cut}
use change_quality_agent.Base.Scan.Laws.{solid-truthy, split_lines-join}
use change_quality_agent.Base.Dict.{Dict, IsFresh}
use change_quality_agent.Mcp.Form
use change_quality_agent.Mcp.Texts.{IsToken, IsEntry, trim-token, parse-key_value_map_to_text}
use change_quality_agent.Providers.Texts.{
  Parsed, bad_format, empty_key, parsed, key_value_map_to_text, read_entry, and_then, read_lines,
  read_key_value_text, models_to_text, collect_models, parse_models_text,
}

-- The map that was read, if there was no error.
abbrev pub map_of : Parsed → Option (Dict String)
map_of bad_format = none
map_of empty_key = none
map_of (parsed value) = some value

map_of-read_entry :
    (o : Option (String × String)) (m : Dict String)
    → map_of (read_entry o m) ≡ Form.parse_entry o m
map_of-read_entry none m = refl
map_of-read_entry (some (before, behind)) m = ground arith

and_then-agrees :
    (p : Parsed) (o : Option (Dict String)) (f : Dict String → Parsed)
    (g : Dict String → Option (Dict String))
    → map_of p ≡ o
    → ((n : Dict String) → map_of (f n) ≡ g n)
    → map_of (and_then p f) ≡ elim o [ none ↦ none | some n ↦ g n ]
and_then-agrees bad_format o f g e h = rw⁻¹ e refl
and_then-agrees empty_key o f g e h = rw⁻¹ e refl
and_then-agrees (parsed n) o f g e h = rw⁻¹ e (h n)

read_lines-agrees :
    (ls : List String) (m : Dict String) → map_of (read_lines ls m) ≡ Form.parse_lines ls m
unfolding read_lines Form.parse_lines Form.parse_line
read_lines-agrees [] m = refl
read_lines-agrees (l ∷ ls) m = elim (Bool-cases (truthy (trim l))) [
  | inl text ↦ rw text (
      and_then-agrees (read_entry (cut (trim l)) m) (Form.parse_entry (cut (trim l)) m)
        (λ n. read_lines ls n) (λ n. Form.parse_lines ls n) (map_of-read_entry (cut (trim l)) m)
        (λ n. read_lines-agrees ls n))
  | inr blank ↦ rw blank (read_lines-agrees ls m)
]

-- The parsers of the two forms read the same map from every text, and refuse the same texts.
pub read-agrees :
    (text : String) → map_of (read_key_value_text text) ≡ Form.parse_key_value_text text
unfolding read_key_value_text Form.parse_key_value_text
read-agrees text = read_lines-agrees (split_lines text) []

map_of-parsed : (p : Parsed) (m : Dict String) → map_of p ≡ some m → p ≡ parsed m
map_of-parsed bad_format m e = absurd cc
map_of-parsed empty_key m e = absurd cc
map_of-parsed (parsed n) m e = cc

pub read-key_value_map_to_text :
    (m : Dict String)
    → All IsEntry m
    → IsFresh [] m
    → read_key_value_text (key_value_map_to_text m) ≡ parsed m
unfolding key_value_map_to_text Form.key_value_map_to_text
read-key_value_map_to_text m h f =
    map_of-parsed _ m
      (read-agrees (Form.key_value_map_to_text m) ∙ parse-key_value_map_to_text m h f)

-- The names are distinct, and none has been seen.
abbrev pub AreNew : List String → List String → Type 0
AreNew seen [] = Unit
AreNew seen (x ∷ xs) = (includes x seen ≡ false) × AreNew (x ∷ seen) xs

collect_models-tokens :
    (xs models seen : List String)
    → All IsToken xs
    → AreNew seen xs
    → collect_models xs models seen ≡ models ++ xs
unfolding collect_models
collect_models-tokens [] models seen h n = sym (append-nil models)
collect_models-tokens (x ∷ xs) models seen (h, hs) (n, ns) =
    rw (trim-token x h, solid-truthy x h.0, n)
      (collect_models-tokens xs (models ++ x ∷ []) (x ∷ seen) hs ns
        ∙ append_assoc models (x ∷ []) xs)

-- Model names that are distinct tokens come back from their text.
pub parse-models_to_text :
    (models : List String)
    → All IsToken models
    → AreNew [] models
    → parse_models_text (models_to_text models) ≡ models
unfolding parse_models_text models_to_text split_lines trim collect_models
parse-models_to_text [] h n = refl
parse-models_to_text (x ∷ xs) h n =
    rw (split_lines-join x xs (All-implies (x ∷ xs) (λ y t. t.2) h))
      (collect_models-tokens (x ∷ xs) [] [] h n)
