-- ===== src/Mcp/Texts.antt =====
-- The texts that the form shows for arguments, env and headers are read back as they were.
use text.Mathlib.TextLemmas.{nil-append, cons-append}
use change_quality_agent.Base.{
  String, str_eq, str_append, truthy, true, false, some, List, [], ◌∷◌, ◌++◌, All, All-implies,
  All-map, map, filter, append_assoc, append-nil, ◌≡◌, refl, ap, ◌∙◌, arith,
}
use change_quality_agent.Base.Scan.{is_blank, trim, split_lines, cut}
use change_quality_agent.Base.Scan.Laws.{
  Lacks, IsLine, IsLine-append, starts_solid, solid-append, solid-truthy, IsEndTrimmed, trim-solid,
  trim_end-append, cut-append, split_lines-join,
}
use change_quality_agent.Base.Dict.{Dict, IsFresh, put-fresh}
use change_quality_agent.Mcp.Form.{
  key_value_map_to_text, args_to_text, parse_args_text, parse_line, parse_lines,
  parse_key_value_text,
}

-- One line that is not blank and has no white space at its ends.
abbrev pub IsToken : String → Type 0
IsToken s = (starts_solid s ≡ true) × IsEndTrimmed s × IsLine s

-- A text of one line with no white space at its ends, which may be empty.
abbrev pub IsValue : String → Type 0
IsValue s = (trim s ≡ s) × IsEndTrimmed s × IsLine s

-- An entry that can be written as a line: its key is a token without "=", and not "__proto__".
abbrev pub IsEntry : String × String → Type 0
IsEntry (k, v) = IsToken k × Lacks 61 k × (str_eq k "__proto__" ≡ false) × IsValue v

abbrev line_of : String × String → String
line_of e = str_append e.0 (str_append "=" e.1)

pub trim-token : (s : String) → IsToken s → trim s ≡ s
trim-token s (h, e, l) = trim-solid s h e

parse_args-tokens : (xs : List String) → All IsToken xs → filter truthy (map trim xs) ≡ xs
parse_args-tokens [] h = refl
parse_args-tokens (x ∷ xs) (h, hs) =
    ground (arith, trim-token x h, solid-truthy x h.0, parse_args-tokens xs hs)

-- Arguments that are tokens come back from their text.
pub parse-args_to_text :
    (args : List String) → All IsToken args → parse_args_text (args_to_text args) ≡ args
unfolding parse_args_text args_to_text split_lines trim
parse-args_to_text [] h = refl
parse-args_to_text (x ∷ xs) h =
    rw (split_lines-join x xs (All-implies (x ∷ xs) (λ y t. t.2) h)) (parse_args-tokens (x ∷ xs) h)

equals-append : (s : String) → str_append "=" s ≡ String.◌∷◌ "=" s
equals-append s = cons-append "=" String.[] s ∙ ap (String.◌∷◌ "=") (nil-append s)

IsLine-line_of : (e : String × String) → IsEntry e → IsLine (line_of e)
IsLine-line_of (k, v) ((a, b, l), x, y, (t, u, m)) =
    rw equals-append (IsLine-append k (String.◌∷◌ "=" v) l ((refl, m.0), (refl, m.1)))

trim-line_of : (e : String × String) → IsEntry e → trim (line_of e) ≡ line_of e
unfolding is_blank
trim-line_of (k, v) ((a, b, l), x, y, (t, u, m)) = rw equals-append (
    trim-solid (str_append k (String.◌∷◌ "=" v)) (solid-append k (String.◌∷◌ "=" v) a)
      (trim_end-append k "=" v refl ∙ ap (λ s. str_append k (String.◌∷◌ "=" s)) u))

cut-line_of : (e : String × String) → IsEntry e → cut (line_of e) ≡ some e
cut-line_of (k, v) (a, x, y, z) = rw equals-append (cut-append k "=" v x refl)

parse_line-line_of :
    (e : String × String) (parsed : Dict String)
    → IsEntry e
    → IsFresh parsed (e ∷ [])
    → parse_line (line_of e) parsed ≡ some (parsed ++ e ∷ [])
unfolding parse_line
parse_line-line_of (k, v) parsed (a, x, y, z) (f, _) =
    rw
      (
        cut-line_of (k, v) (a, x, y, z),
        trim-token k a,
        z.0,
        solid-truthy k a.0,
        y,
        put-fresh k v parsed f,
      )
      refl

line_of-truthy : (e : String × String) → IsEntry e → truthy (line_of e) ≡ true
line_of-truthy (k, v) (a, x, y, z) = solid-truthy _ (solid-append k (str_append "=" v) a.0)

parse_lines-lines :
    (m : Dict String) (parsed : Dict String)
    → All IsEntry m
    → IsFresh parsed m
    → parse_lines (map line_of m) parsed ≡ some (parsed ++ m)
unfolding parse_lines
parse_lines-lines [] parsed h f = rw append-nil refl
parse_lines-lines (e ∷ m) parsed (h, hs) (f, fs) =
    rw (trim-line_of e h, line_of-truthy e h, parse_line-line_of e parsed h (f, tt))
      (parse_lines-lines m (parsed ++ e ∷ []) hs fs ∙ ap some (append_assoc parsed (e ∷ []) m))

-- A map comes back from its text, if its names are distinct and each entry can be written as a line.
pub parse-key_value_map_to_text :
    (m : Dict String)
    → All IsEntry m
    → IsFresh [] m
    → parse_key_value_text (key_value_map_to_text m) ≡ some m
unfolding parse_key_value_text key_value_map_to_text parse_lines split_lines trim
parse-key_value_map_to_text [] h f = refl
parse-key_value_map_to_text (e ∷ m) h f =
    rw
      (split_lines-join (line_of e) (map line_of m)
        (All-map IsLine line_of (e ∷ m) (All-implies (e ∷ m) IsLine-line_of h)))
      (parse_lines-lines (e ∷ m) [] h f)
