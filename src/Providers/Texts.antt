-- ===== src/Providers/Texts.antt =====
-- frontend/src/features/llmProviders/components/LlmProviderForm.tsx: its texts, and the masks in them.
use change_quality_agent.Base.{
  String, str_eq, str_append, truthy, join, includes, Bool, ◌&&◌, ◌||◌, not, Option, none, some,
  List, [], ◌∷◌, ◌++◌, any, map, if◌then◌else◌,
}
use change_quality_agent.Base.Scan.{trim, split_lines, cut}
use change_quality_agent.Base.Dict.{Dict, put}

abbrev pub redacted_value : String
redacted_value = "********"

-- What `parseKeyValueText` returns: one of its two errors, or the map.
pub data Parsed : Type 0 where
  bad_format empty_key : Parsed
  parsed : Dict String → Parsed

unfoldable pub key_value_map_to_text : Dict String → String
key_value_map_to_text value = join "\n" (map (λ e. str_append e.0 (str_append "=" e.1)) value)

-- `value[key] = item`, which sets no property of the name "__proto__"
abbrev pub set_item : String → String → Dict String → Dict String
set_item key item value = if str_eq key "__proto__" then value else put key item value

-- One line that is not blank, by the text before and behind its first "=".
abbrev pub read_entry : Option (String × String) → Dict String → Parsed
read_entry none value = bad_format
read_entry (some (before, behind)) value =
    if not (truthy before)
    then bad_format
    else if not (truthy (trim before))
    then empty_key
    else parsed (set_item (trim before) (trim behind) value)

-- The loop goes on with the map, or stops.
abbrev pub and_then : Parsed → (Dict String → Parsed) → Parsed
and_then bad_format next = bad_format
and_then empty_key next = empty_key
and_then (parsed value) next = next value

unfoldable pub read_lines : List String → Dict String → Parsed
read_lines [] value = parsed value
read_lines (raw_line ∷ lines) value =
    if truthy (trim raw_line)
    then and_then (read_entry (cut (trim raw_line)) value) (λ next. read_lines lines next)
    else read_lines lines value

unfoldable pub read_key_value_text : String → Parsed
read_key_value_text text = read_lines (split_lines text) []

unfoldable pub models_to_text : List String → String
models_to_text value = join "\n" value

-- The loop of `parseModelsText`.
unfoldable pub collect_models : List String → List String → List String → List String
collect_models [] models seen = models
collect_models (raw_line ∷ lines) models seen =
    let model = trim raw_line in
    if not (truthy model) || includes model seen
    then collect_models lines models seen
    else collect_models lines (models ++ model ∷ []) (model ∷ seen)

unfoldable pub parse_models_text : String → List String
parse_models_text text = collect_models (split_lines text) [] []

-- `Object.values(value).includes(REDACTED_VALUE)`
abbrev pub holds_mask : Dict String → Bool
holds_mask value = any (λ e. str_eq e.1 redacted_value) value

unfoldable pub should_omit_redacted : String → Dict String → Bool
should_omit_redacted text current_value =
    holds_mask current_value && str_eq text (key_value_map_to_text current_value)

unfoldable pub has_unsafe_placeholder : String → Dict String → Dict String → Bool
has_unsafe_placeholder text parsed_value current_value =
    holds_mask parsed_value && not (should_omit_redacted text current_value)
