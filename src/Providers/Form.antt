-- ===== src/Providers/Form.antt =====
-- frontend/src/features/llmProviders/components/LlmProviderForm.tsx: filling the form from a provider,
-- telling whether it was changed, and submitting it; and the types that it reads.
use change_quality_agent.Base.{
  String, str_eq, truthy, includes, Bool, true, false, ◌&&◌, ◌||◌, not, Option, none, some, get_or,
  List, [], ◌∷◌, if◌then◌else◌,
}
use change_quality_agent.Base.Scan.{trim}
use change_quality_agent.Base.Dict.{Dict}
use change_quality_agent.Providers.Texts.{
  Parsed, bad_format, empty_key, parsed, key_value_map_to_text, read_key_value_text, models_to_text,
  parse_models_text, should_omit_redacted, has_unsafe_placeholder,
}

abbrev pub llm_provider_types : List String
llm_provider_types =
    "openai" ∷ "anthropic" ∷ "azure_openai" ∷ "azure_ai" ∷ "google_vertexai" ∷ "google_genai"
    ∷ "anthropic_bedrock" ∷ "bedrock" ∷ "bedrock_converse" ∷ "cohere" ∷ "fireworks" ∷ "together"
    ∷ "mistralai" ∷ "huggingface" ∷ "groq" ∷ "ollama" ∷ "google_anthropic_vertex" ∷ "deepseek"
    ∷ "ibm" ∷ "nvidia" ∷ "xai" ∷ "openrouter" ∷ "perplexity" ∷ "upstage" ∷ "baseten" ∷ "litellm"
    ∷ []

unfoldable pub is_supported_provider_type : String → Bool
is_supported_provider_type value = includes value llm_provider_types

pub record LlmProviderDetail : Type 0 where
  pub id : String
  pub display_name : String
  pub description : Option String
  pub provider_type : String
  pub base_url : Option String
  pub default_headers : Dict String
  pub default_query : Dict String
  pub models : List String
  pub enabled : Bool

-- What the user edits, which `snapshotForm` spells as one text.
pub record Values : Type 0 where
  pub display_name : String
  pub description : String
  pub provider_type : String
  pub base_url : String
  pub api_key : String
  pub clear_api_key : Bool
  pub headers_text : String
  pub query_text : String
  pub models_text : String
  pub enabled : Bool

pub data Mode : Type 0 where
  create edit view : Mode

-- The form: its mode, its provider, the values, and those that it began with.
pub record ProviderForm : Type 0 where
  pub mode : Mode
  pub provider : Option LlmProviderDetail
  pub values : Values
  pub initial_snapshot : Values

abbrev pub same_bool : Bool → Bool → Bool
same_bool true b = b
same_bool false b = not b

-- `===` on two snapshots
unfoldable pub same_snapshot : Values → Values → Bool
same_snapshot v w =
    str_eq v.display_name w.display_name
    && str_eq v.description w.description
    && str_eq v.provider_type w.provider_type
    && str_eq v.base_url w.base_url
    && str_eq v.api_key w.api_key
    && same_bool v.clear_api_key w.clear_api_key
    && str_eq v.headers_text w.headers_text
    && str_eq v.query_text w.query_text
    && str_eq v.models_text w.models_text
    && same_bool v.enabled w.enabled

abbrev pub empty_values : Values
empty_values = record {
  display_name = "";
  description = "";
  provider_type = "openai";
  base_url = "";
  api_key = "";
  clear_api_key = false;
  headers_text = "";
  query_text = "";
  models_text = "";
  enabled = true;
}

abbrev pub values_of : LlmProviderDetail → Values
values_of provider = record {
  display_name = provider.display_name;
  description = get_or provider.description "";
  provider_type = provider.provider_type;
  base_url = get_or provider.base_url "";
  api_key = "";
  clear_api_key = false;
  headers_text = key_value_map_to_text provider.default_headers;
  query_text = key_value_map_to_text provider.default_query;
  models_text = models_to_text provider.models;
  enabled = provider.enabled;
}

-- The values of the effect on `mode` and `provider`.
abbrev pub initial_values : Mode → Option LlmProviderDetail → Values
initial_values Mode.create provider = empty_values
initial_values mode none = empty_values
initial_values mode (some provider) = values_of provider

unfoldable pub fill : Mode → Option LlmProviderDetail → ProviderForm
fill mode provider = record {
  mode = mode;
  provider = provider;
  values = initial_values mode provider;
  initial_snapshot = initial_values mode provider;
}

abbrev pub read_only : Mode → Bool
read_only Mode.view = true
read_only mode = false

unfoldable pub dirty : ProviderForm → Bool
unfolding same_snapshot
dirty form = not (read_only form.mode) && not (same_snapshot form.values form.initial_snapshot)

pub record LlmProviderCreate : Type 0 where
  pub api_key : Option String
  pub base_url : Option String
  pub default_headers : Dict String
  pub default_query : Dict String
  pub description : Option String
  pub display_name : String
  pub enabled : Bool
  pub models : List String
  pub provider_type : String

-- A field that is absent is left as it is; an api key that is null is cleared.
pub record LlmProviderUpdate : Type 0 where
  pub base_url : Option String
  pub description : Option String
  pub display_name : String
  pub enabled : Bool
  pub models : List String
  pub provider_type : String
  pub default_headers : Option (Dict String)
  pub default_query : Option (Dict String)
  pub api_key : Option (Option String)

-- Where an error is shown.
pub data Fault : Type 0 where
  headers_fault query_fault name_fault type_fault mask_fault : Fault

-- What a submission does: nothing, an error, `onCreate` or `onUpdate`.
pub data Submission : Type 0 where
  ignored : Submission
  refused : Fault → Submission
  created : LlmProviderCreate → Submission
  updated : String → LlmProviderUpdate → Submission

-- `text.trim() || null`
abbrev pub trimmed_or_null : String → Option String
trimmed_or_null text = if truthy (trim text) then some (trim text) else none

unfoldable pub create_payload : Values → Dict String → Dict String → LlmProviderCreate
create_payload v headers query = record {
  api_key = trimmed_or_null v.api_key;
  base_url = trimmed_or_null v.base_url;
  default_headers = headers;
  default_query = query;
  description = trimmed_or_null v.description;
  display_name = trim v.display_name;
  enabled = v.enabled;
  models = parse_models_text v.models_text;
  provider_type = v.provider_type;
}

abbrev pub changed_map : String → Dict String → Dict String → Option (Dict String)
changed_map text value current = if should_omit_redacted text current then none else some value

abbrev pub changed_api_key : Values → Option (Option String)
changed_api_key v =
    if truthy (trim v.api_key)
    then some (some (trim v.api_key))
    else if v.clear_api_key
    then some none
    else none

unfoldable pub update_payload :
    Values → LlmProviderDetail → Dict String → Dict String → LlmProviderUpdate
update_payload v provider headers query = record {
  base_url = trimmed_or_null v.base_url;
  description = trimmed_or_null v.description;
  display_name = trim v.display_name;
  enabled = v.enabled;
  models = parse_models_text v.models_text;
  provider_type = v.provider_type;
  default_headers = changed_map v.headers_text headers provider.default_headers;
  default_query = changed_map v.query_text query provider.default_query;
  api_key = changed_api_key v;
}

unfoldable pub submit_update :
    Values → Option LlmProviderDetail → Dict String → Dict String → Submission
submit_update v none headers query = ignored
submit_update v (some provider) headers query =
    if has_unsafe_placeholder v.headers_text headers provider.default_headers
      || has_unsafe_placeholder v.query_text query provider.default_query
    then refused mask_fault
    else updated provider.id (update_payload v provider headers query)

unfoldable pub submit_parsed : ProviderForm → Dict String → Dict String → Mode → Submission
submit_parsed form headers query Mode.create = created (create_payload form.values headers query)
submit_parsed form headers query mode = submit_update form.values form.provider headers query

-- The checks behind the texts.
unfoldable pub submit_checked : ProviderForm → Dict String → Dict String → Submission
submit_checked form headers query =
    if not (truthy (trim form.values.display_name))
    then refused name_fault
    else if not (is_supported_provider_type form.values.provider_type)
    then refused type_fault
    else submit_parsed form headers query form.mode

abbrev pub with_parsed : Parsed → Fault → (Dict String → Submission) → Submission
with_parsed bad_format fault next = refused fault
with_parsed empty_key fault next = refused fault
with_parsed (parsed value) fault next = next value

-- `handleSubmit`
unfoldable pub handle_submit : ProviderForm → Submission
handle_submit form =
    if read_only form.mode
    then ignored
    else with_parsed (read_key_value_text form.values.headers_text) headers_fault (λ headers.
      with_parsed (read_key_value_text form.values.query_text) query_fault
        (λ query. submit_checked form headers query))

-- Behind the `await` of `onCreate` and of `onUpdate`.
unfoldable pub after_saving : ProviderForm → ProviderForm
after_saving form = record form { initial_snapshot = form.values }
