-- ===== src/Agents/Form.antt =====
-- frontend/src/features/agents/components/AgentForm.tsx: the state of the form, its effects and what it
-- computes from its state; and the types that it reads.
use change_quality_agent.Base.{
  String, str_eq, truthy, Bool, true, false, ◌&&◌, not, Option, none, some, get_or, is_some, List,
  [], ◌∷◌, filter, find, first, if◌then◌else◌,
}
use change_quality_agent.Base.Dict.{Dict}
use change_quality_agent.Base.Json.{Json}

abbrev pub codeagent_model_options : List String
codeagent_model_options = "codeagent:deepseek-v4-pro" ∷ "codeagent:codeagent-v4-pro" ∷ []

pub record AgentDraftConfig : Type 0 where
  pub system_prompt : String
  pub model : String
  pub provider_id : Option String
  pub model_config : Dict Json
  pub tool_allowlist : List String
  pub mcp_server_ids : List String

-- The fields of an agent that the form reads.
pub record AgentDetail : Type 0 where
  pub id : String
  pub display_name : String
  pub description : Option String
  pub enabled : Bool
  pub draft : Option AgentDraftConfig

-- The fields of a provider that the form reads.
pub record LlmProviderSummary : Type 0 where
  pub id : String
  pub display_name : String
  pub models : List String
  pub enabled : Bool

pub data AgentFormMode : Type 0 where
  create edit : AgentFormMode

pub data ModelSource : Type 0 where
  codeagent provider : ModelSource

pub data FieldErrorKey : Type 0 where
  display_name_error system_prompt_error : FieldErrorKey

pub data PromptView : Type 0 where
  editing preview : PromptView

abbrev pub default_codeagent_model : String
default_codeagent_model = "codeagent:deepseek-v4-pro"

abbrev pub default_system_prompt : String
default_system_prompt = "你是谨慎的变更质量评审助手。请基于事实审查输入内容，指出风险、缺口和可执行的整改建议。"

-- The props of the form and its state. An error that is shown is that of its field.
pub record AgentForm : Type 0 where
  pub mode : AgentFormMode
  pub agent : Option AgentDetail
  pub providers : List LlmProviderSummary
  pub providers_loading : Bool
  pub display_name : String
  pub description : String
  pub system_prompt : String
  pub model_source : ModelSource
  pub code_agent_model : String
  pub selected_provider_id : String
  pub selected_provider_model : String
  pub enabled : Bool
  pub error_field : Option FieldErrorKey
  pub system_prompt_view : PromptView

abbrev pub is_edit : AgentFormMode → Bool
is_edit AgentFormMode.edit = true
is_edit AgentFormMode.create = false

abbrev pub is_provider : ModelSource → Bool
is_provider ModelSource.provider = true
is_provider ModelSource.codeagent = false

-- The first render
abbrev pub opening : AgentFormMode → Option AgentDetail → List LlmProviderSummary → Bool → AgentForm
opening mode agent providers loading = record {
  mode = mode;
  agent = agent;
  providers = providers;
  providers_loading = loading;
  display_name = "";
  description = "";
  system_prompt = default_system_prompt;
  model_source = ModelSource.codeagent;
  code_agent_model = default_codeagent_model;
  selected_provider_id = "";
  selected_provider_model = "";
  enabled = true;
  error_field = none;
  system_prompt_view = if is_edit mode then PromptView.preview else PromptView.editing;
}

-- `draft?.provider_id`, which is falsy if it is empty.
abbrev pub provider_of : Option AgentDraftConfig → String
provider_of none = ""
provider_of (some draft) = get_or draft.provider_id ""

abbrev pub model_of : Option AgentDraftConfig → Option String
model_of none = none
model_of (some draft) = some draft.model

abbrev pub prompt_of : Option AgentDraftConfig → String
prompt_of none = ""
prompt_of (some draft) = draft.system_prompt

unfoldable pub fill_from : AgentDetail → AgentForm → AgentForm
fill_from agent f =
    let given = truthy (provider_of agent.draft) in
    record f {
      error_field = none;
      display_name = agent.display_name;
      description = get_or agent.description "";
      system_prompt = prompt_of agent.draft;
      enabled = agent.enabled;
      model_source = if given then ModelSource.provider else ModelSource.codeagent;
      code_agent_model =
          if given
          then default_codeagent_model
          else get_or (model_of agent.draft) default_codeagent_model;
      selected_provider_id = provider_of agent.draft;
      selected_provider_model = if given then get_or (model_of agent.draft) "" else "";
    }

unfoldable pub fill_empty : AgentForm → AgentForm
fill_empty f = record f {
  error_field = none;
  display_name = "";
  description = "";
  system_prompt = default_system_prompt;
  enabled = true;
  model_source = ModelSource.codeagent;
  code_agent_model = default_codeagent_model;
  selected_provider_id = "";
  selected_provider_model = "";
}

-- The effect on the agent and the mode.
unfoldable pub fill : AgentFormMode → Option AgentDetail → AgentForm → AgentForm
unfolding fill_from fill_empty
fill AgentFormMode.edit (some agent) f = fill_from agent f
fill _ _ f = fill_empty f

abbrev pub enabled_providers : AgentForm → List LlmProviderSummary
enabled_providers f = filter (λ provider. provider.enabled) f.providers

-- `enabledProviders.find((provider) => provider.id === id)`
abbrev pub find_provider : String → AgentForm → Option LlmProviderSummary
find_provider id f = find (λ provider. str_eq provider.id id) (enabled_providers f)

abbrev pub selected_provider : AgentForm → Option LlmProviderSummary
selected_provider f = find_provider f.selected_provider_id f

abbrev pub models_of : Option LlmProviderSummary → List String
models_of none = []
models_of (some p) = p.models

abbrev pub selected_provider_models : AgentForm → List String
selected_provider_models f = models_of (selected_provider f)

-- `provider?.models[0] ?? ""`
abbrev pub first_model : Option LlmProviderSummary → String
first_model p = get_or (first (models_of p)) ""

abbrev pub id_of : Option LlmProviderSummary → String
id_of none = ""
id_of (some p) = p.id

-- The id that the effect on the enabled providers leaves: `?.id ?? ""` is the id it has if there is no
-- provider, since the effect returns first.
abbrev pub settled_id : AgentForm → String
settled_id f =
    if is_provider f.model_source
      && is_some (first (enabled_providers f))
      && not (truthy f.selected_provider_id)
    then id_of (first (enabled_providers f))
    else f.selected_provider_id

-- The model that the effect on the selected provider leaves.
abbrev pub settled_model : AgentForm → String
settled_model f =
    if is_provider f.model_source
      && is_some (first (selected_provider_models f))
      && not (truthy f.selected_provider_model)
    then first_model (selected_provider f)
    else f.selected_provider_model

-- The two effects behind a render, which read what was rendered.
unfoldable pub run_effects : AgentForm → AgentForm
run_effects f = record f {
  selected_provider_id = settled_id f;
  selected_provider_model = settled_model f;
}

-- The effects behind the first render, where the source is "codeagent": only the first does something.
unfoldable pub mounted :
    AgentFormMode → Option AgentDetail → List LlmProviderSummary → Bool → AgentForm
unfolding fill
mounted mode agent providers loading = fill mode agent (opening mode agent providers loading)
