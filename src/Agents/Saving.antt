-- ===== src/Agents/Saving.antt =====
-- frontend/src/features/agents/components/AgentForm.tsx: what may be chosen, what may be saved, and saving.
use change_quality_agent.Base.{
  String, truthy, includes, Bool, true, false, ◌&&◌, ◌||◌, not, Option, none, some, is_some, first,
  List, [], ◌∷◌, ◌++◌, map, if◌then◌else◌,
}
use change_quality_agent.Base.Scan.{trim}
use change_quality_agent.Agents.Form.{
  codeagent_model_options, AgentDraftConfig, AgentDetail, AgentFormMode, display_name_error,
  system_prompt_error, PromptView, AgentForm, is_edit, is_provider, enabled_providers,
  find_provider, selected_provider, selected_provider_models, first_model,
}

abbrev pub unavailable_code_agent_model : AgentForm → Bool
unavailable_code_agent_model f =
    is_edit f.mode
    && not (is_provider f.model_source)
    && truthy f.code_agent_model
    && not (includes f.code_agent_model codeagent_model_options)

abbrev pub unavailable_draft_provider : AgentForm → Bool
unavailable_draft_provider f =
    is_edit f.mode
    && is_provider f.model_source
    && not f.providers_loading
    && truthy f.selected_provider_id
    && not (is_some (selected_provider f))

abbrev pub unavailable_provider_model : AgentForm → Bool
unavailable_provider_model f =
    is_edit f.mode
    && is_provider f.model_source
    && is_some (selected_provider f)
    && truthy f.selected_provider_model
    && is_some (first (selected_provider_models f))
    && not (includes f.selected_provider_model (selected_provider_models f))

abbrev pub provider_save_blocked : AgentForm → Bool
provider_save_blocked f =
    is_provider f.model_source
    && (f.providers_loading
        || unavailable_draft_provider f
        || not (is_some (selected_provider f))
        || not (is_some (first (selected_provider_models f))))

abbrev pub model_save_blocked : AgentForm → Bool
model_save_blocked f = unavailable_code_agent_model f || unavailable_provider_model f

unfoldable pub save_blocked : AgentForm → Bool
save_blocked f = provider_save_blocked f || model_save_blocked f

unfoldable pub show_provider_models_message : AgentForm → Bool
show_provider_models_message f =
    is_provider f.model_source
    && not f.providers_loading
    && is_some (selected_provider f)
    && not (is_some (first (selected_provider_models f)))

pub record AgentCreate : Type 0 where
  pub description : Option String
  pub display_name : String
  pub draft : AgentDraftConfig

pub record AgentDraftUpdate : Type 0 where
  pub description : Option String
  pub display_name : String
  pub draft : AgentDraftConfig
  pub enabled : Bool

-- What a submission calls.
pub data Submission : Type 0 where
  ignored : Submission
  created : AgentCreate → Submission
  updated : String → AgentDraftUpdate → Submission

abbrev pub selected_model : AgentForm → String
selected_model f =
    if is_provider f.model_source then f.selected_provider_model else f.code_agent_model

unfoldable pub build_agent_draft_payload : AgentForm → AgentDraftConfig
build_agent_draft_payload f = record {
  mcp_server_ids = [];
  model = trim (selected_model f);
  model_config = [];
  provider_id = if is_provider f.model_source then some (trim f.selected_provider_id) else none;
  system_prompt = trim f.system_prompt;
  tool_allowlist = [];
}

-- `text.trim() || null`
abbrev pub trimmed_or_null : String → Option String
trimmed_or_null text = if truthy (trim text) then some (trim text) else none

unfoldable pub save : AgentFormMode → Option AgentDetail → AgentForm → Submission
unfolding build_agent_draft_payload
save AgentFormMode.create agent f = created (record {
  description = trimmed_or_null f.description;
  display_name = trim f.display_name;
  draft = build_agent_draft_payload f;
})
save AgentFormMode.edit none f = ignored
save AgentFormMode.edit (some agent) f = updated agent.id (record {
  description = trimmed_or_null f.description;
  display_name = trim f.display_name;
  draft = build_agent_draft_payload f;
  enabled = f.enabled;
})

-- `handleSubmit`: the form that it leaves, and what it calls.
unfoldable pub handle_submit : AgentForm → AgentForm × Submission
unfolding save save_blocked
handle_submit f =
    if not (truthy (trim f.display_name))
    then (record f { error_field = some display_name_error }, ignored)
    else if not (truthy (trim f.system_prompt))
    then (
      record f { error_field = some system_prompt_error; system_prompt_view = PromptView.editing },
      ignored,
    )
    else (
      record f { error_field = none },
      if save_blocked f then ignored else save f.mode f.agent f,
    )

-- An option of a select: its value, and whether it is disabled.
pub record Choice : Type 0 where
  pub value : String
  pub disabled : Bool

abbrev pub choice_if : Bool → Bool → String → List Choice
choice_if b disabled value = if b then record { value = value; disabled = disabled } ∷ [] else []

abbrev pub choices_of : List String → List Choice
choices_of values = map (λ v. record { value = v; disabled = false }) values

unfoldable pub code_agent_choices : AgentForm → List Choice
code_agent_choices f =
    choice_if (unavailable_code_agent_model f) true f.code_agent_model
    ++ choices_of codeagent_model_options

unfoldable pub provider_choices : AgentForm → List Choice
provider_choices f =
    let no_provider = not f.providers_loading && not (is_some (first (enabled_providers f))) in
    choice_if f.providers_loading false ""
    ++ (choice_if no_provider false ""
        ++ (choice_if (unavailable_draft_provider f) true f.selected_provider_id
            ++ choices_of (map (λ p. p.id) (enabled_providers f))))

unfoldable pub model_choices : AgentForm → List Choice
model_choices f =
    let no_model = not (is_some (first (selected_provider_models f))) in
    choice_if (unavailable_provider_model f) true f.selected_provider_model
    ++ (choice_if no_model false f.selected_provider_model
        ++ choices_of (selected_provider_models f))

-- The handler of the select of a provider.
unfoldable pub pick_provider : String → AgentForm → AgentForm
pick_provider next_provider_id f = record f {
  selected_provider_id = next_provider_id;
  selected_provider_model = first_model (find_provider next_provider_id f);
}
