-- ===== src/Agents/Tests.antt =====
-- The theorems on the form of an agent at concrete forms.
use change_quality_agent.Base.{truthy, true, false, none, some, List, [], ◌∷◌, ◌≡◌, refl}
use change_quality_agent.Base.Scan.{is_blank, trim, trim_start, trim_end}
use change_quality_agent.Agents.Form.{
  AgentDraftConfig, AgentDetail, LlmProviderSummary, AgentFormMode, ModelSource, AgentForm, fill,
  fill_from, mounted, run_effects,
}
use change_quality_agent.Agents.Saving.{updated, handle_submit}
use change_quality_agent.Agents.Settling.{IsSettled, final_id, final_model, run_effects-settle}
use change_quality_agent.Agents.Submitting.{IsAvailable, saved_model_is_offered}
use change_quality_agent.Agents.Untouched.{IsPlain, emptied, submit-mounted}

abbrev enabled_provider : LlmProviderSummary
enabled_provider = record {
  id = "p1";
  display_name = "On";
  models = "m1" ∷ "m2" ∷ [];
  enabled = true;
}

abbrev providers : List LlmProviderSummary
providers =
    record { id = "p0"; display_name = "Off"; models = []; enabled = false } ∷ enabled_provider ∷ []

abbrev draft : AgentDraftConfig
draft = record {
  system_prompt = "check";
  model = "m2";
  provider_id = some "p1";
  model_config = [];
  tool_allowlist = "search" ∷ [];
  mcp_server_ids = "s1" ∷ [];
}

abbrev agent : AgentDetail
agent = record {
  id = "a1";
  display_name = "reviewer";
  description = none;
  enabled = true;
  draft = some draft;
}

agent_IsPlain : IsPlain providers agent draft "p1" enabled_provider
unfolding trim trim_start trim_end is_blank
agent_IsPlain = record {
  drafted = refl;
  given = refl;
  found = refl;
  offered = refl;
  display_name = refl;
  description = refl;
  system_prompt = refl;
  model = refl;
  provider_id = refl;
  named = refl;
  prompted = refl;
  chosen = refl;
  known = refl;
}

abbrev filled : AgentForm
filled = mounted AgentFormMode.edit (some agent) providers false

filled_kept : IsSettled filled × ((handle_submit filled).1 ≡ updated "a1" (emptied agent draft))
filled_kept = submit-mounted providers agent draft "p1" enabled_provider agent_IsPlain

-- A provider is chosen as the source of a form that had none.
abbrev switched : AgentForm
switched = record filled {
  model_source = ModelSource.provider;
  selected_provider_id = "";
  selected_provider_model = "";
}

run_effects-settle_example :
    (run_effects (run_effects switched) ≡ record switched {
      selected_provider_id = final_id switched;
      selected_provider_model = final_model switched;
    })
    × (run_effects (run_effects (run_effects switched)) ≡ run_effects (run_effects switched))
run_effects-settle_example = run_effects-settle switched

saved_model_is_offered_example :
    (p : LlmProviderSummary) × IsAvailable filled p filled.selected_provider_model
    × (p.id ≡ filled.selected_provider_id)
    × ((emptied agent draft).draft.provider_id ≡ some (trim p.id))
    × ((emptied agent draft).draft.model ≡ trim filled.selected_provider_model)
    × (truthy "reviewer" ≡ true)
    × (truthy "check" ≡ true)
unfolding mounted fill fill_from
saved_model_is_offered_example =
    saved_model_is_offered filled "a1" (emptied agent draft) filled_kept.0 refl filled_kept.1
