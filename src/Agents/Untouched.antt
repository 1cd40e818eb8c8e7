-- ===== src/Agents/Untouched.antt =====
-- An agent that is edited and saved without a change.
use change_quality_agent.Base.{
  String, str_eq, truthy, includes, true, false, Option, some, is_some, get_or, find, first, filter,
  List, [], ◌∷◌, ◌≡◌, refl, arith,
}
use change_quality_agent.Base.Scan.{trim}
use change_quality_agent.Agents.Form.{
  AgentDraftConfig, AgentDetail, LlmProviderSummary, AgentFormMode, fill, fill_from, mounted,
}
use change_quality_agent.Agents.Saving.{
  AgentDraftUpdate, updated, trimmed_or_null, save_blocked, build_agent_draft_payload, save,
  handle_submit,
}
use change_quality_agent.Agents.Settling.{IsSettled}

abbrev pub find_enabled : String → List LlmProviderSummary → Option LlmProviderSummary
find_enabled id providers = find (λ p. str_eq p.id id) (filter (λ p. p.enabled) providers)

-- An agent whose draft has a model of an enabled provider, and whose texts have no white space at
-- their ends.
pub record IsPlain (providers : List LlmProviderSummary) (a : AgentDetail) (d : AgentDraftConfig)
    (id : String) (p : LlmProviderSummary) : Type 0 where
  pub drafted : a.draft ≡ some d
  pub given : d.provider_id ≡ some id
  pub found : find_enabled id providers ≡ some p
  pub offered : includes d.model p.models ≡ true
  pub display_name : trim a.display_name ≡ a.display_name
  pub description : trimmed_or_null (get_or a.description "") ≡ a.description
  pub system_prompt : trim d.system_prompt ≡ d.system_prompt
  pub model : trim d.model ≡ d.model
  pub provider_id : trim id ≡ id
  pub named : truthy a.display_name ≡ true
  pub prompted : truthy d.system_prompt ≡ true
  pub chosen : truthy d.model ≡ true
  pub known : truthy id ≡ true

-- The update that `buildAgentDraftPayload` makes of such an agent.
abbrev pub emptied : AgentDetail → AgentDraftConfig → AgentDraftUpdate
emptied a d = record {
  description = a.description;
  display_name = a.display_name;
  draft = record d { model_config = []; tool_allowlist = []; mcp_server_ids = [] };
  enabled = a.enabled;
}

offered_some :
    (x : String) (models : List String) → includes x models ≡ true → is_some (first models) ≡ true
offered_some x [] h = ground (arith, h)
offered_some x (m ∷ ms) h = refl

pub submit-mounted :
    (providers : List LlmProviderSummary) (a : AgentDetail) (d : AgentDraftConfig) (id : String)
    (p : LlmProviderSummary)
    → IsPlain providers a d id p
    → let f = mounted AgentFormMode.edit (some a) providers false in
      IsSettled f × ((handle_submit f).1 ≡ updated a.id (emptied a d))
unfolding mounted fill fill_from handle_submit save save_blocked build_agent_draft_payload
submit-mounted providers a d id p v =
    let full = offered_some d.model p.models v.offered in
    rw (v.drafted, v.given, v.known, v.found, v.chosen)
      (
        (ground arith, ground arith),
        rw
            (
              v.display_name, v.description, v.system_prompt, v.model, v.provider_id, v.named,
              v.prompted, full, v.offered,
            )
            refl,
      )
