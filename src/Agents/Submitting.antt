-- ===== src/Agents/Submitting.antt =====
-- What the form of an agent saves.
use change_quality_agent.Base.{
  Bool, find, filter, ◌++◌, Bool-cases, Option-cases, inl, inr, ap, sym, ◌∙◌, str_eq, String,
  truthy, includes, true, false, ◌&&◌, not, Option, none, some, is_some, get_or, first, List, [],
  ◌∷◌, ◌≡◌, refl, arith, eq_iff, if◌then◌else◌,
}
use change_quality_agent.Base.Scan.{trim}
use change_quality_agent.Agents.Form.{
  LlmProviderSummary, AgentDetail, AgentFormMode, AgentForm, is_edit, is_provider,
  selected_provider, selected_provider_models,
}
use change_quality_agent.Agents.Saving.{
  AgentDraftUpdate, Submission, updated, save_blocked, build_agent_draft_payload, save,
  handle_submit,
}
use change_quality_agent.Agents.Settling.{IsSettled}

pub chosen_is_offered :
    (models : List String) (x : String)
    → is_some (first models) ≡ true
    → (truthy x && is_some (first models) && not (includes x models)) ≡ false
    → (if is_some (first models) && not (truthy x) then get_or (first models) "" else x) ≡ x
    → includes x models ≡ true
chosen_is_offered [] x s u c = ground (arith, s)
chosen_is_offered (m ∷ ms) x s u c = ground (arith, u, c, eq_iff m x, eq_iff x m)

-- A submission that calls something was of a form that may be saved.
record IsAccepted (f : AgentForm) (s : Submission) : Type 0 where
  named : truthy (trim f.display_name) ≡ true
  prompted : truthy (trim f.system_prompt) ≡ true
  allowed : save_blocked f ≡ false
  saved : save f.mode f.agent f ≡ s

submit-IsAccepted :
    (f : AgentForm) (id : String) (u : AgentDraftUpdate)
    → (handle_submit f).1 ≡ updated id u
    → IsAccepted f (updated id u)
unfolding handle_submit
submit-IsAccepted f id u e = ground (arith, e)

saved-update :
    (mode : AgentFormMode) (agent : Option AgentDetail) (f : AgentForm) (id : String)
    (u : AgentDraftUpdate)
    → save mode agent f ≡ updated id u
    → (is_edit mode ≡ true)
      × (u.display_name ≡ trim f.display_name)
      × (u.draft ≡ build_agent_draft_payload f)
unfolding save
saved-update AgentFormMode.create agent f id u e = absurd cc
saved-update AgentFormMode.edit none f id u e = absurd cc
saved-update AgentFormMode.edit (some agent) f id u e = ground (arith, e)

-- What a search among those that pass finds is in the list, passes, and is what was searched for.
find-filter :
    (passes wanted : LlmProviderSummary → Bool) (ps : List LlmProviderSummary)
    (p : LlmProviderSummary)
    → find wanted (filter passes ps) ≡ some p
    → (before after : List LlmProviderSummary) × (ps ≡ before ++ p ∷ after)
      × (passes p ≡ true)
      × (wanted p ≡ true)
find-filter passes wanted [] p e = absurd (cc)
find-filter passes wanted (q ∷ ps) p e = elim (Bool-cases (passes q)) [
  | inl in_ ↦ elim (Bool-cases (wanted q)) [
    | inl it ↦
        let same : q ≡ p = let c = rw (in_, it) at e in ap (λ o. get_or o q) c in
        ([], ps, ap (λ r. r ∷ ps) same, sym (ap passes same) ∙ in_, sym (ap wanted same) ∙ it)
    | inr other ↦
        let (b, a, s, x, w) = find-filter passes wanted ps p (let c = rw (in_, other) at e in c) in
        (q ∷ b, a, ap (λ r. q ∷ r) s, x, w)
  ]
  | inr out ↦
      let (b, a, s, x, w) = find-filter passes wanted ps p (let c = rw out at e in c) in
      (q ∷ b, a, ap (λ r. q ∷ r) s, x, w)
]

-- One of the enabled providers of the form, and one of its models.
abbrev pub IsAvailable : AgentForm → LlmProviderSummary → String → Type 0
IsAvailable f p m =
    (before after : List LlmProviderSummary) × (f.providers ≡ before ++ p ∷ after)
    × (p.enabled ≡ true)
    × (includes m p.models ≡ true)

selected-IsAvailable :
    (f : AgentForm)
    → is_some (selected_provider f) ≡ true
    → includes f.selected_provider_model (selected_provider_models f) ≡ true
    → (p : LlmProviderSummary) × IsAvailable f p f.selected_provider_model
      × (p.id ≡ f.selected_provider_id)
selected-IsAvailable f found listed = elim (Option-cases (selected_provider f)) [
  | inl absent ↦ absurd (let c = rw absent at found in cc)
  | inr (p, e) ↦
      let (b, a, s, on, own) =
        find-filter (λ q. q.enabled) (λ q. str_eq q.id f.selected_provider_id) f.providers p e in
      (
        p,
        (b, a, s, on, let c = rw e at listed in c),
        ground (arith, own, eq_iff p.id f.selected_provider_id),
      )
]

-- When the effects have settled and the source is a provider: an edit saves the trimmed id of an
-- enabled provider of the list and the trimmed name of one of its models, which are the provider and
-- the model that are selected. The name and the prompt that it saves are not blank.
pub saved_model_is_offered :
    (f : AgentForm) (id : String) (u : AgentDraftUpdate)
    → IsSettled f
    → is_provider f.model_source ≡ true
    → (handle_submit f).1 ≡ updated id u
    → (p : LlmProviderSummary) × IsAvailable f p f.selected_provider_model
      × (p.id ≡ f.selected_provider_id)
      × (u.draft.provider_id ≡ some (trim p.id))
      × (u.draft.model ≡ trim f.selected_provider_model)
      × (truthy u.display_name ≡ true)
      × (truthy u.draft.system_prompt ≡ true)
unfolding build_agent_draft_payload save_blocked
saved_model_is_offered f id u v p e =
    let a = submit-IsAccepted f id u e in
    let (edits, name, draft) = saved-update f.mode f.agent f id u a.saved in
    let (found, full, off) : (is_some (selected_provider f) ≡ true)
        × (is_some (first (selected_provider_models f)) ≡ true)
        × ((truthy f.selected_provider_model
              && is_some (first (selected_provider_models f))
              && not (includes f.selected_provider_model (selected_provider_models f)))
            ≡ false) =
      ground (arith, a.allowed, p, edits) in
    let listed =
      chosen_is_offered (selected_provider_models f) f.selected_provider_model full off
        (ground (arith, v.1, p)) in
    let (q, offered, own) = selected-IsAvailable f found listed in
    (
      q,
      offered,
      own,
      rw (draft, p, own) refl,
      rw (draft, p) refl,
      rw name a.named,
      rw draft a.prompted,
    )
