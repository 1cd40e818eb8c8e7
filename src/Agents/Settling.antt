-- ===== src/Agents/Settling.antt =====
-- The effects of the form settle.
use change_quality_agent.Base.{
  String, truthy, Bool, ◌&&◌, not, is_some, first, ◌≡◌, refl, arith, if◌then◌else◌, str_eq, eq_iff,
  get_or, Option, none, some, List, filter, find, true, false, ◌∙◌, ap, Bool-cases, inl, inr,
}
use change_quality_agent.Agents.Form.{
  LlmProviderSummary, AgentForm, is_provider, enabled_providers, selected_provider,
  selected_provider_models, first_model, id_of, settled_id, settled_model, run_effects,
}

choose_again :
    (b : Bool) (chosen held : String)
    → let now = if b && not (truthy held) then chosen else held in
      (if b && not (truthy now) then chosen else now) ≡ now
choose_again b chosen held = ground arith

settled_id-again : (f : AgentForm) → settled_id (run_effects f) ≡ settled_id f
unfolding run_effects
settled_id-again f =
    choose_again (is_provider f.model_source && is_some (first (enabled_providers f)))
      (id_of (first (enabled_providers f))) f.selected_provider_id

abbrev pub IsSettled : AgentForm → Type 0
IsSettled f =
    (settled_id f ≡ f.selected_provider_id) × (settled_model f ≡ f.selected_provider_model)

run_effects-settled : (f : AgentForm) → IsSettled f → run_effects f ≡ f
unfolding run_effects
run_effects-settled f (i, m) = rw (i, m) refl

settled_model-again :
    (f : AgentForm)
    → settled_id f ≡ f.selected_provider_id
    → settled_model (run_effects f) ≡ settled_model f
unfolding run_effects
settled_model-again f i = rw i (
    choose_again (is_provider f.model_source && is_some (first (selected_provider_models f)))
      (first_model (selected_provider f)) f.selected_provider_model)

pub run_effects_twice : (f : AgentForm) → IsSettled (run_effects (run_effects f))
unfolding run_effects
run_effects_twice f =
    (settled_id-again (run_effects f), settled_model-again (run_effects f) (settled_id-again f))

-- The choice that is made, or else the other.
abbrev pub chosen_or : String → String → String
chosen_or chosen other = if truthy chosen then chosen else other

-- The id of the first enabled provider, and the first model of the enabled provider with an id.
abbrev pub offered_id : List LlmProviderSummary → String
offered_id providers = elim (first (filter (λ p. p.enabled) providers)) [
  | none ↦ ""
  | some p ↦ p.id
]

abbrev pub offered_model : String → List LlmProviderSummary → String
offered_model id providers = elim (find (λ p. str_eq p.id id) (filter (λ p. p.enabled) providers)) [
  | none ↦ ""
  | some p ↦ get_or (first p.models) ""
]

-- What the effects choose where nothing is chosen: for a provider as the source, the first that is
-- enabled, and the first model of the provider that was selected before or else of that one.
abbrev pub final_id : AgentForm → String
final_id f =
    chosen_or f.selected_provider_id
      (if is_provider f.model_source then offered_id f.providers else "")

abbrev pub final_model : AgentForm → String
final_model f = chosen_or f.selected_provider_model (
    if is_provider f.model_source
    then chosen_or (offered_model f.selected_provider_id f.providers)
        (offered_model (final_id f) f.providers)
    else "")

empty-≡ : (x : String) → truthy x ≡ false → x ≡ ""
empty-≡ x h = ground (arith, h, eq_iff x "")

-- An effect keeps a choice, and makes one where there is one to make.
effect-chosen_or :
    (from_provider is_there : Bool) (new held : String)
    → (is_there ≡ false → new ≡ "")
    → (if from_provider && is_there && not (truthy held) then new else held)
      ≡ chosen_or held (if from_provider then new else "")
effect-chosen_or from_provider is_there new held h = ground (arith, empty-≡ held, h)

chosen_or-chosen_or :
    (from_provider : Bool) (held a b : String)
    → chosen_or (chosen_or held (if from_provider then a else "")) (if from_provider then b else "")
      ≡ chosen_or held (if from_provider then chosen_or a b else "")
chosen_or-chosen_or true held a b = elim (Bool-cases (truthy held)) [
  | inl some_ ↦ rw some_ (rw some_ refl)
  | inr none_ ↦ rw none_ refl
]
chosen_or-chosen_or false held a b = elim (Bool-cases (truthy held)) [
  | inl some_ ↦ rw some_ (rw some_ refl)
  | inr none_ ↦ rw none_ refl
]

absent_id : (o : Option LlmProviderSummary) → is_some o ≡ false → id_of o ≡ ""
absent_id none h = refl
absent_id (some p) h = absurd (cc)

absent_text : (o : Option String) → is_some o ≡ false → get_or o "" ≡ ""
absent_text none h = refl
absent_text (some s) h = absurd (cc)

first_model-offered :
    (o : Option LlmProviderSummary)
    → first_model o ≡ elim o [ none ↦ "" | some p ↦ get_or (first p.models) "" ]
first_model-offered none = refl
first_model-offered (some p) = refl

settled_id-final : (f : AgentForm) → settled_id f ≡ final_id f
settled_id-final f =
    effect-chosen_or (is_provider f.model_source) (is_some (first (enabled_providers f)))
      (id_of (first (enabled_providers f))) f.selected_provider_id
      (absent_id (first (enabled_providers f)))

-- One run of the effect on the model.
settled_model-offered :
    (f : AgentForm)
    → settled_model f
      ≡ chosen_or f.selected_provider_model (
          if is_provider f.model_source
          then offered_model f.selected_provider_id f.providers
          else "")
settled_model-offered f =
    effect-chosen_or (is_provider f.model_source) (is_some (first (selected_provider_models f)))
      (first_model (selected_provider f)) f.selected_provider_model
      (absent_text (first (selected_provider_models f)))
    ∙ ap (λ m. chosen_or f.selected_provider_model (if is_provider f.model_source then m else ""))
        (first_model-offered (selected_provider f))

settled_model-final : (f : AgentForm) → settled_model (run_effects f) ≡ final_model f
unfolding run_effects
settled_model-final f =
    settled_model-offered (run_effects f)
    ∙ rw (settled_model-offered f, settled_id-final f)
        (chosen_or-chosen_or (is_provider f.model_source) f.selected_provider_model
          (offered_model f.selected_provider_id f.providers)
          (offered_model (final_id f) f.providers))

-- The effects of the form settle: two renders from any state keep the provider and the model that are
-- chosen already, and where one is not and the source is a provider, choose the first enabled provider
-- and the first model of the provider that is selected; they change nothing else, and a third render
-- changes nothing more.
pub run_effects-settle :
    (f : AgentForm)
    → (run_effects (run_effects f)
        ≡ record f { selected_provider_id = final_id f; selected_provider_model = final_model f })
      × (run_effects (run_effects (run_effects f)) ≡ run_effects (run_effects f))
unfolding run_effects
run_effects-settle f = (
  ap
        (λ i. record f {
          selected_provider_id = i;
          selected_provider_model = settled_model (run_effects f);
        })
        (settled_id-again f ∙ settled_id-final f)
      ∙ ap (λ m. record f { selected_provider_id = final_id f; selected_provider_model = m })
          (settled_model-final f),
  run_effects-settled (run_effects (run_effects f)) (run_effects_twice f),
)
