-- ===== src/Agents/Choices.antt =====
-- What the selects of the form show.
use change_quality_agent.Base.{
  String, str_eq, truthy, includes, Bool, true, false, ◌&&◌, ◌||◌, not, Option, none, some, is_some,
  find, first, List, [], ◌∷◌, ◌++◌, map, ◌≡◌, refl, ◌∙◌, arith, eq_iff, Bool-cases, inl, inr,
}
use change_quality_agent.Agents.Form.{
  LlmProviderSummary, AgentForm, is_edit, is_provider, enabled_providers, selected_provider,
  selected_provider_models, models_of, id_of, settled_id, settled_model,
}
use change_quality_agent.Agents.Saving.{
  Choice, choice_if, choices_of, provider_choices, model_choices, unavailable_draft_provider,
  unavailable_provider_model,
}
use change_quality_agent.Agents.Settling.{IsSettled}
use change_quality_agent.Agents.Submitting.{chosen_is_offered}

-- A value that is among the choices.
abbrev pub shows : String → List Choice → Bool
shows x [] = false
shows x (c ∷ cs) = str_eq x c.value || shows x cs

shows-append : (x : String) (bs cs : List Choice) → shows x (bs ++ cs) ≡ (shows x bs || shows x cs)
shows-append x [] cs = refl
shows-append x (b ∷ bs) cs = ground (arith, shows-append x bs cs)

shows-choice_if : (x : String) (b d : Bool) → shows x (choice_if b d x) ≡ b
shows-choice_if x b d = ground (arith, eq_iff x x)

shows-choices_of : (x : String) (vs : List String) → shows x (choices_of vs) ≡ includes x vs
shows-choices_of x [] = refl
shows-choices_of x (v ∷ vs) = ground (arith, shows-choices_of x vs, eq_iff x v, eq_iff v x)

found_is_included :
    (id : String) (ps : List LlmProviderSummary)
    → is_some (find (λ p. str_eq p.id id) ps) ≡ true
    → includes id (map (λ p. p.id) ps) ≡ true
found_is_included id [] h = ground (arith, h)
found_is_included id (p ∷ ps) h =
    ground (arith, h, found_is_included id ps, eq_iff p.id id, eq_iff id p.id)

first_is_included :
    (id : String) (ps : List LlmProviderSummary)
    → is_some (first ps) ≡ true
    → id_of (first ps) ≡ id
    → includes id (map (λ p. p.id) ps) ≡ true
first_is_included id [] h e = ground (arith, h)
first_is_included id (p ∷ ps) h e = ground (arith, e, eq_iff p.id id, eq_iff id p.id)

-- What is selected is a provider that is enabled, or the choice of one that is not.
listed : AgentForm → Bool
listed f =
    unavailable_draft_provider f
    || includes f.selected_provider_id (map (λ p. p.id) (enabled_providers f))

selected_is_listed :
    (f : AgentForm)
    → settled_id f ≡ f.selected_provider_id
    → is_edit f.mode ≡ true
    → is_provider f.model_source ≡ true
    → f.providers_loading ≡ false
    → (listed f || not (truthy f.selected_provider_id || is_some (first (enabled_providers f))))
      ≡ true
unfolding listed
selected_is_listed f s e p l =
    let id = f.selected_provider_id in
    elim (Bool-cases (is_some (selected_provider f))) [
      | inl found ↦ ground (arith, found_is_included id (enabled_providers f) found)
      | inr lost ↦ elim (Bool-cases (truthy id)) [
        | inl full ↦ ground (arith, lost, full, e, p, l)
        | inr empty ↦ elim (Bool-cases (is_some (first (enabled_providers f)))) [
          | inl some_ ↦ ground (
            arith,
            first_is_included id (enabled_providers f) some_ (ground (arith, s, p, empty, some_)),
          )
          | inr none_ ↦ ground (arith, empty, none_)
        ]
      ]
    ]

provider_is_shown :
    (f : AgentForm)
    → f.providers_loading ≡ false
    → (listed f || not (truthy f.selected_provider_id || is_some (first (enabled_providers f))))
      ≡ true
    → shows f.selected_provider_id (provider_choices f) ≡ true
unfolding provider_choices listed
provider_is_shown f l h =
    let id = f.selected_provider_id in
    let ids = map (λ p. p.id) (enabled_providers f) in
    let empty = not f.providers_loading && not (is_some (first (enabled_providers f))) in
    let lost = unavailable_draft_provider f in
    let rest = choice_if lost true id ++ choices_of ids in
    shows-append id (choice_if f.providers_loading false "") (choice_if empty false "" ++ rest)
    ∙ ground (
      arith,
      l,
      h,
      shows-append id (choice_if empty false "") rest,
      shows-append id (choice_if lost true id) (choices_of ids),
      shows-choice_if id lost true,
      shows-choices_of id ids,
    )

has_models-found :
    (o : Option LlmProviderSummary) → is_some (first (models_of o)) ≡ true → is_some o ≡ true
has_models-found none h = ground (arith, h)
has_models-found (some p) h = refl

model_is_offered :
    (f : AgentForm)
    → settled_model f ≡ f.selected_provider_model
    → is_edit f.mode ≡ true
    → is_provider f.model_source ≡ true
    → is_some (first (selected_provider_models f)) ≡ true
    → unavailable_provider_model f ≡ false
    → includes f.selected_provider_model (selected_provider_models f) ≡ true
model_is_offered f s e p full off =
    chosen_is_offered (selected_provider_models f) f.selected_provider_model full
      (ground (arith, off, e, p, has_models-found (selected_provider f) full))
      (ground (arith, s, p))

model_is_shown :
    (f : AgentForm)
    → settled_model f ≡ f.selected_provider_model
    → is_edit f.mode ≡ true
    → is_provider f.model_source ≡ true
    → shows f.selected_provider_model (model_choices f) ≡ true
unfolding model_choices
model_is_shown f s e p =
    let x = f.selected_provider_model in
    let ms = selected_provider_models f in
    let none_yet = not (is_some (first ms)) in
    let lost = unavailable_provider_model f in
    shows-append x (choice_if lost true x) (choice_if none_yet false x ++ choices_of ms)
    ∙ ground (
      arith,
      shows-choice_if x lost true,
      shows-append x (choice_if none_yet false x) (choices_of ms),
      shows-choice_if x none_yet false,
      shows-choices_of x ms,
      model_is_offered f s e p,
    )

-- When the effects have settled in an edit whose source is a provider, and the providers have come,
-- the selects of the provider and of the model show what is selected: each value is one of the choices.
pub selected_is_shown :
    (f : AgentForm)
    → IsSettled f
    → is_edit f.mode ≡ true
    → is_provider f.model_source ≡ true
    → f.providers_loading ≡ false
    → (shows f.selected_provider_id (provider_choices f) ≡ true)
      × (shows f.selected_provider_model (model_choices f) ≡ true)
selected_is_shown f (i, m) e p l =
    (provider_is_shown f l (selected_is_listed f i e p l), model_is_shown f m e p)
