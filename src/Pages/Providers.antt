-- ===== src/Pages/Providers.antt =====
-- frontend/src/features/llmProviders/pages: the handlers of LlmProviderFormPage.tsx and
-- LlmProviderDetailPage.tsx, and the dialog before a provider is deleted.
use change_quality_agent.Base.{
  ℕ, ◌+◌, ◌-◌, ◌==◌, String, Bool, true, false, ◌&&◌, not, Option, none, some, List, [], ◌∷◌,
  if◌then◌else◌,
}
use change_quality_agent.Base.Json.{Json}
use change_quality_agent.Async.Types.{Outcome}
use change_quality_agent.Async.Mutation.{
  Mutations, pending, absent, begin_mutation, end_provider_mutation,
}
use change_quality_agent.Async.Wrappers.{create_provider, update_provider, delete_provider}
use change_quality_agent.Pages.Handler.{Handler, returned, navigate, await_value, id_of, path_of}

-- LlmProviderCreatePage: `onCreate`
unfoldable pub on_create : Json → Handler
on_create payload = await_value (create_provider payload) λ created.
    navigate (path_of "/llm-providers" (id_of created)) (some "LLM Provider 已创建。") returned

-- LlmProviderEditPage: `onUpdate`; the page's `detailState.refetch` is the load of the detail.
unfoldable pub on_update : String → String → Json → Handler
on_update target id payload = await_value (update_provider id payload) λ _.
    Handler.refetch_detail
      (navigate (path_of "/llm-providers" target) (some "LLM Provider 已保存。") returned)

-- LlmProviderDetailPage: `handleDelete`, with the id of the provider that is shown.
unfoldable pub handle_delete : Option String → Handler
handle_delete none = returned
handle_delete (some id) =
    await_value (delete_provider id) λ _. navigate "/llm-providers" none returned

-- `confirmingDelete` and the page's mutations, which the tests of models share; how many tests and
-- deletions are not answered.
pub record DeleteDialog : Type 0 where
  pub confirming : Bool
  pub mutations : Mutations
  pub tests : ℕ
  pub deletions : ℕ

-- The button of the page and the two of the dialog; a test of a model begins; an answer to a test
-- and to a deletion.
pub data Event : Type 0 where
  press_delete cancel confirm : Event
  test : Event
  tested : Outcome Json → Event
  deleted : Outcome Json → Event

unfoldable pub opened : DeleteDialog
opened = record {
  confirming = false;
  mutations = record { pending_count = 0; error = none; mounted = true };
  tests = 0;
  deletions = 0;
}

-- The end of a call, in the page's mutations.
unfoldable pub settle : Outcome Json → Mutations → Mutations
unfolding end_provider_mutation
settle o m = (end_provider_mutation o absent m).0

-- The buttons are off while a mutation is pending; an answer comes to a call that is under way.
unfoldable pub step : DeleteDialog → Event → DeleteDialog
unfolding begin_mutation settle
step d press_delete = if pending d.mutations then d else record d { confirming = true }
step d cancel = if pending d.mutations then d else record d { confirming = false }
step d confirm =
    if d.confirming && not (pending d.mutations)
    then record d { mutations = begin_mutation d.mutations; deletions = d.deletions + 1 }
    else d
step d test = record d { mutations = begin_mutation d.mutations; tests = d.tests + 1 }
step d (tested o) =
    if d.tests == 0 then d else record d { mutations = settle o d.mutations; tests = d.tests - 1 }
step d (deleted o) =
    if d.deletions == 0
    then d
    else record d { mutations = settle o d.mutations; deletions = d.deletions - 1 }

unfoldable pub run : DeleteDialog → List Event → DeleteDialog
run d [] = d
run d (e ∷ es) = run (step d e) es
