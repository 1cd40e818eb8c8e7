-- ===== src/Pages/Deleting.antt =====
-- Deletions of a provider, and the tests of models that share the page's pending mark.
use change_quality_agent.Base.{
  ◌==◌, ◌||◌, ◌+◌, ◌-◌, ◌≤◌, ◌<◌, true, List, [], ◌∷◌, ◌≡◌, ◌↔◌, refl, arith,
}
use change_quality_agent.Base.Json.{Json}
use change_quality_agent.Async.Types.{Outcome, success, failure}
use change_quality_agent.Async.Mutation.{Mutations, pending, begin_mutation, end_provider_mutation}
use change_quality_agent.Pages.Providers.{
  DeleteDialog, Event, press_delete, cancel, confirm, test, tested, deleted, opened, settle, step,
  run,
}

record IsCounted (d : DeleteDialog) : Type 0 where
  counted : d.mutations.pending_count ≡ d.tests + d.deletions
  single : d.deletions ≤ 1
  open_while : 0 < d.deletions → d.confirming ≡ true

settle-pending_count :
    (o : Outcome Json) (m : Mutations) → (settle o m).pending_count ≡ m.pending_count - 1
unfolding settle end_provider_mutation
settle-pending_count (success v) m = refl
settle-pending_count (failure e) m = refl

step-IsCounted : (d : DeleteDialog) (e : Event) → IsCounted d → IsCounted (step d e)
unfolding step begin_mutation
step-IsCounted d press_delete v = ground (arith, v.open_while)
step-IsCounted d cancel v = ground (arith, v.open_while)
step-IsCounted d confirm v = ground (arith, v.open_while)
step-IsCounted d test v = ground (arith, v.open_while)
step-IsCounted d (tested o) v = ground (arith, v.open_while, settle-pending_count o d.mutations)
step-IsCounted d (deleted o) v = ground (arith, v.open_while, settle-pending_count o d.mutations)

run-IsCounted : (d : DeleteDialog) (es : List Event) → IsCounted d → IsCounted (run d es)
unfolding run
run-IsCounted d [] v = v
run-IsCounted d (e ∷ es) v = run-IsCounted (step d e) es (step-IsCounted d e v)

opened-IsCounted : IsCounted opened
unfolding opened
opened-IsCounted = ground arith

-- On the page of a provider, after any presses and answers in any order: at most one deletion is
-- under way, and then the dialog is open; the mark of a deletion under way, `pending`, is on exactly
-- while a deletion or the test of a model is.
pub run-deletions :
    (es : List Event)
    → let d = run opened es in
      (d.deletions ≤ 1)
      × ((d.deletions == 0 || d.confirming) ≡ true)
      × ((pending d.mutations ≡ true) ↔ (0 < d.tests + d.deletions))
run-deletions es =
    let v = run-IsCounted opened es opened-IsCounted in
    (v.single, ground (arith, v.open_while), ground (arith, v.counted))
