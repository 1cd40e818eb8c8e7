-- ===== src/Async/Tests.antt =====
-- The theorems on the data hooks at concrete hooks.
use change_quality_agent.Base.{ℕ, Option, none, some, List, [], ◌∷◌, ◌≡◌, refl}
use change_quality_agent.Http.Errors.{a_value}
use change_quality_agent.Async.Types.{success, failure}
use change_quality_agent.Async.Request
use change_quality_agent.Async.Latest.{answer_to, displayed, run-refetch}

abbrev list_hook : Request.Hook (List ℕ)
list_hook = Request.list_initial

-- A late answer to another request, and the answer to the latest.
abbrev answers : List (Request.Event (List ℕ))
answers = Request.settle 1 (success (4 ∷ 2 ∷ [])) ∷ Request.settle 0 (failure (a_value "late")) ∷ []

abbrev detail_hook : Request.Hook (Option ℕ)
detail_hook = Request.detail_initial

abbrev detail_answers : List (Request.Event (Option ℕ))
detail_answers = Request.settle 1 (failure (a_value "gone")) ∷ []

run-refetch_example :
    ((Request.run Request.list_begin [] list_hook (Request.refetch ∷ answers)).state
      ≡ displayed [] [] (answer_to 1 answers))
    × ((Request.run Request.detail_begin none
          (Request.detail_refetch (some "s1") detail_hook)
          detail_answers).state
        ≡ displayed none none (answer_to 1 detail_answers))
run-refetch_example =
    run-refetch list_hook answers (some "s1") detail_hook detail_answers refl (refl, (refl, tt))
      refl refl (refl, tt)
