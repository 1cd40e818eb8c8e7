-- ===== src/Pages/Tests.antt =====
-- The pages in concrete worlds, and the theorems on them.
use change_quality_agent.Base.{
  ◌+◌, ◌==◌, ◌<◌, ◌≤◌, true, false, ◌||◌, none, some, length, List, [], ◌∷◌, ◌≡◌, ◌↔◌, refl,
  if◌then◌else◌,
}
use change_quality_agent.Base.Json.{Json, Members}
use change_quality_agent.Http.Errors.{as_error, an_error, status_error, plain_error}
use change_quality_agent.Async.Types.{success, failure}
use change_quality_agent.Async.Features.{
  DetailEvent, answer, detail_run, use_mcp_server_detail, use_agent_detail, use_llm_provider_detail,
}
use change_quality_agent.Async.Request.{finish, detail_refetch}
use change_quality_agent.Async.Mutation.{pending}
use change_quality_agent.Api.Calls.{restart, delete_mcp_server, post_lifecycle}
use change_quality_agent.Pages.Handler.{
  World, asked, called, list_refetched, navigated, steps, thrown,
}
use change_quality_agent.Pages.Servers.{
  Named, handle_delete, on_detail_action, is_mcp_not_found_error,
}
use change_quality_agent.Pages.Providers.{
  Event, press_delete, confirm, test, tested, opened, step, run,
}
use change_quality_agent.Pages.Deleting.{run-deletions}
use change_quality_agent.Pages.Steps.{
  Press, detail_action, detail_delete, Agreed, target_of, steps-Agreed,
}
use change_quality_agent.Pages.Steps as Steps
use change_quality_agent.Pages.Saving.{
  Save, new_server, call_of, calls, paths, left_for, error_of, save-leaves,
}
use change_quality_agent.Pages.Saving as Saving
use change_quality_agent.Pages.Views.{mcp_detail_parts, mcp_edit_parts, detail_parts}
use change_quality_agent.Pages.Shown.{is_hidden, blank_iff_hidden}

abbrev created : Json
created = Json.obj (Members.member "id" (Json.str "s1") Members.end)

abbrev willing : World
willing = record { confirms = λ text. true; outcome = λ c. success created }

abbrev failing : World
failing = record {
  confirms = λ text. true;
  outcome = λ c. failure (an_error (status_error 404 "gone"));
}

abbrev server : Named
server = record { id = "s1"; name = "files" }

deleted_then_left :
    steps willing (Steps.handler_of (detail_delete server))
    ≡ asked "确认删除 files？" true
      ∷ called (delete_mcp_server "s1") (success created)
      ∷ list_refetched
      ∷ navigated "/mcp" none
      ∷ []
unfolding steps handle_delete
deleted_then_left = refl

gone_server_is_not_loaded :
    steps failing (Steps.handler_of (detail_action server restart))
    ≡ asked "确认重启 files？" true
      ∷ called (post_lifecycle "s1" restart) (failure (an_error (status_error 404 "gone")))
      ∷ list_refetched
      ∷ []
unfolding steps on_detail_action as_error
gone_server_is_not_loaded = refl

steps-Agreed_example : Agreed "s1" false (steps willing (Steps.handler_of (detail_delete server)))
steps-Agreed_example = steps-Agreed (detail_delete server) willing

save-leaves_example :
    (calls (steps willing (Saving.handler_of (new_server created)))
      ≡ call_of (new_server created) ∷ [])
    × (paths (steps willing (Saving.handler_of (new_server created)))
        ≡ left_for (new_server created) (willing.outcome (call_of (new_server created))))
    × (thrown willing (Saving.handler_of (new_server created))
        ≡ error_of (willing.outcome (call_of (new_server created))))
save-leaves_example = save-leaves (new_server created) willing

abbrev presses : List Event
presses = test ∷ press_delete ∷ tested (success created) ∷ press_delete ∷ confirm ∷ confirm ∷ []

one_deletion : ((run opened presses).deletions ≡ 1) × ((run opened presses).tests ≡ 0)
unfolding run opened step
one_deletion = (refl, refl)

run-deletions_example :
    ((run opened presses).deletions ≤ 1)
    × (((run opened presses).deletions == 0 || (run opened presses).confirming) ≡ true)
    × ((pending (run opened presses).mutations ≡ true)
        ↔ (0 < (run opened presses).tests + (run opened presses).deletions))
run-deletions_example = run-deletions presses

abbrev broken : List (DetailEvent Named)
broken = answer 1 (failure (an_error (plain_error "offline"))) ∷ []

blank_page : mcp_detail_parts (use_mcp_server_detail (some "s1") broken).1.state ≡ []
unfolding mcp_detail_parts use_mcp_server_detail detail_run finish detail_refetch
    is_mcp_not_found_error as_error
blank_page = refl

blank_iff_hidden_example :
    (length (detail_parts (use_llm_provider_detail (some "s1") broken).1.state) ≡ 1)
    × (length (detail_parts (use_agent_detail (some "s1") broken).1.state) ≡ 1)
    × (length (mcp_detail_parts (use_mcp_server_detail (some "s1") broken).1.state)
        ≡ (if is_hidden (use_mcp_server_detail (some "s1") broken).1.state.error then 0 else 1))
    × (length (mcp_edit_parts (use_mcp_server_detail (some "s1") broken).1.state)
        ≡ (if is_hidden (use_mcp_server_detail (some "s1") broken).1.state.error then 0 else 1))
blank_iff_hidden_example = blank_iff_hidden (some "s1") broken refl (tt, tt)
