-- ===== src/Pages/Steps.antt =====
-- What the handlers of the pages do in any world.
use change_quality_agent.Base.{
  not, ◌||◌, String, Bool, true, false, none, some, List, [], ◌∷◌, ◌≡◌, refl, inl, inr, Bool-cases,
  if◌then◌else◌,
}
use change_quality_agent.Base.Json.{Json}
use change_quality_agent.Http.Errors.{as_error}
use change_quality_agent.Async.Types.{Outcome, success, failure}
use change_quality_agent.Api.Calls.{
  Call, Lifecycle, start, stop, restart, check, post_lifecycle, delete_mcp_server,
  update_mcp_server,
}
use change_quality_agent.Pages.Handler.{
  Handler, returned, confirm, refetch_list, navigate, await_value, with_value, World, Step, asked,
  called, steps,
}
use change_quality_agent.Pages.Servers.{
  Named, is_mcp_not_found_error, list_settled, detail_settled, run_list_mutation,
  run_detail_mutation, on_list_action, on_list_delete, on_detail_action, handle_delete,
}

-- The calls that end or restart a server.
abbrev pub is_destructive : Call → Bool
is_destructive (post_lifecycle id restart) = true
is_destructive (delete_mcp_server id) = true
is_destructive c = false

-- The server that a call is about.
abbrev pub server_of : Call → String
server_of (post_lifecycle id action) = id
server_of (delete_mcp_server id) = id
server_of (update_mcp_server id payload) = id
server_of c = ""

-- Every call is about that server, and one that is destructive stands behind a question whose answer
-- was yes: `agreed` is the last answer.
abbrev pub Agreed : String → Bool → List Step → Type 0
Agreed target agreed [] = Unit
Agreed target agreed (asked text answer ∷ ss) = Agreed target answer ss
Agreed target agreed (called c o ∷ ss) =
    (server_of c ≡ target) × ((not (is_destructive c) || agreed) ≡ true) × Agreed target agreed ss
Agreed target agreed (_ ∷ ss) = Agreed target agreed ss

-- The buttons of the page with the list and of that of one server.
pub data Press : Type 0 where
  list_action : List Named → String → Lifecycle → Press
  list_delete : List Named → String → Press
  detail_action : Named → Lifecycle → Press
  detail_delete : Named → Press

abbrev pub handler_of : Press → Handler
handler_of (list_action servers id action) = on_list_action servers id action
handler_of (list_delete servers id) = on_list_delete servers id
handler_of (detail_action server action) = on_detail_action server action
handler_of (detail_delete server) = handle_delete (some server)

-- The server of the row or of the page.
abbrev pub target_of : Press → String
target_of (list_action servers id action) = id
target_of (list_delete servers id) = id
target_of (detail_action server action) = server.id
target_of (detail_delete server) = server.id

module _ (w : World) (target : String) where
  question-Agreed :
      (text : String) (h : Handler)
      → Agreed target true (steps w h)
      → Agreed target false (steps w (confirm text λ yes_. if yes_ then h else returned))
  unfolding steps
  question-Agreed text h a = elim (Bool-cases (w.confirms text)) [
    | inl agreed ↦ rw agreed a
    | inr refused ↦ rw refused tt
  ]

  list_mutation-Agreed :
      (c : Call) (agreed : Bool)
      → server_of c ≡ target
      → (not (is_destructive c) || agreed) ≡ true
      → Agreed target agreed (steps w (run_list_mutation c))
  unfolding steps run_list_mutation
  list_mutation-Agreed c agreed t d = (t, d, settled (w.outcome c))
    where
      settled : (o : Outcome Json) → Agreed target agreed (steps w (list_settled o))
      settled (success v) = tt
      settled (failure e) = tt

  detail_mutation-Agreed :
      (c : Call) (agreed : Bool)
      → server_of c ≡ target
      → (not (is_destructive c) || agreed) ≡ true
      → Agreed target agreed (steps w (run_detail_mutation c))
  unfolding steps run_detail_mutation detail_settled
  detail_mutation-Agreed c agreed t d = (t, d, settled (w.outcome c))
    where
      settled : (o : Outcome Json) → Agreed target agreed (steps w (detail_settled o))
      settled (success v) = tt
      settled (failure e) = elim (Bool-cases (is_mcp_not_found_error (some (as_error e)))) [
        | inl gone ↦ rw gone tt
        | inr other ↦ rw other tt
      ]

  deletion-Agreed : Agreed target true (
      steps w
        (await_value (delete_mcp_server target) λ _. refetch_list (navigate "/mcp" none returned)))
  unfolding steps
  deletion-Agreed = (refl, refl, settled (w.outcome (delete_mcp_server target)))
    where
      settled :
          (o : Outcome Json)
          → Agreed target true
              (steps w (with_value (λ _. refetch_list (navigate "/mcp" none returned)) o))
      settled (success v) = tt
      settled (failure e) = tt

-- Whatever button of the two pages is pressed, and whatever the user and the server answer: every
-- call is about the server of the button, and a server is restarted or deleted only after the user
-- was asked and agreed.
pub steps-Agreed : (p : Press) (w : World) → Agreed (target_of p) false (steps w (handler_of p))
unfolding on_list_action on_list_delete on_detail_action handle_delete
steps-Agreed (list_action servers id start) w =
    list_mutation-Agreed w id (post_lifecycle id start) false refl refl
steps-Agreed (list_action servers id stop) w =
    list_mutation-Agreed w id (post_lifecycle id stop) false refl refl
steps-Agreed (list_action servers id check) w =
    list_mutation-Agreed w id (post_lifecycle id check) false refl refl
steps-Agreed (list_action servers id restart) w =
    question-Agreed w id _ _ (list_mutation-Agreed w id (post_lifecycle id restart) true refl refl)
steps-Agreed (list_delete servers id) w =
    question-Agreed w id _ _ (list_mutation-Agreed w id (delete_mcp_server id) true refl refl)
steps-Agreed (detail_action server start) w =
    detail_mutation-Agreed w server.id (post_lifecycle server.id start) false refl refl
steps-Agreed (detail_action server stop) w =
    detail_mutation-Agreed w server.id (post_lifecycle server.id stop) false refl refl
steps-Agreed (detail_action server check) w =
    detail_mutation-Agreed w server.id (post_lifecycle server.id check) false refl refl
steps-Agreed (detail_action server restart) w =
    question-Agreed w server.id _ _
      (detail_mutation-Agreed w server.id (post_lifecycle server.id restart) true refl refl)
steps-Agreed (detail_delete server) w =
    question-Agreed w server.id _ _ (deletion-Agreed w server.id)
