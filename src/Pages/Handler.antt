-- ===== src/Pages/Handler.antt =====
-- An asynchronous handler of a page, one `await` at a time, and a run of it in a world that answers.
use change_quality_agent.Base.{String, Bool, Option, none, some, get_or, List, [], ◌∷◌, str_append}
use change_quality_agent.Base.Json.{Json, record_of, read_string}
use change_quality_agent.Base.Dict.{get}
use change_quality_agent.Http.Errors.{Thrown}
use change_quality_agent.Async.Types.{Outcome, success, failure}
use change_quality_agent.Api.Calls.{Call}

-- A handler has returned or thrown; or it asks `window.confirm`, awaits a mutation, loads the list
-- or the detail again (which never throws), or navigates to a path with a notice.
pub data Handler : Type 0 where
  returned : Handler
  threw : Thrown → Handler
  confirm : String → (Bool → Handler) → Handler
  mutate : Call → (Outcome Json → Handler) → Handler
  refetch_list refetch_detail : Handler → Handler
  navigate : String → Option String → Handler → Handler

-- What the user answers, and how the calls end.
pub record World : Type 0 where
  pub confirms : String → Bool
  pub outcome : Call → Outcome Json

pub data Step : Type 0 where
  asked : String → Bool → Step
  called : Call → Outcome Json → Step
  list_refetched detail_refetched : Step
  navigated : String → Option String → Step

unfoldable pub steps : World → Handler → List Step
steps w returned = []
steps w (threw e) = []
steps w (confirm text next) = asked text (w.confirms text) ∷ steps w (next (w.confirms text))
steps w (mutate c next) = called c (w.outcome c) ∷ steps w (next (w.outcome c))
steps w (refetch_list next) = list_refetched ∷ steps w next
steps w (refetch_detail next) = detail_refetched ∷ steps w next
steps w (navigate path notice next) = navigated path notice ∷ steps w next

-- What it throws in the end.
unfoldable pub thrown : World → Handler → Option Thrown
thrown w returned = none
thrown w (threw e) = some e
thrown w (confirm text next) = thrown w (next (w.confirms text))
thrown w (mutate c next) = thrown w (next (w.outcome c))
thrown w (refetch_list next) = thrown w next
thrown w (refetch_detail next) = thrown w next
thrown w (navigate path notice next) = thrown w next

-- `await action()` whose error is not caught, and what is done with the value that it gives.
abbrev pub with_value : (Json → Handler) → Outcome Json → Handler
with_value next (success value) = next value
with_value next (failure e) = threw e

abbrev pub await_value : Call → (Json → Handler) → Handler
await_value c next = mutate c (with_value next)

-- `value.id`; by its declared type the value is an object that has this text.
abbrev pub id_of : Json → String
id_of (Json.obj ms) = get_or (read_string (get "id" (record_of ms))) ""
id_of _ = ""

abbrev pub path_of : String → String → String
path_of base id = str_append base (str_append "/" id)
