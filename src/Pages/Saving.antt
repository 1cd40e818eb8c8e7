-- ===== src/Pages/Saving.antt =====
-- What the pages with a form do with the answer to a save, in any world.
use change_quality_agent.Base.{String, Option, none, some, List, [], ◌∷◌, ◌≡◌, refl, ap}
use change_quality_agent.Base.Json.{Json}
use change_quality_agent.Http.Errors.{Thrown}
use change_quality_agent.Async.Types.{Outcome, success, failure}
use change_quality_agent.Api.Calls.{
  Call, create_mcp_server, update_mcp_server, create_llm_provider, update_llm_provider,
  create_agent, update_agent_draft,
}
use change_quality_agent.Pages.Handler.{
  with_value, Handler, with_value, World, Step, called, navigated, steps, thrown, id_of, path_of,
}
use change_quality_agent.Pages.Servers as Servers
use change_quality_agent.Pages.Providers as Providers
use change_quality_agent.Pages.Agents as Agents

-- A form is submitted, on one of the six pages with one; the edit pages stand at a target.
pub data Save : Type 0 where
  new_server new_provider new_agent : Json → Save
  old_server old_provider : String → String → Json → Save
  old_agent : String → Json → Save

abbrev pub handler_of : Save → Handler
handler_of (new_server payload) = Servers.on_create payload
handler_of (new_provider payload) = Providers.on_create payload
handler_of (new_agent payload) = Agents.on_create payload
handler_of (old_server target id payload) = Servers.on_update target id payload
handler_of (old_provider target id payload) = Providers.on_update target id payload
handler_of (old_agent id payload) = Agents.on_update id payload

abbrev pub call_of : Save → Call
call_of (new_server payload) = create_mcp_server payload
call_of (new_provider payload) = create_llm_provider payload
call_of (new_agent payload) = create_agent payload
call_of (old_server target id payload) = update_mcp_server id payload
call_of (old_provider target id payload) = update_llm_provider id payload
call_of (old_agent id payload) = update_agent_draft id payload

-- Where a saved thing is shown: its own page, or the list of agents.
abbrev pub shown_at : Save → Json → String
shown_at (new_server payload) value = path_of "/mcp" (id_of value)
shown_at (new_provider payload) value = path_of "/llm-providers" (id_of value)
shown_at (new_agent payload) value = "/agents"
shown_at (old_server target id payload) value = path_of "/mcp" target
shown_at (old_provider target id payload) value = path_of "/llm-providers" target
shown_at (old_agent id payload) value = "/agents"

abbrev pub calls : List Step → List Call
calls [] = []
calls (called c o ∷ ss) = c ∷ calls ss
calls (_ ∷ ss) = calls ss

abbrev pub paths : List Step → List String
paths [] = []
paths (navigated path notice ∷ ss) = path ∷ paths ss
paths (_ ∷ ss) = paths ss

abbrev pub left_for : Save → Outcome Json → List String
left_for s (success value) = shown_at s value ∷ []
left_for s (failure e) = []

abbrev pub error_of : Outcome Json → Option Thrown
error_of (success value) = none
error_of (failure e) = some e

left_by : (Json → String) → Outcome Json → List String
left_by there (success value) = there value ∷ []
left_by there (failure e) = []

-- A call is awaited, and `next` makes none, leaves for one place and returns.
await-leaves :
    (w : World) (c : Call) (next : Json → Handler) (there : Json → String) (o : Outcome Json)
    → ((v : Json)
        → (calls (steps w (next v)) ≡ [])
          × (paths (steps w (next v)) ≡ there v ∷ [])
          × (thrown w (next v) ≡ none))
    → (calls (called c o ∷ steps w (with_value next o)) ≡ c ∷ [])
      × (paths (called c o ∷ steps w (with_value next o)) ≡ left_by there o)
      × (thrown w (with_value next o) ≡ error_of o)
unfolding steps thrown left_by
await-leaves w c next there (success v) h = (ap (λ cs. c ∷ cs) (h v).0, (h v).1, (h v).2)
await-leaves w c next there (failure e) h = (refl, refl, refl)

left_for-left_by : (s : Save) (o : Outcome Json) → left_by (shown_at s) o ≡ left_for s o
unfolding left_by
left_for-left_by s (success v) = refl
left_for-left_by s (failure e) = refl

-- On each of the six pages with a form, whatever the server answers: a save makes its call once, and
-- leaves for the page of what was saved exactly if the call succeeded; if it failed, the page stays,
-- and the form is thrown the error.
pub save-leaves :
    (s : Save) (w : World)
    → (calls (steps w (handler_of s)) ≡ call_of s ∷ [])
      × (paths (steps w (handler_of s)) ≡ left_for s (w.outcome (call_of s)))
      × (thrown w (handler_of s) ≡ error_of (w.outcome (call_of s)))
unfolding steps thrown Servers.on_create Providers.on_create Agents.on_create Servers.on_update
    Providers.on_update Agents.on_update
save-leaves (new_server payload) w =
    let o = w.outcome (call_of (new_server payload)) in
    rw (← left_for-left_by (new_server payload) o) (
      await-leaves w (call_of (new_server payload)) _ (shown_at (new_server payload)) o
        (λ v. (refl, refl, refl)))
save-leaves (new_provider payload) w =
    let o = w.outcome (call_of (new_provider payload)) in
    rw (← left_for-left_by (new_provider payload) o) (
      await-leaves w (call_of (new_provider payload)) _ (shown_at (new_provider payload)) o
        (λ v. (refl, refl, refl)))
save-leaves (new_agent payload) w =
    let o = w.outcome (call_of (new_agent payload)) in
    rw (← left_for-left_by (new_agent payload) o) (
      await-leaves w (call_of (new_agent payload)) _ (shown_at (new_agent payload)) o
        (λ v. (refl, refl, refl)))
save-leaves (old_server target id payload) w =
    let o = w.outcome (call_of (old_server target id payload)) in
    rw (← left_for-left_by (old_server target id payload) o) (
      await-leaves w (call_of (old_server target id payload)) _
        (shown_at (old_server target id payload)) o (λ v. (refl, refl, refl)))
save-leaves (old_provider target id payload) w =
    let o = w.outcome (call_of (old_provider target id payload)) in
    rw (← left_for-left_by (old_provider target id payload) o) (
      await-leaves w (call_of (old_provider target id payload)) _
        (shown_at (old_provider target id payload)) o (λ v. (refl, refl, refl)))
save-leaves (old_agent id payload) w =
    let o = w.outcome (call_of (old_agent id payload)) in
    rw (← left_for-left_by (old_agent id payload) o) (
      await-leaves w (call_of (old_agent id payload)) _ (shown_at (old_agent id payload)) o
        (λ v. (refl, refl, refl)))
