-- ===== src/Auth/Tests.antt =====
-- The theorems on the session of the user, on routes and on responses at concrete ones.
use change_quality_agent.Base.{List, [], ◌∷◌, true, ◌≡◌, refl, inl}
use change_quality_agent.Async.Types.{success, failure}
use change_quality_agent.Http.Errors.{a_value}
use change_quality_agent.Auth.Context
use change_quality_agent.Auth.Races.{shown, verdict_on, run-answers, refresh_overtaken}

abbrev admin : Context.CurrentUser
admin = record { id = "1"; account = "root"; is_admin = true; meta = [] }

-- A refresh is under way when the user signs in; the answer to the login comes first.
abbrev asking : Context.Provider
asking = record Context.initial { request_id = 1 }

abbrev answers : List Context.Event
answers = Context.logged_in 2 (success admin) ∷ Context.refreshed 1 (failure (a_value "401")) ∷ []

run-answers_example :
    Context.run asking (Context.login ∷ answers)
    ≡ record asking { state = shown Context.loading (verdict_on 2 answers); request_id = 2 }
run-answers_example =
    run-answers asking Context.login Context.loading answers refl refl (refl, (refl, tt))

refresh_overtaken_example :
    (Context.run Context.initial (
      Context.refresh
      ∷ Context.login
      ∷ Context.refreshed 1 (success admin)
      ∷ Context.logged_in 2 (failure (a_value "403"))
      ∷ [])).state
    ≡ Context.loading
refresh_overtaken_example =
    refresh_overtaken Context.initial (success admin) (a_value "403") Context.login
      (Context.logged_in 2 (failure (a_value "403"))) (inl (refl, refl))
