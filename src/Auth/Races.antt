-- ===== src/Auth/Races.antt =====
-- Answers of the server that come late, and the state that they leave.
use change_quality_agent.Base.{
  ℕ, ◌+◌, ◌==◌, Bool, true, false, Option, none, some, or_else, List, [], ◌∷◌, All, ◌≡◌, ◌⊎◌, refl,
  ap, ◌∙◌, arith, inl, inr, if◌then◌else◌,
}
use change_quality_agent.Http.Errors.{Thrown}
use change_quality_agent.Async.Types.{Outcome, success, failure}
use change_quality_agent.Auth.Context.{
  CurrentUser, AuthState, loading, anonymous, authenticated, Provider, Event, refresh, login,
  logout, refreshed, logged_in, logged_out, unmount, step, run,
}

-- What an answer has the provider show.
abbrev pub verdict : Event → Option AuthState
verdict (refreshed n (success user)) = some (authenticated user)
verdict (refreshed n (failure e)) = some anonymous
verdict (logged_in n (success user)) = some (authenticated user)
verdict (logged_out n (success _)) = some anonymous
verdict _ = none

-- It answers the request `n`.
abbrev pub answers : ℕ → Event → Bool
answers n (refreshed m o) = n == m
answers n (logged_in m o) = n == m
answers n (logged_out m o) = n == m
answers n _ = false

-- Only answers arrive.
abbrev pub is_answer : Event → Bool
is_answer (refreshed m o) = true
is_answer (logged_in m o) = true
is_answer (logged_out m o) = true
is_answer _ = false

-- The last verdict on the request `n`.
unfoldable pub verdict_on : ℕ → List Event → Option AuthState
verdict_on n [] = none
verdict_on n (e ∷ es) = or_else (verdict_on n es) (if answers n e then verdict e else none)

abbrev pub shown : AuthState → Option AuthState → AuthState
shown before none = before
shown before (some s) = s

step-answer :
    (p : Provider) (e : Event)
    → p.mounted ≡ true
    → is_answer e ≡ true
    → step p e
      ≡ record p { state = shown p.state (if answers p.request_id e then verdict e else none) }
unfolding step
step-answer p (refreshed n (success u)) m a = ground arith
step-answer p (refreshed n (failure t)) m a = ground arith
step-answer p (logged_in n (success u)) m a = ground arith
step-answer p (logged_in n (failure t)) m a = ground arith
step-answer p (logged_out n (success u)) m a = ground arith
step-answer p (logged_out n (failure t)) m a = ground arith
step-answer p refresh m a = cc
step-answer p login m a = cc
step-answer p logout m a = cc
step-answer p unmount m a = cc

shown-or_else :
    (s : AuthState) (a b : Option AuthState) → shown (shown s b) a ≡ shown s (or_else a b)
shown-or_else s none b = refl
shown-or_else s (some t) b = refl

run-later :
    (p : Provider) (es : List Event)
    → p.mounted ≡ true
    → All (λ e. is_answer e ≡ true) es
    → run p es ≡ record p { state = shown p.state (verdict_on p.request_id es) }
unfolding run verdict_on
run-later p [] m a = refl
run-later p (e ∷ es) m (h, a) =
    let v = if answers p.request_id e then verdict e else none in
    ap (λ q. run q es) (step-answer p e m h)
    ∙ run-later (record p { state = shown p.state v }) es m a
    ∙ ap (λ s. record p { state = s }) (shown-or_else p.state (verdict_on p.request_id es) v)

-- What the provider shows when a request starts, and `none` of what is no request.
abbrev pub asked : Event → AuthState → Option AuthState
asked refresh s = some loading
asked login s = some s
asked logout s = some s
asked e s = none

step-asked :
    (p : Provider) (ask : Event) (begun : AuthState)
    → asked ask p.state ≡ some begun
    → step p ask ≡ record p { state = begun; request_id = p.request_id + 1 }
unfolding step
step-asked p refresh begun e = ground (arith, e)
step-asked p login begun e = ground (arith, e)
step-asked p logout begun e = ground (arith, e)
step-asked p (refreshed n o) begun e = absurd (cc)
step-asked p (logged_in n o) begun e = absurd (cc)
step-asked p (logged_out n o) begun e = absurd (cc)
step-asked p unmount begun e = absurd (cc)

-- A request takes the number behind that of the request before, whether it is a refresh, a login or a
-- logout; while the provider stays and nothing new is asked, only answers to it count, and not those
-- to earlier requests. A refresh shows that it loads until it is answered, and the others leave what
-- is shown.
pub run-answers :
    (p : Provider) (ask : Event) (begun : AuthState) (es : List Event)
    → p.mounted ≡ true
    → asked ask p.state ≡ some begun
    → All (λ e. is_answer e ≡ true) es
    → run p (ask ∷ es) ≡ record p {
      state = shown begun (verdict_on (p.request_id + 1) es);
      request_id = p.request_id + 1;
    }
unfolding run
run-answers p ask begun es m k a =
    ap (λ q. run q es) (step-asked p ask begun k)
    ∙ run-later (record p { state = begun; request_id = p.request_id + 1 }) es m a

-- A login or a logout that starts while a refresh is under way and then fails leaves the provider
-- loading, although the refresh has answered and no request is left.
pub refresh_overtaken :
    (p : Provider) (o : Outcome CurrentUser) (e : Thrown) (next last : Event)
    → ((next ≡ login) × (last ≡ logged_in (p.request_id + 2) (failure e)))
      ⊎ ((next ≡ logout) × (last ≡ logged_out (p.request_id + 2) (failure e)))
    → (run p (refresh ∷ next ∷ refreshed (p.request_id + 1) o ∷ last ∷ [])).state ≡ loading
unfolding run step
refresh_overtaken p (success u) e next last (inl (a, b)) = rw (a, b) (ground arith)
refresh_overtaken p (success u) e next last (inr (a, b)) = rw (a, b) (ground arith)
refresh_overtaken p (failure t) e next last (inl (a, b)) = rw (a, b) (ground arith)
refresh_overtaken p (failure t) e next last (inr (a, b)) = rw (a, b) (ground arith)
