-- ===== src/Workspace/SignIn.antt =====
-- Signing in through the picker and the switcher.
use change_quality_agent.Base.{
  ◌==◌, none, some, if◌then◌else◌, ◌≤◌, ◌<◌, String, true, false, none, some, is_some, List, [],
  ◌∷◌, ◌≡◌, arith,
}
use change_quality_agent.Http.Errors.{Thrown}
use change_quality_agent.Async.Types.{Outcome, success, failure}
use change_quality_agent.Auth.Context.{
  CurrentUser, AuthState, loading, anonymous, authenticated, Provider, login, logged_in,
}
use change_quality_agent.Auth.Context as Context
use change_quality_agent.Workspace.Accounts.{
  SignIn, get_login_error_message, begin_login, handle_login, handle_switch, settle_login,
  settle_switch, Event, press, answered, picker_step, switcher_step, run_picker, run_switcher,
  shown_in,
}

-- At most one login is under way; it is the latest request of the context, and its account is pending.
record IsSingle (c : SignIn) : Type 0 where
  mounted : c.auth.mounted ≡ true
  single : c.under_way ≤ 1
  latest : 0 < c.under_way → c.auth.request_id ≡ c.request
  pending : 0 < c.under_way → is_some c.pending_account ≡ true

begin_login-IsSingle :
    (account : String) (c : SignIn)
    → is_some c.pending_account ≡ false
    → IsSingle c
    → IsSingle (begin_login account c)
unfolding begin_login Context.step
begin_login-IsSingle account c free v = ground (arith, v.pending)

settle_login-IsSingle :
    (o : Outcome CurrentUser) (c : SignIn)
    → 0 < c.under_way
    → IsSingle c
    → IsSingle (settle_login o c)
unfolding settle_login Context.step
settle_login-IsSingle (success u) c h v = ground (arith, v.latest h, v.pending h)
settle_login-IsSingle (failure e) c h v = ground (arith, v.latest h, v.pending h)

picker_step-IsSingle : (c : SignIn) (e : Event) → IsSingle c → IsSingle (picker_step c e)
unfolding picker_step handle_login
picker_step-IsSingle c (press account) v = ground (arith, begin_login-IsSingle account c)
picker_step-IsSingle c (answered o) v = ground (arith, settle_login-IsSingle o c)

switcher_step-IsSingle : (c : SignIn) (e : Event) → IsSingle c → IsSingle (switcher_step c e)
unfolding switcher_step handle_switch settle_switch
switcher_step-IsSingle c (press account) v = ground (arith, begin_login-IsSingle account c)
switcher_step-IsSingle c (answered o) v = ground (arith, settle_login-IsSingle o c)

run_picker-IsSingle : (c : SignIn) (es : List Event) → IsSingle c → IsSingle (run_picker c es)
unfolding run_picker
run_picker-IsSingle c [] v = v
run_picker-IsSingle c (e ∷ es) v =
    run_picker-IsSingle (picker_step c e) es (picker_step-IsSingle c e v)

run_switcher-IsSingle : (c : SignIn) (es : List Event) → IsSingle c → IsSingle (run_switcher c es)
unfolding run_switcher
run_switcher-IsSingle c [] v = v
run_switcher-IsSingle c (e ∷ es) v =
    run_switcher-IsSingle (switcher_step c e) es (switcher_step-IsSingle c e v)

shown_in-IsSingle : (p : Provider) → p.mounted ≡ true → IsSingle (shown_in p)
shown_in-IsSingle p m = ground arith

-- An answer, where there is a login under way, leaves the first, and else the second.
abbrev pub after {ℓ} : {A : Type ℓ} → SignIn → A → A → A
after c answered_ before = if c.under_way == 0 then before else answered_

-- What answers leave: a success signs its user in; a failure leaves the context, shows the message of
-- the error, and no account is pending.
abbrev pub Answers : (SignIn → Event → SignIn) → SignIn → CurrentUser → Thrown → Type 0
Answers step c u e =
    ((step c (answered (success u))).auth.state ≡ after c (authenticated u) c.auth.state)
    × ((step c (answered (failure e))).auth.state ≡ c.auth.state)
    × ((step c (answered (failure e))).pending_account ≡ after c none c.pending_account)
    × ((step c (answered (failure e))).error_message
        ≡ after c (some (get_login_error_message e)) c.error_message)

picker_step-Answers :
    (c : SignIn) (u : CurrentUser) (e : Thrown) → IsSingle c → Answers picker_step c u e
unfolding picker_step settle_login Context.step
picker_step-Answers c u e v = (ground (arith, v.latest), ground arith, ground arith, ground arith)

switcher_step-Answers :
    (c : SignIn) (u : CurrentUser) (e : Thrown) → IsSingle c → Answers switcher_step c u e
unfolding switcher_step settle_switch settle_login Context.step
switcher_step-Answers c u e v = (ground (arith, v.latest), ground arith, ground arith, ground arith)

-- In the picker of a user, after any presses and answers, in a context that is shown and that makes
-- no request of its own: at most one login is under way; when one is, its success signs its user in,
-- and its failure leaves the context as it is, shows the message of the error and lets another
-- account be pressed.
pub run_picker-Answers :
    (p : Provider) (es : List Event) (u : CurrentUser) (e : Thrown)
    → p.mounted ≡ true
    → ((run_picker (shown_in p) es).under_way ≤ 1)
      × Answers picker_step (run_picker (shown_in p) es) u e
run_picker-Answers p es u e m =
    let v = run_picker-IsSingle (shown_in p) es (shown_in-IsSingle p m) in
    (v.single, picker_step-Answers (run_picker (shown_in p) es) u e v)

-- The same holds in the switcher.
pub run_switcher-Answers :
    (p : Provider) (es : List Event) (u : CurrentUser) (e : Thrown)
    → p.mounted ≡ true
    → ((run_switcher (shown_in p) es).under_way ≤ 1)
      × Answers switcher_step (run_switcher (shown_in p) es) u e
run_switcher-Answers p es u e m =
    let v = run_switcher-IsSingle (shown_in p) es (shown_in-IsSingle p m) in
    (v.single, switcher_step-Answers (run_switcher (shown_in p) es) u e v)
