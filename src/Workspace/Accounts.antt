-- ===== src/Workspace/Accounts.antt =====
-- frontend/src/features/auth: DevUserPicker.tsx and DevUserSwitcher.tsx over the context of
-- AuthContext.tsx, and loginErrors.ts.
use change_quality_agent.Base.{
  ℕ, ◌+◌, ◌-◌, ◌==◌, String, str_eq, truthy_opt, Bool, false, ◌||◌, Option, none, some, is_some,
  get_or, List, [], ◌∷◌, if◌then◌else◌,
}
use change_quality_agent.Http.Errors.{JsError, api_error, message_of, Thrown, an_error, a_value}
use change_quality_agent.Async.Types.{Outcome, success, failure}
use change_quality_agent.Auth.Context.{
  CurrentUser, AuthState, loading, anonymous, authenticated, Provider, login, logged_in,
}
use change_quality_agent.Auth.Context as Context

-- `error instanceof ApiError && error.detail`, and `error.message`
abbrev pub message_or_detail : JsError → String
message_or_detail (api_error status status_text detail) =
    if truthy_opt detail then get_or detail "" else message_of (api_error status status_text detail)
message_or_detail e = message_of e

-- `getLoginErrorMessage`
unfoldable pub get_login_error_message : Thrown → String
get_login_error_message (an_error e) = message_or_detail e
get_login_error_message (a_value s) = "Login failed."

-- One of the two components, with the context: its pending account and message, the number of its
-- latest login, and how many of its logins are not answered.
pub record SignIn : Type 0 where
  pub auth : Provider
  pub pending_account : Option String
  pub error_message : Option String
  pub request : ℕ
  pub under_way : ℕ

abbrev pub signed_in_as : String → AuthState → Bool
signed_in_as account (authenticated user) = str_eq account user.account
signed_in_as account _ = false

-- A login begins: `setPendingAccount(account); setErrorMessage(null); await loginAs(account)`
unfoldable pub begin_login : String → SignIn → SignIn
begin_login account c = record c {
  auth = Context.step c.auth login;
  pending_account = some account;
  error_message = none;
  request = c.auth.request_id + 1;
  under_way = c.under_way + 1;
}

-- DevUserPicker: a button, which is off while an account is pending, and `handleLogin`.
unfoldable pub handle_login : String → SignIn → SignIn
unfolding begin_login
handle_login account c = if is_some c.pending_account then c else begin_login account c

-- DevUserSwitcher: a button, and the guard of `handleSwitch`.
unfoldable pub handle_switch : String → SignIn → SignIn
unfolding begin_login
handle_switch account c =
    if is_some c.pending_account
    then c
    else if truthy_opt c.pending_account || signed_in_as account c.auth.state
    then c
    else begin_login account c

-- Behind `await loginAs(account)`: in the picker a success leaves the account pending, in the
-- switcher it does not.
unfoldable pub settle_login : Outcome CurrentUser → SignIn → SignIn
unfolding get_login_error_message
settle_login (success user) c = record c {
  auth = Context.step c.auth (logged_in c.request (success user));
  under_way = c.under_way - 1;
}
settle_login (failure e) c = record c {
  auth = Context.step c.auth (logged_in c.request (failure e));
  pending_account = none;
  error_message = some (get_login_error_message e);
  under_way = c.under_way - 1;
}

unfoldable pub settle_switch : Outcome CurrentUser → SignIn → SignIn
unfolding settle_login
settle_switch o c = record (settle_login o c) { pending_account = none }

pub data Event : Type 0 where
  press : String → Event
  answered : Outcome CurrentUser → Event

-- The picker stands while no user is signed in, the switcher while one is; an answer comes to a login
-- that is under way.
unfoldable pub picker_step : SignIn → Event → SignIn
unfolding handle_login settle_login
picker_step c (press account) = handle_login account c
picker_step c (answered o) = if c.under_way == 0 then c else settle_login o c

unfoldable pub switcher_step : SignIn → Event → SignIn
unfolding handle_switch settle_switch
switcher_step c (press account) = handle_switch account c
switcher_step c (answered o) = if c.under_way == 0 then c else settle_switch o c

unfoldable pub run_picker : SignIn → List Event → SignIn
run_picker c [] = c
run_picker c (e ∷ es) = run_picker (picker_step c e) es

unfoldable pub run_switcher : SignIn → List Event → SignIn
run_switcher c [] = c
run_switcher c (e ∷ es) = run_switcher (switcher_step c e) es

-- A component that is shown in a context.
abbrev pub shown_in : Provider → SignIn
shown_in auth = record {
  auth = auth;
  pending_account = none;
  error_message = none;
  request = 0;
  under_way = 0;
}
