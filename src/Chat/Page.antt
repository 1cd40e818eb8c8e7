-- ===== src/Chat/Page.antt =====
-- frontend/src/features/sop/pages/ChatPage.tsx: the state of `ChatPage` and its handlers. A `navigate`
-- changes the route at the next render, and the effect on the route runs behind it. The variables that
-- an unanswered `handleSend` keeps are part of the state.
use change_quality_agent.Base.{
  ℕ, ◌+◌, ◌==◌, String, str_eq, str_append, truthy, Bool, true, false, ◌&&◌, not, Option, none,
  some, List, [], ◌∷◌, filter, if◌then◌else◌,
}
use change_quality_agent.Base.Scan.{trim}
use change_quality_agent.Http.Errors.{Thrown, an_error, a_value, message_of}
use change_quality_agent.Async.Types.{Outcome, success, failure}

-- What `startSopQualityCheck` returns: the check, and whether it is `active` already.
pub record StartSopQualityCheckResult : Type 0 where
  pub active : Bool
  pub check_id : String

pub record ChatPage : Type 0 where
  pub initial_sop_id : String
  pub route_check_id : Option String
  pub sop_id : String
  pub pending_sop_id : String
  pub selected_env : String
  pub observed_check_id : Option String
  pub start_error : Option String
  pub start_message : Option String
  pub starting : Bool
  pub start_request : ℕ
  pub unanswered : List (ℕ × Option String)  -- a request with its `observedAtStart`

abbrev pub initial : String → Option String → ChatPage
initial initial_sop_id route = record {
  initial_sop_id = initial_sop_id;
  route_check_id = route;
  sop_id = initial_sop_id;
  pending_sop_id = initial_sop_id;
  selected_env = "";
  observed_check_id = route;
  start_error = none;
  start_message = none;
  starting = false;
  start_request = 0;
  unanswered = [];
}

-- What the outside does: the environments come, the user types a SOP, submits the form, picks an
-- environment or begins anew, the route changes, and a start is answered.
pub data Event : Type 0 where
  environments : List String → Event
  type_sop : String → Event
  submit : Event
  pick_env : String → Event
  new_conversation : Event
  route : Option String → Event
  answered : ℕ → Outcome StartSopQualityCheckResult → Event

abbrev pub same_check : Option String → Option String → Bool
same_check none none = true
same_check (some a) (some b) = str_eq a b
same_check _ _ = false

-- The `observedAtStart` of a request that is not answered.
unfoldable pub observed_at_start : ℕ → List (ℕ × Option String) → Option (Option String)
observed_at_start n [] = none
observed_at_start n ((m, o) ∷ rs) = if m == n then some o else observed_at_start n rs

unfoldable pub without : ℕ → List (ℕ × Option String) → List (ℕ × Option String)
without n rs = filter (λ r. not (r.0 == n)) rs

abbrev pub can_send : ChatPage → Bool
can_send p = truthy (trim p.pending_sop_id) && truthy p.selected_env

-- `handleSend`, up to its `await`
unfoldable pub handle_send : ChatPage → ChatPage
handle_send p =
    if can_send p
    then record p {
      sop_id = trim p.pending_sop_id;
      start_request = p.start_request + 1;
      unanswered = (p.start_request + 1, p.observed_check_id) ∷ p.unanswered;
      starting = true;
      start_error = none;
      start_message = none;
    }
    else p

-- The effect on `routeCheckId`.
abbrev pub route_effect : Option String → ChatPage → ChatPage
route_effect none p = p
route_effect (some id) p =
    if truthy id
    then record p { observed_check_id = some id; start_error = none; start_message = none }
    else p

unfoldable pub on_route : Option String → ChatPage → ChatPage
on_route r p =
    if same_check r p.route_check_id then p else route_effect r (record p { route_check_id = r })

abbrev pub joined_message : String → String
joined_message id = str_append "已存在进行中的质检，已加入检查 " (str_append id "。")

-- `error instanceof Error ? error.message : ...`
abbrev pub start_error_message : Thrown → String
start_error_message (an_error e) = message_of e
start_error_message (a_value s) = "无法发起运行，请稍后再试。"

-- The check that was started is observed, and the page navigates to it.
unfoldable pub on_started : StartSopQualityCheckResult → ChatPage → ChatPage
on_started result p =
    let message =
      if result.active then some (joined_message result.check_id) else p.start_message in
    on_route (some result.check_id)
      (record p { observed_check_id = some result.check_id; start_message = message })

-- `handleSend`, behind its `await`, for a request and its `observedAtStart`.
unfoldable pub settle_send :
    ℕ → Option String → Outcome StartSopQualityCheckResult → ChatPage → ChatPage
settle_send n observed o p =
    if p.start_request == n
    then record (elim o [
      | success result ↦ if same_check p.observed_check_id observed then on_started result p else p
      | failure e ↦ record p { start_error = some (start_error_message e) }
    ]) { starting = false }
    else p

unfoldable pub settle_found :
    ℕ → Outcome StartSopQualityCheckResult → Option (Option String) → ChatPage → ChatPage
settle_found n o none p = p
settle_found n o (some observed) p =
    settle_send n observed o (record p { unanswered = without n p.unanswered })

unfoldable pub on_answer : ℕ → Outcome StartSopQualityCheckResult → ChatPage → ChatPage
on_answer n o p = settle_found n o (observed_at_start n p.unanswered) p

unfoldable pub handle_environment_change : String → ChatPage → ChatPage
handle_environment_change next_env p = record p {
  start_request = p.start_request + 1;
  selected_env = next_env;
  start_error = none;
  start_message = none;
  starting = false;
}

unfoldable pub handle_new_conversation : ChatPage → ChatPage
handle_new_conversation p = record p {
  start_request = p.start_request + 1;
  observed_check_id = none;
  start_error = none;
  start_message = none;
  starting = false;
  sop_id = p.initial_sop_id;
  pending_sop_id = p.initial_sop_id;
  route_check_id = none;
}

-- The effect on the environments.
abbrev pub choose_env : List String → ChatPage → ChatPage
choose_env [] p = p
choose_env (key ∷ keys) p = if truthy p.selected_env then p else record p { selected_env = key }

unfoldable pub step : ChatPage → Event → ChatPage
step p (environments keys) = choose_env keys p
step p (type_sop text) = record p { pending_sop_id = text }
step p submit = if not p.starting && can_send p then handle_send p else p
step p (pick_env key) = handle_environment_change key p
step p new_conversation = handle_new_conversation p
step p (route r) = on_route r p
step p (answered n o) = on_answer n o p

unfoldable pub run : ChatPage → List Event → ChatPage
run p [] = p
run p (e ∷ es) = run (step p e) es
