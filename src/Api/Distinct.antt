-- ===== src/Api/Distinct.antt =====
-- Different calls make different requests: no id, text or number makes a call look like another.
use mathlib.Core.Path.{ap₂}
use change_quality_agent.Base.{
  String, str_eq, Option, some, get_or, first, List, [], ◌∷◌, map, ◌≡◌, refl, sym, ap, ◌∙◌, Bool,
  true, false, if◌then◌else◌,
}
use change_quality_agent.Base.Json.{Json, read_string, record_of}
use change_quality_agent.Base.Dict.{get}
use change_quality_agent.Base.Text.Decimal.{number_of, number_of-decimal}
use change_quality_agent.Base.Uri.{encode_uri_component}
use change_quality_agent.Base.Uri.Distinct.{encode_uri_component-injective}
use change_quality_agent.Api.Calls.{
  Method, Call, start, stop, restart, check, create_agent, create_llm_provider, create_mcp_server,
  delete_llm_provider, delete_mcp_server, dev_login, get_agent, get_current_user, get_llm_provider,
  get_mcp_server, get_recent_sop_quality_checks, get_session, get_session_messages,
  get_sop_environments, get_sop_quality_check, get_sop_quality_check_history, list_agents,
  list_llm_providers, list_mcp_servers, logout, post_lifecycle, start_sop_quality_check,
  test_llm_provider_model, update_agent_draft, update_llm_provider, update_mcp_server, request_of,
}
use change_quality_agent.Api.Parts.{parts}
use change_quality_agent.Api.Reading.{reading, label, arguments, reading-request_of}

-- The text in the body under that name.
abbrev body_text : String → Option Json → String
body_text name (some (Json.obj ms)) = get_or (read_string (get name (record_of ms))) ""
body_text name _ = ""

abbrev second : List String → String
second (x ∷ y ∷ ys) = y
second _ = ""

abbrev third : List String → String
third (x ∷ y ∷ z ∷ zs) = z
third _ = ""

-- The call of a method, a label, texts and a body.
call_of : Method → String → List String → Option Json → Call
call_of m name xs body =
    let id = get_or (first xs) "" in
    let payload = get_or body Json.null in
    let posts : Bool = elim m [ Method.post ↦ true | _ ↦ false ] in
    if str_eq name "servers"
    then (if posts then create_mcp_server payload else list_mcp_servers)
    else if str_eq name "server"
    then (elim m [
      | Method.patch ↦ update_mcp_server id payload
      | Method.delete ↦ delete_mcp_server id
      | _ ↦ get_mcp_server id
    ])
    else if str_eq name "start"
    then (post_lifecycle id start)
    else if str_eq name "stop"
    then (post_lifecycle id stop)
    else if str_eq name "restart"
    then (post_lifecycle id restart)
    else if str_eq name "check"
    then (post_lifecycle id check)
    else if str_eq name "agents"
    then (if posts then create_agent payload else list_agents)
    else if str_eq name "agent"
    then (get_agent id)
    else if str_eq name "draft"
    then (update_agent_draft id payload)
    else if str_eq name "llm-providers"
    then (if posts then create_llm_provider payload else list_llm_providers)
    else if str_eq name "provider"
    then (elim m [
      | Method.patch ↦ update_llm_provider id payload
      | Method.delete ↦ delete_llm_provider id
      | _ ↦ get_llm_provider id
    ])
    else if str_eq name "test"
    then (test_llm_provider_model id (body_text "model" body))
    else if str_eq name "me"
    then (get_current_user)
    else if str_eq name "dev-login"
    then (dev_login (body_text "account" body))
    else if str_eq name "logout"
    then (logout)
    else if str_eq name "environments"
    then (get_sop_environments)
    else if str_eq name "history"
    then (get_sop_quality_check_history id (second xs) (number_of (third xs)))
    else if str_eq name "recent"
    then (get_recent_sop_quality_checks id (number_of (second xs)))
    else if str_eq name "begin"
    then (start_sop_quality_check id (second xs))
    else if str_eq name "checked"
    then (get_sop_quality_check id)
    else if str_eq name "session"
    then (get_session (number_of id))
    else get_session_messages (number_of id) (number_of (second xs))

call_of-request_of :
    (c : Call) → call_of (request_of c).method (label c) (arguments c) (request_of c).body ≡ c
unfolding call_of request_of get
call_of-request_of list_mcp_servers = refl
call_of-request_of (get_mcp_server id) = refl
call_of-request_of (create_mcp_server payload) = refl
call_of-request_of (update_mcp_server id payload) = refl
call_of-request_of (delete_mcp_server id) = refl
call_of-request_of (post_lifecycle id start) = refl
call_of-request_of (post_lifecycle id stop) = refl
call_of-request_of (post_lifecycle id restart) = refl
call_of-request_of (post_lifecycle id check) = refl
call_of-request_of list_agents = refl
call_of-request_of (get_agent id) = refl
call_of-request_of (create_agent payload) = refl
call_of-request_of (update_agent_draft id payload) = refl
call_of-request_of list_llm_providers = refl
call_of-request_of (get_llm_provider id) = refl
call_of-request_of (create_llm_provider payload) = refl
call_of-request_of (update_llm_provider id payload) = refl
call_of-request_of (delete_llm_provider id) = refl
call_of-request_of (test_llm_provider_model id model) = refl
call_of-request_of get_current_user = refl
call_of-request_of (dev_login account) = refl
call_of-request_of logout = refl
call_of-request_of get_sop_environments = refl
call_of-request_of (get_sop_quality_check_history sop_id env_key limit) = simp number_of-decimal
call_of-request_of (get_recent_sop_quality_checks env_key limit) = simp number_of-decimal
call_of-request_of (start_sop_quality_check sop_id env_key) = refl
call_of-request_of (get_sop_quality_check id) = refl
call_of-request_of (get_session id) = simp number_of-decimal
call_of-request_of (get_session_messages id after) = simp number_of-decimal

map_encode-injective :
    (xs ys : List String) → map encode_uri_component xs ≡ map encode_uri_component ys → xs ≡ ys
map_encode-injective [] [] h = refl
map_encode-injective [] (y ∷ ys) h = absurd (cc)
map_encode-injective (x ∷ xs) [] h = absurd (cc)
map_encode-injective (x ∷ xs) (y ∷ ys) h =
    ap₂ ◌∷◌ (encode_uri_component-injective x y (cc)) (map_encode-injective xs ys (cc))

-- Calls that make the same request, with the same method, URL and body, are the same call, whatever
-- their texts and numbers are.
pub request_of-injective : (c d : Call) → request_of c ≡ request_of d → c ≡ d
request_of-injective c d h =
    let read =
      sym (reading-request_of c) ∙ ap (λ r. reading (parts r.url)) h ∙ reading-request_of d in
    let same_arguments = map_encode-injective (arguments c) (arguments d) (ap (λ r. r.1) read) in
    sym (call_of-request_of c) ∙ rw (h, ap (λ r. r.0) read, same_arguments) (call_of-request_of d)
