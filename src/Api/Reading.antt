-- ===== src/Api/Reading.antt =====
-- What the URL of a request says of the call that made it.
use text.Mathlib.TextLemmas.{nil-append, append-nil}
use change_quality_agent.Base.{
  String, str_eq, decimal, List, [], ◌∷◌, map, ◌≡◌, refl, if◌then◌else◌,
}
use change_quality_agent.Base.Uri.{encode_uri_component}
use change_quality_agent.Api.Calls.{
  Call, start, stop, restart, check, create_agent, create_llm_provider, create_mcp_server,
  delete_llm_provider, delete_mcp_server, dev_login, get_agent, get_current_user, get_llm_provider,
  get_mcp_server, get_recent_sop_quality_checks, get_session, get_session_messages,
  get_sop_environments, get_sop_quality_check, get_sop_quality_check_history, list_agents,
  list_llm_providers, list_mcp_servers, logout, post_lifecycle, start_sop_quality_check,
  test_llm_provider_model, update_agent_draft, update_llm_provider, update_mcp_server, request_of,
}
use change_quality_agent.Api.Parts.{
  parts, glue, parts-append, parts-encode, parts-decimal, encode-decimal,
}

-- What the parts of a URL say: which function, and its texts and numbers, encoded.
abbrev pub Reading : Type 0
Reading = String × List String

unfoldable pub reading : List String → Reading
reading (_ ∷ _ ∷ a ∷ []) = (a, [])
reading (_ ∷ _ ∷ a ∷ b ∷ []) =
    if str_eq a "agents"
    then ("agent", b ∷ [])
    else if str_eq a "sop-quality-checks"
    then ("checked", b ∷ [])
    else if str_eq a "sessions"
    then ("session", b ∷ [])
    else (b, [])
reading (_ ∷ _ ∷ a ∷ b ∷ c ∷ []) =
    if str_eq a "agents"
    then ("draft", b ∷ [])
    else if str_eq a "mcp"
    then ("server", c ∷ [])
    else ("provider", c ∷ [])
reading (_ ∷ _ ∷ a ∷ b ∷ c ∷ d ∷ []) = (d, c ∷ [])
reading (_ ∷ _ ∷ a ∷ b ∷ c ∷ d ∷ e ∷ []) =
    if str_eq a "sessions"
    then ("messages", b ∷ e ∷ [])
    else if str_eq b "env"
    then ("recent", c ∷ e ∷ [])
    else ("begin", c ∷ e ∷ [])
reading (_ ∷ _ ∷ a ∷ b ∷ c ∷ d ∷ e ∷ f ∷ g ∷ []) = ("history", c ∷ e ∷ g ∷ [])
reading _ = ("", [])

abbrev pub label : Call → String
label list_mcp_servers = "servers"
label (get_mcp_server id) = "server"
label (create_mcp_server payload) = "servers"
label (update_mcp_server id payload) = "server"
label (delete_mcp_server id) = "server"
label (post_lifecycle id start) = "start"
label (post_lifecycle id stop) = "stop"
label (post_lifecycle id restart) = "restart"
label (post_lifecycle id check) = "check"
label list_agents = "agents"
label (get_agent id) = "agent"
label (create_agent payload) = "agents"
label (update_agent_draft id payload) = "draft"
label list_llm_providers = "llm-providers"
label (get_llm_provider id) = "provider"
label (create_llm_provider payload) = "llm-providers"
label (update_llm_provider id payload) = "provider"
label (delete_llm_provider id) = "provider"
label (test_llm_provider_model id model) = "test"
label get_current_user = "me"
label (dev_login account) = "dev-login"
label logout = "logout"
label get_sop_environments = "environments"
label (get_sop_quality_check_history sop_id env_key limit) = "history"
label (get_recent_sop_quality_checks env_key limit) = "recent"
label (start_sop_quality_check sop_id env_key) = "begin"
label (get_sop_quality_check id) = "checked"
label (get_session id) = "session"
label (get_session_messages id after) = "messages"

-- The texts and the printed numbers that a call puts in its URL.
abbrev pub arguments : Call → List String
arguments list_mcp_servers = []
arguments (get_mcp_server id) = id ∷ []
arguments (create_mcp_server payload) = []
arguments (update_mcp_server id payload) = id ∷ []
arguments (delete_mcp_server id) = id ∷ []
arguments (post_lifecycle id start) = id ∷ []
arguments (post_lifecycle id stop) = id ∷ []
arguments (post_lifecycle id restart) = id ∷ []
arguments (post_lifecycle id check) = id ∷ []
arguments list_agents = []
arguments (get_agent id) = id ∷ []
arguments (create_agent payload) = []
arguments (update_agent_draft id payload) = id ∷ []
arguments list_llm_providers = []
arguments (get_llm_provider id) = id ∷ []
arguments (create_llm_provider payload) = []
arguments (update_llm_provider id payload) = id ∷ []
arguments (delete_llm_provider id) = id ∷ []
arguments (test_llm_provider_model id model) = id ∷ []
arguments get_current_user = []
arguments (dev_login account) = []
arguments logout = []
arguments get_sop_environments = []
arguments (get_sop_quality_check_history sop_id env_key limit) =
    sop_id ∷ env_key ∷ decimal limit ∷ []
arguments (get_recent_sop_quality_checks env_key limit) = env_key ∷ decimal limit ∷ []
arguments (start_sop_quality_check sop_id env_key) = sop_id ∷ env_key ∷ []
arguments (get_sop_quality_check id) = id ∷ []
arguments (get_session id) = decimal id ∷ []
arguments (get_session_messages id after) = decimal id ∷ decimal after ∷ []

ruleset url_laws =
    (parts-append, parts-encode, parts-decimal, encode-decimal, nil-append, append-nil)

pub reading-request_of :
    (c : Call)
    → reading (parts (request_of c).url) ≡ (label c, map encode_uri_component (arguments c))
unfolding request_of parts glue reading
reading-request_of list_mcp_servers = refl
reading-request_of (get_mcp_server id) = simp url_laws
reading-request_of (create_mcp_server payload) = refl
reading-request_of (update_mcp_server id payload) = simp url_laws
reading-request_of (delete_mcp_server id) = simp url_laws
reading-request_of (post_lifecycle id start) = simp url_laws
reading-request_of (post_lifecycle id stop) = simp url_laws
reading-request_of (post_lifecycle id restart) = simp url_laws
reading-request_of (post_lifecycle id check) = simp url_laws
reading-request_of list_agents = refl
reading-request_of (get_agent id) = simp url_laws
reading-request_of (create_agent payload) = refl
reading-request_of (update_agent_draft id payload) = simp url_laws
reading-request_of list_llm_providers = refl
reading-request_of (get_llm_provider id) = simp url_laws
reading-request_of (create_llm_provider payload) = refl
reading-request_of (update_llm_provider id payload) = simp url_laws
reading-request_of (delete_llm_provider id) = simp url_laws
reading-request_of (test_llm_provider_model id model) = simp url_laws
reading-request_of get_current_user = refl
reading-request_of (dev_login account) = refl
reading-request_of logout = refl
reading-request_of get_sop_environments = refl
reading-request_of (get_sop_quality_check_history sop_id env_key limit) = simp url_laws
reading-request_of (get_recent_sop_quality_checks env_key limit) = simp url_laws
reading-request_of (start_sop_quality_check sop_id env_key) = simp url_laws
reading-request_of (get_sop_quality_check id) = simp url_laws
reading-request_of (get_session id) = simp url_laws
reading-request_of (get_session_messages id after) = simp url_laws
