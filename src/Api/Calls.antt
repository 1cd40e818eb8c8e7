-- ===== src/Api/Calls.antt =====
-- The functions of frontend/src/features/*/api.ts up to `fetch`: the request that each makes. A body
-- is held as the value whose JSON text is sent; the headers and the credentials are left out.
use change_quality_agent.Base.{ℕ, String, str_append, decimal, Option, none, some}
use change_quality_agent.Base.Json.{Json, Members}
use change_quality_agent.Base.Uri.{encode_uri_component}

pub data Method : Type 0 where
  get post patch delete : Method

pub record Request : Type 0 where
  pub method : Method
  pub url : String
  pub body : Option Json

pub data Lifecycle : Type 0 where
  start stop restart check : Lifecycle

-- A call of one of the functions; the payloads are the values that they send.
pub data Call : Type 0 where
  list_mcp_servers : Call
  get_mcp_server : String → Call
  create_mcp_server : Json → Call
  update_mcp_server : String → Json → Call
  delete_mcp_server : String → Call
  post_lifecycle : String → Lifecycle → Call
  list_agents : Call
  get_agent : String → Call
  create_agent : Json → Call
  update_agent_draft : String → Json → Call
  list_llm_providers : Call
  get_llm_provider : String → Call
  create_llm_provider : Json → Call
  update_llm_provider : String → Json → Call
  delete_llm_provider : String → Call
  test_llm_provider_model : String → String → Call
  get_current_user : Call
  dev_login : String → Call
  logout : Call
  get_sop_environments : Call
  get_sop_quality_check_history : String → String → ℕ → Call
  get_recent_sop_quality_checks : String → ℕ → Call
  start_sop_quality_check : String → String → Call
  get_sop_quality_check : String → Call
  get_session : ℕ → Call
  get_session_messages : ℕ → ℕ → Call

-- `${base}/${encodeURIComponent(id)}`
unfoldable pub item_url : String → String → String
unfolding encode_uri_component
item_url base id = str_append base (str_append "/" (encode_uri_component id))

-- `buildServerUrl`
unfoldable pub build_server_url : String → String
unfolding item_url
build_server_url server_id = item_url "/api/mcp/servers" server_id

-- `buildAgentUrl`
unfoldable pub build_agent_url : String → String
unfolding item_url
build_agent_url agent_id = item_url "/api/agents" agent_id

-- `buildProviderUrl`
unfoldable pub build_provider_url : String → String
unfolding item_url
build_provider_url provider_id = item_url "/api/v1/llm-providers" provider_id

abbrev pub action_name : Lifecycle → String
action_name start = "start"
action_name stop = "stop"
action_name restart = "restart"
action_name check = "check"

-- A request without `init`, and those with a method and a JSON body.
abbrev pub getting : String → Request
getting url = record { method = Method.get; url = url; body = none }

abbrev pub sending : Method → String → Json → Request
sending method url payload = record { method = method; url = url; body = some payload }

abbrev pub bare : Method → String → Request
bare method url = record { method = method; url = url; body = none }

-- `{ [name]: text }`
abbrev pub field_of : String → String → Json
field_of name text = Json.obj (Members.member name (Json.str text) Members.end)

-- `?sop_id=${…}&env=${…}` and what is put behind it
unfoldable pub check_query : String → String → String → String
unfolding encode_uri_component
check_query sop_id env_key rest = str_append "/api/sop-quality-checks?sop_id=" (
    str_append (encode_uri_component sop_id)
      (str_append "&env=" (str_append (encode_uri_component env_key) rest)))

-- `postLifecycle`
abbrev pub post_lifecycle_request : String → Lifecycle → Request
post_lifecycle_request server_id action =
    bare post (str_append (build_server_url server_id) (str_append "/" (action_name action)))

-- `updateAgentDraft`
abbrev pub update_agent_draft_request : String → Json → Request
update_agent_draft_request agent_id payload =
    sending patch (str_append (build_agent_url agent_id) "/draft") payload

-- `updateLlmProvider`
abbrev pub update_llm_provider_request : String → Json → Request
update_llm_provider_request provider_id payload =
    sending patch (build_provider_url provider_id) payload

-- `getSopQualityCheckHistory` and `getRecentSopQualityChecks`
abbrev pub get_sop_quality_check_history_request : String → String → ℕ → Request
get_sop_quality_check_history_request sop_id env_key limit =
    getting (check_query sop_id env_key (str_append "&limit=" (decimal limit)))

abbrev pub get_recent_sop_quality_checks_request : String → ℕ → Request
get_recent_sop_quality_checks_request env_key limit = getting (
    str_append "/api/sop-quality-checks?env="
      (str_append (encode_uri_component env_key) (str_append "&limit=" (decimal limit))))

unfoldable pub request_of : Call → Request
unfolding build_server_url build_agent_url build_provider_url item_url check_query
    encode_uri_component
request_of list_mcp_servers = getting "/api/mcp/servers"
request_of (get_mcp_server server_id) = getting (build_server_url server_id)
request_of (create_mcp_server payload) = sending post "/api/mcp/servers" payload
request_of (update_mcp_server server_id payload) =
    sending patch (build_server_url server_id) payload
request_of (delete_mcp_server server_id) = bare delete (build_server_url server_id)
request_of (post_lifecycle server_id action) = post_lifecycle_request server_id action
request_of list_agents = getting "/api/agents"
request_of (get_agent agent_id) = getting (build_agent_url agent_id)
request_of (create_agent payload) = sending post "/api/agents" payload
request_of (update_agent_draft agent_id payload) = update_agent_draft_request agent_id payload
request_of list_llm_providers = getting "/api/v1/llm-providers"
request_of (get_llm_provider provider_id) = getting (build_provider_url provider_id)
request_of (create_llm_provider payload) = sending post "/api/v1/llm-providers" payload
request_of (update_llm_provider provider_id payload) =
    update_llm_provider_request provider_id payload
request_of (delete_llm_provider provider_id) = bare delete (build_provider_url provider_id)
request_of (test_llm_provider_model provider_id model) =
    sending post (str_append (build_provider_url provider_id) "/test") (field_of "model" model)
request_of get_current_user = getting "/api/auth/me"
request_of (dev_login account) = sending post "/api/auth/dev-login" (field_of "account" account)
request_of logout = bare post "/api/auth/logout"
request_of get_sop_environments = getting "/api/sop/environments"
request_of (get_sop_quality_check_history sop_id env_key limit) =
    get_sop_quality_check_history_request sop_id env_key limit
request_of (get_recent_sop_quality_checks env_key limit) =
    get_recent_sop_quality_checks_request env_key limit
request_of (start_sop_quality_check sop_id env_key) = bare post (check_query sop_id env_key "")
request_of (get_sop_quality_check check_id) = getting (item_url "/api/sop-quality-checks" check_id)
request_of (get_session session_id) = getting (str_append "/api/sessions/" (decimal session_id))
request_of (get_session_messages session_id after) = getting (
    str_append "/api/sessions/"
      (str_append (decimal session_id) (str_append "/messages?after=" (decimal after))))
