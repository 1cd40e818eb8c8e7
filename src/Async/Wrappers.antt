-- ===== src/Async/Wrappers.antt =====
-- What `useMcpMutations`, `useLlmProviderMutations` and `useAgentMutations` return: each of their
-- functions runs `runMutation` on one call of the API.
use change_quality_agent.Base.{String}
use change_quality_agent.Base.Json.{Json}
use change_quality_agent.Api.Calls.{
  Call, Lifecycle, create_mcp_server, update_mcp_server, delete_mcp_server, post_lifecycle,
  create_llm_provider, update_llm_provider, delete_llm_provider, test_llm_provider_model,
}
use change_quality_agent.Api.Calls as Calls

abbrev pub create_server : Json → Call
create_server payload = create_mcp_server payload

abbrev pub update_server : String → Json → Call
update_server server_id payload = update_mcp_server server_id payload

abbrev pub delete_server : String → Call
delete_server server_id = delete_mcp_server server_id

abbrev pub start_server : String → Call
start_server server_id = post_lifecycle server_id Lifecycle.start

abbrev pub stop_server : String → Call
stop_server server_id = post_lifecycle server_id Lifecycle.stop

abbrev pub restart_server : String → Call
restart_server server_id = post_lifecycle server_id Lifecycle.restart

abbrev pub check_server : String → Call
check_server server_id = post_lifecycle server_id Lifecycle.check

-- The function that an item of the menu of a server runs.
abbrev pub server_action : Lifecycle → String → Call
server_action Lifecycle.start = start_server
server_action Lifecycle.stop = stop_server
server_action Lifecycle.restart = restart_server
server_action Lifecycle.check = check_server

abbrev pub create_provider : Json → Call
create_provider payload = create_llm_provider payload

abbrev pub update_provider : String → Json → Call
update_provider provider_id payload = update_llm_provider provider_id payload

abbrev pub delete_provider : String → Call
delete_provider provider_id = delete_llm_provider provider_id

abbrev pub test_provider_model : String → String → Call
test_provider_model provider_id model = test_llm_provider_model provider_id model

abbrev pub create_agent : Json → Call
create_agent payload = Calls.create_agent payload

abbrev pub update_agent_draft : String → Json → Call
update_agent_draft agent_id payload = Calls.update_agent_draft agent_id payload
