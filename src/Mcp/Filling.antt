-- ===== src/Mcp/Filling.antt =====
-- frontend/src/features/mcp/components/McpServerForm.tsx: the effect that fills the form.
use change_quality_agent.Base.{false, Option, none, some, get_or}
use change_quality_agent.Mcp.Form.{
  McpTransport, McpDesiredState, Mode, McpServerDetail, McpServerForm, args_to_text,
  key_value_map_to_text,
}

abbrev pub empty_form : Mode → Option McpServerDetail → McpServerForm
empty_form mode server = record {
  mode = mode;
  server = server;
  name = "";
  transport = McpTransport.stdio;
  command = "";
  url = "";
  args_text = "";
  env_text = "";
  headers_text = "";
  enabled = false;
  desired_state = McpDesiredState.stopped;
}

abbrev pub form_of : Mode → McpServerDetail → McpServerForm
form_of mode server = record {
  mode = mode;
  server = some server;
  name = server.name;
  transport = server.transport;
  command = get_or server.command "";
  url = get_or server.url "";
  args_text = args_to_text server.args;
  env_text = key_value_map_to_text server.env;
  headers_text = key_value_map_to_text server.headers;
  enabled = server.enabled;
  desired_state = server.desired_state;
}

unfoldable pub fill : Mode → Option McpServerDetail → McpServerForm
fill Mode.create server = empty_form Mode.create server
fill mode none = empty_form mode none
fill mode (some server) = form_of mode server
