-- ===== src/Mcp/Tests.antt =====
-- The theorems on the form at concrete forms.
use change_quality_agent.Base.{String, Bool, true, none, some, get_or, [], ◌∷◌}
use change_quality_agent.Base.Dict.{Dict}
use change_quality_agent.Mcp.Form.{
  McpTransport, McpDesiredState, Mode, McpServerDetail, McpServerForm, McpServerUpdate,
  parse_key_value_text,
}

abbrev any_url : String → Bool
any_url text = true

abbrev masked : McpServerDetail
masked = record {
  id = "s1";
  name = "files";
  transport = McpTransport.stdio;
  command = some "serve";
  args = [];
  env = ("TOKEN", "********") ∷ [];
  url = none;
  headers = [];
  enabled = true;
  desired_state = McpDesiredState.running;
}

abbrev untouched : McpServerForm
untouched = record {
  mode = Mode.edit;
  server = some masked;
  name = "files";
  transport = McpTransport.stdio;
  command = "serve";
  url = "";
  args_text = "";
  env_text = "TOKEN=********";
  headers_text = "";
  enabled = true;
  desired_state = McpDesiredState.running;
}

abbrev sent : McpServerUpdate
sent = record {
  args = [];
  desired_state = McpDesiredState.running;
  enabled = true;
  name = "files";
  env = none;
  headers = some [];
  command = some "serve";
  url = none;
}

abbrev parsed_text : String → Dict String
parsed_text text = get_or (parse_key_value_text text) []

abbrev plain_server : McpServerDetail
plain_server = record masked {
  name = "K";
  command = some "serve";
  args = "K" ∷ [];
  env = ("K", "") ∷ [];
}
