-- ===== src/Mcp/Untouched.antt =====
-- A server that is edited and saved without a change.
use change_quality_agent.Base.{
  String, truthy, Bool, true, ◌&&◌, ◌||◌, not, Option, none, some, get_or, [], All, ◌≡◌,
  if◌then◌else◌,
}
use change_quality_agent.Base.Scan.{trim}
use change_quality_agent.Base.Dict.{Dict, IsFresh}
use change_quality_agent.Mcp.Form.{
  McpServerDetail, McpServerUpdate, or_null, is_http, has_redacted_value,
}
use change_quality_agent.Mcp.Texts.{IsToken, IsEntry}

-- What a connection needs: a command on stdio, and on http a url that `new URL` reads as http.
abbrev pub IsReachable : (String → Bool) → McpServerDetail → Type 0
IsReachable is_valid_http_url s =
    (truthy (get_or s.command "") || is_http s.transport)
      && ((truthy (get_or s.url "") && is_valid_http_url (get_or s.url ""))
          || not (is_http s.transport))
    ≡ true

-- A server whose texts have no white space at their ends and whose maps can be written as lines.
pub record IsPlain (is_valid_http_url : String → Bool) (s : McpServerDetail) : Type 0 where
  pub name : IsToken s.name
  pub command : trim (get_or s.command "") ≡ get_or s.command ""
  pub url : trim (get_or s.url "") ≡ get_or s.url ""
  pub args : All IsToken s.args
  pub env : All IsEntry s.env × IsFresh [] s.env
  pub headers : All IsEntry s.headers × IsFresh [] s.headers
  pub reachable : IsReachable is_valid_http_url s

abbrev pub unmasked : Dict String → Option (Dict String)
unmasked m = if has_redacted_value m then none else some m

-- The update that leaves a server as it is.
abbrev pub same_server : McpServerDetail → McpServerUpdate
same_server s = record {
  args = s.args;
  desired_state = s.desired_state;
  enabled = s.enabled;
  name = s.name;
  env = unmasked s.env;
  headers = unmasked s.headers;
  command = if is_http s.transport then none else or_null (get_or s.command "");
  url = if is_http s.transport then or_null (get_or s.url "") else none;
}
