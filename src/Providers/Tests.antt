-- ===== src/Providers/Tests.antt =====
-- The theorems on the form at a provider.
use change_quality_agent.Base.{ℕ, true, none, some, [], ◌∷◌, ◌≡◌}
use change_quality_agent.Base.Scan.{trim, split_lines, cut}
use change_quality_agent.Base.Dict.{put}
use change_quality_agent.Mcp.Form as McpForm
use change_quality_agent.Providers.Texts.{read_lines, read_key_value_text}
use change_quality_agent.Providers.Form.{
  LlmProviderDetail, Mode, ProviderForm, fill, LlmProviderUpdate,
}
use change_quality_agent.Async.Types.{Outcome, success}
use change_quality_agent.Providers.Testing
use change_quality_agent.Providers.Testing.{LlmProviderModelTestResponse, untested}
use change_quality_agent.Providers.Reading.{map_of, read-agrees}

read-agrees_example : map_of (read_key_value_text "k=v") ≡ McpForm.parse_key_value_text "k=v"
unfolding read_key_value_text read_lines split_lines cut trim put McpForm.parse_key_value_text
    McpForm.parse_lines McpForm.parse_line
read-agrees_example = read-agrees "k=v"

abbrev provider : LlmProviderDetail
provider = record {
  id = "p1";
  display_name = "a";
  description = none;
  provider_type = "openai";
  base_url = none;
  default_headers = ("a", "b") ∷ [];
  default_query = [];
  models = "a" ∷ [];
  enabled = true;
}

abbrev masked : LlmProviderDetail
masked = record provider { default_headers = ("a", "********") ∷ [] }

abbrev sent : LlmProviderUpdate
sent = record {
  base_url = none;
  description = none;
  display_name = "a";
  enabled = true;
  models = "a" ∷ [];
  provider_type = "openai";
  default_headers = none;
  default_query = some [];
  api_key = none;
}

abbrev masked_form : ProviderForm
masked_form = fill Mode.edit (some masked)

abbrev reply : ℕ → Outcome LlmProviderModelTestResponse
reply n = success (record {
  status = Testing.ok;
  latency_ms = n;
  message = none;
  error = none;
  request = none;
  response = none;
})
