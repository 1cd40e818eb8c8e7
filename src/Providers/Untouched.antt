-- ===== src/Providers/Untouched.antt =====
-- A provider whose form is submitted as it was filled.
use change_quality_agent.Base.{
  String, true, Option, none, some, get_or, [], All, ◌≡◌, if◌then◌else◌,
}
use change_quality_agent.Base.Dict.{Dict, IsFresh}
use change_quality_agent.Mcp.Texts.{IsToken, IsEntry}
use change_quality_agent.Providers.Texts.{holds_mask}
use change_quality_agent.Providers.Reading.{AreNew}
use change_quality_agent.Providers.Form.{
  is_supported_provider_type, LlmProviderDetail, LlmProviderUpdate, trimmed_or_null,
}

-- A map whose text is read back.
abbrev pub IsPlainMap : Dict String → Type 0
IsPlainMap m = All IsEntry m × IsFresh [] m

-- A provider whose fields have no white space at their ends, whose lists have no repetition, and
-- whose type is supported.
pub record IsPlain (p : LlmProviderDetail) : Type 0 where
  pub display_name : IsToken p.display_name
  pub description : trimmed_or_null (get_or p.description "") ≡ p.description
  pub base_url : trimmed_or_null (get_or p.base_url "") ≡ p.base_url
  pub headers : IsPlainMap p.default_headers
  pub query : IsPlainMap p.default_query
  pub models : All IsToken p.models × AreNew [] p.models
  pub supported : is_supported_provider_type p.provider_type ≡ true

abbrev pub unmasked : Dict String → Option (Dict String)
unmasked m = if holds_mask m then none else some m

-- The update that leaves a provider as it is.
abbrev pub same_provider : LlmProviderDetail → LlmProviderUpdate
same_provider p = record {
  base_url = p.base_url;
  description = p.description;
  display_name = p.display_name;
  enabled = p.enabled;
  models = p.models;
  provider_type = p.provider_type;
  default_headers = unmasked p.default_headers;
  default_query = unmasked p.default_query;
  api_key = none;
}
