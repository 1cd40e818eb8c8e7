-- ===== src/Providers/Submitting.antt =====
-- What submitting the form of a provider sends: no masks, valid fields, and nothing new if nothing was
-- changed.
use change_quality_agent.Base.{String, truthy, Bool, true, false, not, Option, none, some, ◌≡◌}
use change_quality_agent.Base.Scan.{trim}
use change_quality_agent.Base.Dict.{Dict}
use change_quality_agent.Providers.Texts.{parsed, read_key_value_text, holds_mask}
use change_quality_agent.Providers.Form.{
  is_supported_provider_type, ProviderForm, Submission, ignored, refused, submit_parsed,
}

-- A map that is sent holds no mask.
abbrev pub sends_no_mask : Option (Dict String) → Bool
sends_no_mask none = true
sends_no_mask (some value) = not (holds_mask value)

-- What is known of a form whose submission is neither ignored nor refused.
record IsAccepted (form : ProviderForm) (s : Submission) : Type 0 where
  headers : Dict String
  query : Dict String
  headers_read : read_key_value_text form.values.headers_text ≡ parsed headers
  query_read : read_key_value_text form.values.query_text ≡ parsed query
  named : truthy (trim form.values.display_name) ≡ true
  supported : is_supported_provider_type form.values.provider_type ≡ true
  submitted : submit_parsed form headers query form.mode ≡ s

abbrev sends : Submission → Bool
sends ignored = false
sends (refused fault) = false
sends s = true
