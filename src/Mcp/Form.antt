-- ===== src/Mcp/Form.antt =====
-- frontend/src/features/mcp/components/McpServerForm.tsx, checking and submitting, and the types of
-- features/mcp/types.ts that it reads. The parameter is whether `new URL` reads a text as http or https.
use change_quality_agent.Base.{
  String, str_eq, str_append, truthy, join, Bool, true, false, ◌&&◌, ◌||◌, not, Option, none, some,
  List, [], ◌∷◌, any, filter, map, if◌then◌else◌, get_or,
}
use change_quality_agent.Base.Scan.{trim, split_lines, cut}
use change_quality_agent.Base.Dict.{Dict, get, put}

pub data McpTransport : Type 0 where
  stdio http : McpTransport

pub data McpDesiredState : Type 0 where
  running stopped : McpDesiredState

pub data Mode : Type 0 where
  create edit view : Mode

-- `readOnly`
abbrev pub is_view : Mode → Bool
is_view Mode.view = true
is_view mode = false

-- The server that the form shows or edits: the fields that it reads.
pub record McpServerDetail : Type 0 where
  pub id : String
  pub name : String
  pub transport : McpTransport
  pub command : Option String
  pub args : List String
  pub env : Dict String
  pub url : Option String
  pub headers : Dict String
  pub enabled : Bool
  pub desired_state : McpDesiredState

-- The state of the form, its mode and its server.
pub record McpServerForm : Type 0 where
  pub mode : Mode
  pub server : Option McpServerDetail
  pub name : String
  pub transport : McpTransport
  pub command : String
  pub url : String
  pub args_text : String
  pub env_text : String
  pub headers_text : String
  pub enabled : Bool
  pub desired_state : McpDesiredState

-- A command or a url is absent, null or a text.
pub record McpServerCreate : Type 0 where
  pub args : List String
  pub desired_state : McpDesiredState
  pub enabled : Bool
  pub env : Dict String
  pub headers : Dict String
  pub name : String
  pub transport : McpTransport
  pub command : Option (Option String)
  pub url : Option (Option String)

-- An env or headers that is absent is left as it is.
pub record McpServerUpdate : Type 0 where
  pub args : List String
  pub desired_state : McpDesiredState
  pub enabled : Bool
  pub name : String
  pub env : Option (Dict String)
  pub headers : Option (Dict String)
  pub command : Option String
  pub url : Option String

-- The field that an error is shown at.
pub data Field : Type 0 where
  name_error command_error url_error env_error headers_error global_error : Field

-- What a submission does: nothing, an error shown, `onCreate` or `onUpdate` called.
pub data Submission : Type 0 where
  ignored : Submission
  refused : Field → Submission
  created : McpServerCreate → Submission
  updated : String → McpServerUpdate → Submission

-- An error that is found is shown instead.
abbrev pub checked_submission : Option Field → Submission → Submission
checked_submission none submission = submission
checked_submission (some field) submission = refused field

abbrev pub redacted_value : String
redacted_value = "********"

-- `text || null`
abbrev pub or_null : String → Option String
or_null text = if truthy text then some text else none

abbrev pub is_http : McpTransport → Bool
is_http McpTransport.http = true
is_http McpTransport.stdio = false

unfoldable pub args_to_text : List String → String
args_to_text args = join "\n" args

unfoldable pub key_value_map_to_text : Dict String → String
key_value_map_to_text value = join "\n" (map (λ e. str_append e.0 (str_append "=" e.1)) value)

unfoldable pub has_redacted_value : Dict String → Bool
has_redacted_value value = any (λ e. str_eq e.1 redacted_value) value

unfoldable pub should_omit_redacted_field : String → Dict String → Bool
unfolding has_redacted_value key_value_map_to_text
should_omit_redacted_field current_text original =
    has_redacted_value original && str_eq current_text (key_value_map_to_text original)

-- `original[key] === REDACTED_VALUE`
abbrev pub is_redacted : Option String → Bool
is_redacted none = false
is_redacted (some value) = str_eq value redacted_value

-- An entry that holds the mask of a masked value.
abbrev pub is_unsafe : Dict String → String × String → Bool
is_unsafe original e = str_eq e.1 redacted_value && is_redacted (get e.0 original)

unfoldable pub has_unsafe_redacted_placeholder : String → Dict String → Dict String → Bool
unfolding should_omit_redacted_field
has_unsafe_redacted_placeholder current_text parsed original =
    not (should_omit_redacted_field current_text original) && any (is_unsafe original) parsed

-- `parsed[key] = value`, which sets no property of the name "__proto__"
abbrev pub assign : String → String → Dict String → Dict String
assign key value parsed = if str_eq key "__proto__" then parsed else put key value parsed

-- `payload.env` of an update, and `payload.headers`
abbrev pub update_field : String → Dict String → Dict String → Option (Dict String)
update_field current_text parsed original =
    if should_omit_redacted_field current_text original then none else some parsed

unfoldable pub parse_args_text : String → List String
parse_args_text value = filter truthy (map trim (split_lines value))

-- The entry of a line, by the text before and behind its first "="; `none` is the error of a line
-- that is not KEY=VALUE.
abbrev pub parse_entry : Option (String × String) → Dict String → Option (Dict String)
parse_entry none parsed = none
parse_entry (some (before, behind)) parsed =
    if truthy before && truthy (trim before)
    then some (assign (trim before) (trim behind) parsed)
    else none

-- A line that is not blank.
unfoldable pub parse_line : String → Dict String → Option (Dict String)
parse_line line parsed = parse_entry (cut line) parsed

unfoldable pub parse_lines : List String → Dict String → Option (Dict String)
parse_lines [] parsed = some parsed
parse_lines (raw ∷ lines) parsed =
    if truthy (trim raw)
    then (elim (parse_line (trim raw) parsed) [ none ↦ none | some next ↦ parse_lines lines next ])
    else parse_lines lines parsed

unfoldable pub parse_key_value_text : String → Option (Dict String)
parse_key_value_text value = parse_lines (split_lines value) []

module _ (is_valid_http_url : String → Bool) where
  -- `validateForm`, with both parsed texts: the first field in error, or `none`.
  unfoldable pub validate_form :
      McpServerForm → Option (Dict String) → Option (Dict String) → Option Field
  validate_form form parsed_env parsed_headers =
      if not (truthy (trim form.name))
      then some Field.name_error
      else if not (is_http form.transport) && not (truthy (trim form.command))
      then some Field.command_error
      else if is_http form.transport
          && (not (truthy (trim form.url)) || not (is_valid_http_url (trim form.url)))
      then some Field.url_error
      else elim parsed_env [
        | none ↦ some Field.env_error
        | some e ↦ elim parsed_headers [ none ↦ some Field.headers_error | some h ↦ none ]
      ]

  -- The payload of an update.
  unfoldable pub update_payload :
      McpServerForm → McpServerDetail → Dict String → Dict String → McpServerUpdate
  update_payload form server env headers = record {
    args = parse_args_text form.args_text;
    desired_state = form.desired_state;
    enabled = form.enabled;
    name = trim form.name;
    env = update_field form.env_text env server.env;
    headers = update_field form.headers_text headers server.headers;
    command = if is_http form.transport then none else or_null (trim form.command);
    url = if is_http form.transport then or_null (trim form.url) else none;
  }

  unfoldable pub create_payload : McpServerForm → Dict String → Dict String → McpServerCreate
  create_payload form env headers = record {
    args = parse_args_text form.args_text;
    desired_state = form.desired_state;
    enabled = form.enabled;
    env = env;
    headers = headers;
    name = trim form.name;
    transport = form.transport;
    command = if is_http form.transport then none else some (or_null (trim form.command));
    url = if is_http form.transport then some (or_null (trim form.url)) else none;
  }

  -- The rest of `handleSubmit`, in edit mode.
  unfoldable pub submit_update :
      McpServerForm → Option McpServerDetail → Dict String → Dict String → Submission
  submit_update form none env headers = ignored
  submit_update form (some server) env headers =
      if has_unsafe_redacted_placeholder form.env_text env server.env
        || has_unsafe_redacted_placeholder form.headers_text headers server.headers
      then refused Field.global_error
      else updated server.id (update_payload form server env headers)

  unfoldable pub submit_valid : Mode → McpServerForm → Dict String → Dict String → Submission
  unfolding submit_update
  submit_valid Mode.create form env headers = created (create_payload form env headers)
  submit_valid Mode.edit form env headers = submit_update form form.server env headers
  submit_valid Mode.view form env headers = ignored

  -- `handleSubmit`
  unfoldable pub handle_submit : McpServerForm → Submission
  handle_submit form =
      let env = parse_key_value_text form.env_text in
      let headers = parse_key_value_text form.headers_text in
      if is_view form.mode
      then ignored
      else checked_submission (validate_form form env headers)
          (submit_valid form.mode form (get_or env []) (get_or headers []))
