-- ===== src/Mcp/Secrets.antt =====
-- What submitting the form of an MCP server does with masked secrets, and when it submits.
use change_quality_agent.Base.{
  String, truthy, Bool, true, ◌&&◌, ◌||◌, not, Option, none, some, get_or, [], any, ◌≡◌, arith,
  Bool-cases, Option-cases, inl, inr, if◌then◌else◌,
}
use change_quality_agent.Base.Scan.{trim}
use change_quality_agent.Base.Dict.{Dict}
use change_quality_agent.Mcp.Form.{
  McpServerDetail, McpServerForm, McpServerCreate, McpServerUpdate, Mode, Field, Submission,
  created, is_http, is_unsafe, parse_key_value_text, validate_form, update_payload, create_payload,
  submit_update, submit_valid, is_view, handle_submit,
}

-- A submitted field holds no mask of a masked value.
abbrev pub keeps_secrets : Dict String → Option (Dict String) → Bool
keeps_secrets original none = true
keeps_secrets original (some parsed) = not (any (is_unsafe original) parsed)

module _ (is_valid_http_url : String → Bool) where
  -- The submission of the form.
  abbrev submit : McpServerForm → Submission
  submit form = handle_submit is_valid_http_url form

  -- The parsed text, or no entries.
  abbrev entries : String → Dict String
  entries text = get_or (parse_key_value_text text) []

  abbrev submit_rest : McpServerForm → Submission
  submit_rest form =
      submit_valid is_valid_http_url form.mode form (entries form.env_text)
        (entries form.headers_text)

  abbrev payload : McpServerForm → McpServerDetail → McpServerUpdate
  payload form server =
      update_payload is_valid_http_url form server (entries form.env_text)
        (entries form.headers_text)

  abbrev found_error : McpServerForm → Option Field
  found_error form =
      validate_form is_valid_http_url form (parse_key_value_text form.env_text)
        (parse_key_value_text form.headers_text)

  created-rest :
      (form : McpServerForm) (p : McpServerCreate)
      → submit form ≡ created p
      → (found_error form ≡ none) × (submit_rest form ≡ created p)
  unfolding handle_submit
  created-rest form p h = elim (Bool-cases (is_view form.mode)) [
    | inl view ↦ absurd (ground (arith, view, h))
    | inr shown ↦ elim (Option-cases (found_error form)) [
      | inl valid ↦ (valid, ground (arith, shown, valid, h))
      | inr (f, found) ↦ absurd (ground (arith, shown, found, h))
    ]
  ]

  valid-form :
      (form : McpServerForm) (a b : Option (Dict String))
      → validate_form is_valid_http_url form a b ≡ none
      → (truthy (trim form.name) ≡ true)
        × (a ≡ some (get_or a []))
        × (b ≡ some (get_or b []))
        × ((is_http form.transport || truthy (trim form.command)) ≡ true)
        × ((not (is_http form.transport)
              || (truthy (trim form.url) && is_valid_http_url (trim form.url)))
            ≡ true)
  unfolding validate_form
  valid-form form none b h = absurd (ground (arith, h))
  valid-form form (some e) none h = absurd (ground (arith, h))
  valid-form form (some e) (some g) h = ground (arith, h)

  created-payload :
      (mode : Mode) (form : McpServerForm) (p : McpServerCreate)
      → submit_valid is_valid_http_url mode form (entries form.env_text) (entries form.headers_text)
        ≡ created p
      → p
        ≡ create_payload is_valid_http_url form (entries form.env_text) (entries form.headers_text)
  unfolding submit_valid submit_update
  created-payload Mode.create form p h = ground (arith, h)
  created-payload Mode.view form p h = absurd cc
  created-payload Mode.edit form p h = elim (Option-cases form.server) [
    | inl e ↦ absurd (ground (arith, e, h))
    | inr (s, e) ↦ absurd (ground (arith, e, h))
  ]

  -- A server that the form creates has a name; its env and headers are what their texts say, which are
  -- well-formed; and it has a command if it speaks over stdio, and a valid url if over http, without
  -- the other.
  pub created_is_valid :
      (form : McpServerForm) (p : McpServerCreate)
      → submit form ≡ created p
      → (truthy p.name ≡ true)
        × (parse_key_value_text form.env_text ≡ some p.env)
        × (parse_key_value_text form.headers_text ≡ some p.headers)
        × (p.command ≡ (if is_http p.transport then none else some (some (trim form.command))))
        × (p.url ≡ (if is_http p.transport then some (some (trim form.url)) else none))
        × ((not (is_http p.transport) || is_valid_http_url (trim form.url)) ≡ true)
  unfolding create_payload
  created_is_valid form p h =
      let (valid, rest) = created-rest form p h in
      let (n, e, g, c, w) = valid-form form _ _ valid in
      simp (created-payload form.mode form p rest)
        (n, e, g, ground (arith, c), ground (arith, w), ground (arith, w))
