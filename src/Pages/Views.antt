-- ===== src/Pages/Views.antt =====
-- What the pages of one thing show of the load of its detail: McpDetailPage.tsx and McpEditPage of
-- McpServerFormPage.tsx, LlmProviderDetailPage.tsx and LlmProviderEditPage of LlmProviderFormPage.tsx,
-- and AgentEditPage of AgentFormPage.tsx.
use change_quality_agent.Base.{
  String, truthy, Bool, true, false, ◌&&◌, not, Option, none, some, is_some, List, [], ◌∷◌, ◌++◌,
  if◌then◌else◌,
}
use change_quality_agent.Base.Scan.{trim}
use change_quality_agent.Base.Dict.{get}
use change_quality_agent.Base.Json.{Json, record_of}
use change_quality_agent.Http.Errors.{JsError, message_of}
use change_quality_agent.Async.Types.{AsyncState}
use change_quality_agent.Pages.Servers.{is_mcp_not_found_error}

pub data Part (Detail : Type 0) : Type 0 where
  loading_text not_found : Part Detail
  load_error : String → Part Detail
  content : Detail → Part Detail

module _ {Detail : Type 0} where
  abbrev pub part_if : Bool → Part Detail → List (Part Detail)
  part_if true p = p ∷ []
  part_if false p = []

  abbrev pub content_of : Option Detail → List (Part Detail)
  content_of none = []
  content_of (some d) = content d ∷ []

  -- `loading && !data`
  abbrev pub is_loading : AsyncState (Option Detail) → Bool
  is_loading s = s.loading && not (is_some s.data_)

  unfoldable pub mcp_detail_parts : AsyncState (Option Detail) → List (Part Detail)
  mcp_detail_parts s =
      part_if (is_loading s) loading_text
      ++ (part_if (is_mcp_not_found_error s.error && not (is_loading s)) not_found
          ++ content_of s.data_)

  unfoldable pub mcp_edit_parts : AsyncState (Option Detail) → List (Part Detail)
  mcp_edit_parts s =
      part_if (is_loading s) loading_text
      ++ (part_if (is_mcp_not_found_error s.error && not s.loading) not_found ++ content_of s.data_)

  abbrev pub error_part : Bool → Option JsError → List (Part Detail)
  error_part loading none = []
  error_part loading (some e) = part_if (not loading) (load_error (message_of e))

  -- The pages of a provider, and that of an agent.
  unfoldable pub detail_parts : AsyncState (Option Detail) → List (Part Detail)
  detail_parts s =
      part_if (is_loading s) loading_text ++ (error_part s.loading s.error ++ content_of s.data_)

-- `getNavigationNotice`: the text that the navigation left under a name, unless it is blank.
unfoldable pub get_navigation_notice : String → Option Json → Option String
get_navigation_notice name (some (Json.obj ms)) = elim (get name (record_of ms)) [
  | some (Json.str notice) ↦ if truthy (trim notice) then some notice else none
  | _ ↦ none
]
get_navigation_notice name _ = none
