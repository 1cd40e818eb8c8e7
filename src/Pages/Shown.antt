-- ===== src/Pages/Shown.antt =====
-- Which part of a page is shown, after any events on its detail hook.
use change_quality_agent.Base.{
  ◌&&◌, ◌==◌, not, ℕ, String, truthy_opt, Bool, true, false, Option, none, some, length, List, [],
  ◌∷◌, All, ◌≡◌, inl, inr, refl, Bool-cases, if◌then◌else◌,
}
use change_quality_agent.Http.Errors.{JsError, as_error}
use change_quality_agent.Async.Types.{AsyncState, Outcome, success, failure}
use change_quality_agent.Async.Request.{
  Hook, finish, detail_begin, detail_initial, detail_refetch, settled, start,
}
use change_quality_agent.Async.Features.{
  DetailEvent, select, reload, answer, leave, detail_step, same_id, detail_run,
  use_mcp_server_detail, use_llm_provider_detail, use_agent_detail,
}
use change_quality_agent.Pages.Servers.{is_mcp_not_found_error}
use change_quality_agent.Pages.Views.{mcp_detail_parts, mcp_edit_parts, detail_parts}

-- An error that the pages of a server do not show.
abbrev pub is_hidden : Option JsError → Bool
is_hidden none = false
is_hidden (some e) = not (is_mcp_not_found_error (some e))

module _ {Detail : Type 0} where
  -- The page has an id, and no answer lacks the detail that was asked for.
  abbrev pub IsProper : DetailEvent Detail → Type 0
  IsProper (select id) = truthy_opt id ≡ true
  IsProper (answer n (success none)) = ⊥
  IsProper _ = Unit

  -- Loading, failed, or loaded.
  data IsLoad : AsyncState (Option Detail) → Type 0 where
    loads : IsLoad (record { data_ = none; error = none; loading = true })
    fails : (e : JsError) → IsLoad (record { data_ = none; error = some e; loading = false })
    loaded : (d : Detail) → IsLoad (record { data_ = some d; error = none; loading = false })

  refetch-IsLoad :
      (id : Option String) (h : Hook (Option Detail))
      → truthy_opt id ≡ true
      → IsLoad (detail_refetch id h).state
  unfolding detail_refetch start
  refetch-IsLoad id h t = rw t loads

  settled-IsLoad :
      (n : ℕ) (o : Outcome (Option Detail))
      → IsProper (answer n o)
      → IsLoad (settled detail_begin none o)
  settled-IsLoad n (success none) p = absurd p
  settled-IsLoad n (success (some d)) p = loaded d
  settled-IsLoad n (failure e) p = fails (as_error e)

  finish-IsLoad :
      (n : ℕ) (o : Outcome (Option Detail)) (h : Hook (Option Detail))
      → IsProper (answer n o)
      → IsLoad h.state
      → IsLoad (finish detail_begin none n o h).state
  unfolding finish
  finish-IsLoad n o h p l = elim (Bool-cases (h.mounted && h.request_id == n)) [
    | inl shown ↦ rw shown (settled-IsLoad n o p)
    | inr late ↦ rw late l
  ]

  -- A hook with its id.
  abbrev IsReady : Option String × Hook (Option Detail) → Type 0
  IsReady d = (truthy_opt d.0 ≡ true) × IsLoad d.1.state

  step-IsReady :
      (d : Option String × Hook (Option Detail)) (e : DetailEvent Detail)
      → IsProper e
      → IsReady d
      → IsReady (detail_step d e)
  unfolding detail_step
  step-IsReady (id, h) (select next) p (t, l) = elim (Bool-cases (same_id next id)) [
    | inl same ↦ rw same (t, l)
    | inr other ↦ rw other (p, refetch-IsLoad next h p)
  ]
  step-IsReady (id, h) reload p (t, l) = (t, refetch-IsLoad id h t)
  step-IsReady (id, h) (answer n o) p (t, l) = (t, finish-IsLoad n o h p l)
  step-IsReady (id, h) leave p (t, l) = (t, l)

  run-IsReady :
      (d : Option String × Hook (Option Detail)) (es : List (DetailEvent Detail))
      → All IsProper es
      → IsReady d
      → IsReady (detail_run d es)
  unfolding detail_run
  run-IsReady d [] p r = r
  run-IsReady d (e ∷ es) (p, ps) r = run-IsReady (detail_step d e) es ps (step-IsReady d e p r)

  shown_once :
      (s : AsyncState (Option Detail))
      → IsLoad s
      → (length (detail_parts s) ≡ 1)
        × (length (mcp_detail_parts s) ≡ (if is_hidden s.error then 0 else 1))
        × (length (mcp_edit_parts s) ≡ (if is_hidden s.error then 0 else 1))
  unfolding detail_parts mcp_detail_parts mcp_edit_parts is_mcp_not_found_error
  shown_once _ loads = (refl, refl, refl)
  shown_once _ (fails e) = elim (Bool-cases (is_mcp_not_found_error (some e))) [
    | inl gone ↦ (refl, rw gone refl, rw gone refl)
    | inr other ↦ (refl, rw other refl, rw other refl)
  ]
  shown_once _ (loaded d) = (refl, refl, refl)

  -- A page of one thing, with an id and answers that have what was asked for, after any events on
  -- its hook: the pages of a provider and that of an agent show exactly one of loading, an error
  -- and the content; so do those of an MCP server, but for an error other than 404: then they show
  -- none of them, and are blank.
  pub blank_iff_hidden :
      (id : Option String) (es : List (DetailEvent Detail))
      → truthy_opt id ≡ true
      → All IsProper es
      → (length (detail_parts (use_llm_provider_detail id es).1.state) ≡ 1)
        × (length (detail_parts (use_agent_detail id es).1.state) ≡ 1)
        × (length (mcp_detail_parts (use_mcp_server_detail id es).1.state)
            ≡ (if is_hidden (use_mcp_server_detail id es).1.state.error then 0 else 1))
        × (length (mcp_edit_parts (use_mcp_server_detail id es).1.state)
            ≡ (if is_hidden (use_mcp_server_detail id es).1.state.error then 0 else 1))
  unfolding use_mcp_server_detail use_llm_provider_detail use_agent_detail
  blank_iff_hidden id es t p =
      let ready =
        run-IsReady (id, detail_refetch id detail_initial) es p
          (t, refetch-IsLoad id detail_initial t) in
      let once =
        shown_once (detail_run (id, detail_refetch id detail_initial) es).1.state ready.1 in
      (once.0, once.0, once.1, once.2)
