-- ===== src/Workspace/Recent.antt =====
-- frontend/src/app/RecentSopSidebarPanel.tsx: the list of recent checks in the sidebar, over the
-- hooks of frontend/src/features/sop/hooks.ts.
use change_quality_agent.Base.{
  ℕ, ◌==◌, leb, String, str_eq, str_append, truthy, truthy_opt, Bool, true, false, ◌&&◌, ◌||◌, not,
  Option, none, some, is_some, get_or, List, [], ◌∷◌, ◌++◌, if◌then◌else◌,
}
use change_quality_agent.Http.Errors.{JsError, message_of}
use change_quality_agent.Async.Effect.{
  Answer, EffectHook, rerun, settle, use_recent_sop_quality_checks, use_sop_environments,
}
use change_quality_agent.Async.Effect as Effect

pub record SopEnvironment : Type 0 where
  pub key : String
  pub name_en : String
  pub name_zh : String

pub record SopQualityCheckHistoryItem : Type 0 where
  pub check_id : String
  pub sop_id : Option String
  pub env_key : Option String
  pub status : Option String
  pub created_at : Option String

pub record RecentPanel : Type 0 where
  pub recent_open : Bool
  pub selected_env : String
  pub environments : EffectHook SopEnvironment
  pub history : EffectHook SopQualityCheckHistoryItem

-- The heading is pressed; the environments are answered; an answer to that run of the effect that
-- asks for the checks; a new `refreshKey`.
pub data Event : Type 0 where
  toggle : Event
  found : Answer SopEnvironment → Event
  listed : ℕ → Answer SopQualityCheckHistoryItem → Event
  refresh : Event

unfoldable pub opened : RecentPanel
unfolding use_recent_sop_quality_checks use_sop_environments
opened = record {
  recent_open = true;
  selected_env = "";
  environments = use_sop_environments [];
  history = use_recent_sop_quality_checks "" [];
}

-- `useRecentSopQualityChecks(selectedEnv, refreshKey)`, when one of them has changed.
abbrev pub ask : RecentPanel → RecentPanel
ask p = record p { history = Effect.step p.history (rerun (truthy p.selected_env)) }

-- The effect that chooses the first environment; an empty key is the one that is chosen already.
unfoldable pub choose_first : List SopEnvironment → RecentPanel → RecentPanel
choose_first [] p = p
choose_first (x ∷ xs) p = if truthy x.key then ask (record p { selected_env = x.key }) else p

unfoldable pub choose : RecentPanel → RecentPanel
unfolding choose_first
choose p = if truthy p.selected_env then p else choose_first p.environments.state.data_ p

-- A run that is not answered yet.
abbrev pub is_due : ℕ → EffectHook SopQualityCheckHistoryItem → Bool
is_due n h = if n == h.runs then h.state.loading else leb n h.runs

unfoldable pub step : RecentPanel → Event → RecentPanel
unfolding choose
step p toggle = record p { recent_open = not p.recent_open }
step p (found o) =
    if p.environments.state.loading
    then choose (record p { environments = Effect.step p.environments (settle 1 o) })
    else p
step p (listed n o) =
    if is_due n p.history then record p { history = Effect.step p.history (settle n o) } else p
step p refresh = ask p

unfoldable pub run : RecentPanel → List Event → RecentPanel
run p [] = p
run p (e ∷ es) = run (step p e) es

-- What the open panel shows.
pub data Part : Type 0 where
  failed : String → Part
  loading_text empty_text : Part
  checks : List SopQualityCheckHistoryItem → Part

abbrev pub part_if : Bool → Part → List Part
part_if true part = part ∷ []
part_if false part = []

abbrev pub error_part : Option JsError → List Part
error_part none = []
error_part (some e) = failed (message_of e) ∷ []

abbrev pub is_empty : List SopQualityCheckHistoryItem → Bool
is_empty [] = true
is_empty (x ∷ xs) = false

-- A list without rows shows nothing.
unfoldable pub panel_parts : RecentPanel → List Part
panel_parts p =
    let environments = p.environments.state in
    let history = p.history.state in
    if p.recent_open
    then error_part environments.error
      ++ (error_part history.error
          ++ (part_if (environments.loading || history.loading) loading_text
              ++ (part_if
                    (not environments.loading
                      && not history.loading
                      && is_empty history.data_
                      && not (is_some environments.error)
                      && not (is_some history.error))
                    empty_text
                  ++ part_if (not (is_empty history.data_)) (checks history.data_))))
    else []

-- `historyTitle`
unfoldable pub history_title : SopQualityCheckHistoryItem → String
history_title check = if truthy_opt check.sop_id then get_or check.sop_id "" else check.check_id

-- A row: whether it is the active one, and where it leads.
unfoldable pub is_active : Option String → SopQualityCheckHistoryItem → Bool
is_active none check = false
is_active (some active_check_id) check = str_eq active_check_id check.check_id

unfoldable pub row_path : SopQualityCheckHistoryItem → String
row_path check = str_append "/sop?checkId=" check.check_id
