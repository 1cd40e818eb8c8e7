-- ===== src/Workspace/Listing.antt =====
-- What the list of recent checks shows, after any events.
pub mod Panel
use change_quality_agent.Base.{
  ℕ, String, truthy, Bool, true, false, is_some, length, List, [], ◌∷◌, ◌≡◌, refl, arith, ap, ◌∙◌,
  sym, ◌⊎◌, ==_iff, inl, inr, Bool-cases, if◌then◌else◌,
}
use change_quality_agent.Async.Types.{AsyncState}
use change_quality_agent.Async.Effect.{
  Answer, loaded, failed, EffectHook, rerun, settle, settled, initial, begin_run, is_cancelled,
  use_recent_sop_quality_checks, use_sop_environments,
}
use change_quality_agent.Async.Effect as Effect
use change_quality_agent.Async.Closures.{Cancels, begin_run-Cancels, step-Cancels, initial-Cancels}
use change_quality_agent.Workspace.Recent.{
  SopEnvironment, SopQualityCheckHistoryItem, RecentPanel, Event, toggle, found, listed, refresh,
  opened, ask, choose_first, choose, is_due, step, run, panel_parts,
}
use change_quality_agent.Workspace.Listing.Panel.{
  first_key, IsPanel, if-IsPanel, begun-IsSole, ask-IsPanel, choose-IsPanel, found-IsPanel,
  listed-IsPanel,
}

step-IsPanel : (p : RecentPanel) (e : Event) → IsPanel p → IsPanel (step p e)
unfolding step
step-IsPanel p toggle v = record {
  environments = v.environments;
  history = v.history;
  runs = v.runs;
  idle_loading = v.idle_loading;
  idle_error = v.idle_error;
  idle_data = v.idle_data;
  chosen_loading = v.chosen_loading;
  chosen_error = v.chosen_error;
  chosen_first = v.chosen_first;
}
step-IsPanel p (found o) v =
    let q = record p { environments = Effect.step p.environments (settle 1 o) } in
    if-IsPanel p.environments.state.loading (choose q) p
      (λ asked. choose-IsPanel q (found-IsPanel o p (ground (arith, asked, v.chosen_loading)) v))
      (λ answered. v)
step-IsPanel p (listed n o) v =
    let q = record p { history = Effect.step p.history (settle n o) } in
    if-IsPanel (is_due n p.history) q p (λ due. listed-IsPanel n o p due v) (λ other. v)
step-IsPanel p refresh v = ask-IsPanel p v

run-IsPanel : (p : RecentPanel) (es : List Event) → IsPanel p → IsPanel (run p es)
unfolding run
run-IsPanel p [] v = v
run-IsPanel p (e ∷ es) v = run-IsPanel (step p e) es (step-IsPanel p e v)

parts_once : (p : RecentPanel) → IsPanel p → p.recent_open ≡ true → length (panel_parts p) ≡ 1
unfolding panel_parts
parts_once p v h = ground (
  arith, h, v.environments.loading_error, v.environments.error_data, v.history.loading_error,
  v.history.loading_data, v.history.error_data, v.idle_loading, v.idle_error, v.idle_data,
  v.chosen_loading, v.chosen_error,
)

opened-IsPanel : IsPanel opened
unfolding opened use_recent_sop_quality_checks use_sop_environments Effect.run Effect.step begin_run
opened-IsPanel = record {
  environments = begun-IsSole true initial;
  history = begun-IsSole false initial;
  runs = begin_run-Cancels false initial initial-Cancels;
  idle_loading = λ h. refl;
  idle_error = λ h. refl;
  idle_data = λ h. refl;
  chosen_loading = λ h. absurd (cc);
  chosen_error = λ h. refl;
  chosen_first = λ h. absurd (cc);
}

parts_counted :
    (p : RecentPanel) → IsPanel p → length (panel_parts p) ≡ (if p.recent_open then 1 else 0)
unfolding panel_parts
parts_counted p v = elim (Bool-cases p.recent_open) [
  | inl shown ↦ parts_once p v shown ∙ sym (ap (λ b. if b then 1 else 0) shown)
  | inr hidden ↦ simp hidden refl
]

first_chosen :
    (p : RecentPanel)
    → IsPanel p
    → (truthy p.selected_env ≡ false) ⊎ (first_key p.environments.state.data_ ≡ p.selected_env)
first_chosen p v = elim (Bool-cases (truthy p.selected_env)) [
  | inl chosen ↦ inr (v.chosen_first chosen)
  | inr free ↦ inl free
]

-- The list of recent checks, after any presses of its heading, answers and refreshes in any order:
-- while it is open, it shows exactly one of an error, loading, that there are no checks, and the
-- checks, and while it is closed, none; and no environment is chosen, or the first of those that were
-- answered.
pub run-panel :
    (es : List Event)
    → let p = run opened es in
      (length (panel_parts p) ≡ (if p.recent_open then 1 else 0))
      × ((truthy p.selected_env ≡ false) ⊎ (first_key p.environments.state.data_ ≡ p.selected_env))
run-panel es =
    let v = run-IsPanel opened es opened-IsPanel in
    (parts_counted (run opened es) v, first_chosen (run opened es) v)
