-- ===== src/Workspace/Listing/Panel.antt =====
-- The invariant of the list of recent checks, and what keeps it.
use change_quality_agent.Base.{
  ℕ, String, truthy, Bool, true, false, is_some, List, [], ◌∷◌, ◌≡◌, refl, arith, ap, ◌∙◌, ==_iff,
  inl, inr, Bool-cases, if◌then◌else◌,
}
use change_quality_agent.Async.Types.{AsyncState}
use change_quality_agent.Async.Effect.{
  Answer, loaded, failed, EffectHook, rerun, settle, settled, initial, begin_run, is_cancelled,
  use_recent_sop_quality_checks, use_sop_environments,
}
use change_quality_agent.Async.Effect as Effect
use change_quality_agent.Async.Closures.{Cancels, begin_run-Cancels, step-Cancels}
use change_quality_agent.Workspace.Recent.{
  SopEnvironment, SopQualityCheckHistoryItem, RecentPanel, ask, choose_first, choose, is_due,
}

abbrev pub first_key : List SopEnvironment → String
first_key [] = ""
first_key (x ∷ xs) = x.key

-- A state that loads has neither data nor an error, and one with an error has no data.
pub record IsSole {A : Type 0} (s : AsyncState (List A)) : Type 0 where
  pub loading_error : s.loading ≡ true → is_some s.error ≡ false
  pub loading_data : s.loading ≡ true → s.data_ ≡ []
  pub error_data : is_some s.error ≡ true → s.data_ ≡ []

-- Until an environment is chosen no checks are asked for; the one that is chosen is the first of those
-- that were answered.
pub record IsPanel (p : RecentPanel) : Type 0 where
  pub environments : IsSole p.environments.state
  pub history : IsSole p.history.state
  pub runs : Cancels p.history
  pub idle_loading : truthy p.selected_env ≡ false → p.history.state.loading ≡ false
  pub idle_error : truthy p.selected_env ≡ false → is_some p.history.state.error ≡ false
  pub idle_data : truthy p.selected_env ≡ false → p.history.state.data_ ≡ []
  pub chosen_loading : truthy p.selected_env ≡ true → p.environments.state.loading ≡ false
  pub chosen_error : truthy p.selected_env ≡ true → is_some p.environments.state.error ≡ false
  pub chosen_first :
      truthy p.selected_env ≡ true → first_key p.environments.state.data_ ≡ p.selected_env

pub if-IsPanel :
    (b : Bool) (p q : RecentPanel)
    → (b ≡ true → IsPanel p)
    → (b ≡ false → IsPanel q)
    → IsPanel (if b then p else q)
if-IsPanel true p q f g = f refl
if-IsPanel false p q f g = g refl

settled-IsSole : {A : Type 0} (o : Answer A) → IsSole (settled o)
settled-IsSole (loaded v) = ground arith
settled-IsSole (failed e) = ground arith

settle-IsSole :
    {A : Type 0} (n : ℕ) (o : Answer A) (h : EffectHook A)
    → IsSole h.state
    → IsSole (Effect.step h (settle n o)).state
unfolding Effect.step
settle-IsSole n o h v = elim (Bool-cases (is_cancelled n h)) [
  | inl late ↦ rw late v
  | inr live ↦ rw live (settled-IsSole o)
]

pub begun-IsSole : {A : Type 0} (b : Bool) (h : EffectHook A) → IsSole (begin_run b h).state
unfolding begin_run
begun-IsSole b h = ground arith

pub ask-IsPanel : (p : RecentPanel) → IsPanel p → IsPanel (ask p)
unfolding Effect.step begin_run
ask-IsPanel p v = record {
  environments = v.environments;
  history = begun-IsSole (truthy p.selected_env) p.history;
  runs = begin_run-Cancels (truthy p.selected_env) p.history v.runs;
  idle_loading = λ h. h;
  idle_error = λ h. refl;
  idle_data = λ h. refl;
  chosen_loading = v.chosen_loading;
  chosen_error = v.chosen_error;
  chosen_first = v.chosen_first;
}

choose_first-IsPanel :
    (xs : List SopEnvironment) (p : RecentPanel)
    → p.environments.state.data_ ≡ xs
    → IsPanel p
    → IsPanel (choose_first xs p)
unfolding choose_first
choose_first-IsPanel [] p e v = v
choose_first-IsPanel (x ∷ xs) p e v =
    let q = record p { selected_env = x.key } in
    if-IsPanel (truthy x.key) (ask q) p
      (λ key. ask-IsPanel q (record {
        environments = v.environments;
        history = v.history;
        runs = v.runs;
        idle_loading = λ h. absurd (cc);
        idle_error = λ h. absurd (cc);
        idle_data = λ h. absurd (cc);
        chosen_loading = λ h. ground (arith, e, v.environments.loading_data);
        chosen_error = λ h. ground (arith, e, v.environments.error_data);
        chosen_first = λ h. ap first_key e;
      }))
      (λ empty. v)

pub choose-IsPanel : (p : RecentPanel) → IsPanel p → IsPanel (choose p)
unfolding choose
choose-IsPanel p v =
    if-IsPanel (truthy p.selected_env) p (choose_first p.environments.state.data_ p) (λ chosen. v)
      (λ free. choose_first-IsPanel p.environments.state.data_ p refl v)

pub found-IsPanel :
    (o : Answer SopEnvironment) (p : RecentPanel)
    → truthy p.selected_env ≡ false
    → IsPanel p
    → IsPanel (record p { environments = Effect.step p.environments (settle 1 o) })
found-IsPanel o p unchosen v = record {
  environments = settle-IsSole 1 o p.environments v.environments;
  history = v.history;
  runs = v.runs;
  idle_loading = v.idle_loading;
  idle_error = v.idle_error;
  idle_data = v.idle_data;
  chosen_loading = λ h. absurd (cc);
  chosen_error = λ h. absurd (cc);
  chosen_first = λ h. absurd (cc);
}

-- An answer that is due and comes while no environment is chosen is one to an earlier run.
settle-unchosen :
    (n : ℕ) (o : Answer SopQualityCheckHistoryItem) (h : EffectHook SopQualityCheckHistoryItem)
    → h.state.loading ≡ false
    → is_due n h ≡ true
    → Cancels h
    → Effect.step h (settle n o) ≡ h
unfolding Effect.step
settle-unchosen n o h l d c = rw (c.older n (ground (arith, l, d, ==_iff n h.runs))) refl

pub listed-IsPanel :
    (n : ℕ) (o : Answer SopQualityCheckHistoryItem) (p : RecentPanel)
    → is_due n p.history ≡ true
    → IsPanel p
    → IsPanel (record p { history = Effect.step p.history (settle n o) })
listed-IsPanel n o p d v = record {
  environments = v.environments;
  history = settle-IsSole n o p.history v.history;
  runs = step-Cancels p.history (settle n o) v.runs;
  idle_loading = λ h.
      ap (λ g. g.state.loading) (settle-unchosen n o p.history (v.idle_loading h) d v.runs)
      ∙ v.idle_loading h;
  idle_error = λ h.
      ap (λ g. is_some g.state.error) (settle-unchosen n o p.history (v.idle_loading h) d v.runs)
      ∙ v.idle_error h;
  idle_data = λ h.
      ap (λ g. g.state.data_) (settle-unchosen n o p.history (v.idle_loading h) d v.runs)
      ∙ v.idle_data h;
  chosen_loading = v.chosen_loading;
  chosen_error = v.chosen_error;
  chosen_first = v.chosen_first;
}
