-- ===== src/Check/Followed.antt =====
-- The session whose stream a check's page follows.
use change_quality_agent.Base.{
  ℕ, String, true, false, Option, none, some, Bool-cases, inl, inr, List, [], ◌∷◌, ◌≡◌, refl, sym,
  ◌∙◌, arith, ==_iff,
}
use change_quality_agent.Session.Reducer.{create_initial_session_view_state}
use change_quality_agent.Session.Stream.{
  Stream, unmounted, Action, set_session, same, begin_session, cleanup,
}
use change_quality_agent.Session.Stream as Session
use change_quality_agent.Session.Connection.{Inv, step-Inv, unmounted-Inv}
use change_quality_agent.Session.Steady.{is_outside, step-session_id, step-quiet}
use change_quality_agent.Check.Hook.{CheckHook, mount}
use change_quality_agent.Check.Hook as Hook
use change_quality_agent.Check.Page.{
  CheckPage, PageAction, check_action, session_action, followed, render, open_page, step, run,
}

-- The stream follows that session, its connection is in order, and without a session it shows nothing.
pub record IsFollowing (id : Option ℕ) (h : Stream) : Type 0 where
  pub follows : h.session_id ≡ id
  pub connected : Inv h
  pub blank : h.session_id ≡ none → h.state ≡ create_initial_session_view_state

same-≡ : (a b : Option ℕ) → same a b ≡ true → a ≡ b
same-≡ none none e = refl
same-≡ none (some b) e = ground (arith, e)
same-≡ (some a) none e = ground (arith, e)
same-≡ (some a) (some b) e = ground (arith, e, ==_iff a b)

begin_session-follows :
    (id : Option ℕ) (h : Stream)
    → ((begin_session id h).session_id ≡ id)
      × (id ≡ none → (begin_session id h).state ≡ create_initial_session_view_state)
unfolding begin_session
begin_session-follows none h = (refl, λ e. refl)
begin_session-follows (some n) h = (refl, λ e. refl)

set_session-IsFollowing :
    (id old : Option ℕ) (h : Stream)
    → IsFollowing old h
    → IsFollowing id (Session.step h (set_session id))
unfolding Session.step
set_session-IsFollowing id old h v = elim (Bool-cases (same id h.session_id)) [
  | inl e ↦ rw e (record {
    follows = sym (same-≡ id h.session_id e);
    connected = v.connected;
    blank = v.blank;
  })
  | inr e ↦
      let (f, b) = begin_session-follows id (cleanup h) in
      record {
        follows = rw e f;
        connected = step-Inv h (set_session id) v.connected;
        blank = rw e (λ alone. b (sym f ∙ alone));
      }
]

outside-IsFollowing :
    (id : Option ℕ) (h : Stream) (a : Action)
    → is_outside a ≡ true
    → IsFollowing id h
    → IsFollowing id (Session.step h a)
outside-IsFollowing id h a o v =
    let kept = step-session_id h a o in
    record {
      follows = kept ∙ v.follows;
      connected = step-Inv h a v.connected;
      blank = λ alone. step-quiet h a v.connected (sym kept ∙ alone) o ∙ v.blank (sym kept ∙ alone);
    }

abbrev pub IsTogether : CheckPage → Type 0
IsTogether p = IsFollowing (followed p.hook) p.session_stream

pub step-IsTogether : (p : CheckPage) (a : PageAction) → IsTogether p → IsTogether (step p a)
unfolding step render
step-IsTogether p (check_action a) v =
    set_session-IsFollowing (followed (Hook.step p.hook a)) (followed p.hook) p.session_stream v
step-IsTogether p (session_action a) v = elim (Bool-cases (is_outside a)) [
  | inl o ↦ rw o (outside-IsFollowing (followed p.hook) p.session_stream a o v)
  | inr o ↦ rw o v
]

pub run-IsTogether : (p : CheckPage) (as_ : List PageAction) → IsTogether p → IsTogether (run p as_)
unfolding run
run-IsTogether p [] v = v
run-IsTogether p (a ∷ as_) v = run-IsTogether (step p a) as_ (step-IsTogether p a v)

unmounted-IsFollowing : IsFollowing none unmounted
unmounted-IsFollowing = record { follows = refl; connected = unmounted-Inv; blank = λ e. refl }

pub open_page-IsTogether : (check_id : String) → IsTogether (open_page check_id)
unfolding open_page render
open_page-IsTogether check_id =
    set_session-IsFollowing (followed (mount check_id)) none unmounted unmounted-IsFollowing

pub unfollowed :
    (id : Option ℕ) (h : Stream)
    → IsFollowing id h
    → id ≡ none
    → (h.open_sources ≡ []) × (h.timer ≡ false) × (h.state ≡ create_initial_session_view_state)
unfollowed id h v e =
    let alone = v.follows ∙ e in
    let off : h.active ≡ false = ground (arith, alone, v.connected.owned) in
    ground (arith, v.connected.sources, v.connected.inactive, off, v.blank alone)
