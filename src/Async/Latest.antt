-- ===== src/Async/Latest.antt =====
-- Only the answer to the latest request is shown, in whatever order the answers come.
use change_quality_agent.Base.{
  ℕ, ◌+◌, ◌==◌, Bool, true, false, not, ◌||◌, truthy_opt, is_some, String, Option, none, some,
  or_else, List, [], ◌∷◌, All, ◌≡◌, refl, ap, ◌∙◌, arith, Bool-cases, inl, inr, if◌then◌else◌,
}
use change_quality_agent.Async.Types.{AsyncState, Outcome, success, failure}
use change_quality_agent.Http.Errors.{as_error}
use change_quality_agent.Async.Request.{
  Hook, Event, refetch, settle, unmount, remount, settled, start, finish, step, run, detail_begin,
  detail_idle, detail_refetch, list_begin,
}

-- The last answer to the request `n`.
unfoldable pub answer_to : {T : Type 0} → ℕ → List (Event T) → Option (Outcome T)
answer_to n [] = none
answer_to n (settle m o ∷ es) = or_else (answer_to n es) (if n == m then some o else none)
answer_to n (_ ∷ es) = answer_to n es

-- Only answers arrive.
abbrev pub is_settle : {T : Type 0} → Event T → Bool
is_settle (settle n o) = true
is_settle _ = false

module _ {T : Type 0} (begin : AsyncState T → AsyncState T) (empty : T) where
  -- What is shown once the answer is there, if it is.
  abbrev pub shown : AsyncState T → Option (Outcome T) → AsyncState T
  shown before none = before
  shown before (some o) = settled begin empty o

  finish-shown :
      (n : ℕ) (o : Outcome T) (h : Hook T)
      → h.mounted ≡ true
      → finish begin empty n o h
        ≡ record h { state = shown h.state (if h.request_id == n then some o else none) }
  unfolding finish
  finish-shown n o h m = ground arith

  shown-or_else :
      (before : AsyncState T) (a b : Option (Outcome T))
      → shown (shown before b) a ≡ shown before (or_else a b)
  shown-or_else before none b = refl
  shown-or_else before (some o) b = refl

  run-settles :
      (h : Hook T) (es : List (Event T))
      → h.mounted ≡ true
      → All (λ e. is_settle e ≡ true) es
      → run begin empty h es ≡ record h { state = shown h.state (answer_to h.request_id es) }
  unfolding run step answer_to
  run-settles h [] m q = refl
  run-settles h (settle n o ∷ es) m (_, q) =
      let b = if h.request_id == n then some o else none in
      ap (λ g. run begin empty g es) (finish-shown n o h m)
      ∙ run-settles (record h { state = shown h.state b }) es m q
      ∙ ap (λ s. record h { state = s }) (shown-or_else h.state (answer_to h.request_id es) b)
  run-settles h (refetch ∷ es) m (p, q) = absurd (ground arith)
  run-settles h (unmount ∷ es) m (p, q) = absurd (ground arith)
  run-settles h (remount ∷ es) m (p, q) = absurd (ground arith)

  run-asked :
      (h : Hook T) (es : List (Event T))
      → h.mounted ≡ true
      → All (λ e. is_settle e ≡ true) es
      → (run begin empty h (refetch ∷ es)).state
        ≡ shown (begin h.state) (answer_to (h.request_id + 1) es)
  unfolding run step start
  run-asked h es m q =
      ap (λ g. g.state)
        (run-settles (record h { state = begin h.state; request_id = h.request_id + 1 }) es m q)

  finish-unmounted :
      (n : ℕ) (o : Outcome T) (h : Hook T) → h.mounted ≡ false → finish begin empty n o h ≡ h
  unfolding finish
  finish-unmounted n o h m = ground arith

  -- Once the component has left and asks for nothing more, no answer changes what it shows.
  pub run-unmounted :
      (h : Hook T) (es : List (Event T))
      → h.mounted ≡ false
      → All (λ e. is_settle e ≡ true) es
      → run begin empty h es ≡ h
  unfolding run step
  run-unmounted h [] m q = refl
  run-unmounted h (settle n o ∷ es) m (_, q) =
      ap (λ g. run begin empty g es) (finish-unmounted n o h m) ∙ run-unmounted h es m q
  run-unmounted h (refetch ∷ es) m (p, q) = absurd (ground arith)
  run-unmounted h (unmount ∷ es) m (p, q) = absurd (ground arith)
  run-unmounted h (remount ∷ es) m (p, q) = absurd (ground arith)

unanswered : {A : Type 0} (o : Option A) → is_some o ≡ false → o ≡ none
unanswered none h = refl
unanswered (some a) h = cc

-- While the component stays: after a detail hook has turned to an item, answers to earlier
-- requests and to this one leave the answer to this one, or that it loads; without an item, and so
-- without an answer to it, it stays empty and does not load.
run-detail_refetch :
    {A : Type 0} (id : Option String) (h : Hook (Option A)) (es : List (Event (Option A)))
    → h.mounted ≡ true
    → All (λ e. is_settle e ≡ true) es
    → (truthy_opt id || not (is_some (answer_to (h.request_id + 1) es))) ≡ true
    → (run detail_begin none (detail_refetch id h) es).state ≡ (
        if truthy_opt id
        then shown detail_begin none (detail_begin h.state) (answer_to (h.request_id + 1) es)
        else detail_idle)
unfolding detail_refetch start
run-detail_refetch id h es m q sent = elim (Bool-cases (truthy_opt id)) [
  | inl named ↦ rw named (
      ap (λ g. g.state)
        (run-settles detail_begin none
          (record h { state = detail_begin h.state; request_id = h.request_id + 1 }) es m q))
  | inr unnamed ↦ rw unnamed (
      ap (λ g. g.state)
        (run-settles detail_begin none
          (record h { state = detail_idle; request_id = h.request_id + 1 }) es m q)
      ∙ ap (shown detail_begin none detail_idle)
          (unanswered (answer_to (h.request_id + 1) es) (ground arith)))
]

-- What is shown of a request: the data of before until it is answered, and then what the answer has,
-- or none with the error.
abbrev pub displayed : {T : Type 0} → T → T → Option (Outcome T) → AsyncState T
displayed before empty none = record { data_ = before; error = none; loading = true }
displayed before empty (some (success v)) = record { data_ = v; error = none; loading = false }
displayed before empty (some (failure e)) = record {
  data_ = empty;
  error = some (as_error e);
  loading = false;
}

list_shown :
    {A : Type 0} (s : AsyncState (List A)) (o : Option (Outcome (List A)))
    → shown list_begin [] (list_begin s) o ≡ displayed s.data_ [] o
list_shown s none = refl
list_shown s (some (success v)) = refl
list_shown s (some (failure e)) = refl

detail_shown :
    {A : Type 0} (s : AsyncState (Option A)) (o : Option (Outcome (Option A)))
    → shown detail_begin none (detail_begin s) o ≡ displayed none none o
detail_shown s none = refl
detail_shown s (some (success v)) = refl
detail_shown s (some (failure e)) = refl

-- Of a list hook and of a detail hook with an id, while the component stays: after a request, whatever
-- answers come to this and to earlier requests, in any order, the hook shows the last answer to this
-- one: its data, or no data and its error. Until there is one it loads without an error, and shows
-- the list of before, or no detail.
pub run-refetch :
    {A B : Type 0} (h : Hook (List A)) (es : List (Event (List A))) (id : Option String)
    (g : Hook (Option B)) (ds : List (Event (Option B)))
    → h.mounted ≡ true
    → All (λ e. is_settle e ≡ true) es
    → truthy_opt id ≡ true
    → g.mounted ≡ true
    → All (λ e. is_settle e ≡ true) ds
    → ((run list_begin [] h (refetch ∷ es)).state
        ≡ displayed h.state.data_ [] (answer_to (h.request_id + 1) es))
      × ((run detail_begin none (detail_refetch id g) ds).state
          ≡ displayed none none (answer_to (g.request_id + 1) ds))
run-refetch h es id g ds m q named n r = (
  run-asked list_begin [] h es m q ∙ list_shown h.state (answer_to (h.request_id + 1) es),
  run-detail_refetch id g ds n r (ground (arith, named))
      ∙ rw named (detail_shown g.state (answer_to (g.request_id + 1) ds)),
)
