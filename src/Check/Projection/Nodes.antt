-- ===== src/Check/Projection/Nodes.antt =====
-- The nodes that `projectSessionStateToSopView` shows.
use change_quality_agent.Base.{
  ℕ, ◌+◌, String, str_eq, includes, Bool, true, false, ◌&&◌, ◌||◌, not, Option, none, some, List,
  [], ◌∷◌, ◌++◌, filter, any, any-append, ◌≡◌, refl, ◌∙◌, arith, Bool-cases, eq_iff, if◌then◌else◌,
}
use change_quality_agent.Base.Dict.{Dict, keys, get, put, has_own, get-put, is_inherited}
use change_quality_agent.Base.Sort.{sort_by-any}
use change_quality_agent.Session.Reducer.{SessionViewState}
use change_quality_agent.Check.Types.{SopQualityNodeState}
use change_quality_agent.Check.Projection.{
  ordered_steps, Grouping, note_step, step_of_key, visit, visit_keys, last_of, all_steps, earlier,
  sort_steps, build_nodes,
}
use change_quality_agent.Check.Projection.Collect.{
  IsConsistent, note_step-grouped, note_step-IsConsistent,
}

includes-filter :
    (p : String → Bool) (k : String) (xs : List String)
    → includes k (filter p xs) ≡ (includes k xs && p k)
includes-filter p k [] = refl
includes-filter p k (x ∷ xs) = ground (arith, includes-filter p k xs, eq_iff x k)

-- Sorting the steps loses none and adds none.
pub includes-sort_steps :
    (k : String) (seen : List String) (first : Dict ℕ)
    → includes k (sort_steps seen first) ≡ includes k seen
unfolding sort_steps
includes-sort_steps k seen first =
    let unknown = filter (λ step. not (includes step ordered_steps)) seen in
    any-append (λ x. str_eq x k) (filter (λ step. includes step seen) ordered_steps) _
    ∙ ground (
      arith,
      includes-filter (λ step. includes step seen) k ordered_steps,
      sort_by-any (earlier first) (λ x. str_eq x k) unknown,
      includes-filter (λ step. not (includes step ordered_steps)) k seen,
    )

pub get-build_nodes :
    (node : String → SopQualityNodeState) (k : String) (nodes : Dict SopQualityNodeState)
    (steps : List String)
    → get k (build_nodes node nodes steps)
      ≡ (if includes k steps then some (node k) else get k nodes)
unfolding build_nodes
get-build_nodes node k nodes [] = refl
get-build_nodes node k nodes (step ∷ steps) =
    get-build_nodes node k (put step (node step) nodes) steps
    ∙ ground (arith, get-put step k (node step) nodes, eq_iff step k)

-- The keys of the live text and of the thinking marks.
abbrev pub live_keys : SessionViewState → List String
live_keys s = keys s.live_buffers ++ keys s.thinking

note_step-has_own :
    (k step : String) (n : ℕ) (g : Grouping)
    → has_own k (note_step step n g).grouped
      ≡ (has_own k g.grouped || (str_eq step k && not (is_inherited k)))
note_step-has_own k step n g =
    ground (arith, note_step-grouped k step n g, eq_iff step k, Bool-cases (has_own k g.grouped))

abbrev pub names : String → Option String → Bool
names k none = false
names k (some step) = str_eq step k

visit-IsConsistent :
    (n : ℕ) (o : Option String) (s : Grouping × Option String)
    → IsConsistent s.0
    → IsConsistent (visit n o s).0
visit-IsConsistent n none (g, last) c = c
visit-IsConsistent n (some step) (g, last) c = note_step-IsConsistent step n g c

visit-has_own :
    (k : String) (n : ℕ) (o : Option String) (s : Grouping × Option String)
    → has_own k (visit n o s).0.grouped
      ≡ (has_own k s.0.grouped || (names k o && not (is_inherited k)))
visit-has_own k n none (g, last) = ground arith
visit-has_own k n (some step) (g, last) = note_step-has_own k step n g

visit_keys-IsConsistent :
    (n : ℕ) (s : Grouping × Option String) (ks : List String)
    → IsConsistent s.0
    → IsConsistent (visit_keys n s ks).0
unfolding visit_keys
visit_keys-IsConsistent n s [] c = c
visit_keys-IsConsistent n s (key ∷ ks) c =
    visit_keys-IsConsistent n (visit n (step_of_key key) s) ks
      (visit-IsConsistent n (step_of_key key) s c)

visit_keys-has_own :
    (k : String) (n : ℕ) (s : Grouping × Option String) (ks : List String)
    → has_own k (visit_keys n s ks).0.grouped ≡ (
        has_own k s.0.grouped
        || (any (λ key. names k (step_of_key key)) ks && not (is_inherited k)))
unfolding visit_keys
visit_keys-has_own k n s [] = ground arith
visit_keys-has_own k n s (key ∷ ks) =
    visit_keys-has_own k n (visit n (step_of_key key) s) ks
    ∙ ground (arith, visit-has_own k n (step_of_key key) s)

-- The step `k` has live text or thinks.
abbrev pub is_live : String → SessionViewState → Bool
is_live k s = any (λ key. names k (step_of_key key)) (live_keys s)

pub all_steps-IsConsistent :
    (s : SessionViewState) (b : Bool) (g : Grouping)
    → IsConsistent g
    → IsConsistent (all_steps s b g).0
unfolding all_steps
all_steps-IsConsistent s false g c = c
all_steps-IsConsistent s true g c =
    visit_keys-IsConsistent _ _ (keys s.thinking)
      (visit_keys-IsConsistent _ (g, last_of g.seen_steps) (keys s.live_buffers) c)

pub all_steps-has_own :
    (k : String) (s : SessionViewState) (b : Bool) (g : Grouping)
    → has_own k (all_steps s b g).0.grouped
      ≡ (has_own k g.grouped || (b && is_live k s && not (is_inherited k)))
unfolding all_steps
all_steps-has_own k s false g = ground arith
all_steps-has_own k s true g =
    let n = s.latest_sequence + 1 in
    let start : Grouping × Option String = (g, last_of g.seen_steps) in
    visit_keys-has_own k n (visit_keys n start (keys s.live_buffers)) (keys s.thinking)
    ∙ ground (
      arith,
      visit_keys-has_own k n start (keys s.live_buffers),
      any-append (λ key. names k (step_of_key key)) (keys s.live_buffers) (keys s.thinking),
    )
