-- ===== src/Check/Projection.antt =====
-- frontend/src/features/sop-quality-checks/reducer.ts, the view of a session
pub mod Collect
pub mod Messages
pub mod Nodes
pub mod View
mod Tests
use Prim.Native.String.{len, slice}
use text.Mathlib.Text.{starts_with}
use change_quality_agent.Base.{
  ℕ, ◌+◌, leb, String, str_eq, str_append, truthy_opt, includes, join, Bool, false, ◌&&◌, not,
  Option, none, some, get_or, is_some, ◌>>=◌, List, [], ◌∷◌, ◌++◌, filter, if◌then◌else◌,
}
use change_quality_agent.Base.Dict.{Dict, keys, get, put, has}
use change_quality_agent.Base.Sort.{sort_by}
use change_quality_agent.Session.Types.{SessionMessage}
use change_quality_agent.Session.Reducer.{SessionViewState, max_sequence, step_of}
use change_quality_agent.Check.Types.{NodeStatus, SopQualityNodeState}
use change_quality_agent.Check.Reducer.{rank}

abbrev pub ordered_steps : List String
ordered_steps = "load_sop" ∷ "review_sop" ∷ "summarize_result" ∷ "submit_result" ∷ []

pub record SopProjection : Type 0 where
  pub latest_sequence : ℕ
  pub nodes : Dict SopQualityNodeState

-- The local variables `seenSteps`, `grouped` and `firstSequence`.
pub record Grouping : Type 0 where
  pub seen_steps : List String
  pub grouped : Dict (List String)
  pub first_sequence : Dict ℕ

abbrev pub no_groups : Grouping
no_groups = record { seen_steps = []; grouped = []; first_sequence = [] }

-- `if (!(step in grouped)) { … }`, with the number that a new step gets
unfoldable pub note_step : String → ℕ → Grouping → Grouping
note_step step sequence g = if has step g.grouped then g else record {
  seen_steps = g.seen_steps ++ step ∷ [];
  grouped = put step [] g.grouped;
  first_sequence = put step sequence g.first_sequence;
}

-- `grouped[step].push(chunk)`, which throws a TypeError where `grouped[step]` is inherited
unfoldable pub push_chunk : String → String → Grouping → Option Grouping
push_chunk step chunk g = get step g.grouped >>= λ chunks.
    some (record g { grouped = put step (chunks ++ chunk ∷ []) g.grouped })

-- One round of the loop over the messages.
unfoldable pub group_message : Grouping → SessionMessage → Option Grouping
group_message g message =
    let step = step_of message in
    if truthy_opt step
    then push_chunk (get_or step "") message.content (note_step (get_or step "") message.sequence g)
    else some g

unfoldable pub group_messages : Grouping → List SessionMessage → Option Grouping
group_messages g [] = some g
group_messages g (m ∷ ms) = do next ← group_message g m; group_messages next ms

-- `key.slice("step:".length)`, if `key.startsWith("step:")`
unfoldable pub step_of_key : String → Option String
step_of_key key = if starts_with key "step:" then some (slice key (len "step:") (len key)) else none

-- One round of the loop over the keys of `liveBuffers`, and of that over the keys of `thinking`.
abbrev pub visit : ℕ → Option String → Grouping × Option String → Grouping × Option String
visit sequence none (g, last_seen) = (g, last_seen)
visit sequence (some step) (g, last_seen) = (note_step step sequence g, some step)

unfoldable pub visit_keys : ℕ → Grouping × Option String → List String → Grouping × Option String
visit_keys sequence state [] = state
visit_keys sequence state (key ∷ rest) =
    visit_keys sequence (visit sequence (step_of_key key) state) rest

-- `xs[xs.length - 1]`
abbrev pub last_of : List String → Option String
last_of [] = none
last_of (x ∷ []) = some x
last_of (x ∷ y ∷ ys) = last_of (y ∷ ys)

-- The steps and the one seen last, the live ones included while the check runs.
unfoldable pub all_steps : SessionViewState → Bool → Grouping → Grouping × Option String
all_steps state is_running g =
    let start : Grouping × Option String = (g, last_of g.seen_steps) in
    if is_running
    then visit_keys (state.latest_sequence + 1)
        (visit_keys (state.latest_sequence + 1) start (keys state.live_buffers))
        (keys state.thinking)
    else start

abbrev pub earlier : Dict ℕ → String → String → Bool
earlier first_sequence left right =
    leb (rank (get left first_sequence)) (rank (get right first_sequence))

unfoldable pub sort_steps : List String → Dict ℕ → List String
unfolding sort_by
sort_steps seen first_sequence =
    filter (λ step. includes step seen) ordered_steps
    ++ sort_by (earlier first_sequence) (filter (λ step. not (includes step ordered_steps)) seen)

-- `step === lastSeen`
abbrev pub is_last_seen : String → Option String → Bool
is_last_seen step none = false
is_last_seen step (some last) = str_eq step last

-- `thinking[key] === true`
abbrev pub is_true : Option Bool → Bool
is_true none = false
is_true (some b) = b

-- The node of a step.
unfoldable pub step_node :
    SessionViewState → Bool → Grouping → Option String → String → SopQualityNodeState
step_node state is_running g last_seen step =
    let persisted_chunks = get_or (get step g.grouped) [] in
    let is_last = is_running && is_last_seen step last_seen in
    let live_text = get (str_append "step:" step) state.live_buffers in
    let is_thinking = is_true (get (str_append "step:" step) state.thinking) in
    record {
      status = if is_last then NodeStatus.running else NodeStatus.done;
      stream_text = some (
          if is_last && is_some live_text then get_or live_text "" else join "\n" persisted_chunks);
      thinking_text = if is_last && is_thinking then some "思考中" else none;
      error = none;
      first_sequence = get step g.first_sequence;
    }

-- The loop over the ordered steps.
unfoldable pub build_nodes :
    (String → SopQualityNodeState)
    → Dict SopQualityNodeState
    → List String
    → Dict SopQualityNodeState
build_nodes node nodes [] = nodes
build_nodes node nodes (step ∷ steps) = build_nodes node (put step (node step) nodes) steps

-- `none` is a thrown TypeError.
unfoldable pub project_session_state_to_sop_view : SessionViewState → Bool → Option SopProjection
project_session_state_to_sop_view state is_running = do
  messages ← group_messages no_groups state.messages
  let (g, last_seen) = all_steps state is_running messages
  some (record {
    latest_sequence = max_sequence state.latest_sequence state.messages;
    nodes =
        build_nodes (step_node state is_running g last_seen) []
          (sort_steps g.seen_steps g.first_sequence);
  })
