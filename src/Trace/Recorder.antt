-- ===== src/Trace/Recorder.antt =====
-- `class OperationRecorder` of src/scnsim/benchmark/operations.py: its attributes, its rows, and
-- the operations on the spans. Clock ticks and new ids are arguments: the environment gives them.
use scnsim.Base.{
  ℕ, String, List, [], ◌∷◌, ◌++◌, ◌+◌, max, map, Bool, true, false, Option, none, some, length,
  take, drop, if◌then◌else◌,
}
use scnsim.Base.Eq.{◌==◌, nat_eq, string_eq, list_eq}
use scnsim.Base.Dict.{Dict}
use scnsim.Base.Int.{ℤ, minus_nat}
use scnsim.Store.Database.{Payload}

-- A JSON value of `details`.
pub data Value : Type 0 where
  text : String → Value
  number : ℕ → Value

abbrev pub Details : Type 0
Details = Dict String Value

pub data Status : Type 0 where
  running success interrupted failure : Status

-- An exception: KeyboardInterrupt and SystemExit, or any other.
pub data Raised : Type 0 where
  interrupt fault : Raised

abbrev pub ended : Option Raised → Status
ended none = success
ended (some interrupt) = interrupted
ended (some fault) = failure

pub record Clock : Type 0 where
  pub id : String
  pub monotonic_origin_ns : ℕ

-- The row that `_span_row` builds.
pub record Span : Type 0 where
  pub operation_id : String
  pub span_id : String
  pub parent_span_id : Option String
  pub kind : String
  pub clock : Clock
  pub start_ns : ℤ
  pub end_ns : ℤ
  pub status : Status
  pub details : Details

-- `_stack` has its last item first.
pub record Recorder : Type 0 where
  pub operation_id : String
  pub root_span_id : String
  pub method : String
  pub backend : Option String
  pub precision : Option String
  pub clock : Clock
  pub start_tick_ns : ℕ
  pub stack : List String
  pub spans : List Span
  pub persisted_spans : ℕ
  pub handed_spans : ℕ
  pub entered : Bool
  pub closed : Bool
  pub request_sha256 : Option String
  pub task_id : Option String
  pub attempt_id : Option String
  pub environment_sha256 : Option String
  pub operation : Option String
  pub numerical_refs : List Details
  pub details : Details
  pub end_tick_ns : Option ℕ
  pub status : Status

-- `__init__`
abbrev pub new_recorder :
    (operation_id root_span_id method : String) (backend precision : Option String) (clock : Clock)
    (start_tick_ns : ℕ)
    → Recorder
new_recorder operation_id root_span_id method backend precision clock start_tick_ns = record {
  operation_id = operation_id;
  root_span_id = root_span_id;
  method = method;
  backend = backend;
  precision = precision;
  clock = clock;
  start_tick_ns = start_tick_ns;
  stack = root_span_id ∷ [];
  spans = [];
  persisted_spans = 0;
  handed_spans = 0;
  entered = false;
  closed = false;
  request_sha256 = none;
  task_id = none;
  attempt_id = none;
  environment_sha256 = none;
  operation = none;
  numerical_refs = [];
  details = [];
  end_tick_ns = none;
  status = running;
}

-- `_span_row`
abbrev pub span_row :
    Recorder → String → Option String → String → (start_tick end_tick : ℕ) → Status → Details → Span
span_row s span_id parent kind start_tick end_tick status details = record {
  operation_id = s.operation_id;
  span_id = span_id;
  parent_span_id = parent;
  kind = kind;
  clock = s.clock;
  start_ns = minus_nat start_tick s.clock.monotonic_origin_ns;
  end_ns = minus_nat end_tick s.clock.monotonic_origin_ns;
  status = status;
  details = details;
}

-- `self._spans.append`
abbrev pub add_span : Span → Recorder → Recorder
add_span row s = record s { spans = s.spans ++ row ∷ [] }

-- `self._stack[-1] if self._stack else None`
abbrev pub innermost : List String → Option String
innermost [] = none
innermost (top ∷ below) = some top

-- `span` up to its `yield`: none when the recorder is closed.
unfoldable pub open_span : String → Recorder → Option Recorder
open_span span_id s = if s.closed then none else some (record s { stack = span_id ∷ s.stack })

-- `if self._stack and self._stack[-1] == span_id: self._stack.pop()`
unfoldable pub pop_span : String → List String → List String
pop_span span_id [] = []
pop_span span_id (top ∷ below) = if top == span_id then below else top ∷ below

-- The `finally` of `span`.
unfoldable pub close_span :
    String
    → Option String
    → String
    → (start_tick end_tick : ℕ) → Option Raised
    → Details
    → Recorder
    → Recorder
unfolding pop_span
close_span span_id parent kind start_tick end_tick error details s =
    add_span (span_row s span_id parent kind start_tick end_tick (ended error) details)
      (record s { stack = pop_span span_id s.stack })

-- `measure`; an empty `parent_span_id` is not told from an absent one.
unfoldable pub measure :
    String → String → (start_tick end_tick : ℕ) → Option String → Details → Recorder → Recorder
measure span_id kind start_tick end_tick parent details s =
    let owner : Option String = elim parent [
      | none ↦ innermost s.stack
      | some given ↦ if given == "" then innermost s.stack else some given
    ] in
    add_span (span_row s span_id owner kind start_tick end_tick success details) s

unfoldable pub pending_spans : Recorder → List Span
pending_spans s = drop s.persisted_spans s.spans

-- The slice from `_persisted_spans` to `_handed_spans`.
unfoldable pub handed_pending_spans : Recorder → List Span
handed_pending_spans s = drop s.persisted_spans (take s.handed_spans s.spans)

module _ (record_bytes : Span → Payload) where
  -- none: RuntimeError, and nothing changed.
  unfoldable pub mark_spans_persisted : List Span → Recorder → Option Recorder
  unfolding pending_spans
  mark_spans_persisted rows s =
      if map record_bytes (take (length rows) (pending_spans s)) == map record_bytes rows
      then (let persisted = s.persisted_spans + length rows in
          some
            (record s { persisted_spans = persisted; handed_spans = max s.handed_spans persisted }))
      else none

module _ {W : Type 0} (append_event : String → Span → W → Bool × W) where
  -- The loop of `publish_pending_spans` over the rows, with the writer's state: `append_event` gets
  -- the operation's id and the span, and says whether it returned.
  unfoldable pub hand_rows : List Span → Recorder → W → Bool × (Recorder × W)
  hand_rows [] s w = (true, (s, w))
  hand_rows (row ∷ rows) s w =
      let (returned, w') = append_event s.operation_id row w in
      elim returned [
        | true ↦ hand_rows rows (record s { handed_spans = s.handed_spans + 1 }) w'
        | false ↦ (false, (s, w'))
      ]

  unfoldable pub publish_pending_spans : Recorder → W → Bool × (Recorder × W)
  unfolding hand_rows
  publish_pending_spans s w = hand_rows (drop s.handed_spans s.spans) s w
