-- ===== src/Trace/Lifecycle.antt =====
-- `__enter__`, `bind`, `set_attempt`, `add_numerical_ref`, `root_row` and `__exit__` of
-- `OperationRecorder` in src/scnsim/benchmark/operations.py, over the archive that
-- src/scnsim/benchmark/storage.py writes.
use scnsim.Base.{
  ℕ, String, List, [], ◌∷◌, ◌++◌, Bool, true, false, Option, none, some, not, ◌&&◌, length,
  if◌then◌else◌, is_some,
}
use scnsim.Base.Int.{ℤ, minus_nat}
use scnsim.Store.Database.{Payload}
use scnsim.Trace.Recorder.{
  Recorder, Span, Details, number, Raised, Status, success, failure, ended, Clock, span_row,
  add_span, pending_spans, mark_spans_persisted,
}

-- The row that `root_row` builds.
pub record RootRow : Type 0 where
  pub operation_id : String
  pub method : String
  pub operation : Option String
  pub backend : Option String
  pub precision : Option String
  pub request_sha256 : Option String
  pub task_id : Option String
  pub attempt_id : Option String
  pub environment_sha256 : Option String
  pub status : Status
  pub span_id : String
  pub clock : Clock
  pub start_ns : ℤ
  pub end_ns : Option ℤ
  pub details : Details
  pub numerical_refs : List Details

abbrev pub root_row : Recorder → RootRow
root_row s = record {
  operation_id = s.operation_id;
  method = s.method;
  operation = s.operation;
  backend = s.backend;
  precision = s.precision;
  request_sha256 = s.request_sha256;
  task_id = s.task_id;
  attempt_id = s.attempt_id;
  environment_sha256 = s.environment_sha256;
  status = s.status;
  span_id = s.root_span_id;
  clock = s.clock;
  start_ns = minus_nat s.start_tick_ns s.clock.monotonic_origin_ns;
  end_ns = elim s.end_tick_ns [
    | none ↦ none
    | some end ↦ some (minus_nat end s.clock.monotonic_origin_ns)
  ];
  details = s.details;
  numerical_refs = s.numerical_refs;
}

-- What the recorder calls. Each says whether it returned, and a call that raised may have written.
pub record Archive (Log : Type 0) : Type 0 where
  pub writer : Log → Bool × Log
  pub initialize_operation_record : Clock → Log → Bool × Log
  pub start_operation : RootRow → Log → Bool × Log
  pub bind_operation : RootRow → Log → Bool × Log
  pub bind_operation_attempt : RootRow → Log → Bool × Log
  pub spans_archived : RootRow → List Span → Log → Bool × Log
  pub finish_operation : RootRow → Option Raised → List Span → Log → Bool × Log

-- `add_numerical_ref`
abbrev pub add_numerical_ref : Details → Recorder → Recorder
add_numerical_ref reference s = record s { numerical_refs = s.numerical_refs ++ reference ∷ [] }

-- `_finish_root`
abbrev pub finish_root : ℕ → Status → Recorder → Recorder
finish_root end_tick status s = record s { end_tick_ns = some end_tick; status = status }

-- One call of the archive after another: a raise ends the block.
abbrev pub both : {Log : Type 0} → (Log → Bool × Log) → (Log → Bool × Log) → Log → Bool × Log
both first second log =
    let (returned, log') = first log in elim returned [ true ↦ second log' | false ↦ (false, log') ]

module _ {Log : Type 0} (archive : Archive Log) where
  -- `__enter__`: whether it returned.
  unfoldable pub enter : Recorder → Log → Bool × (Recorder × Log)
  enter s log =
      if s.entered
      then (false, (s, log))
      else (let s1 = record s { entered = true } in
          let (returned, log') =
            both archive.writer
              (both (archive.initialize_operation_record s1.clock)
                (archive.start_operation (root_row s1)))
              log in
          (returned, (s1, log')))

  -- `bind`: whether it returned.
  unfoldable pub bind :
      (operation request_sha256 : String) (task_id environment_sha256 attempt_id : Option String)
      (details : Details)
      → Recorder
      → Log
      → Bool × (Recorder × Log)
  bind operation request_sha256 task_id environment_sha256 attempt_id details s log =
      if s.closed
      then (false, (s, log))
      else (let s1 = record s {
        operation = some operation;
        request_sha256 = some request_sha256;
        task_id = task_id;
        environment_sha256 = environment_sha256;
        attempt_id = attempt_id;
        details = details;
      } in
          let (returned, log') = both archive.writer (archive.bind_operation (root_row s1)) log in
          (returned, (s1, log')))

  -- `set_attempt`: whether it returned.
  unfoldable pub set_attempt : Option String → Recorder → Log → Bool × (Recorder × Log)
  set_attempt attempt_id s log =
      let s1 : Recorder = record s { attempt_id = attempt_id } in
      if not (is_some attempt_id && is_some s1.task_id)
      then (true, (s1, log))
      else (let (returned, log') =
            both archive.writer (archive.bind_operation_attempt (root_row s1)) log in
          (returned, (s1, log')))

  module _ (record_bytes : Span → Payload) where
    -- The `if pending` block: false when `archive_error` is set.
    unfoldable pub archive_pending : List Span → Recorder → Log → Bool × (Recorder × Log)
    unfolding mark_spans_persisted
    archive_pending [] s log = (true, (s, log))
    archive_pending (row ∷ rows) s log =
        let (returned, log') = archive.spans_archived (root_row s) (row ∷ rows) log in
        elim returned [
          | false ↦ (false, (s, log'))
          | true ↦ elim (mark_spans_persisted record_bytes (row ∷ rows) s) [
            | none ↦ (false, (s, log'))
            | some s' ↦ (true, (s', log'))
          ]
        ]

    -- The rest of the block, with the answer of `archive_pending`.
    unfoldable pub finalize :
        String
        → (start_tick end_tick : ℕ) → Option Raised
        → ℕ
        → Bool × (Recorder × Log)
        → Bool × (Recorder × Log)
    finalize id start_tick end_tick error pending (archived, (s, log)) =
        if not archived && not (is_some error)
        then (true, (s, log))
        else (let row =
              span_row s id (some s.root_span_id) "operation_finalization" start_tick end_tick
                (if archived then success else failure)
                (("pending_span_count", number pending) ∷ []) in
            let s' = finish_root end_tick (ended error) (add_span row s) in
            let (finished, log') = archive.finish_operation (root_row s') error (row ∷ []) log in
            (not finished && not (is_some error), (s', log')))

    -- `__exit__` after a body that ended with `error`: whether it raises. It always returns False,
    -- so the body's own exception goes on.
    unfoldable pub exit :
        String
        → (start_tick end_tick : ℕ) → Option Raised
        → Recorder
        → Log
        → Bool × (Recorder × Log)
    unfolding pending_spans archive_pending finalize
    exit id start_tick end_tick error s log =
        if s.closed
        then (false, (s, log))
        else (let s1 : Recorder = record s { closed = true } in
            let pending = pending_spans s1 in
            let (opened, log') = archive.writer log in
            elim opened [
              | false ↦ (not (is_some error), (s1, log'))
              | true ↦
                  finalize id start_tick end_tick error (length pending)
                    (archive_pending pending s1 log')
            ])
