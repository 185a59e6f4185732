-- ===== src/Lib.antt =====
-- The library of scnsim's own state machines: what keeps evidence of a superconducting-circuit
-- analysis consistent, and what keeps the circuit that is analysed well wired.
--
-- scnsim (src/scnsim) builds a circuit Plan from components (authoring/), compiles and solves it
-- through numerical backends (benchmark/, execution/), keeps every operation's evidence in a
-- workspace (workspace/), and reads results back (results/, visualization/).
--
-- Parts and files:
--   * Base: what every part uses: lists and options over the native natural numbers (Base.Lists,
--     Base.Tests), a class of Boolean equality (Base.Eq), dicts as association lists (Base.Dict), and
--     integers for differences of clock ticks (Base.Int).
--   * Store: src/scnsim/workspace/operation_store.py, the SQLite database of operation evidence.
--     Store.Database holds the tables of `_SCHEMA`, Store.Action the exceptions and counters,
--     Store.Snapshot `class Snapshot`, Store.Writes `class StoreTransaction`, Store.Transaction
--     `OperationStore.transaction` and `_reconcile`, Store.Lifecycle `initialize`, `reader` and
--     `recover`. Store.Calls lists the calls of a transaction's body; the other files of Store hold
--     the invariant (Store.Sound) and the lemmas on each operation. A statement of SQL is modelled by
--     its documented meaning; SHA-256 is a parameter; the flock serialises writers, so a transaction
--     is a function of the committed database; how COMMIT ends is an argument.
--   * Wire: `class _Net` of src/scnsim/authoring/handles.py, the union-find of nets. Objects are
--     numbers in a store, and `parent` and `ground` are its fields. `root` recurses on fuel; `join`
--     gives it the number of nets, and Wire.Forest bounds a net's depth by that number.
--   * Trace: `class OperationRecorder` of src/scnsim/benchmark/operations.py, the timing spans of one
--     operation. Trace.Recorder holds the attributes and the span operations, Trace.Lifecycle
--     `__enter__`, `bind`, `set_attempt` and `__exit__`; Trace.Cursor follows the two cursors over any
--     calls, Trace.Publish a writer that may raise, Trace.Nesting (with Trace.Intervals) the `with` blocks, and Trace.Finish
--     the end. Clock readings and new ids are arguments; the archive of
--     src/scnsim/benchmark/storage.py and the canonical bytes of a row are parameters. The exception
--     of leaving the writer's lock, and the notes added to an exception, are left out.
--   * Protocol: the validators of src/scnsim/execution/protocol.py for the lines that a child process
--     sends, with `float64_from_hex` of src/scnsim/canonical.py. Protocol.Json holds the JSON values
--     and the tests on them, with Python's comparison of numbers and its TypeError on unhashable
--     values; Protocol.Frames and Protocol.Ready the validators; Protocol.Binding, Protocol.Counts and
--     Protocol.Reserved what an accepted frame is. `json.loads`, `json.dumps` and `re.search` are
--     parameters, and the outcome file is left out.
--   * Continuation: `continue_diagonal_root` of src/scnsim/benchmark/optimization.py, the bisection
--     that follows a root from the baseline to a candidate. t is counted in units of 2^-32, which the
--     depth limit of 32 makes exact; the recursion is on what is left of that depth, so no other fuel
--     is needed. The backend and the interpolated point are parameters.
--   * Timing: `class TimingRecorder` of src/scnsim/benchmark/timing.py and the `Measurement` of
--     src/scnsim/benchmark/models.py. The recorder's lock makes a method one step, so threads are a
--     sequence of calls. Timing.Prefix follows the acknowledged prefix.
--   * Assembly: the scopes, components, pins, buses, taps and ports of one root plan, of
--     src/scnsim/authoring/assembly.py, handles.py and plan.py, over the nets of Wire. Objects are
--     numbers in the plan's tables (Assembly.State); a method is a function from the plan to its
--     answer and the plan it leaves (Assembly.Action), so that what it wrote before it raised stays.
--     Chain, Structures, Union, Links, Parts, Inductive and Finish hold the operations, Calls
--     lists them. add is that of a component without a body: the copy of a Composite's body is
--     left out.
--     The recursion over the tree of scopes is on fuel, the number of scopes, which its depth does
--     not exceed. A test that only reads takes the root of a net without compressing its path,
--     which no root shows (Wire.Root). `unicodedata.normalize` and the text of an anonymous bus's
--     id are parameters.
--   * Session: `run_terminal` of src/scnsim/execution/process.py, the parent's side of the
--     conversation with one child, over the validators of Protocol. The child's lines are a list,
--     which may hold an interrupt; callbacks and the pipe are parameters that may answer by all that
--     was done before. Session.Automaton is the grammar of the acts that may follow each other.
--   * Execution: `execute_prepared` of src/scnsim/execution/coordinator.py: its nested functions
--     (Execution.Attempt) and its body (Execution.Coordinator). Every call that it makes is a
--     parameter that may return or raise by all that was done before; Execution.Journal is the
--     grammar of what may be done. The callbacks of run_terminal are any list of them.
--   * Tests: the runs at concrete inputs.
--
-- Not modelled: the queries of the operation store by filter and cursor, its paths, locks and
-- observer scopes; the numerical backends, the Julia code, rendering and file formats.
pub mod Base
pub mod Store
pub mod Wire
pub mod Trace
pub mod Protocol
pub mod Continuation
pub mod Timing
pub mod Assembly
pub mod Session
pub mod Execution
mod Tests
