-- ===== src/Execution/State.antt =====
-- What `execute_prepared` of src/scnsim/execution/coordinator.py works with. What the workspace, the
-- child and the staging directory answer may depend on all that was done before.
use scnsim.Base.{ℕ, String, List, ◌∷◌, Bool, Option}
use scnsim.Protocol.Json.{Json, Frame}

-- The exceptions that its handlers tell apart: KeyboardInterrupt, _IncomingCheckpointEvidenceError,
-- another EvidenceIntegrityError, an OSError or ValueError, BackendProtocolError,
-- OptimizationProgressCallbackError, a SystemExit or other BaseException that is no Exception, and
-- other exceptions.
pub data Fault : Type 0 where
  interruption checkpoint_evidence evidence os_error protocol callback exiting foreign : Fault

pub data Answer (A : Type 0) : Type 0 where
  raises : Fault → Answer A
  gives : A → Answer A

pub data Kind : Type 0 where
  success failure interrupted : Kind

-- `state` of an attempt's document.
pub data AttemptState : Type 0 where
  allocated launched : AttemptState

-- What was done, of what others see.
pub data Act : Type 0 where
  attempt_allocated : Act
  attempt_sealed : AttemptState → (attempt_sha256 : String) → Act
  logs_written : Act
  outputs_discarded : (keep_ledgers : Bool) → Act
  checkpoint_published point_published : (attempt_sha256 : String) → Act
  success_validated : (attempt_sha256 : String) → Act
  failure_validated : (attempt_sha256 : String) → Act
  attempt_promoted : Kind → (attempt_sha256 : String) → Act
  progress_delivered : Act
  -- A call that raised.
  call_raised : Fault → Act

-- What `run_terminal` returns.
pub record Terminal : Type 0 where
  pub outcome : Frame
  pub canonical : Bool

-- One callback of `run_terminal`.
pub data Callback : Type 0 where
  asks_authorize asks_checkpoint asks_point asks_progress : Callback

-- The request: `request_sha256`, and what its operation and parameter source are.
pub record Request : Type 0 where
  pub request_sha256 : String
  pub same_runtime : Json → Bool
  pub is_sweep : Bool
  pub has_on_progress : Bool

abbrev pub Call : Type 0 → Type 0
Call A = List Act → Answer A

-- The calls; evidence that is only passed on is a text.
pub record World : Type 0 where
  pub find_success : Call (Option String)
  pub prepare_runtime : Call (Unit {0})
  pub ensure_request : Call (Unit {0})
  pub baseline_checkpoint : Call (Option String)
  pub point_checkpoints : Call ℕ
  pub resume_ledger : Call (Option String)
  pub allocate_attempt : Call (Unit {0})
  pub seal_attempt : AttemptState → Call String
  pub write_logs : Call (Unit {0})
  pub discard_outputs : Bool → Call (Unit {0})
  pub promote_attempt : Kind → String → Call (Unit {0})
  pub final_exists : List Act → Bool
  pub generation_links : Call (List String)
  pub publish_checkpoint : String → Call String
  pub publish_point : String → Call (Unit {0})
  pub on_progress : Call (Unit {0})
  -- The callbacks that `run_terminal` makes, and how it ends when none of them raises.
  pub callbacks : List Callback
  pub terminal : Call Terminal
  pub outcome_is_file : List Act → Bool
  pub staging_layout : Bool → Call (Unit {0})
  pub success_staging : Call (Unit {0})
  pub result_exists : List Act → Bool
  pub links_agree : List String → Frame → Bool
  pub failure_record : Call String
  -- `_receipt`
  pub receipt : Kind → Call (Unit {0})
  pub resolve_success : Call String

-- The local variables that the nested functions change.
pub record State : Type 0 where
  pub acts : List Act
  pub attempt : Option String
  pub checkpoint : Option String

abbrev pub Step : Type 0 → Type 0
Step A = State → Answer A × State

module _ {A B : Type 0} where
  abbrev pub bind : Step A → (A → Step B) → Step B
  bind m k s = let (a, t) = m s in elim a [ gives x ↦ k x t | raises e ↦ (raises e, t) ]

abbrev pub returning : {A : Type 0} → A → Step A
returning x s = (gives x, s)

abbrev pub raising : {A : Type 0} → Fault → Step A
raising e s = (raises e, s)

abbrev pub note : Act → State → State
note a s = record s { acts = a ∷ s.acts }

-- A call that only reads, or whose effect is not followed.
abbrev pub asking : {A : Type 0} → Call A → Step A
asking f s = elim (f s.acts) [
  | raises e ↦ (raises e, note (call_raised e) s)
  | gives x ↦ (gives x, s)
]

-- A call that acts when it returns.
abbrev pub calling : {A : Type 0} → Call A → (A → Act) → Step A
calling f act s = elim (f s.acts) [
  | raises e ↦ (raises e, note (call_raised e) s)
  | gives x ↦ (gives x, note (act x) s)
]
