-- ===== src/Session/State.antt =====
-- What `run_terminal` of src/scnsim/execution/process.py is called with, and what it does to others.
use scnsim.Base.{ℕ, String, List, ◌∷◌, Bool, Option, if◌then◌else◌}
use scnsim.Protocol.Json.{Frame}
use scnsim.Protocol.Frames.{BootstrapReady}

-- How it ends without an outcome: KeyboardInterrupt, BackendProtocolError, an OSError or ValueError,
-- OptimizationProgressCallbackError, an exception of a callback that is no Exception, as SystemExit, and what else is raised.
pub data Stop : Type 0 where
  interrupted protocol_error transport_error callback_error exiting foreign_error : Stop

pub data Answer (A : Type 0) : Type 0 where
  stops : Stop → Answer A
  gives : A → Answer A

-- A line that the parent writes to the child.
pub data Message : Type 0 where
  authorization : (attempt_sha256 : String) → Message
  checkpoint_reused : (attempt_sha256 : String) (checkpoint : Frame) → Message
  point_recovery : (attempt_sha256 : String) → Message
  point_committed : (attempt_sha256 : String) (ready published : Frame) → Message
  checkpoint_committed : (attempt_sha256 : String) (published : Frame) → Message

-- What the parent did, in the order of time: a callback that returned, a line that was written, the
-- end of the child's input, and a progress that was handed on.
pub data Act : Type 0 where
  authorized : (attempt_sha256 : String) → Act
  sent : Message → Act
  closed_input : Act
  point_published checkpoint_published : (ready published : Frame) → Act
  delivered : Frame → Act

-- The launch: `operation` and `parameter_source` of the request, and the controls.
pub record Launch : Type 0 where
  pub request_sha256 : String
  pub attempt_ordinal : ℕ
  pub expected_version : String
  pub hb_operation : Bool
  pub optimization_operation : Bool
  pub sweep_operation : Bool
  pub checkpoint : Option Frame
  pub has_publish_checkpoint : Bool
  pub has_point_recovery : Bool
  pub has_publish_point : Bool
  pub has_on_progress : Bool
  pub preserve_callback_exception : Bool
  pub complete_generations : ℕ
  pub max_evaluations : ℕ
  pub resolved_population_size : ℕ

-- The callbacks and the pipe, which may answer by all that was done before (the last act first).
pub record World : Type 0 where
  pub authorize : List Act → BootstrapReady → Answer String
  pub publish_point : List Act → Frame → Answer Frame
  pub publish_checkpoint : List Act → Frame → Answer Frame
  pub on_progress : List Act → Frame → Option Stop
  pub pipe_breaks : List Act → Bool

-- The local variables that the loop changes.
pub record Session : Type 0 where
  pub acts : List Act
  pub stdin_closed : Bool
  pub committed : Bool
  pub stdout_log : List String

abbrev pub Step : Type 0 → Type 0
Step A = Session → Answer A × Session

module _ {A B : Type 0} where
  abbrev pub bind : Step A → (A → Step B) → Step B
  bind m k s = let (a, t) = m s in elim a [ gives x ↦ k x t | stops e ↦ (stops e, t) ]

abbrev pub returning : {A : Type 0} → A → Step A
returning x s = (gives x, s)

abbrev pub raising : {A : Type 0} → Stop → Step A
raising e s = (stops e, s)

abbrev pub acting : Act → Step (Unit {0})
acting a s = (gives tt, record s { acts = a ∷ s.acts })

-- `if test: raise …`
abbrev pub raise_if : Bool → Stop → Step (Unit {0})
raise_if test e s = (if test then stops e else gives tt, s)
