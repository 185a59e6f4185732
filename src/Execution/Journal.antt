-- ===== src/Execution/Journal.antt =====
-- The journals that src/scnsim/execution/coordinator.py keeps, as a grammar of what was done.
use scnsim.Base.{String, List, [], ◌∷◌, Bool, true, false, Option, none, some}
use scnsim.Execution.State.{
  Fault, Kind, success, failure, interrupted, AttemptState, Act, attempt_allocated, attempt_sealed,
  logs_written, outputs_discarded, checkpoint_published, point_published, success_validated,
  failure_validated, attempt_promoted, progress_delivered, call_raised,
}

-- How far the one attempt is: held with the hash it was last sealed under, discarded outputs, validated
-- evidence of an end, and promoted.
pub data Stage : Type 0 where
  before : Stage
  held : Option String → Stage
  cleared : (keep_ledgers : Bool) (attempt_sha256 : String) → Stage
  proved : Kind → (attempt_sha256 : String) → Stage
  done : Kind → (attempt_sha256 : String) → Stage

-- What leads to a stage, the last act first.
pub data Journal : Stage → List Act → Type 0 where
  opens : Journal before []
  allocates : {t : List Act} → Journal before t → Journal (held none) (attempt_allocated ∷ t)
  seals :
      {x : Option String} {a : String} {state : AttemptState} {t : List Act}
      → Journal (held x) t
      → Journal (held (some a)) (attempt_sealed state a ∷ t)
  publishes_checkpoint :
      {a : String} {t : List Act}
      → Journal (held (some a)) t
      → Journal (held (some a)) (checkpoint_published a ∷ t)
  publishes_point :
      {a : String} {t : List Act}
      → Journal (held (some a)) t
      → Journal (held (some a)) (point_published a ∷ t)
  logs :
      {a : String} {t : List Act}
      → Journal (held (some a)) t
      → Journal (held (some a)) (logs_written ∷ t)
  validates_success :
      {a : String} {t : List Act}
      → Journal (held (some a)) t
      → Journal (proved success a) (success_validated a ∷ t)
  validates_failure :
      {a : String} {t : List Act}
      → Journal (held (some a)) t
      → Journal (proved failure a) (failure_validated a ∷ t)
  discards :
      {a : String} {keep : Bool} {t : List Act}
      → Journal (held (some a)) t
      → Journal (cleared keep a) (outputs_discarded keep ∷ t)
  promotes_failure :
      {a : String} {t : List Act}
      → Journal (cleared false a) t
      → Journal (done failure a) (attempt_promoted failure a ∷ t)
  promotes_interruption :
      {a : String} {t : List Act}
      → Journal (cleared true a) t
      → Journal (done interrupted a) (attempt_promoted interrupted a ∷ t)
  promotes_proved :
      {k : Kind} {a : String} {t : List Act}
      → Journal (proved k a) t
      → Journal (done k a) (attempt_promoted k a ∷ t)
  raised :
      {stage : Stage} {e : Fault} {t : List Act}
      → Journal stage t
      → Journal stage (call_raised e ∷ t)
  delivers :
      {stage : Stage} {t : List Act} → Journal stage t → Journal stage (progress_delivered ∷ t)
  -- The receipt of validated evidence could not be made.
  refuses :
      {k : Kind} {a : String} {e : Fault} {t : List Act}
      → Journal (proved k a) t
      → Journal (held (some a)) (call_raised e ∷ t)
