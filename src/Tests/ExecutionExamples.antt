-- ===== src/Tests/ExecutionExamples.antt =====
-- Runs of `execute_prepared` of src/scnsim/execution/coordinator.py at concrete inputs.
use scnsim.Base.{String, [], ◌∷◌, ◌≡◌, refl, ◌⊎◌, Bool, true, false, none}
use scnsim.Base.Eq.{◌==◌, string_eq}
use scnsim.Base.Dict.{lookup, contains}
use scnsim.Protocol.Json.{
  Json, integer, text, array, nested, Frame, has_keys, within, covers, member, is_text,
}
use scnsim.Base.Int.{pos}
use scnsim.Execution.State.{
  Answer, raises, gives, interruption, success, interrupted, launched, attempt_allocated,
  attempt_sealed, logs_written, outputs_discarded, success_validated, attempt_promoted, call_raised,
  asks_authorize, Request, World, State,
}
use scnsim.Execution.Attempt.{
  seal, sealed_attempt, promote, promote_receipt, seal_protocol_failure, seal_interruption,
  asserted, publish_checkpoint, publish_point, deliver, report_reuse, answer_callback, answer_all,
}
use scnsim.Execution.Coordinator.{
  is_array, envelope_holds, run_child, handle_child, supervised, judge_success, judge_failure,
  judge_outcome, judge, handle_judgement, judged, finish, attempt, write_attempt, execute_prepared,
}
use scnsim.Execution.Journal.{Journal, before, done}
use scnsim.Execution.Keeps.{Kept}
use scnsim.Execution.Outcome.{execute_prepared-Kept, execute_prepared-done}

abbrev outcome : Frame
outcome =
    ("artifacts", array "[]")
    ∷ ("attempt_sha256", text "sha")
    ∷ ("request_sha256", text "request")
    ∷ ("result_sha256", text "result")
    ∷ ("runtime_semantic", nested false "{}")
    ∷ ("schema", text "scnsim.outcome")
    ∷ ("schema_version", integer (pos 1))
    ∷ ("status", text "success")
    ∷ []

abbrev same : Json → Bool
same (nested b s) = s == "{}"
same _ = false

abbrev request : Request
request = record {
  request_sha256 = "request";
  same_runtime = same;
  is_sweep = false;
  has_on_progress = false;
}

-- A world in which every call returns, and the child writes a success.
abbrev quiet : World
quiet = record {
  find_success = λ t. gives none;
  prepare_runtime = λ t. gives tt;
  ensure_request = λ t. gives tt;
  baseline_checkpoint = λ t. gives none;
  point_checkpoints = λ t. gives 0;
  resume_ledger = λ t. gives none;
  allocate_attempt = λ t. gives tt;
  seal_attempt = λ state t. gives "sha";
  write_logs = λ t. gives tt;
  discard_outputs = λ keep t. gives tt;
  promote_attempt = λ kind sha t. gives tt;
  final_exists = λ t. false;
  generation_links = λ t. gives [];
  publish_checkpoint = λ sha t. gives "checkpoint";
  publish_point = λ sha t. gives tt;
  on_progress = λ t. gives tt;
  callbacks = asks_authorize ∷ [];
  terminal = λ t. gives (record { outcome = outcome; canonical = true });
  outcome_is_file = λ t. true;
  staging_layout = λ succeeded t. gives tt;
  success_staging = λ t. gives tt;
  result_exists = λ t. false;
  links_agree = λ links frame. true;
  failure_record = λ t. gives "failure";
  receipt = λ kind t. gives tt;
  resolve_success = λ t. gives "stored";
}

abbrev ran : Answer String × State
ran = execute_prepared quiet request

ran_well :
    (ran ≡ (gives "stored", ran.1))
    × (ran.1.acts ≡ (
        attempt_promoted success "sha"
        ∷ success_validated "sha"
        ∷ logs_written
        ∷ attempt_sealed launched "sha"
        ∷ attempt_allocated
        ∷ []))
unfolding execute_prepared write_attempt attempt finish judged handle_judgement judge judge_outcome
    judge_failure judge_success supervised handle_child run_child envelope_holds is_array answer_all
    answer_callback report_reuse deliver publish_point publish_checkpoint asserted seal_interruption
    seal_protocol_failure promote_receipt promote sealed_attempt seal has_keys within covers member
    is_text lookup contains
ran_well = (refl, refl)

-- An interrupt while the child runs: the attempt is promoted as interrupted, with its ledgers kept.
interrupted_run :
    let (a, s) = execute_prepared (record quiet { terminal = λ t. raises interruption }) request in
    (a ≡ raises interruption)
    × (s.acts ≡ (
        attempt_promoted interrupted "sha"
        ∷ outputs_discarded true
        ∷ logs_written
        ∷ call_raised interruption
        ∷ attempt_sealed launched "sha"
        ∷ attempt_allocated
        ∷ []))
unfolding execute_prepared write_attempt attempt finish judged handle_judgement judge judge_outcome
    judge_failure judge_success supervised handle_child run_child envelope_holds is_array answer_all
    answer_callback report_reuse deliver publish_point publish_checkpoint asserted seal_interruption
    seal_protocol_failure promote_receipt promote sealed_attempt seal has_keys within covers member
    is_text lookup contains
interrupted_run = (refl, refl)

execute_prepared-Kept_example : Kept ran.1
execute_prepared-Kept_example = execute_prepared-Kept quiet request

execute_prepared-done_example :
    Journal before ran.1.acts ⊎ ((sha : String) × Journal (done success sha) ran.1.acts)
execute_prepared-done_example = execute_prepared-done quiet request "stored" ran.1 (ran_well.0)
