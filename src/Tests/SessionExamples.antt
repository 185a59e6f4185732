-- ===== src/Tests/SessionExamples.antt =====
-- A conversation of src/scnsim/execution/process.py at concrete inputs.
use scnsim.Base.{
  ℕ, String, [], ◌∷◌, ◌≡◌, refl, Bool, true, false, Option, none, some, if◌then◌else◌,
}
use scnsim.Base.Eq.{◌==◌, string_eq}
use scnsim.Base.Dict.{lookup, contains}
use scnsim.Base.Int.{ℤ, pos}
use scnsim.Protocol.Json.{
  has_keys, within, covers, member, is_text, is_number, is_sha256, all_hex, is_hex, is_count,
  integer, text, Frame, Decoded, object,
}
use scnsim.Protocol.Frames.{is_nonempty, bootstrap_holds, validate_bootstrap, decode_canonical_line}
use scnsim.Protocol.Ready.{
  checkpoint_holds, validate_checkpoint_ready, reserved_pair, any_reserved,
  reserved_optimization_frame,
}
use scnsim.Session.State.{Answer, stops, gives, Launch, World, Session, transport_error}
use scnsim.Session.Judge.{launch_holds, is_identity, agrees, checkpoint_agrees}
use scnsim.Session.Terminal.{
  line, write, close, commits, calling, greet, authorize_child, commit_checkpoint, handle_line,
  converse, conclude, talk, run_terminal,
}
use scnsim.Session.Automaton.{running, Conversation}
use scnsim.Session.Commitments.{commitments}
use scnsim.Session.Ends.{run_terminal-commitments}

abbrev digest : String
digest = "0123456789abcdef0123456789abcdef0123456789abcdef0123456789abcdef"

abbrev bootstrap : Frame
bootstrap =
    ("attempt_ordinal", integer (pos 1))
    ∷ ("blas_threads", integer (pos 1))
    ∷ ("blas_vendor", text "openblas")
    ∷ ("julia_threads", integer (pos 1))
    ∷ ("julia_version", text "1.11")
    ∷ ("request_sha256", text digest)
    ∷ ("schema", text "scnsim.bootstrap_ready")
    ∷ ("schema_version", integer (pos 1))
    ∷ []

abbrev baseline : Frame
baseline =
    ("attempt_sha256", text digest)
    ∷ ("byte_length", integer (pos 7))
    ∷ ("checkpoint_sha256", text digest)
    ∷ ("event", text "baseline_checkpoint_ready")
    ∷ ("request_sha256", text digest)
    ∷ ("schema", text "scnsim.optimization_checkpoint_ready")
    ∷ ("schema_version", integer (pos 1))
    ∷ []

abbrev identity : Frame
identity = ("checkpoint_sha256", text digest) ∷ ("seal_sha256", text digest) ∷ []

-- A decoder and a printer of the two lines.
abbrev knows : String → Option Decoded
knows raw =
    if raw == "boot"
    then some (object bootstrap)
    else if raw == "baseline"
    then some (object baseline)
    else none

abbrev prints : Frame → String
prints [] = ""
prints ((key, value) ∷ frame) = if key == "attempt_ordinal" then "boot" else "baseline"

abbrev no_integer : ℕ → Option ℤ
no_integer bits = none

abbrev never : String → String → Bool
never pattern raw = false

abbrev optimization : Launch
optimization = record {
  request_sha256 = digest;
  attempt_ordinal = 1;
  expected_version = "1.11";
  hb_operation = false;
  optimization_operation = true;
  sweep_operation = false;
  checkpoint = none;
  has_publish_checkpoint = true;
  has_point_recovery = false;
  has_publish_point = false;
  has_on_progress = false;
  preserve_callback_exception = false;
  complete_generations = 3;
  max_evaluations = 5;
  resolved_population_size = 1;
}

abbrev helpful : World
helpful = record {
  authorize = λ acts ready. gives digest;
  publish_point = λ acts ready. stops transport_error;
  publish_checkpoint = λ acts ready. gives identity;
  on_progress = λ acts event. none;
  pipe_breaks = λ acts. false;
}

abbrev success : Frame
success = ("status", text "success") ∷ []

abbrev ran : Answer Frame × Session
ran =
    run_terminal helpful optimization no_integer knows prints knows never never
      (line "boot" ∷ line "baseline" ∷ []) true true (gives success)

ran_well : ran ≡ (gives success, ran.1)
unfolding run_terminal talk conclude converse handle_line commit_checkpoint authorize_child greet
    calling commits close write checkpoint_agrees agrees is_identity launch_holds
    reserved_optimization_frame any_reserved reserved_pair validate_checkpoint_ready
    checkpoint_holds validate_bootstrap bootstrap_holds is_nonempty decode_canonical_line has_keys
    within covers member is_text is_number is_sha256 all_hex is_hex is_count lookup contains
ran_well = refl

success_read : member "status" (is_text "success") success ≡ true
unfolding member is_text lookup
success_read = refl

run_terminal-commitments_example :
    (attempt : String) × Conversation optimization (running attempt) ran.1.acts
    × (commitments ran.1.acts ≡ 1)
run_terminal-commitments_example =
    run_terminal-commitments optimization refl helpful no_integer knows prints knows never never
      (line "boot" ∷ line "baseline" ∷ []) true true (gives success) success ran.1 refl ran_well
      success_read
