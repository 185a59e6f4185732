-- ===== src/Tests/ProtocolExamples.antt =====
-- Frames of src/scnsim/execution/protocol.py.
use scnsim.Base.{Bool-cases, inl, inr, if◌then◌else◌}
use scnsim.Base.{ℕ, String, [], ◌∷◌, ◌≡◌, refl, true, false, Option, none, some, arith}
use scnsim.Base.Eq.{◌==◌, string_eq}
use scnsim.Base.Int.{ℤ, pos}
use scnsim.Base.Dict.{lookup, contains}
use scnsim.Protocol.Json.{
  has_keys, within, covers, member, is_text, is_number, is_sha256, all_hex, is_hex, is_count,
  is_integral, count_at, float64_from_hex, hex_value, is_finite, is_negative, boolean, integer,
  text, array, Frame, Decoded, object,
}
use scnsim.Protocol.Frames.{
  judge_progress, progress_binds, is_phase, counts_hold, counts_agree, is_boolean,
  decode_canonical_line, validate_progress, progress, type_error,
}
use scnsim.Protocol.Ready.{
  checkpoint_holds, point_holds, validate_checkpoint_ready, validate_point_ready,
  reserved_optimization_frame,
}
use scnsim.Protocol.Binding.{Launch, checkpoint, Accepts, Accepts-unique}
use scnsim.Protocol.Reserved.{PairsAgree, checkpoint_reserved}
use scnsim.Protocol.Counts.{Counts, validate_progress-Counts}

abbrev digest : String
digest = "0123456789abcdef0123456789abcdef0123456789abcdef0123456789abcdef"

abbrev ready : Frame
ready =
    ("attempt_sha256", text "attempt")
    ∷ ("byte_length", integer (pos 7))
    ∷ ("checkpoint_sha256", text digest)
    ∷ ("event", text "baseline_checkpoint_ready")
    ∷ ("request_sha256", text "request")
    ∷ ("schema", text "scnsim.optimization_checkpoint_ready")
    ∷ ("schema_version", integer (pos 1))
    ∷ []

abbrev started : Frame
started =
    ("achievable_evaluations", integer (pos 4))
    ∷ ("attempt_sha256", text "attempt")
    ∷ ("best_cost_f64", text "3ff0000000000000")
    ∷ ("completed_generations", integer (pos 0))
    ∷ ("evaluated_count", integer (pos 1))
    ∷ ("event", text "initial")
    ∷ ("request_sha256", text "request")
    ∷ ("requested_budget", integer (pos 5))
    ∷ ("reused", boolean false)
    ∷ ("schema", text "scnsim.progress")
    ∷ ("schema_version", integer (pos 1))
    ∷ ("total_generations", integer (pos 3))
    ∷ []

-- A point's frame whose length is `true`.
abbrev one_byte : Frame
one_byte =
    ("attempt_sha256", text "attempt")
    ∷ ("byte_length", boolean true)
    ∷ ("ordinal", integer (pos 0))
    ∷ ("record_sha256", text digest)
    ∷ ("request_sha256", text "request")
    ∷ ("schema", text "scnsim.point_checkpoint_ready")
    ∷ ("schema_version", integer (pos 1))
    ∷ []

abbrev no_integer : ℕ → Option ℤ
no_integer bits = none

-- A decoder that knows one line.
abbrev knows : Frame → String → Option Decoded
knows f raw = if raw == "line" then some (object f) else none

abbrev prints : Frame → String
prints f = "line"

abbrev launch : Launch
launch = record {
  request_sha256 = "request";
  attempt_sha256 = "attempt";
  attempt_ordinal = 0;
  expected_version = "1.11";
  hb_operation = false;
}

ready_accepted :
    validate_checkpoint_ready no_integer (knows ready) prints "request" "attempt" "line"
    ≡ some ready
unfolding validate_checkpoint_ready checkpoint_holds decode_canonical_line has_keys within covers
    member is_text is_number is_sha256 all_hex is_hex is_count lookup contains
ready_accepted = refl

Accepts-ready : Accepts no_integer (knows ready) prints checkpoint launch "line"
unfolding Accepts
Accepts-ready h = cc (h, ready_accepted)

Accepts-unique_example : (checkpoint ≡ checkpoint) × (launch.request_sha256 ≡ launch.request_sha256)
Accepts-unique_example =
    Accepts-unique no_integer (knows ready) prints checkpoint checkpoint launch launch "line"
      Accepts-ready Accepts-ready

knows-PairsAgree : PairsAgree (knows ready) prints (knows ready)
unfolding decode_canonical_line
knows-PairsAgree raw f h = elim (Bool-cases (raw == "line")) [
  | inl known ↦ ground (arith, known)
  | inr unknown ↦ absurd (ground (arith, unknown))
]

checkpoint_reserved_example :
    reserved_optimization_frame (knows ready) (λ pattern raw. false) "line" ≡ some true
checkpoint_reserved_example =
    checkpoint_reserved no_integer (knows ready) prints (knows ready) (λ pattern raw. false)
      "request" "attempt" "line" ready knows-PairsAgree ready_accepted

started_accepted :
    validate_progress no_integer (knows started) prints "request" "attempt" "line"
    ≡ progress started
unfolding validate_progress judge_progress progress_binds is_phase counts_hold counts_agree
    is_boolean count_at float64_from_hex hex_value is_finite is_negative decode_canonical_line
    has_keys within covers member is_text is_number is_sha256 all_hex is_hex is_count lookup
    contains
started_accepted = refl

validate_progress-Counts_example : Counts started
validate_progress-Counts_example =
    validate_progress-Counts no_integer (knows started) prints "request" "attempt" "line" started
      started_accepted

one_byte_accepted :
    validate_point_ready no_integer (knows one_byte) prints "request" "attempt" "line"
    ≡ some one_byte
unfolding validate_point_ready point_holds is_integral decode_canonical_line has_keys within covers
    member is_text is_number is_sha256 all_hex is_hex is_count lookup contains
one_byte_accepted = refl

abbrev drop_event : Frame → Frame
drop_event [] = []
drop_event ((key, value) ∷ frame) =
    if key == "event" then drop_event frame else (key, value) ∷ drop_event frame

-- A progress frame whose event is a list.
abbrev unhashable : Frame
unhashable = ("event", array "[]") ∷ drop_event started

unhashable_event :
    validate_progress no_integer (knows unhashable) prints "request" "attempt" "line" ≡ type_error
unfolding validate_progress judge_progress progress_binds is_phase counts_hold counts_agree
    is_boolean count_at float64_from_hex hex_value is_finite is_negative decode_canonical_line
    has_keys within covers member is_text is_number is_sha256 all_hex is_hex is_count lookup
    contains
unhashable_event = refl
