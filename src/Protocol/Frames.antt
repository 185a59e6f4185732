-- ===== src/Protocol/Frames.antt =====
-- The validators of src/scnsim/execution/protocol.py. JSON decoding and printing are Python's, and
-- parameters here.
use scnsim.Base.{
  ℕ, String, List, [], ◌∷◌, Bool, true, false, Option, none, some, not, ◌&&◌, ◌||◌, leb,
  if◌then◌else◌,
}
use scnsim.Base.Eq.{◌==◌, nat_eq, string_eq}
use scnsim.Base.Dict.{lookup, contains}
use scnsim.Base.Int.{ℤ}
use scnsim.Protocol.Json.{
  Json, boolean, text, array, nested, Frame, Decoded, object, other, is_text, is_number, is_count,
  member, has_keys, float64_from_hex, is_negative, count_at,
}

pub record BootstrapReady : Type 0 where
  pub request_sha256 : String
  pub attempt_ordinal : ℕ
  pub julia_version : String
  pub julia_threads : ℕ
  pub blas_threads : ℕ
  pub blas_vendor : String
  pub fftw_threads : Option ℕ

-- `isinstance(value, str)` and not empty.
unfoldable pub is_nonempty : Json → Bool
is_nonempty (text s) = not (s == "")
is_nonempty _ = false

-- `isinstance(value, bool)`
unfoldable pub is_boolean : Json → Bool
is_boolean (boolean b) = true
is_boolean _ = false

-- What `_validate_progress` does: it returns None or the frame, or it raises.
pub data Progress : Type 0 where
  not_progress : Progress
  protocol_error : Progress
  -- The set test on an unhashable value.
  type_error : Progress
  progress : Frame → Progress

abbrev pub bootstrap_keys : List String
bootstrap_keys =
    "schema" ∷ "schema_version" ∷ "request_sha256" ∷ "attempt_ordinal" ∷ "julia_version"
    ∷ "julia_threads" ∷ "blas_threads" ∷ "blas_vendor" ∷ []

abbrev pub count_keys : List String
count_keys =
    "completed_generations" ∷ "total_generations" ∷ "evaluated_count" ∷ "requested_budget"
    ∷ "achievable_evaluations" ∷ []

abbrev pub progress_keys : List String
progress_keys =
    "schema" ∷ "schema_version" ∷ "request_sha256" ∷ "attempt_sha256" ∷ "event" ∷ "reused"
    ∷ "best_cost_f64" ∷ count_keys

abbrev pub checkpoint_keys : List String
checkpoint_keys =
    "schema" ∷ "schema_version" ∷ "event" ∷ "request_sha256" ∷ "attempt_sha256"
    ∷ "checkpoint_sha256" ∷ "byte_length" ∷ []

abbrev pub point_keys : List String
point_keys =
    "schema" ∷ "schema_version" ∷ "request_sha256" ∷ "attempt_sha256" ∷ "ordinal" ∷ "record_sha256"
    ∷ "byte_length" ∷ []

abbrev pub phases : List String
phases = "initial" ∷ "resume" ∷ "generation" ∷ "complete" ∷ []

-- `phase in {…}`: none where Python raises TypeError. A missing event is None.
unfoldable pub is_phase : Option Json → Option Bool
is_phase none = some false
is_phase (some value) = elim value [
  | array s ↦ none
  | nested holds_array s ↦ none
  | text s ↦ some (contains s phases)
  | _ ↦ some false
]

-- The `any` over `fields`.
unfoldable pub counts_hold : Frame → Bool
counts_hold frame =
    member "completed_generations" (is_count 0) frame
    && member "total_generations" (is_count 1) frame
    && member "evaluated_count" (is_count 1) frame
    && member "requested_budget" (is_count 1) frame
    && member "achievable_evaluations" (is_count 1) frame

abbrev pub is_true : Json → Bool
is_true (boolean b) = b
is_true _ = false

-- The last test of `_validate_progress`, negated.
unfoldable pub counts_agree : ℕ → Frame → Bool
counts_agree best frame =
    not (is_negative best)
    && leb (count_at "completed_generations" frame) (count_at "total_generations" frame)
    && leb (count_at "achievable_evaluations" frame) (count_at "requested_budget" frame)
    && (not (member "event" (is_text "initial") frame)
        || (count_at "completed_generations" frame == 0 && count_at "evaluated_count" frame == 1))
    && not (member "event" (is_text "generation") frame && member "reused" is_true frame)
    && not (member "event" (is_text "resume") frame && not (member "reused" is_true frame))

module _ (loads : String → Option Decoded) (dumps : Frame → String) where
  -- `_decode_canonical_line`: none where it raises BackendProtocolError.
  unfoldable pub decode_canonical_line : String → Option Frame
  decode_canonical_line raw = elim (loads raw) [
    | none ↦ none
    | some decoded ↦ elim decoded [
      | other ↦ none
      | object frame ↦ if raw == dumps frame then some frame else none
    ]
  ]

abbrev text_at : String → Frame → String
text_at key frame = elim (lookup key frame) [
  | none ↦ ""
  | some value ↦ elim value [ text s ↦ s | _ ↦ "" ]
]

module _ (integral : ℕ → Option ℤ) where
  unfoldable pub bootstrap_holds : String → ℕ → String → Bool → Frame → Bool
  bootstrap_holds request_sha256 attempt_ordinal expected_version hb_operation frame =
      has_keys (if hb_operation then "fftw_threads" ∷ bootstrap_keys else bootstrap_keys) frame
      && member "schema" (is_text "scnsim.bootstrap_ready") frame
      && member "schema_version" (is_number integral 1) frame
      && member "request_sha256" (is_text request_sha256) frame
      && member "attempt_ordinal" (is_number integral attempt_ordinal) frame
      && member "julia_version" (is_text expected_version) frame
      && member "julia_threads" (is_number integral 1) frame
      && member "blas_threads" (is_number integral 1) frame
      && member "blas_vendor" is_nonempty frame
      && (not hb_operation || member "fftw_threads" (is_number integral 1) frame)

  unfoldable pub progress_binds : String → String → Frame → Bool
  progress_binds request_sha256 attempt_sha256 frame =
      has_keys progress_keys frame
      && member "schema_version" (is_number integral 1) frame
      && member "request_sha256" (is_text request_sha256) frame
      && member "attempt_sha256" (is_text attempt_sha256) frame

  -- After the schema is known to be that of progress.
  unfoldable pub judge_progress : String → String → Frame → Progress
  judge_progress request_sha256 attempt_sha256 frame =
      if not (progress_binds request_sha256 attempt_sha256 frame)
      then protocol_error
      else (elim (is_phase (lookup "event" frame)) [
        | none ↦ type_error
        | some known ↦
            if not (known && member "reused" is_boolean frame && counts_hold frame)
            then protocol_error
            else (elim (lookup "best_cost_f64" frame) [
              | none ↦ protocol_error
              | some cost ↦ elim (float64_from_hex cost) [
                | none ↦ protocol_error
                | some best ↦ if counts_agree best frame then progress frame else protocol_error
              ]
            ])
      ])

module _ (integral : ℕ → Option ℤ) (loads : String → Option Decoded) (dumps : Frame → String) where
  -- `_validate_bootstrap`
  unfoldable pub validate_bootstrap : String → ℕ → String → Bool → String → Option BootstrapReady
  validate_bootstrap request_sha256 attempt_ordinal expected_version hb_operation raw =
      elim (decode_canonical_line loads dumps raw) [
        | none ↦ none
        | some frame ↦
            if bootstrap_holds integral request_sha256 attempt_ordinal expected_version hb_operation
              frame
            then some (record {
              request_sha256 = request_sha256;
              attempt_ordinal = attempt_ordinal;
              julia_version = expected_version;
              julia_threads = 1;
              blas_threads = 1;
              blas_vendor = text_at "blas_vendor" frame;
              fftw_threads = if hb_operation then some 1 else none;
            })
            else none
      ]

  -- `_validate_progress`
  unfoldable pub validate_progress : String → String → String → Progress
  validate_progress request_sha256 attempt_sha256 raw =
      elim (decode_canonical_line loads dumps raw) [
        | none ↦ not_progress
        | some frame ↦
            if member "schema" (is_text "scnsim.progress") frame
            then judge_progress integral request_sha256 attempt_sha256 frame
            else not_progress
      ]
