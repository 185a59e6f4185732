-- ===== src/Protocol/Ready.antt =====
-- The checkpoint frames of src/scnsim/execution/protocol.py, and the test for reserved frames.
use package.text.Mathlib.Text.{starts_with}
use scnsim.Base.{
  ℕ, String, List, [], ◌∷◌, Bool, true, false, Option, none, some, ◌&&◌, ◌||◌, if◌then◌else◌,
}
use scnsim.Base.Eq.{◌==◌, string_eq}
use scnsim.Base.Dict.{contains}
use scnsim.Base.Int.{ℤ}
use scnsim.Protocol.Json.{
  Json, text, array, nested, Frame, Decoded, object, other, is_sha256, is_text, is_number, is_count,
  is_integral, member, has_keys,
}
use scnsim.Protocol.Frames.{decode_canonical_line, checkpoint_keys, point_keys}

module _ (integral : ℕ → Option ℤ) where
  unfoldable pub checkpoint_holds : String → String → Frame → Bool
  checkpoint_holds request_sha256 attempt_sha256 frame =
      has_keys checkpoint_keys frame
      && member "schema" (is_text "scnsim.optimization_checkpoint_ready") frame
      && member "schema_version" (is_number integral 1) frame
      && member "event" (is_text "baseline_checkpoint_ready") frame
      && member "request_sha256" (is_text request_sha256) frame
      && member "attempt_sha256" (is_text attempt_sha256) frame
      && member "checkpoint_sha256" is_sha256 frame
      && member "byte_length" (is_count 1) frame

  unfoldable pub point_holds : String → String → Frame → Bool
  point_holds request_sha256 attempt_sha256 frame =
      has_keys point_keys frame
      && member "schema" (is_text "scnsim.point_checkpoint_ready") frame
      && member "schema_version" (is_number integral 1) frame
      && member "request_sha256" (is_text request_sha256) frame
      && member "attempt_sha256" (is_text attempt_sha256) frame
      && member "ordinal" (is_count 0) frame
      && member "record_sha256" is_sha256 frame
      && member "byte_length" (is_integral 1) frame

module _ (integral : ℕ → Option ℤ) (loads : String → Option Decoded) (dumps : Frame → String) where
  -- `_validate_checkpoint_ready`
  unfoldable pub validate_checkpoint_ready : String → String → String → Option Frame
  validate_checkpoint_ready request_sha256 attempt_sha256 raw =
      elim (decode_canonical_line loads dumps raw) [
        | none ↦ none
        | some frame ↦
            if checkpoint_holds integral request_sha256 attempt_sha256 frame
            then some frame
            else none
      ]

  -- `_validate_point_ready`
  unfoldable pub validate_point_ready : String → String → String → Option Frame
  validate_point_ready request_sha256 attempt_sha256 raw =
      elim (decode_canonical_line loads dumps raw) [
        | none ↦ none
        | some frame ↦
            if point_holds integral request_sha256 attempt_sha256 frame then some frame else none
      ]

abbrev pub reserved_events : List String
reserved_events = "baseline_checkpoint_ready" ∷ "baseline_checkpoint_committed" ∷ []

-- The test of one pair: it answers, or the set test raises TypeError, for a value that does not hash.
-- An object is decoded to a frozen dataclass over its pairs, which hashes unless it holds an array.
unfoldable pub reserved_pair : String → Json → Option Bool
reserved_pair key (text s) = some (
    (key == "schema" && starts_with s "scnsim.optimization_checkpoint")
    || (key == "event" && contains s reserved_events))
reserved_pair key (array s) = if key == "event" then none else some false
reserved_pair key (nested holds_array s) =
    if key == "event" && holds_array then none else some false
reserved_pair key _ = some false

-- The `any` over the pairs, which stops at the first that is reserved.
unfoldable pub any_reserved : Frame → Option Bool
unfolding reserved_pair
any_reserved [] = some false
any_reserved ((key, value) ∷ pairs) = elim (reserved_pair key value) [
  | none ↦ none
  | some found ↦ elim found [ true ↦ some true | false ↦ any_reserved pairs ]
]

-- `_reserved_optimization_frame`: `loads_pairs` keeps every pair of an object, and `search` is
-- `re.search` of a pattern.
unfoldable pub reserved_optimization_frame :
    (String → Option Decoded) → (String → String → Bool) → String → Option Bool
unfolding any_reserved
reserved_optimization_frame loads_pairs search raw = elim (loads_pairs raw) [
  | none ↦ some (
      search "\"schema\"\\s*:\\s*\"scnsim\\.optimization_checkpoint" raw
      || (search "\"event\"\\s*:\\s*\"baseline_checkpoint_ready\"" raw
          || search "\"event\"\\s*:\\s*\"baseline_checkpoint_committed\"" raw))
  | some decoded ↦ elim decoded [ other ↦ some false | object pairs ↦ any_reserved pairs ]
]
