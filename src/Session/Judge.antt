-- ===== src/Session/Judge.antt =====
-- The tests of `run_terminal` of src/scnsim/execution/process.py on its controls and on what callbacks
-- return.
use scnsim.Base.{
  String, [], ◌∷◌, ◌+◌, ◌*◌, Bool, false, none, some, not, ◌&&◌, ◌||◌, ltb, is_some, if◌then◌else◌,
}
use scnsim.Base.Eq.{◌==◌, nat_eq, string_eq}
use scnsim.Base.Dict.{lookup}
use scnsim.Protocol.Json.{text, Frame, is_sha256, is_text, member, has_keys, count_at}
use scnsim.Session.State.{Launch}

-- The tests on the launch controls, negated.
unfoldable pub launch_holds : Launch → Bool
launch_holds c =
    is_sha256 (text c.request_sha256)
    && not (ltb c.attempt_ordinal 1)
    && (if c.sweep_operation
        then c.has_point_recovery && c.has_publish_point
        else not (c.has_point_recovery && c.has_publish_point))
    && not ((is_some c.checkpoint || c.has_publish_checkpoint) && not c.optimization_operation)
    && not (c.optimization_operation && not c.has_publish_checkpoint)

-- `set(x) == {…}` of a checkpoint's identity.
unfoldable pub is_identity : Frame → Bool
is_identity x =
    has_keys ("checkpoint_sha256" ∷ "seal_sha256" ∷ []) x
    && member "checkpoint_sha256" is_sha256 x
    && member "seal_sha256" is_sha256 x

-- `x[key] == y[key]` for a text.
unfoldable pub agrees : String → Frame → Frame → Bool
agrees key x y = elim (lookup key x) [
  | none ↦ false
  | some value ↦ elim value [ text t ↦ member key (is_text t) y | _ ↦ false ]
]

-- What `publish_point` must return, and what `publish_checkpoint` must.
unfoldable pub point_agrees : Frame → Frame → Bool
point_agrees ready published =
    has_keys ("record_sha256" ∷ "seal_sha256" ∷ []) published
    && agrees "record_sha256" ready published
    && member "seal_sha256" is_sha256 published

unfoldable pub checkpoint_agrees : Frame → Frame → Bool
checkpoint_agrees ready published =
    has_keys ("checkpoint_sha256" ∷ "seal_sha256" ∷ []) published
    && agrees "checkpoint_sha256" ready published
    && member "seal_sha256" is_sha256 published

-- The test of a progress against the optimizer's controls, negated.
unfoldable pub within_budget : Launch → Frame → Bool
within_budget c event =
    count_at "total_generations" event == c.complete_generations
    && count_at "requested_budget" event == c.max_evaluations
    && count_at "achievable_evaluations" event
      == 1 + c.complete_generations * c.resolved_population_size
    && count_at "evaluated_count" event
      == 1 + count_at "completed_generations" event * c.resolved_population_size
