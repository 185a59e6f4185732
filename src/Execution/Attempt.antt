-- ===== src/Execution/Attempt.antt =====
-- The functions nested in `execute_prepared` of src/scnsim/execution/coordinator.py, which seal,
-- publish and promote the one attempt.
use scnsim.Base.{String, List, [], ◌∷◌, true, false, none, some, if◌then◌else◌}
use scnsim.Execution.State.{
  interruption, checkpoint_evidence, evidence, os_error, protocol, callback, exiting, foreign,
  raises, gives, Kind, failure, interrupted, AttemptState, allocated, launched, Act, attempt_sealed,
  logs_written, outputs_discarded, checkpoint_published, point_published, attempt_promoted,
  progress_delivered, Callback, asks_authorize, asks_checkpoint, asks_point, asks_progress, Request,
  World, Step, bind, returning, note, asking, calling,
}

module _ (w : World) (r : Request) where
  -- `attempt_sha = binding.seal_attempt(…)`
  unfoldable pub seal : AttemptState → Step String
  seal state s = elim (w.seal_attempt state s.acts) [
    | raises e ↦ (raises e, note (Act.call_raised e) s)
    | gives sha ↦ (gives sha, note (attempt_sealed state sha) (record s { attempt = some sha }))
  ]

  -- `if attempt_sha is None: …`
  unfoldable pub sealed_attempt : Step String
  sealed_attempt s = elim s.attempt [ some sha ↦ (gives sha, s) | none ↦ seal allocated s ]

  -- `promote`
  unfoldable pub promote : Kind → String → Step (Unit {0})
  promote kind sha s =
      bind (if r.is_sweep then asking w.point_checkpoints else returning 0)
        (λ _. calling (w.promote_attempt kind sha) (λ _. attempt_promoted kind sha)) s

  -- `promote(_receipt(…))`
  unfoldable pub promote_receipt : Kind → String → Step (Unit {0})
  promote_receipt kind sha = bind (asking (w.receipt kind)) λ _. promote kind sha

  -- `seal_protocol_failure`
  unfoldable pub seal_protocol_failure : Step (Unit {0})
  seal_protocol_failure = bind sealed_attempt λ sha.
      bind (calling w.write_logs (λ _. logs_written)) λ _.
        bind (calling (w.discard_outputs false) (λ _. outputs_discarded false))
          λ _. promote_receipt failure sha

  -- `seal_interruption`
  unfoldable pub seal_interruption : Step (Unit {0})
  seal_interruption s =
      if w.final_exists s.acts
      then (gives tt, s)
      else bind sealed_attempt
          (λ sha. bind (calling w.write_logs (λ _. logs_written)) λ _.
            bind (asking w.generation_links) λ _.
              bind (calling (w.discard_outputs true) (λ _. outputs_discarded true))
                λ _. promote_receipt interrupted sha)
          s

  -- `assert attempt_sha is not None`
  unfoldable pub asserted : Step String
  asserted s = elim s.attempt [ some sha ↦ (gives sha, s) | none ↦ (raises foreign, s) ]

  -- `publish_checkpoint`
  unfoldable pub publish_checkpoint : Step (Unit {0})
  publish_checkpoint = bind asserted λ sha.
      bind (calling (w.publish_checkpoint sha) (λ _. checkpoint_published sha))
        λ published s. (gives tt, record s { checkpoint = some published })

  -- `publish_point`: an EvidenceIntegrityError or OSError becomes a BackendProtocolError.
  unfoldable pub publish_point : Step (Unit {0})
  publish_point = bind asserted λ sha s. elim (w.publish_point sha s.acts) [
    | gives _ ↦ (gives tt, note (point_published sha) s)
    | raises e ↦ (
      raises (elim e [
        | evidence ↦ protocol
        | checkpoint_evidence ↦ protocol
        | os_error ↦ protocol
        | kept ↦ kept
      ]),
      note (Act.call_raised e) s,
    )
  ]

  -- `deliver`
  unfoldable pub deliver : Step (Unit {0})
  deliver s =
      if r.has_on_progress then calling w.on_progress (λ _. progress_delivered) s else (gives tt, s)

  -- `report_reuse`: what the callback raises is its failure, except an interrupt or
  -- what is no Exception.
  unfoldable pub report_reuse : Step (Unit {0})
  report_reuse s =
      let (a, t) = deliver s in
      (
        elim a [
          | gives _ ↦ gives tt
          | raises e ↦
              raises (elim e [ interruption ↦ interruption | exiting ↦ exiting | _ ↦ callback ])
        ],
        t,
      )

  -- The callbacks of `run_terminal`. On its way out of `run_terminal` an OSError is a
  -- BackendProtocolError, and what a progress callback raises is its failure, as in
  -- `report_reuse`.
  unfoldable pub answer_callback : Callback → Step (Unit {0})
  answer_callback asks_authorize = bind (seal launched) λ _. returning tt
  answer_callback asks_checkpoint = publish_checkpoint
  answer_callback asks_point = publish_point
  answer_callback asks_progress = report_reuse

  unfoldable pub answer_all : List Callback → Step (Unit {0})
  answer_all [] s = (gives tt, s)
  answer_all (c ∷ cs) s = bind (answer_callback c) (λ _. answer_all cs) s
