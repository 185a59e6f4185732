-- ===== src/Execution/Coordinator.antt =====
-- `execute_prepared` of src/scnsim/execution/coordinator.py.
use scnsim.Base.{
  String, List, [], ◌∷◌, Bool, true, false, none, some, not, ◌&&◌, ◌||◌, if◌then◌else◌,
}
use scnsim.Protocol.Json.{Json, array, Frame, is_text, member, has_keys}
use scnsim.Execution.State.{
  Fault, interruption, checkpoint_evidence, os_error, protocol, callback, exiting, foreign, Answer,
  raises, gives, Kind, success, failure, attempt_allocated, success_validated, failure_validated,
  logs_written, Terminal, Request, World, State, Step, bind, returning, raising, asking, calling,
}
use scnsim.Execution.Attempt.{
  promote, seal_protocol_failure, seal_interruption, asserted, report_reuse, answer_all,
}

-- What the caller of the context manager gets: the evidence of a success.
abbrev pub Success : Type 0
Success = String

-- `isinstance(outcome.get("artifacts"), list)`
unfoldable pub is_array : Json → Bool
is_array (array s) = true
is_array _ = false

abbrev pub expected_fields : Bool → List String
expected_fields succeeded =
    "schema"
    ∷ "schema_version"
    ∷ "request_sha256"
    ∷ "attempt_sha256"
    ∷ "runtime_semantic"
    ∷ "status"
    ∷ "artifacts"
    ∷ (if succeeded then "result_sha256" else "failure")
    ∷ []

abbrev pub is_success : Frame → Bool
is_success = member "status" (is_text "success")

-- The tests that the envelope binds this execution, and on its fields.
unfoldable pub envelope_holds : Request → String → Frame → Bool
envelope_holds r sha outcome =
    member "runtime_semantic" r.same_runtime outcome
    && member "request_sha256" (is_text r.request_sha256) outcome
    && member "attempt_sha256" (is_text sha) outcome
    && (is_success outcome || member "status" (is_text "failure") outcome)
    && member "artifacts" is_array outcome
    && has_keys (expected_fields (is_success outcome)) outcome

-- An OSError or ValueError of a callback becomes a BackendProtocolError in `run_terminal`.
abbrev pub through_terminal : Fault → Fault
through_terminal os_error = protocol
through_terminal e = e

module _ (w : World) (r : Request) where
  -- `run_terminal`: its callbacks, then how it ends.
  unfoldable pub run_child : Step Terminal
  run_child s =
      let (a, t) = bind (answer_all w r w.callbacks) (λ _. asking w.terminal) s in
      (elim a [ gives x ↦ gives x | raises e ↦ raises (through_terminal e) ], t)

  -- The handlers around `run_terminal`.
  unfoldable pub handle_child : Fault → Step Terminal
  handle_child interruption = bind (seal_interruption w r) λ _. raising interruption
  handle_child checkpoint_evidence = bind (seal_protocol_failure w r) λ _. raising protocol
  handle_child protocol = bind (seal_protocol_failure w r) λ _. raising protocol
  handle_child callback = bind (seal_protocol_failure w r) λ _. raising callback
  handle_child e = raising e

  unfoldable pub supervised : Step Terminal
  supervised s =
      let (a, t) = run_child s in elim a [ gives x ↦ (gives x, t) | raises e ↦ handle_child e t ]

  -- The branch of a success.
  unfoldable pub judge_success : String → Step Kind
  judge_success sha =
      bind (calling w.success_staging (λ _. success_validated sha))
        λ _. bind (asking (w.receipt success)) λ _. returning success

  -- The branch of a failure.
  unfoldable pub judge_failure : String → Frame → Step Kind
  judge_failure sha outcome s =
      if w.result_exists s.acts
      then (raises protocol, s)
      else bind (asking w.generation_links)
          (λ links t.
            if not (w.links_agree links outcome)
            then (raises protocol, t)
            else bind (calling w.failure_record (λ _. failure_validated sha))
                (λ _. bind (asking (w.receipt failure)) λ _. returning failure) t)
          s

  unfoldable pub judge_outcome : String → Terminal → Step Kind
  judge_outcome sha terminal s =
      if not (w.outcome_is_file s.acts) || not terminal.canonical
      then (raises protocol, s)
      else if not (envelope_holds r sha terminal.outcome)
      then (raises protocol, s)
      else bind (asking (w.staging_layout (is_success terminal.outcome)))
          (λ _.
            if is_success terminal.outcome
            then judge_success sha
            else judge_failure sha terminal.outcome)
          s

  -- The body of the `try` after `run_terminal`, up to the receipt's kind.
  unfoldable pub judge : String → Terminal → Step Kind
  judge sha terminal =
      bind (calling w.write_logs (λ _. logs_written)) λ _. judge_outcome sha terminal

  -- Its handlers.
  unfoldable pub handle_judgement : Fault → Step Kind
  handle_judgement interruption = bind (seal_interruption w r) λ _. raising interruption
  handle_judgement exiting = raising exiting
  handle_judgement e = bind (seal_protocol_failure w r) λ _. raising protocol

  unfoldable pub judged : String → Terminal → Step Kind
  judged sha terminal s =
      let (a, t) = judge sha terminal s in
      elim a [ gives x ↦ (gives x, t) | raises e ↦ handle_judgement e t ]

  -- After the receipt is promoted: a success is resolved, a failure is raised.
  unfoldable pub finish : Kind → Step Success
  finish success = asking w.resolve_success
  finish _ = raising foreign

  -- From the allocation on.
  unfoldable pub attempt : Step Success
  attempt = bind (calling w.allocate_attempt (λ _. attempt_allocated)) λ _.
      bind supervised λ terminal.
        bind (asserted w r)
          λ sha. bind (judged sha terminal) λ kind. bind (promote w r kind sha) λ _. finish kind

  -- The section of the writer.
  unfoldable pub write_attempt : Step Success
  write_attempt = bind (asking w.find_success) λ found. elim found [
    | some stored ↦ bind (report_reuse w r) λ _. returning stored
    | none ↦ bind (asking w.ensure_request) λ _. bind (asking w.baseline_checkpoint) λ checkpoint.
        bind (λ s. if r.is_sweep then asking w.point_checkpoints s else (gives 0, s))
          λ _. bind (asking w.resume_ledger) λ _ s. attempt (record s { checkpoint = checkpoint })
  ]

  -- `execute_prepared`
  unfoldable pub execute_prepared : Answer Success × State
  execute_prepared =
      bind (asking w.find_success)
        (λ found. elim found [
          | some stored ↦ bind (report_reuse w r) λ _. returning stored
          | none ↦ bind (asking w.prepare_runtime) λ _. write_attempt
        ])
        (record { acts = []; attempt = none; checkpoint = none })
