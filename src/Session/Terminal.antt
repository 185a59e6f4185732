-- ===== src/Session/Terminal.antt =====
-- `run_terminal` of src/scnsim/execution/process.py from its tests of the launch to its return. Files,
-- the creation and the end of the process, and timing are left out.
use scnsim.Base.{
  ℕ, String, List, [], ◌∷◌, ◌++◌, Bool, true, false, Option, none, some, not, ◌&&◌, ◌||◌, is_some,
  if◌then◌else◌,
}
use scnsim.Base.Eq.{nat_eq, string_eq}
use scnsim.Base.Int.{ℤ}
use scnsim.Protocol.Json.{text, Frame, Decoded, is_sha256, is_text, member}
use scnsim.Protocol.Frames.{
  BootstrapReady, validate_bootstrap, validate_progress, Progress, not_progress, protocol_error,
  type_error, progress,
}
use scnsim.Protocol.Ready.{
  validate_checkpoint_ready, validate_point_ready, reserved_optimization_frame,
}
use scnsim.Session.State.{
  Stop, interrupted, transport_error, callback_error, exiting, foreign_error, Answer, stops, gives,
  Message, authorization, checkpoint_reused, point_recovery, point_committed, checkpoint_committed,
  Act, authorized, sent, closed_input, point_published, checkpoint_published, delivered, Launch,
  World, Session, Step, bind, returning, acting, raise_if,
}
use scnsim.Session.Judge.{launch_holds, is_identity, point_agrees, checkpoint_agrees, within_budget}

abbrev pub failed : Stop
failed = Stop.protocol_error

-- The lines, or an interrupt while waiting for one. The end of the list is the end of stdout.
pub data Input : Type 0 where
  line : String → Input
  interrupt : Input

-- The pattern of a point checkpoint's schema.
abbrev pub point_pattern : String
point_pattern = "\"schema\"\\s*:\\s*\"scnsim\\.point_checkpoint[^\\\"]*\""

abbrev pub new_session : Session
new_session = record { acts = []; stdin_closed = false; committed = false; stdout_log = [] }

module _ (w : World) where
  -- `process.stdin.write(…)` and `flush()`: a closed stream raises ValueError.
  unfoldable pub write : Message → Step (Unit {0})
  write m s =
      if s.stdin_closed || w.pipe_breaks s.acts
      then (stops transport_error, s)
      else acting (sent m) s

  -- `process.stdin.close()`
  unfoldable pub close : Step (Unit {0})
  close s = (gives tt, record s { acts = closed_input ∷ s.acts; stdin_closed = true })

  unfoldable pub commits : Step (Unit {0})
  commits s = (gives tt, record s { committed = true })

  -- A callback whose return is noted.
  unfoldable pub calling : {A : Type 0} → (List Act → Answer A) → (A → Act) → Step A
  calling f act s = elim (f s.acts) [
    | stops e ↦ (stops e, s)
    | gives x ↦ (gives x, record s { acts = act x ∷ s.acts })
  ]

  module _ (c : Launch) where
    -- From the authorization to the loop.
    unfoldable pub greet : String → Step (Unit {0})
    greet attempt s =
        if c.optimization_operation && is_some c.checkpoint
        then (elim c.checkpoint [
          | none ↦ returning tt s
          | some checkpoint ↦
              bind (raise_if (not (is_identity checkpoint)) failed)
                (λ _.
                  bind (write (checkpoint_reused attempt checkpoint)) λ _. bind close λ _. commits)
                s
        ])
        else if c.sweep_operation
        then write (point_recovery attempt) s
        else if not c.optimization_operation
        then close s
        else (gives tt, s)

    unfoldable pub authorize_child : BootstrapReady → Step String
    authorize_child ready = bind (calling (λ acts. w.authorize acts ready) authorized) λ attempt.
        bind (raise_if (not (is_sha256 (text attempt))) failed)
          λ _. bind (write (authorization attempt)) λ _. bind (greet attempt) λ _. returning attempt

    -- The branch of a point checkpoint, after its frame is validated.
    unfoldable pub commit_point : String → Frame → Step (Unit {0})
    commit_point attempt ready =
        bind (calling (λ acts. w.publish_point acts ready) (point_published ready)) λ published.
          bind (raise_if (not (point_agrees ready published)) failed)
            λ _. write (point_committed attempt ready published)

    -- The branch of a baseline checkpoint, after its frame is validated.
    unfoldable pub commit_checkpoint : String → Frame → Step (Unit {0})
    commit_checkpoint attempt ready =
        bind (calling (λ acts. w.publish_checkpoint acts ready) (checkpoint_published ready))
          λ published.
            bind (raise_if (not (checkpoint_agrees ready published)) failed) λ _.
              bind (write (checkpoint_committed attempt published)) λ _. bind close λ _. commits

    -- `on_progress(event)` with its handlers.
    unfoldable pub deliver : Frame → Step (Unit {0})
    deliver event s =
        if not c.has_on_progress then (gives tt, s) else (elim (w.on_progress s.acts event) [
          | none ↦ acting (delivered event) s
          | some interrupted ↦ (stops interrupted, s)
          | some exiting ↦ (stops exiting, s)
          | some e ↦ (stops (if c.preserve_callback_exception then e else callback_error), s)
        ])

    unfoldable pub handle_progress : String → Progress → Step (Unit {0})
    handle_progress raw not_progress s =
        (gives tt, record s { stdout_log = s.stdout_log ++ raw ∷ [] })
    handle_progress raw protocol_error s = (stops failed, s)
    handle_progress raw type_error s = (stops foreign_error, s)
    handle_progress raw (progress event) s =
        if c.optimization_operation && not s.committed
        then (stops failed, s)
        else if c.optimization_operation && not (within_budget c event)
        then (stops failed, s)
        else deliver event s

    module _ (integral : ℕ → Option ℤ) (loads : String → Option Decoded) (dumps : Frame → String)
        (loads_pairs : String → Option Decoded) (search : String → String → Bool)
        (contains_text : String → String → Bool) where
      -- The body of the loop, for one line.
      unfoldable pub handle_line : String → String → Step (Unit {0})
      handle_line attempt raw s =
          if contains_text "\"schema\":\"scnsim.bootstrap_ready\"" raw
          then (stops failed, s)
          else if search point_pattern raw
          then (if not c.sweep_operation
              then (stops failed, s)
              else (elim (validate_point_ready integral loads dumps c.request_sha256 attempt raw) [
                | none ↦ (stops failed, s)
                | some ready ↦ commit_point attempt ready s
              ]))
          else (elim (reserved_optimization_frame loads_pairs search raw) [
            | none ↦ (stops foreign_error, s)
            | some true ↦
                if not c.optimization_operation || s.committed
                then (stops failed, s)
                else (elim (validate_checkpoint_ready integral loads dumps c.request_sha256 attempt
                    raw) [
                      | none ↦ (stops failed, s)
                      | some ready ↦ commit_checkpoint attempt ready s
                    ])
            | some false ↦
                handle_progress raw
                  (validate_progress integral loads dumps c.request_sha256 attempt raw) s
          ])

      -- The loop.
      unfoldable pub converse : String → List Input → Step (Unit {0})
      converse attempt [] s = (gives tt, s)
      converse attempt (interrupt ∷ inputs) s = (stops interrupted, s)
      converse attempt (line raw ∷ inputs) s =
          bind (handle_line attempt raw) (λ _. converse attempt inputs) s

      -- What follows the loop: `readers_hold` and `exited_well` are the tests on the reader threads
      -- and on the return code, `outcome` is what `_read_outcome` returns or raises.
      unfoldable pub conclude : Bool → Bool → Answer Frame → Step Frame
      conclude readers_hold exited_well outcome s =
          if not readers_hold || not exited_well then (stops failed, s) else (elim outcome [
            | stops e ↦ (stops e, s)
            | gives frame ↦
                if c.optimization_operation
                  && (not s.committed && member "status" (is_text "success") frame)
                then (stops failed, s)
                else (gives frame, s)
          ])

      -- The body of the `try`, from the first line on.
      unfoldable pub talk : List Input → Bool → Bool → Answer Frame → Step Frame
      talk [] readers_hold exited_well outcome s = (stops failed, s)
      talk (interrupt ∷ inputs) readers_hold exited_well outcome s = (stops interrupted, s)
      talk (line first ∷ inputs) readers_hold exited_well outcome s =
          elim (validate_bootstrap integral loads dumps c.request_sha256 c.attempt_ordinal
            c.expected_version c.hb_operation first) [
              | none ↦ (stops failed, s)
              | some ready ↦
                  bind (authorize_child ready)
                    (λ attempt.
                      bind (converse attempt inputs)
                        (λ _. conclude readers_hold exited_well outcome))
                    s
            ]

      -- `run_terminal`: an OSError or ValueError of the `try` becomes a BackendProtocolError.
      unfoldable pub run_terminal : List Input → Bool → Bool → Answer Frame → Answer Frame × Session
      run_terminal inputs readers_hold exited_well outcome =
          if not (launch_holds c)
          then (stops failed, new_session)
          else (let (a, s) = talk inputs readers_hold exited_well outcome new_session in
              (
                elim a [
                  | gives frame ↦ gives frame
                  | stops e ↦ stops (elim e [ transport_error ↦ failed | kept ↦ kept ])
                ],
                s,
              ))
