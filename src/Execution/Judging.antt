-- ===== src/Execution/Judging.antt =====
-- What src/scnsim/execution/coordinator.py does with the end of a child, against the grammar.
use scnsim.Base.{String, List, not, ◌||◌, Bool, true, false, if◌then◌else◌}
use scnsim.Execution.State.{
  Fault, interruption, checkpoint_evidence, evidence, os_error, protocol, callback, exiting,
  foreign, Answer, raises, gives, Kind, success, failure, logs_written, Request, World, State, Step,
  bind, returning, raising, note, asking, calling, call_raised,
}
use scnsim.Execution.Attempt.{seal_protocol_failure, seal_interruption, answer_all}
use scnsim.Execution.Journal.{proved, done, Journal, logs, raised}
use scnsim.Execution.Keeps.{
  Kept, Good, Held, Held-Kept, bind-Good, asking-bind, calling-bind, HeldBy, HeldBy-Held,
}
use scnsim.Execution.Ends.{
  Failed, seal_protocol_failure-Failed, seal_interruption-Kept, answer_all-Held,
}
use scnsim.Protocol.Json.{Frame}
use scnsim.Execution.State.{Terminal, success_validated, failure_validated}
use scnsim.Execution.Coordinator.{
  is_success, envelope_holds, through_terminal, run_child, handle_child, supervised, judge_success,
  judge_failure, judge_outcome, judge, handle_judgement, judged,
}
use scnsim.Execution.Journal.{validates_success, refuses, validates_failure}

module _ (w : World) (r : Request) where
  abbrev pub StillHeld : {A : Type 0} → A → State → Type 0
  StillHeld _ t = Held t

  run_child-Held : (s : State) → Held s → Good Held StillHeld (run_child w r s)
  unfolding run_child
  run_child-Held s h = out (bind (answer_all w r w.callbacks) (λ _. asking w.terminal) s) (
      bind-Good Held Held StillHeld StillHeld (answer_all w r w.callbacks) (λ _. asking w.terminal)
        s (answer_all-Held w r w.callbacks s h) (λ t e. e) (λ _ t held_. ask t held_))
    where
      ask : (t : State) → Held t → Good Held StillHeld (asking w.terminal t)
      ask t h = split (w.terminal t.acts)
        where
          call : Answer Terminal → Answer Terminal × State
          call (raises e) = (raises e, note (call_raised e) t)
          call (gives x) = (gives x, t)

          split : (a : Answer Terminal) → Good Held StillHeld (call a)
          split (raises e) = raised h
          split (gives x) = h

      out :
          (d : Answer Terminal × State)
          → Good Held StillHeld d
          → Good Held StillHeld
              (elim d.0 [ gives x ↦ gives x | raises e ↦ raises (through_terminal e) ], d.1)
      out (gives x, t) g = g
      out (raises e, t) g = g

  -- A seal, then the exception again.
  abbrev Ended : {A : Type 0} → A → State → Type 0
  Ended _ t = Kept t

  resealed :
      {A : Type 0} (Q : A → State → Type 0) (e : Fault) (s : State)
      → Held s
      → Good Kept Q (bind (seal_protocol_failure w r) (λ _. raising e) s)
  resealed Q e s h =
      bind-Good Kept Kept (Failed w r) Q (seal_protocol_failure w r) (λ _. raising e) s
        (seal_protocol_failure-Failed w r s h) (λ t k. k) λ _ t (sha, d). (done failure sha, d)

  resealed_interruption :
      {A : Type 0} (Q : A → State → Type 0) (s : State)
      → Held s
      → Good Kept Q (bind (seal_interruption w r) (λ _. raising interruption) s)
  resealed_interruption Q s h =
      bind-Good Kept Kept Ended Q (seal_interruption w r) (λ _. raising interruption) s
        (seal_interruption-Kept w r s h) (λ t k. k) (λ _ t k. k)

  handle_child-Kept : (e : Fault) (s : State) → Held s → Good Kept StillHeld (handle_child w r e s)
  unfolding handle_child
  handle_child-Kept interruption s h = resealed_interruption StillHeld s h
  handle_child-Kept checkpoint_evidence s h = resealed StillHeld protocol s h
  handle_child-Kept protocol s h = resealed StillHeld protocol s h
  handle_child-Kept callback s h = resealed StillHeld callback s h
  handle_child-Kept evidence s h = Held-Kept s h
  handle_child-Kept os_error s h = Held-Kept s h
  handle_child-Kept exiting s h = Held-Kept s h
  handle_child-Kept foreign s h = Held-Kept s h

  pub supervised-Held : (s : State) → Held s → Good Kept StillHeld (supervised w r s)
  unfolding supervised
  supervised-Held s h = split (run_child w r s) (run_child-Held s h)
    where
      split :
          (d : Answer Terminal × State)
          → Good Held StillHeld d
          → Good {A = Terminal} Kept StillHeld
              (elim d.0 [ gives x ↦ (gives x, d.1) | raises e ↦ handle_child w r e d.1 ])
      split (gives x, t) g = g
      split (raises e, t) g = handle_child-Kept e t g

  -- The kind of a receipt, after its evidence was validated.
  abbrev pub Proved : String → Kind → State → Type 0
  Proved sha kind t = Journal (proved kind sha) t.acts

  back : {sha : String} (t : State) → HeldBy sha t → Held t
  back {sha = sha} t by = HeldBy-Held sha t by

  judge_success-Proved :
      (sha : String) (s : State) → HeldBy sha s → Good Held (Proved sha) (judge_success w r sha s)
  unfolding judge_success
  judge_success-Proved sha s (e, by) =
      let t = note (success_validated sha) s in
      calling-bind Held (Proved sha) (λ _. bind (asking (w.receipt success)) λ _. returning success)
        s (λ f. back (note (call_raised f) s) (e, raised by)) w.success_staging
        (λ _. success_validated sha)
        λ _.
          asking-bind Held (Proved sha) (λ _. returning success) t
            (λ f. back (note (call_raised f) t) (e, refuses (validates_success by)))
            (w.receipt success) (λ _. validates_success by)

  judge_failure-Proved :
      (sha : String) (outcome : Frame) (s : State)
      → HeldBy sha s
      → Good Held (Proved sha) (judge_failure w r sha outcome s)
  unfolding judge_failure
  judge_failure-Proved sha outcome s (e, by) = split (w.result_exists s.acts)
    where
      record_ : Step Kind
      record_ =
          bind (calling w.failure_record (λ _. failure_validated sha))
            (λ _. bind (asking (w.receipt failure)) λ _. returning failure)

      noted : State
      noted = note (failure_validated sha) s

      links : List String → Step Kind
      links ls t = if not (w.links_agree ls outcome) then (raises protocol, t) else record_ t

      agree :
          (b : Bool)
          → Good {A = Kind} Held (Proved sha) (if b then (raises protocol, s) else record_ s)
      agree true = back s (e, by)
      agree false =
          calling-bind Held (Proved sha)
            (λ _. bind (asking (w.receipt failure)) λ _. returning failure) s
            (λ f. back (note (call_raised f) s) (e, raised by)) w.failure_record
            (λ _. failure_validated sha)
            λ _.
              asking-bind Held (Proved sha) (λ _. returning failure) noted
                (λ f. back (note (call_raised f) noted) (e, refuses (validates_failure by)))
                (w.receipt failure) (λ _. validates_failure by)

      split :
          (b : Bool)
          → Good {A = Kind} Held
              (Proved sha)
              (if b then (raises protocol, s) else bind (asking w.generation_links) links s)
      split true = back s (e, by)
      split false =
          asking-bind Held (Proved sha) links s (λ f. back (note (call_raised f) s) (e, raised by))
            w.generation_links (λ ls. agree (not (w.links_agree ls outcome)))

  judge_outcome-Proved :
      (sha : String) (terminal : Terminal) (s : State)
      → HeldBy sha s
      → Good Held (Proved sha) (judge_outcome w r sha terminal s)
  unfolding judge_outcome
  judge_outcome-Proved sha terminal s (e, by) =
      first (not (w.outcome_is_file s.acts) || not terminal.canonical)
        (not (envelope_holds r sha terminal.outcome))
    where
      branch : Bool → Step Kind
      branch b = if b then judge_success w r sha else judge_failure w r sha terminal.outcome

      chosen : (b : Bool) → Good {A = Kind} Held (Proved sha) (branch b s)
      chosen true = judge_success-Proved sha s (e, by)
      chosen false = judge_failure-Proved sha terminal.outcome s (e, by)

      rest : Answer Kind × State
      rest =
          bind (asking (w.staging_layout (is_success terminal.outcome)))
            (λ _. branch (is_success terminal.outcome)) s

      last : Good {A = Kind} Held (Proved sha) rest
      last =
          asking-bind Held (Proved sha) (λ _. branch (is_success terminal.outcome)) s
            (λ f. back (note (call_raised f) s) (e, raised by))
            (w.staging_layout (is_success terminal.outcome))
            (λ _. chosen (is_success terminal.outcome))

      second :
          (b : Bool) → Good {A = Kind} Held (Proved sha) (if b then (raises protocol, s) else rest)
      second true = back s (e, by)
      second false = last

      first :
          (b c : Bool)
          → Good {A = Kind} Held
              (Proved sha)
              (if b then (raises protocol, s) else if c then (raises protocol, s) else rest)
      first true c = back s (e, by)
      first false c = second c

  judge-Proved :
      (sha : String) (terminal : Terminal) (s : State)
      → HeldBy sha s
      → Good Held (Proved sha) (judge w r sha terminal s)
  unfolding judge
  judge-Proved sha terminal s (e, by) =
      calling-bind Held (Proved sha) (λ _. judge_outcome w r sha terminal) s
        (λ f. back (note (call_raised f) s) (e, raised by)) w.write_logs (λ _. logs_written)
        (λ _. judge_outcome-Proved sha terminal (note logs_written s) (e, logs by))

  handle_judgement-Kept :
      (sha : String) (e : Fault) (s : State)
      → Held s
      → Good Kept (Proved sha) (handle_judgement w r e s)
  unfolding handle_judgement
  handle_judgement-Kept sha interruption s h = resealed_interruption (Proved sha) s h
  handle_judgement-Kept sha checkpoint_evidence s h = resealed (Proved sha) protocol s h
  handle_judgement-Kept sha protocol s h = resealed (Proved sha) protocol s h
  handle_judgement-Kept sha callback s h = resealed (Proved sha) protocol s h
  handle_judgement-Kept sha evidence s h = resealed (Proved sha) protocol s h
  handle_judgement-Kept sha os_error s h = resealed (Proved sha) protocol s h
  handle_judgement-Kept sha exiting s h = Held-Kept s h
  handle_judgement-Kept sha foreign s h = resealed (Proved sha) protocol s h

  pub judged-Proved :
      (sha : String) (terminal : Terminal) (s : State)
      → HeldBy sha s
      → Good Kept (Proved sha) (judged w r sha terminal s)
  unfolding judged
  judged-Proved sha terminal s by =
      split (judge w r sha terminal s) (judge-Proved sha terminal s by)
    where
      split :
          (d : Answer Kind × State)
          → Good Held (Proved sha) d
          → Good {A = Kind} Kept
              (Proved sha)
              (elim d.0 [ gives x ↦ (gives x, d.1) | raises e ↦ handle_judgement w r e d.1 ])
      split (gives x, t) g = g
      split (raises e, t) g = handle_judgement-Kept sha e t g
