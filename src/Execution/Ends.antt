-- ===== src/Execution/Ends.antt =====
-- How src/scnsim/execution/coordinator.py ends an attempt that failed or was interrupted, and what the
-- callbacks of its child leave.
use scnsim.Base.{
  String, List, [], ◌∷◌, ◌≡◌, sym, refl, Bool, true, false, some, subst, if◌then◌else◌,
}
use scnsim.Execution.State.{
  interruption, checkpoint_evidence, evidence, os_error, protocol, callback, exiting, Answer,
  raises, gives, failure, interrupted, launched, logs_written, outputs_discarded,
  progress_delivered, checkpoint_published, point_published, Callback, asks_authorize,
  asks_checkpoint, asks_point, asks_progress, Request, World, State, Step, bind, returning, note,
  asking, calling, call_raised,
}
use scnsim.Execution.Attempt.{
  seal, sealed_attempt, promote_receipt, seal_protocol_failure, seal_interruption, asserted,
  publish_checkpoint, publish_point, deliver, report_reuse, answer_callback, answer_all,
}
use scnsim.Execution.Journal.{
  Stage, held, cleared, done, Journal, publishes_checkpoint, publishes_point, logs, discards,
  promotes_failure, promotes_interruption, raised, delivers,
}
use scnsim.Execution.Keeps.{
  Kept, Good, map-Good, Held, Held-Kept, bind-Good, asking-bind, calling-bind, HeldBy, HeldBy-Held,
  seal-HeldBy, sealed_attempt-HeldBy, asserted-HeldBy, Done, promote_receipt-Done,
}

module _ (w : World) (r : Request) where
  -- Some end, or none where an attempt's directory was there already.
  abbrev pub Failed : {A : Type 0} → A → State → Type 0
  Failed _ t = (sha : String) × Journal (done failure sha) t.acts

  pub seal_protocol_failure-Failed :
      (s : State) → Held s → Good Kept Failed (seal_protocol_failure w r s)
  unfolding seal_protocol_failure
  seal_protocol_failure-Failed s h =
      let third : String → Step (Unit {0}) = λ sha.
        bind (calling (w.discard_outputs false) (λ _. outputs_discarded false))
          λ _. promote_receipt w r failure sha in
      let second : String → Step (Unit {0}) =
        λ sha. bind (calling w.write_logs (λ _. logs_written)) λ _. third sha in
      bind-Good Held Kept HeldBy Failed (sealed_attempt w r) second s
        (sealed_attempt-HeldBy w r s h) Held-Kept
        λ sha t (e, by).
          calling-bind Kept Failed (λ _. third sha) t (λ f. (held (some sha), raised by))
            w.write_logs (λ _. logs_written)
            λ _.
              calling-bind Kept Failed (λ _. promote_receipt w r failure sha) (note logs_written t)
                (λ f. (held (some sha), raised (logs by))) (w.discard_outputs false)
                (λ _. outputs_discarded false)
                λ _.
                  map-Good Kept (λ _. Done w r failure sha) Failed _ (λ _ u d. (sha, d))
                    (promote_receipt-Done w r (cleared false sha) failure sha _
                      (λ acts. promotes_failure) (discards (logs by)))

  pub seal_interruption-Kept :
      (s : State) → Held s → Good Kept (λ _ t. Kept t) (seal_interruption w r s)
  unfolding seal_interruption
  seal_interruption-Kept s h = split (w.final_exists s.acts)
    where
      E : Unit {0} → State → Type 0
      E _ t = Kept t

      fourth : String → Step (Unit {0})
      fourth sha =
          bind (calling (w.discard_outputs true) (λ _. outputs_discarded true))
            λ _. promote_receipt w r interrupted sha

      third : String → Step (Unit {0})
      third sha = bind (asking w.generation_links) λ _. fourth sha

      second : String → Step (Unit {0})
      second sha = bind (calling w.write_logs (λ _. logs_written)) λ _. third sha

      last : (sha : String) (t : State) → HeldBy sha t → Good Kept E (second sha t)
      last sha t (e, by) =
          calling-bind Kept E (λ _. third sha) t (λ f. (held (some sha), raised by)) w.write_logs
            (λ _. logs_written)
            λ _.
              asking-bind Kept E (λ _. fourth sha) (note logs_written t)
                (λ f. (held (some sha), raised (logs by))) w.generation_links
                λ _.
                  calling-bind Kept E (λ _. promote_receipt w r interrupted sha)
                    (note logs_written t) (λ f. (held (some sha), raised (logs by)))
                    (w.discard_outputs true) (λ _. outputs_discarded true)
                    λ _.
                      map-Good Kept (λ _. Done w r interrupted sha) E _
                        (λ _ u d. (done interrupted sha, d))
                        (promote_receipt-Done w r (cleared true sha) interrupted sha _
                          (λ acts. promotes_interruption) (discards (logs by)))

      split :
          (b : Bool) → Good Kept E (if b then (gives tt, s) else bind (sealed_attempt w r) second s)
      split true = Held-Kept s h
      split false =
          bind-Good Held Kept HeldBy E (sealed_attempt w r) second s (sealed_attempt-HeldBy w r s h)
            Held-Kept last

  abbrev HeldAfter : {A : Type 0} → A → State → Type 0
  HeldAfter _ t = Held t

  -- The journal of a known hash is that of the variable.
  back :
      {sha : String} (t : State) → t.attempt ≡ some sha → Journal (held (some sha)) t.acts → Held t
  back {sha = sha} t e h = HeldBy-Held sha t (e, h)

  abbrev pub Same : Stage → State → State → Type 0
  Same stage s t = (t.attempt ≡ s.attempt) × Journal stage t.acts

  pub report_reuse-Same :
      (stage : Stage) (s : State)
      → Journal stage s.acts
      → Good (Same stage s) (λ _. Same stage s) (report_reuse w r s)
  unfolding report_reuse deliver
  report_reuse-Same stage s h = split r.has_on_progress (w.on_progress s.acts)
    where
      call : Bool → Answer (Unit {0}) → Answer (Unit {0}) × State
      call b a =
          if b
          then (elim a [
            | raises e ↦ (raises e, note (call_raised e) s)
            | gives x ↦ (gives x, note progress_delivered s)
          ])
          else (gives tt, s)

      out : Answer (Unit {0}) × State → Answer (Unit {0}) × State
      out d = (
        elim d.0 [
          | gives _ ↦ gives tt
          | raises e ↦
              raises (elim e [ interruption ↦ interruption | exiting ↦ exiting | _ ↦ callback ])
        ],
        d.1,
      )

      split :
          (b : Bool) (a : Answer (Unit {0}))
          → Good (Same stage s) (λ _. Same stage s) (out (call b a))
      split false a = (refl, h)
      split true (gives x) = (refl, delivers h)
      split true (raises e) = (refl, raised h)

  publish_checkpoint-Held : (s : State) → Held s → Good Held HeldAfter (publish_checkpoint w r s)
  unfolding publish_checkpoint
  publish_checkpoint-Held s h =
      let last : String → Step (Unit {0}) =
        λ published t. (gives tt, record t { checkpoint = some published }) in
      let publish : String → Step (Unit {0}) =
        λ sha. bind (calling (w.publish_checkpoint sha) (λ _. checkpoint_published sha)) last in
      bind-Good Held Held HeldBy HeldAfter (asserted w r) publish s (asserted-HeldBy w r s h)
        (λ t e. e)
        λ sha t (e, by).
          calling-bind Held HeldAfter last t (λ f. back (note (call_raised f) t) e (raised by))
            (w.publish_checkpoint sha) (λ _. checkpoint_published sha)
            (λ _. back (note (checkpoint_published sha) t) e (publishes_checkpoint by))

  publish_point-Held : (s : State) → Held s → Good Held HeldAfter (publish_point w r s)
  unfolding publish_point
  publish_point-Held s h =
      bind-Good Held Held HeldBy HeldAfter (asserted w r) publish s (asserted-HeldBy w r s h)
        (λ t e. e) λ sha t by. split sha t by (w.publish_point sha t.acts)
    where
      call : String → State → Answer (Unit {0}) → Answer (Unit {0}) × State
      call sha t (gives x) = (gives tt, note (point_published sha) t)
      call sha t (raises e) = (
        raises (elim e [
          | evidence ↦ protocol
          | checkpoint_evidence ↦ protocol
          | os_error ↦ protocol
          | kept ↦ kept
        ]),
        note (call_raised e) t,
      )

      publish : String → Step (Unit {0})
      publish sha t = elim (w.publish_point sha t.acts) [
        | gives x ↦ (gives tt, note (point_published sha) t)
        | raises e ↦ (
          raises (elim e [
            | evidence ↦ protocol
            | checkpoint_evidence ↦ protocol
            | os_error ↦ protocol
            | kept ↦ kept
          ]),
          note (call_raised e) t,
        )
      ]

      split :
          (sha : String) (t : State)
          → HeldBy sha t
          → (a : Answer (Unit {0})) → Good Held HeldAfter (call sha t a)
      split sha t (e, by) (gives x) = back (note (point_published sha) t) e (publishes_point by)
      split sha t (e, by) (raises f) = back (note (call_raised f) t) e (raised by)

  answer_callback-Held :
      (c : Callback) (s : State) → Held s → Good Held HeldAfter (answer_callback w r c s)
  unfolding answer_callback
  answer_callback-Held asks_authorize s h =
      bind-Good Held Held HeldBy HeldAfter (seal w r launched) (λ _. returning tt) s
        (seal-HeldBy w r launched s h) (λ t e. e) HeldBy-Held
  answer_callback-Held asks_checkpoint s h = publish_checkpoint-Held s h
  answer_callback-Held asks_point s h = publish_point-Held s h
  answer_callback-Held asks_progress s h =
      both (report_reuse w r s) (report_reuse-Same (held s.attempt) s h)
    where
      moved : (t : State) → Same (held s.attempt) s t → Held t
      moved t (e, j) = subst (λ x. Journal (held x) t.acts) (sym e) j

      both :
          (d : Answer (Unit {0}) × State)
          → Good (Same (held s.attempt) s) (λ _. Same (held s.attempt) s) d
          → Good Held HeldAfter d
      both (gives x, t) g = moved t g
      both (raises e, t) g = moved t g

  pub answer_all-Held :
      (cs : List Callback) (s : State) → Held s → Good Held HeldAfter (answer_all w r cs s)
  unfolding answer_all
  answer_all-Held [] s h = h
  answer_all-Held (c ∷ cs) s h =
      bind-Good Held Held HeldAfter HeldAfter (answer_callback w r c) (λ _. answer_all w r cs) s
        (answer_callback-Held c s h) (λ t e. e) (λ _ t. answer_all-Held cs t)
