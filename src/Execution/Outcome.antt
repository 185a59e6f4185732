-- ===== src/Execution/Outcome.antt =====
-- `execute_prepared` of src/scnsim/execution/coordinator.py as a whole, against the grammar of journals.
use scnsim.Base.{
  ℕ, String, [], ◌≡◌, sym, refl, ◌⊎◌, inl, inr, Bool, true, false, Option, none, some, subst,
  if◌then◌else◌,
}
use scnsim.Execution.State.{
  Fault, Answer, raises, gives, Kind, success, failure, interrupted, Request, World, State, Step,
  bind, returning, note, asking, call_raised,
}
use scnsim.Execution.Attempt.{promote, asserted, report_reuse}
use scnsim.Execution.Journal.{
  before, held, proved, done, Journal, opens, allocates, promotes_proved, raised,
}
use scnsim.Execution.Keeps.{
  Kept, Good, Held, Held-Kept, bind-Good, asking-bind, calling-bind, HeldBy, asserted-HeldBy, Done,
  promote-Done,
}
use scnsim.Execution.Ends.{Same, report_reuse-Same}
use scnsim.Execution.State.{Terminal, attempt_allocated}
use scnsim.Execution.Coordinator.{
  Success, supervised, judged, finish, attempt, write_attempt, execute_prepared,
}
use scnsim.Execution.Judging.{Proved, supervised-Held, judged-Proved}

module _ (w : World) (r : Request) where
  -- A success was found before anything was allocated, or its receipt was promoted.
  abbrev pub Yields : Success → State → Type 0
  Yields stored t = Journal before t.acts ⊎ ((sha : String) × Journal (done success sha) t.acts)

  finish-Yields :
      (kind : Kind) (sha : String) (s : State)
      → Journal (done kind sha) s.acts
      → Good Kept Yields (finish w r kind s)
  unfolding finish
  finish-Yields success sha s h = split (w.resolve_success s.acts)
    where
      call : Answer Success → Answer Success × State
      call (raises e) = (raises e, note (call_raised e) s)
      call (gives x) = (gives x, s)

      split : (a : Answer Success) → Good Kept Yields (call a)
      split (raises e) = (done success sha, raised h)
      split (gives x) = inr (sha, h)
  finish-Yields failure sha s h = (done failure sha, h)
  finish-Yields interrupted sha s h = (done interrupted sha, h)

  -- Before the allocation.
  abbrev pub Before : State → Type 0
  Before s = (s.attempt ≡ none) × Journal before s.acts

  Before-Kept : (s : State) → Before s → Kept s
  Before-Kept s (e, h) = (before, h)

  attempt-Yields : (s : State) → Before s → Good Kept Yields (attempt w r s)
  unfolding attempt
  attempt-Yields s (e, h) =
      calling-bind Kept Yields (λ _. run) s (λ f. (before, raised h)) w.allocate_attempt
        (λ _. attempt_allocated)
        λ _.
          let t = note attempt_allocated s in
          let holds : Held t = subst (λ x. Journal (held x) t.acts) (sym e) (allocates h) in
          bind-Good Kept Kept (λ _ t. Held t) Yields (supervised w r) judging t
            (supervised-Held w r t holds) (λ u k. k) judging-Yields
    where
      last : Kind → Step Success
      last kind = finish w r kind

      promoting : String → Kind → Step Success
      promoting sha kind = bind (promote w r kind sha) λ _. last kind

      judging_by : Terminal → String → Step Success
      judging_by terminal sha = bind (judged w r sha terminal) (promoting sha)

      judging : Terminal → Step Success
      judging terminal = bind (asserted w r) (judging_by terminal)

      run : Step Success
      run = bind (supervised w r) judging

      promoting-Yields :
          (sha : String) (kind : Kind) (u : State)
          → Journal (proved kind sha) u.acts
          → Good Kept Yields (promoting sha kind u)
      promoting-Yields sha kind u p =
          bind-Good Kept Kept (λ _. Done w r kind sha) Yields (promote w r kind sha)
            (λ _. last kind) u
            (promote-Done w r (proved kind sha) kind sha u (λ acts. promotes_proved) p) (λ v k. k)
            (λ _ v d. finish-Yields kind sha v d)

      judging-Yields :
          (terminal : Terminal) (u : State) → Held u → Good Kept Yields (judging terminal u)
      judging-Yields terminal u g =
          bind-Good Held Kept HeldBy Yields (asserted w r) (judging_by terminal) u
            (asserted-HeldBy w r u g) Held-Kept
            λ sha v by.
              bind-Good Kept Kept (Proved w r sha) Yields (judged w r sha terminal) (promoting sha)
                v (judged-Proved w r sha terminal v by) (λ x k. k) (promoting-Yields sha)

  -- A stored success that is reported.
  reuse-Yields :
      (stored : Success) (s : State)
      → Before s
      → Good Kept Yields (bind (report_reuse w r) (λ _. returning stored) s)
  reuse-Yields stored s (e, h) =
      bind-Good (Same w r before s) Kept (λ _. Same w r before s) Yields (report_reuse w r)
        (λ _. returning stored) s (report_reuse-Same w r before s h) (λ t (_, j). (before, j))
        (λ _ t (_, j). inl j)

  write_attempt-Yields : (s : State) → Before s → Good Kept Yields (write_attempt w r s)
  unfolding write_attempt
  write_attempt-Yields s (e, h) =
      asking-bind Kept Yields found s failing w.find_success found-Yields
    where
      failing : (f : Fault) → Kept (note (call_raised f) s)
      failing f = (before, raised h)

      fourth : Option String → Option String → Step Success
      fourth checkpoint _ t = attempt w r (record t { checkpoint = checkpoint })

      third : Option String → ℕ → Step Success
      third checkpoint _ = bind (asking w.resume_ledger) (fourth checkpoint)

      points : Bool → Step ℕ
      points b t = if b then asking w.point_checkpoints t else (gives 0, t)

      second : Option String → Step Success
      second checkpoint = bind (points r.is_sweep) (third checkpoint)

      first : Unit {0} → Step Success
      first _ = bind (asking w.baseline_checkpoint) second

      found : Option String → Step Success
      found none = bind (asking w.ensure_request) first
      found (some stored) = bind (report_reuse w r) λ _. returning stored

      third-Yields : (checkpoint : Option String) (n : ℕ) → Good Kept Yields (third checkpoint n s)
      third-Yields checkpoint n =
          asking-bind Kept Yields (fourth checkpoint) s failing w.resume_ledger
            (λ _. attempt-Yields (record s { checkpoint = checkpoint }) (e, h))

      second-Yields :
          (checkpoint : Option String) (b : Bool)
          → Good Kept Yields (bind (points b) (third checkpoint) s)
      second-Yields checkpoint true =
          asking-bind Kept Yields (third checkpoint) s failing w.point_checkpoints
            (third-Yields checkpoint)
      second-Yields checkpoint false = third-Yields checkpoint 0

      found-Yields : (x : Option String) → Good Kept Yields (found x s)
      found-Yields (some stored) = reuse-Yields stored s (e, h)
      found-Yields none = asking-bind Kept Yields first s failing w.ensure_request λ _.
          asking-bind Kept Yields second s failing w.baseline_checkpoint
            λ checkpoint. second-Yields checkpoint r.is_sweep

  abbrev pub new_state : State
  new_state = record { acts = []; attempt = none; checkpoint = none }

  execute_prepared-Yields : Good Kept Yields (execute_prepared w r)
  unfolding execute_prepared
  execute_prepared-Yields =
      asking-bind Kept Yields found new_state failing w.find_success found-Yields
    where
      failing : (f : Fault) → Kept (note (call_raised f) new_state)
      failing f = (before, raised opens)

      found : Option String → Step Success
      found none = bind (asking w.prepare_runtime) λ _. write_attempt w r
      found (some stored) = bind (report_reuse w r) λ _. returning stored

      found-Yields : (x : Option String) → Good Kept Yields (found x new_state)
      found-Yields (some stored) = reuse-Yields stored new_state (refl, opens)
      found-Yields none =
          asking-bind Kept Yields (λ _. write_attempt w r) new_state failing w.prepare_runtime
            (λ _. write_attempt-Yields new_state (refl, opens))

  -- Whatever the workspace, the child and the callbacks answer or raise, what execute_prepared
  -- did is a journal of the grammar: the attempt is sealed before anything is published for it,
  -- and at most one receipt is promoted, followed by no acts but calls that raised and progress,
  -- under the hash it was last sealed with, and only after validated evidence, or for a failure
  -- after the outputs were discarded, or for an interruption after all but the ledgers were.
  pub execute_prepared-Kept : Kept (execute_prepared w r).1
  execute_prepared-Kept = split (execute_prepared w r) execute_prepared-Yields
    where
      split : (d : Answer Success × State) → Good Kept Yields d → Kept d.1
      split (gives stored, t) (inl h) = (before, h)
      split (gives stored, t) (inr (sha, h)) = (done success sha, h)
      split (raises e, t) h = h

  -- When execute_prepared yields a success, nothing was allocated in this call, or a success
  -- receipt was promoted after the success was validated under the hash of the sealed attempt.
  pub execute_prepared-done :
      (stored : Success) (s : State)
      → execute_prepared w r ≡ (gives stored, s)
      → Journal before s.acts ⊎ ((sha : String) × Journal (done success sha) s.acts)
  execute_prepared-done stored s e = subst (Good Kept Yields) e execute_prepared-Yields
