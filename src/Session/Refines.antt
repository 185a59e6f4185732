-- ===== src/Session/Refines.antt =====
-- `run_terminal` of src/scnsim/execution/process.py keeps to the grammar of conversations.
use scnsim.Base.{
  ℕ, String, List, [], ◌∷◌, ◌≡◌, sym, Bool, true, false, Option, none, some, not, ◌&&◌, ◌||◌, arith,
  if◌then◌else◌,
}
use scnsim.Base.Int.{ℤ}
use scnsim.Protocol.Json.{Frame, Decoded}
use scnsim.Protocol.Frames.{validate_progress, Progress, not_progress, progress}
use scnsim.Protocol.Ready.{
  validate_checkpoint_ready, validate_point_ready, reserved_optimization_frame,
}
use scnsim.Session.State.{
  Stop, interrupted, protocol_error, transport_error, callback_error, exiting, foreign_error,
  acting, Answer, stops, Launch, World, Session, Step, bind, raise_if, point_published,
  checkpoint_published, delivered, point_committed, checkpoint_committed,
}
use scnsim.Session.Judge.{within_budget, point_agrees, checkpoint_agrees}
use scnsim.Session.Terminal.{
  failed, point_pattern, Input, line, interrupt, write, close, commits, commit_point,
  commit_checkpoint, deliver, handle_progress, handle_line, converse,
}
use scnsim.Session.Automaton.{
  told, sweeping, running, Conversation, Talked, offers, closes, points, acknowledges,
  delivers_sweeping, delivers_running,
}
use scnsim.Session.Good.{
  Good, branch-Good, bind-Good, acted, raise_if-bind, write-bind, write-Good, calling-bind,
}

-- How a session is between two lines of the child.
pub data Ready (c : Launch) (a : String) (s : Session) : Type 0 where
  waiting :
      c.optimization_operation ≡ true
      → c.sweep_operation ≡ false
      → c.checkpoint ≡ none
      → s.committed ≡ false
      → Conversation c (told a) s.acts
      → Ready c a s
  sweeps :
      c.optimization_operation ≡ false
      → c.sweep_operation ≡ true
      → Conversation c (sweeping a) s.acts
      → Ready c a s
  runs :
      c.sweep_operation ≡ false
      → s.committed ≡ c.optimization_operation
      → Conversation c (running a) s.acts
      → Ready c a s

pub Ready-Talked : (c : Launch) (a : String) (s : Session) → Ready c a s → Talked c s.acts
Ready-Talked c a s (waiting o p k u h) = (told a, h)
Ready-Talked c a s (sweeps o p h) = (sweeping a, h)
Ready-Talked c a s (runs p u h) = (running a, h)

module _ (c : Launch) (w : World) (a : String) where
  abbrev pub IsReady : {A : Type 0} → A → Session → Type 0
  IsReady _ t = Ready c a t

  pub commit_point-Ready :
      (ready : Frame) (s : Session)
      → c.optimization_operation ≡ false
      → c.sweep_operation ≡ true
      → Conversation c (sweeping a) s.acts
      → Good c IsReady (commit_point w c a ready s)
  unfolding commit_point
  commit_point-Ready ready s o p h =
      let tell : Frame → Step (Unit {0}) =
        λ published. write w (point_committed a ready published) in
      let bad : Frame → Bool = λ published. not (point_agrees ready published) in
      calling-bind c w IsReady (λ acts. w.publish_point acts ready) (point_published ready)
        (λ published. bind (raise_if (bad published) failed) (λ _. tell published)) s
        (sweeping a, h)
        λ published.
          raise_if-bind c IsReady (bad published) failed (tell published) _ (_, points h)
            λ ok.
              write-Good c w IsReady (point_committed a ready published) _ (_, points h)
                (sweeps o p (acknowledges (ground (arith, ok)) (points h)))

  pub commit_checkpoint-Ready :
      (ready : Frame) (s : Session)
      → c.optimization_operation ≡ true
      → c.sweep_operation ≡ false
      → c.checkpoint ≡ none
      → Conversation c (told a) s.acts
      → Good c IsReady (commit_checkpoint w c a ready s)
  unfolding commit_checkpoint close commits
  commit_checkpoint-Ready ready s o p none_ h =
      let finish : Step (Unit {0}) = bind (close w) λ _. commits w in
      let tell : Frame → Step (Unit {0}) =
        λ published. bind (write w (checkpoint_committed a published)) λ _. finish in
      let bad : Frame → Bool = λ published. not (checkpoint_agrees ready published) in
      calling-bind c w IsReady (λ acts. w.publish_checkpoint acts ready)
        (checkpoint_published ready)
        (λ published. bind (raise_if (bad published) failed) (λ _. tell published)) s (told a, h)
        λ published.
          raise_if-bind c IsReady (bad published) failed (tell published) _ (_, offers o none_ h)
            λ ok.
              write-bind c w IsReady (checkpoint_committed a published) finish _
                (_, offers o none_ h)
                (runs p (sym o)
                  (closes (Conversation.commits (ground (arith, ok)) (offers o none_ h))))

  delivered-Ready :
      (event : Frame) (s : Session)
      → Ready c a s
      → (c.optimization_operation && not s.committed) ≡ false
      → Ready c a (acted c (delivered event) s)
  delivered-Ready event s (waiting o p k u h) fine = absurd (ground (arith, o, u, fine))
  delivered-Ready event s (sweeps o p h) fine = sweeps o p (delivers_sweeping h)
  delivered-Ready event s (runs p u h) fine = runs p u (delivers_running h)

  logged-Ready :
      (log : List String) (s : Session) → Ready c a s → Ready c a (record s { stdout_log = log })
  logged-Ready log s (waiting o p k u h) = waiting o p k u h
  logged-Ready log s (sweeps o p h) = sweeps o p h
  logged-Ready log s (runs p u h) = runs p u h

  deliver-Ready :
      (event : Frame) (s : Session)
      → Ready c a s
      → (c.optimization_operation && not s.committed) ≡ false
      → Good c IsReady (deliver w c event s)
  unfolding deliver
  deliver-Ready event s h fine =
      branch-Good c IsReady (not c.has_on_progress) _ _ (λ _. h)
        (λ _. split (w.on_progress s.acts event))
    where
      call : Option Stop → Answer (Unit {0}) × Session
      call none = acting (delivered event) s
      call (some interrupted) = (stops interrupted, s)
      call (some exiting) = (stops exiting, s)
      call (some e) = (stops (if c.preserve_callback_exception then e else callback_error), s)

      split : (r : Option Stop) → Good c IsReady (call r)
      split none = delivered-Ready event s h fine
      split (some interrupted) = Ready-Talked c a s h
      split (some protocol_error) = Ready-Talked c a s h
      split (some transport_error) = Ready-Talked c a s h
      split (some callback_error) = Ready-Talked c a s h
      split (some exiting) = Ready-Talked c a s h
      split (some foreign_error) = Ready-Talked c a s h

  handle_progress-Ready :
      (raw : String) (r : Progress) (s : Session)
      → Ready c a s
      → Good c IsReady (handle_progress w c raw r s)
  unfolding handle_progress
  handle_progress-Ready raw not_progress s h = logged-Ready _ s h
  handle_progress-Ready raw Progress.protocol_error s h = Ready-Talked c a s h
  handle_progress-Ready raw Progress.type_error s h = Ready-Talked c a s h
  handle_progress-Ready raw (progress event) s h =
      branch-Good c IsReady (c.optimization_operation && not s.committed) _ _
        (λ _. Ready-Talked c a s h)
        λ fine.
          branch-Good c IsReady (c.optimization_operation && not (within_budget c event)) _ _
            (λ _. Ready-Talked c a s h) (λ _. deliver-Ready event s h fine)

  module _ (integral : ℕ → Option ℤ) (loads : String → Option Decoded) (dumps : Frame → String)
      (loads_pairs : String → Option Decoded) (search contains_text : String → String → Bool) where
    point-Ready :
        (r : Option Frame) (s : Session)
        → c.sweep_operation ≡ true
        → Ready c a s
        → Good c {A = Unit {0}} IsReady
            (elim r [ none ↦ (stops failed, s) | some ready ↦ commit_point w c a ready s ])
    point-Ready none s p h = Ready-Talked c a s h
    point-Ready (some ready) s p (waiting o q k u h) = absurd (ground (arith, p, q))
    point-Ready (some ready) s p (sweeps o q h) = commit_point-Ready ready s o q h
    point-Ready (some ready) s p (runs q u h) = absurd (ground (arith, p, q))

    checkpoint-Ready :
        (r : Option Frame) (s : Session)
        → (not c.optimization_operation || s.committed) ≡ false
        → Ready c a s
        → Good c {A = Unit {0}} IsReady
            (elim r [ none ↦ (stops failed, s) | some ready ↦ commit_checkpoint w c a ready s ])
    checkpoint-Ready none s fine h = Ready-Talked c a s h
    checkpoint-Ready (some ready) s fine (waiting o q k u h) =
        commit_checkpoint-Ready ready s o q k h
    checkpoint-Ready (some ready) s fine (sweeps o q h) = absurd (ground (arith, o, fine))
    checkpoint-Ready (some ready) s fine (runs q u h) = absurd (ground (arith, u, fine))

    handle_line-Ready :
        (raw : String) (s : Session)
        → Ready c a s
        → Good c IsReady
            (handle_line w c integral loads dumps loads_pairs search contains_text a raw s)
    unfolding handle_line
    handle_line-Ready raw s h =
        branch-Good c IsReady (contains_text "\"schema\":\"scnsim.bootstrap_ready\"" raw) _ _
          (λ _. told_)
          λ _.
            branch-Good c IsReady (search point_pattern raw) _ _
              (λ _.
                branch-Good c IsReady (not c.sweep_operation) _ _ (λ _. told_)
                  λ p.
                    point-Ready (validate_point_ready integral loads dumps c.request_sha256 a raw) s
                      (ground (arith, p)) h)
              (λ _. reserved (reserved_optimization_frame loads_pairs search raw))
      where
        told_ : Talked c s.acts
        told_ = Ready-Talked c a s h

        call : Option Bool → Answer (Unit {0}) × Session
        call none = (stops foreign_error, s)
        call (some true) =
            if not c.optimization_operation || s.committed
            then (stops failed, s)
            else (elim (validate_checkpoint_ready integral loads dumps c.request_sha256 a raw) [
              | none ↦ (stops failed, s)
              | some ready ↦ commit_checkpoint w c a ready s
            ])
        call (some false) =
            handle_progress w c raw (validate_progress integral loads dumps c.request_sha256 a raw)
              s

        reserved : (r : Option Bool) → Good c IsReady (call r)
        reserved none = told_
        reserved (some true) =
            branch-Good c IsReady (not c.optimization_operation || s.committed) _ _ (λ _. told_)
              λ fine.
                checkpoint-Ready
                  (validate_checkpoint_ready integral loads dumps c.request_sha256 a raw) s fine h
        reserved (some false) =
            handle_progress-Ready raw
              (validate_progress integral loads dumps c.request_sha256 a raw) s h

    pub converse-Ready :
        (inputs : List Input) (s : Session)
        → Ready c a s
        → Good c IsReady
            (converse w c integral loads dumps loads_pairs search contains_text a inputs s)
    unfolding converse
    converse-Ready [] s h = h
    converse-Ready (interrupt ∷ inputs) s h = Ready-Talked c a s h
    converse-Ready (line raw ∷ inputs) s h =
        bind-Good c IsReady IsReady
          (handle_line w c integral loads dumps loads_pairs search contains_text a raw)
          (λ _. converse w c integral loads dumps loads_pairs search contains_text a inputs) s
          (handle_line-Ready raw s h) (λ _ t. converse-Ready inputs t)
