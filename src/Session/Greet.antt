-- ===== src/Session/Greet.antt =====
-- The beginning of a conversation of src/scnsim/execution/process.py, up to the loop.
use scnsim.Base.{
  String, ◌≡◌, sym, refl, Bool, true, false, Option, none, some, not, ◌&&◌, arith, is_some,
}
use scnsim.Protocol.Json.{text, Frame, is_sha256}
use scnsim.Protocol.Frames.{BootstrapReady}
use scnsim.Session.State.{
  Answer, Launch, World, Session, Step, bind, returning, raise_if, authorized, authorization,
  checkpoint_reused, point_recovery,
}
use scnsim.Session.Judge.{is_identity}
use scnsim.Session.Terminal.{failed, write, close, commits, greet, authorize_child}
use scnsim.Session.Automaton.{
  idle, told, Conversation, grants, tells, reuses, closes, starts, recovers,
}
use scnsim.Session.Good.{
  Good, branch-Good, bind-Good, raise_if-bind, write-bind, write-Good, calling-bind,
}
use scnsim.Session.Refines.{Ready, waiting, sweeps, runs, IsReady}

-- No request is both an optimization and a sweep.
abbrev pub Apart : Launch → Type 0
Apart c = (c.optimization_operation && c.sweep_operation) ≡ false

module _ (c : Launch) (apart : Apart c) (w : World) where
  greet-Ready :
      (a : String) (s : Session)
      → s.committed ≡ false
      → Conversation c (told a) s.acts
      → Good c (IsReady c w a) (greet w c a s)
  unfolding greet close commits
  greet-Ready a s fresh h =
      branch-Good c R (c.optimization_operation && is_some c.checkpoint) _ _
        (λ both. reuse both c.checkpoint refl)
        λ other.
          branch-Good c R c.sweep_operation _ _
            (λ p.
              write-Good c w R (point_recovery a) s (told a, h)
                (sweeps (ground (arith, apart, p)) p (recovers p h)))
            λ p.
              branch-Good c R (not c.optimization_operation) _ _
                (λ o. runs p (ground (arith, o, fresh)) (starts (ground (arith, o)) p h))
                λ o. waiting (ground (arith, o)) p (ground (arith, other, o)) fresh h
    where
      R : Unit {0} → Session → Type 0
      R = IsReady c w a

      finish : Step (Unit {0})
      finish = bind (close w) λ _. commits w

      greeting : Option Frame → Answer (Unit {0}) × Session
      greeting none = returning tt s
      greeting (some k) =
          bind (raise_if (not (is_identity k)) failed)
            (λ _. bind (write w (checkpoint_reused a k)) λ _. finish) s

      reuse :
          (c.optimization_operation && is_some c.checkpoint) ≡ true
          → (k : Option Frame) → c.checkpoint ≡ k
          → Good c R (greeting k)
      reuse both none e = absurd (ground (arith, both, e))
      reuse both (some k) e =
          let o : c.optimization_operation ≡ true = ground (arith, both) in
          raise_if-bind c R (not (is_identity k)) failed
            (bind (write w (checkpoint_reused a k)) λ _. finish) s (told a, h)
            λ ok.
              write-bind c w R (checkpoint_reused a k) finish s (told a, h)
                (runs (ground (arith, o, apart)) (sym o)
                  (closes (reuses o e (ground (arith, ok)) h)))

  abbrev pub Greeted : String → Session → Type 0
  Greeted a s = Ready c a s

  pub authorize_child-Ready :
      (ready : BootstrapReady) (s : Session)
      → s.committed ≡ false
      → Conversation c idle s.acts
      → Good c Greeted (authorize_child w c ready s)
  unfolding authorize_child
  authorize_child-Ready ready s fresh h =
      let last : String → Step String = λ a. bind (greet w c a) λ _. returning a in
      let tell : String → Step String = λ a. bind (write w (authorization a)) λ _. last a in
      let bad : String → Bool = λ a. not (is_sha256 (text a)) in
      calling-bind c w Greeted (λ acts. w.authorize acts ready) authorized
        (λ a. bind (raise_if (bad a) failed) (λ _. tell a)) s (idle, h)
        λ a.
          raise_if-bind c Greeted (bad a) failed (tell a) _ (_, grants h)
            λ ok.
              write-bind c w Greeted (authorization a) (last a) _ (_, grants h)
                (bind-Good c (IsReady c w a) Greeted (greet w c a) (λ _. returning a) _
                  (greet-Ready a _ fresh (tells (ground (arith, ok)) (grants h)))
                  (λ _ t ready. ready))
