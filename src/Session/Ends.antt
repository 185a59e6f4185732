-- ===== src/Session/Ends.antt =====
-- `run_terminal` of src/scnsim/execution/process.py as a whole: its acts are a conversation of the
-- grammar, and what a returned outcome says of it.
use scnsim.Base.{
  ℕ, String, List, [], ◌∷◌, ◌≡◌, refl, Bool, true, false, Option, none, some, not, ◌&&◌, ◌||◌,
  arith, subst, if◌then◌else◌,
}
use scnsim.Base.Int.{ℤ}
use scnsim.Protocol.Json.{Frame, Decoded, is_text, member}
use scnsim.Protocol.Frames.{BootstrapReady, validate_bootstrap}
use scnsim.Session.State.{transport_error, Answer, stops, gives, Launch, World, Session, Step, bind}
use scnsim.Session.Judge.{launch_holds}
use scnsim.Session.Terminal.{
  failed, Input, line, interrupt, authorize_child, converse, conclude, talk, run_terminal,
  new_session,
}
use scnsim.Session.Automaton.{idle, running, Conversation, silent}
use scnsim.Session.Commitments.{commitments, Conversation-commitments}
use scnsim.Session.Good.{Good, branch-Good, bind-Good}
use scnsim.Session.Refines.{Ready, waiting, sweeps, runs, Ready-Talked, IsReady, converse-Ready}
use scnsim.Session.Greet.{Apart, Greeted, authorize_child-Ready}

module _ (c : Launch) (apart : Apart c) (w : World) where
  -- What a returned outcome says.
  pub record Concluded (frame : Frame) (s : Session) : Type 0 where
    pub attempt : String
    pub ready : Ready c attempt s
    pub checked :
        (c.optimization_operation && (not s.committed && member "status" (is_text "success") frame))
        ≡ false

  module _ (integral : ℕ → Option ℤ) (loads : String → Option Decoded) (dumps : Frame → String)
      (loads_pairs : String → Option Decoded) (search contains_text : String → String → Bool) where
    conclude-Concluded :
        (a : String) (readers_hold exited_well : Bool) (outcome : Answer Frame) (s : Session)
        → Ready c a s
        → Good c Concluded (
            conclude w c integral loads dumps loads_pairs search contains_text readers_hold
              exited_well outcome s)
    unfolding conclude
    conclude-Concluded a readers_hold exited_well outcome s h =
        branch-Good c Concluded (not readers_hold || not exited_well) _ _
          (λ _. Ready-Talked c a s h) (λ _. judge outcome)
      where
        unproven : Frame → Bool
        unproven frame =
            c.optimization_operation
            && (not s.committed && member "status" (is_text "success") frame)

        call : Answer Frame → Answer Frame × Session
        call (stops e) = (stops e, s)
        call (gives frame) = if unproven frame then (stops failed, s) else (gives frame, s)

        judge : (r : Answer Frame) → Good c Concluded (call r)
        judge (stops e) = Ready-Talked c a s h
        judge (gives frame) =
            branch-Good c Concluded (unproven frame) (stops failed, s) (gives frame, s)
              (λ _. Ready-Talked c a s h)
              (λ fine. record { attempt = a; ready = h; checked = fine })

    talk-Concluded :
        (inputs : List Input) (readers_hold exited_well : Bool) (outcome : Answer Frame)
        → Good c Concluded (
            talk w c integral loads dumps loads_pairs search contains_text inputs readers_hold
              exited_well outcome new_session)
    unfolding talk
    talk-Concluded [] readers_hold exited_well outcome = (idle, silent)
    talk-Concluded (interrupt ∷ inputs) readers_hold exited_well outcome = (idle, silent)
    talk-Concluded (line first ∷ inputs) readers_hold exited_well outcome = begin (
        validate_bootstrap integral loads dumps c.request_sha256 c.attempt_ordinal
          c.expected_version c.hb_operation first)
      where
        rest : String → Step (Unit {0})
        rest a = converse w c integral loads dumps loads_pairs search contains_text a inputs

        last : Step Frame
        last =
            conclude w c integral loads dumps loads_pairs search contains_text readers_hold
              exited_well outcome

        call : Option BootstrapReady → Answer Frame × Session
        call none = (stops failed, new_session)
        call (some ready) =
            bind (authorize_child w c ready) (λ a. bind (rest a) (λ _. last)) new_session

        begin : (r : Option BootstrapReady) → Good c Concluded (call r)
        begin none = (idle, silent)
        begin (some ready) =
            bind-Good c (Greeted c apart w) Concluded (authorize_child w c ready)
              (λ a. bind (rest a) (λ _. last)) new_session
              (authorize_child-Ready c apart w ready new_session refl silent)
              λ a s h.
                bind-Good c (IsReady c w a) Concluded (rest a) (λ _. last) s
                  (converse-Ready c w a integral loads dumps loads_pairs search contains_text inputs
                    s h)
                  (λ _ t. conclude-Concluded a readers_hold exited_well outcome t)

    abbrev ran : List Input → Bool → Bool → Answer Frame → Answer Frame × Session
    ran = run_terminal w c integral loads dumps loads_pairs search contains_text

    run_terminal-Concluded :
        (inputs : List Input) (readers_hold exited_well : Bool) (outcome : Answer Frame)
        → Good c Concluded (ran inputs readers_hold exited_well outcome)
    unfolding run_terminal
    run_terminal-Concluded inputs readers_hold exited_well outcome =
        branch-Good c Concluded (not (launch_holds c)) (stops failed, new_session) (mapped talked)
          (λ _. (idle, silent))
          (λ _. keep talked (talk-Concluded inputs readers_hold exited_well outcome))
      where
        talked : Answer Frame × Session
        talked =
            talk w c integral loads dumps loads_pairs search contains_text inputs readers_hold
              exited_well outcome new_session

        mapped : Answer Frame × Session → Answer Frame × Session
        mapped r = (
          elim r.0 [
            | gives frame ↦ gives frame
            | stops e ↦ stops (elim e [ transport_error ↦ failed | kept ↦ kept ])
          ],
          r.1,
        )

        keep : (r : Answer Frame × Session) → Good c Concluded r → Good c Concluded (mapped r)
        keep (gives frame, s) h = h
        keep (stops e, s) h = h

    Concluded-commitments :
        (frame : Frame) (s : Session)
        → c.optimization_operation ≡ true
        → member "status" (is_text "success") frame ≡ true
        → Concluded frame s
        → (attempt : String) × Conversation c (running attempt) s.acts × (commitments s.acts ≡ 1)
    Concluded-commitments frame s o success h = split h.ready
      where
        split :
            Ready c h.attempt s
            → (attempt : String) × Conversation c (running attempt) s.acts
              × (commitments s.acts ≡ 1)
        split (waiting p q k u t) = absurd (ground (arith, o, u, success, h.checked))
        split (sweeps p q t) = absurd (ground (arith, o, p))
        split (runs q u t) = (
          h.attempt,
          t,
          ground (arith, o, Conversation-commitments c (running h.attempt) s.acts t),
        )

    -- Unless a request is both an optimization and a sweep, when run_terminal returns a success
    -- of an optimization, exactly one committed checkpoint was told to the child, and its input
    -- is closed.
    pub run_terminal-commitments :
        (inputs : List Input) (readers_hold exited_well : Bool) (outcome : Answer Frame)
        (frame : Frame) (s : Session)
        → c.optimization_operation ≡ true
        → run_terminal w c integral loads dumps loads_pairs search contains_text inputs readers_hold
            exited_well outcome
          ≡ (gives frame, s)
        → member "status" (is_text "success") frame ≡ true
        → (attempt : String) × Conversation c (running attempt) s.acts × (commitments s.acts ≡ 1)
    run_terminal-commitments inputs readers_hold exited_well outcome frame s o e success =
        Concluded-commitments frame s o success (
          subst (Good c Concluded) e
            (run_terminal-Concluded inputs readers_hold exited_well outcome))
