-- ===== src/Session/Automaton.antt =====
-- The conversations of `run_terminal` of src/scnsim/execution/process.py, as a grammar of acts.
use scnsim.Base.{String, List, [], ◌∷◌, ◌≡◌, true, false, none, some}
use scnsim.Protocol.Json.{text, Frame, is_sha256}
use scnsim.Session.State.{
  Act, authorized, sent, closed_input, point_published, checkpoint_published, delivered,
  authorization, checkpoint_reused, point_recovery, point_committed, checkpoint_committed, Launch,
}
use scnsim.Session.Judge.{is_identity, point_agrees, checkpoint_agrees}
use scnsim.Session.Terminal.{}

-- How far a conversation is; the text is the hash of the attempt that was authorized.
pub data Phase : Type 0 where
  idle : Phase
  granted told committing sweeping running : String → Phase
  offered pointed : String → (ready published : Frame) → Phase

-- The acts, the last one first, that lead to a phase.
pub data Conversation (c : Launch) : Phase → List Act → Type 0 where
  silent : Conversation c idle []
  grants :
      {a : String} {t : List Act}
      → Conversation c idle t
      → Conversation c (granted a) (authorized a ∷ t)
  tells :
      {a : String} {t : List Act}
      → is_sha256 (text a) ≡ true
      → Conversation c (granted a) t
      → Conversation c (told a) (sent (authorization a) ∷ t)
  reuses :
      {a : String} {k : Frame} {t : List Act}
      → c.optimization_operation ≡ true
      → c.checkpoint ≡ some k
      → is_identity k ≡ true
      → Conversation c (told a) t
      → Conversation c (committing a) (sent (checkpoint_reused a k) ∷ t)
  offers :
      {a : String} {ready published : Frame} {t : List Act}
      → c.optimization_operation ≡ true
      → c.checkpoint ≡ none
      → Conversation c (told a) t
      → Conversation c (offered a ready published) (checkpoint_published ready published ∷ t)
  commits :
      {a : String} {ready published : Frame} {t : List Act}
      → checkpoint_agrees ready published ≡ true
      → Conversation c (offered a ready published) t
      → Conversation c (committing a) (sent (checkpoint_committed a published) ∷ t)
  closes :
      {a : String} {t : List Act}
      → Conversation c (committing a) t
      → Conversation c (running a) (closed_input ∷ t)
  starts :
      {a : String} {t : List Act}
      → c.optimization_operation ≡ false
      → c.sweep_operation ≡ false
      → Conversation c (told a) t
      → Conversation c (running a) (closed_input ∷ t)
  recovers :
      {a : String} {t : List Act}
      → c.sweep_operation ≡ true
      → Conversation c (told a) t
      → Conversation c (sweeping a) (sent (point_recovery a) ∷ t)
  points :
      {a : String} {ready published : Frame} {t : List Act}
      → Conversation c (sweeping a) t
      → Conversation c (pointed a ready published) (point_published ready published ∷ t)
  acknowledges :
      {a : String} {ready published : Frame} {t : List Act}
      → point_agrees ready published ≡ true
      → Conversation c (pointed a ready published) t
      → Conversation c (sweeping a) (sent (point_committed a ready published) ∷ t)
  delivers_sweeping :
      {a : String} {event : Frame} {t : List Act}
      → Conversation c (sweeping a) t
      → Conversation c (sweeping a) (delivered event ∷ t)
  delivers_running :
      {a : String} {event : Frame} {t : List Act}
      → Conversation c (running a) t
      → Conversation c (running a) (delivered event ∷ t)

-- Acts that are a conversation up to some phase.
abbrev pub Talked : Launch → List Act → Type 0
Talked c t = (phase : Phase) × Conversation c phase t
