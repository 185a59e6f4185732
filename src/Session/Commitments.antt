-- ===== src/Session/Commitments.antt =====
-- How often a conversation of src/scnsim/execution/process.py commits a baseline checkpoint.
use scnsim.Base.{ℕ, List, [], ◌∷◌, ◌+◌, ◌≡◌, refl, true, arith, if◌then◌else◌}
use scnsim.Session.State.{Launch, Act, sent, checkpoint_reused, checkpoint_committed}
use scnsim.Session.Automaton.{
  Phase, idle, granted, told, committing, sweeping, running, offered, pointed, Conversation, silent,
  grants, tells, reuses, offers, closes, starts, recovers, points, acknowledges, delivers_sweeping,
  delivers_running,
}

-- The lines that tell the child of a committed checkpoint.
unfoldable pub commitments : List Act → ℕ
commitments [] = 0
commitments (sent (checkpoint_reused a k) ∷ t) = commitments t + 1
commitments (sent (checkpoint_committed a k) ∷ t) = commitments t + 1
commitments (_ ∷ t) = commitments t

-- How many a phase wants.
abbrev pub Wants : Launch → Phase → ℕ → Type 0
Wants c (committing a) n = (c.optimization_operation ≡ true) × (n ≡ 1)
Wants c (running a) n = n ≡ (if c.optimization_operation then 1 else 0)
Wants c (offered a ready published) n = (c.optimization_operation ≡ true) × (n ≡ 0)
Wants c idle n = n ≡ 0
Wants c (granted a) n = n ≡ 0
Wants c (told a) n = n ≡ 0
Wants c (sweeping a) n = n ≡ 0
Wants c (pointed a ready published) n = n ≡ 0

pub Conversation-commitments :
    (c : Launch) (phase : Phase) (t : List Act)
    → Conversation c phase t
    → Wants c phase (commitments t)
unfolding commitments
Conversation-commitments c _ _ silent = refl
Conversation-commitments c _ _ (grants h) = Conversation-commitments c _ _ h
Conversation-commitments c _ _ (tells e h) = Conversation-commitments c _ _ h
Conversation-commitments c _ _ (reuses o k e h) =
    let n = Conversation-commitments c _ _ h in (o, omega (arith, n))
Conversation-commitments c _ _ (offers o k h) = (o, Conversation-commitments c _ _ h)
Conversation-commitments c _ _ (Conversation.commits e h) =
    let (o, n) = Conversation-commitments c _ _ h in (o, omega (arith, n))
Conversation-commitments c _ _ (closes h) =
    let (o, n) = Conversation-commitments c _ _ h in ground (arith, o, n)
Conversation-commitments c _ _ (starts o p h) =
    let n = Conversation-commitments c _ _ h in ground (arith, o, n)
Conversation-commitments c _ _ (recovers p h) = Conversation-commitments c _ _ h
Conversation-commitments c _ _ (points h) = Conversation-commitments c _ _ h
Conversation-commitments c _ _ (acknowledges e h) = Conversation-commitments c _ _ h
Conversation-commitments c _ _ (delivers_sweeping h) = Conversation-commitments c _ _ h
Conversation-commitments c _ _ (delivers_running h) = Conversation-commitments c _ _ h
