-- ===== src/Execution/Keeps.antt =====
-- The nested functions of src/scnsim/execution/coordinator.py keep to the grammar of journals.
use scnsim.Base.{
  ℕ, String, List, ◌∷◌, ◌≡◌, sym, refl, Bool, true, false, Option, none, some, subst, if◌then◌else◌,
}
use scnsim.Execution.State.{
  Fault, foreign, Answer, raises, gives, Kind, AttemptState, allocated, Act, attempt_sealed,
  attempt_promoted, Request, World, State, Step, bind, returning, note, asking, calling,
  call_raised,
}
use scnsim.Execution.Attempt.{seal, sealed_attempt, promote, promote_receipt, asserted}
use scnsim.Execution.Journal.{Stage, held, done, Journal, seals, raised}

abbrev pub Kept : State → Type 0
Kept s = (stage : Stage) × Journal stage s.acts

-- After a raise, and after a return.
abbrev pub Good : {A : Type 0} → (State → Type 0) → (A → State → Type 0) → Answer A × State → Type 0
Good E Q (gives x, s) = Q x s
Good E Q (raises e, s) = E s

-- The attempt is held under the hash that the local variable has.
abbrev pub Held : State → Type 0
Held s = Journal (held s.attempt) s.acts

pub Held-Kept : (s : State) → Held s → Kept s
Held-Kept s h = (held s.attempt, h)

pub bind-Good :
    {A B : Type 0} (E F : State → Type 0) (Q : A → State → Type 0) (R : B → State → Type 0)
    (m : Step A) (k : A → Step B) (s : State)
    → Good E Q (m s)
    → ((t : State) → E t → F t)
    → ((x : A) (t : State) → Q x t → Good F R (k x t))
    → Good F R (bind m k s)
bind-Good {A = A} {B = B} E F Q R m k s h e f = split (m s) h
  where
    split :
        (r : Answer A × State)
        → Good E Q r
        → Good F R (elim r.0 [ gives x ↦ k x r.1 | raises e ↦ (raises e, r.1) ])
    split (gives x, t) h = f x t h
    split (raises d, t) h = e t h

pub map-Good :
    {A : Type 0} (E : State → Type 0) (Q R : A → State → Type 0) (r : Answer A × State)
    → ((x : A) (t : State) → Q x t → R x t)
    → Good E Q r
    → Good E R r
map-Good E Q R (gives x, t) f h = f x t h
map-Good E Q R (raises e, t) f h = h

-- A call with what follows it.
module _ {A B : Type 0} (E : State → Type 0) (R : B → State → Type 0) (k : A → Step B) (s : State)
    (failing : (e : Fault) → E (note (call_raised e) s)) where
  pub asking-bind :
      (f : List Act → Answer A) → ((x : A) → Good E R (k x s)) → Good E R (bind (asking f) k s)
  asking-bind f g = split (f s.acts)
    where
      call : Answer A → Answer A × State
      call (raises e) = (raises e, note (call_raised e) s)
      call (gives x) = (gives x, s)

      split :
          (r : Answer A)
          → Good E R
              (elim (call r).0 [ gives x ↦ k x (call r).1 | raises e ↦ (raises e, (call r).1) ])
      split (raises e) = failing e
      split (gives x) = g x

  pub calling-bind :
      (f : List Act → Answer A) (act : A → Act)
      → ((x : A) → Good E R (k x (note (act x) s)))
      → Good E R (bind (calling f act) k s)
  calling-bind f act g = split (f s.acts)
    where
      call : Answer A → Answer A × State
      call (raises e) = (raises e, note (call_raised e) s)
      call (gives x) = (gives x, note (act x) s)

      split :
          (r : Answer A)
          → Good E R
              (elim (call r).0 [ gives x ↦ k x (call r).1 | raises e ↦ (raises e, (call r).1) ])
      split (raises e) = failing e
      split (gives x) = g x

pub calling-Good :
    {A : Type 0} (E : State → Type 0) (R : A → State → Type 0) (f : List Act → Answer A)
    (act : A → Act) (s : State)
    → ((e : Fault) → E (note (call_raised e) s))
    → ((x : A) → R x (note (act x) s))
    → Good E R (calling f act s)
calling-Good {A = A} E R f act s failing g = split (f s.acts)
  where
    call : Answer A → Answer A × State
    call (raises e) = (raises e, note (call_raised e) s)
    call (gives x) = (gives x, note (act x) s)

    split : (r : Answer A) → Good E R (call r)
    split (raises e) = failing e
    split (gives x) = g x

-- The attempt is held under a hash that is known.
abbrev pub HeldBy : String → State → Type 0
HeldBy sha t = (t.attempt ≡ some sha) × Journal (held (some sha)) t.acts

pub HeldBy-Held : (sha : String) (t : State) → HeldBy sha t → Held t
HeldBy-Held sha t (e, h) = subst (λ x. Journal (held x) t.acts) (sym e) h

module _ (w : World) (r : Request) where
  pub seal-HeldBy :
      (state : AttemptState) (s : State) → Held s → Good Held HeldBy (seal w r state s)
  unfolding seal
  seal-HeldBy state s h = split (w.seal_attempt state s.acts)
    where
      call : Answer String → Answer String × State
      call (raises e) = (raises e, note (call_raised e) s)
      call (gives sha) =
          (gives sha, note (attempt_sealed state sha) (record s { attempt = some sha }))

      split : (a : Answer String) → Good Held HeldBy (call a)
      split (raises e) = raised h
      split (gives sha) = (refl, seals h)

  pub sealed_attempt-HeldBy : (s : State) → Held s → Good Held HeldBy (sealed_attempt w r s)
  unfolding sealed_attempt
  sealed_attempt-HeldBy s h = split s.attempt refl
    where
      call : Option String → Answer String × State
      call none = seal w r allocated s
      call (some sha) = (gives sha, s)

      split : (x : Option String) → s.attempt ≡ x → Good Held HeldBy (call x)
      split none e = seal-HeldBy allocated s h
      split (some sha) e = (e, subst (λ x. Journal (held x) s.acts) e h)

  pub asserted-HeldBy : (s : State) → Held s → Good Held HeldBy (asserted w r s)
  unfolding asserted
  asserted-HeldBy s h = split s.attempt refl
    where
      call : Option String → Answer String × State
      call none = (raises foreign, s)
      call (some sha) = (gives sha, s)

      split : (x : Option String) → s.attempt ≡ x → Good Held HeldBy (call x)
      split none e = h
      split (some sha) e = (e, subst (λ x. Journal (held x) s.acts) e h)

  abbrev pub Done : Kind → String → State → Type 0
  Done kind sha t = Journal (done kind sha) t.acts

  pub promote-Done :
      (stage : Stage) (kind : Kind) (sha : String) (s : State)
      → ((t : List Act) → Journal stage t → Journal (done kind sha) (attempt_promoted kind sha ∷ t))
      → Journal stage s.acts
      → Good Kept (λ _. Done kind sha) (promote w r kind sha s)
  unfolding promote
  promote-Done stage kind sha s up h = split r.is_sweep
    where
      last : ℕ → Step (Unit {0})
      last _ = calling (w.promote_attempt kind sha) (λ _. attempt_promoted kind sha)

      ends : (n : ℕ) → Good Kept (λ _. Done kind sha) (last n s)
      ends n =
          calling-Good Kept (λ _. Done kind sha) (w.promote_attempt kind sha)
            (λ _. attempt_promoted kind sha) s (λ e. (stage, raised h)) (λ _. up s.acts h)

      split :
          (b : Bool)
          → Good Kept
              (λ _. Done kind sha)
              (bind (if b then asking w.point_checkpoints else returning 0) last s)
      split true =
          asking-bind Kept (λ _. Done kind sha) last s (λ e. (stage, raised h)) w.point_checkpoints
            ends
      split false = ends 0

  pub promote_receipt-Done :
      (stage : Stage) (kind : Kind) (sha : String) (s : State)
      → ((t : List Act) → Journal stage t → Journal (done kind sha) (attempt_promoted kind sha ∷ t))
      → Journal stage s.acts
      → Good Kept (λ _. Done kind sha) (promote_receipt w r kind sha s)
  unfolding promote_receipt
  promote_receipt-Done stage kind sha s up h =
      asking-bind Kept (λ _. Done kind sha) (λ _. promote w r kind sha) s (λ e. (stage, raised h))
        (w.receipt kind) (λ _. promote-Done stage kind sha s up h)
