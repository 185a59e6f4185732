-- ===== src/Session/Good.antt =====
-- The single steps of `run_terminal` of src/scnsim/execution/process.py and the grammar.
use scnsim.Base.{List, ◌∷◌, ◌≡◌, refl, Bool, true, false, ◌||◌, if◌then◌else◌}
use scnsim.Session.State.{
  Stop, transport_error, acting, Answer, stops, gives, Message, Act, Launch, World, Session, Step,
  bind, raise_if, sent,
}
use scnsim.Session.Terminal.{write, calling}
use scnsim.Session.Automaton.{Talked}

module _ (c : Launch) where
  -- A step that returned has its postcondition; one that raised has kept to the grammar.
  abbrev pub Good : {A : Type 0} → (A → Session → Type 0) → Answer A × Session → Type 0
  Good Q (gives x, s) = Q x s
  Good Q (stops e, s) = Talked c s.acts

  pub bind-Good :
      {A B : Type 0} (Q : A → Session → Type 0) (R : B → Session → Type 0) (m : Step A)
      (k : A → Step B) (s : Session)
      → Good Q (m s)
      → ((x : A) (t : Session) → Q x t → Good R (k x t))
      → Good R (bind m k s)
  bind-Good {A = A} {B = B} Q R m k s h f = split (m s) h
    where
      split :
          (r : Answer A × Session)
          → Good Q r
          → Good R (elim r.0 [ gives x ↦ k x r.1 | stops e ↦ (stops e, r.1) ])
      split (gives x, t) h = f x t h
      split (stops e, t) h = h

  -- The session after an act.
  abbrev pub acted : Act → Session → Session
  acted a s = record s { acts = a ∷ s.acts }

  -- A branch of the code.
  pub branch-Good :
      {A : Type 0} (Q : A → Session → Type 0) (b : Bool) (r t : Answer A × Session)
      → (b ≡ true → Good Q r)
      → (b ≡ false → Good Q t)
      → Good Q (if b then r else t)
  branch-Good Q true r t f g = f refl
  branch-Good Q false r t f g = g refl

  -- The single steps, with what follows them.
  pub raise_if-bind :
      {B : Type 0} (R : B → Session → Type 0) (b : Bool) (e : Stop) (k : Step B) (s : Session)
      → Talked c s.acts
      → (b ≡ false → Good R (k s))
      → Good R (bind (raise_if b e) (λ _. k) s)
  raise_if-bind R true e k s h f = h
  raise_if-bind R false e k s h f = f refl

  module _ (w : World) where
    pub write-bind :
        {B : Type 0} (R : B → Session → Type 0) (m : Message) (k : Step B) (s : Session)
        → Talked c s.acts
        → Good R (k (acted (sent m) s))
        → Good R (bind (write w m) (λ _. k) s)
    unfolding write
    write-bind {B = B} R m k s h f = split (s.stdin_closed || w.pipe_breaks s.acts)
      where
        step : Bool → Answer (Unit {0}) × Session
        step b = if b then (stops transport_error, s) else acting (sent m) s

        split :
            (b : Bool)
            → Good R (elim (step b).0 [ gives x ↦ k (step b).1 | stops e ↦ (stops e, (step b).1) ])
        split true = h
        split false = f

    pub write-Good :
        (R : Unit {0} → Session → Type 0) (m : Message) (s : Session)
        → Talked c s.acts
        → R tt (acted (sent m) s)
        → Good R (write w m s)
    unfolding write
    write-Good R m s h f = split (s.stdin_closed || w.pipe_breaks s.acts)
      where
        split : (b : Bool) → Good R (if b then (stops transport_error, s) else acting (sent m) s)
        split true = h
        split false = f

    pub calling-bind :
        {A B : Type 0} (R : B → Session → Type 0) (f : List Act → Answer A) (act : A → Act)
        (k : A → Step B) (s : Session)
        → Talked c s.acts
        → ((x : A) → Good R (k x (acted (act x) s)))
        → Good R (bind (calling w f act) k s)
    unfolding calling
    calling-bind {A = A} R f act k s h g = split (f s.acts)
      where
        step : Answer A → Answer A × Session
        step r = elim r [ stops e ↦ (stops e, s) | gives x ↦ (gives x, acted (act x) s) ]

        split :
            (r : Answer A)
            → Good R
                (elim (step r).0 [ gives x ↦ k x (step r).1 | stops e ↦ (stops e, (step r).1) ])
        split (stops e) = h
        split (gives x) = g x
