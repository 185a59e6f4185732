-- ===== src/Assembly/Once.antt =====
-- A component of src/scnsim/authoring/assembly.py stands in one series at most.
use scnsim.Base.{
  ℕ, List, [], ◌∷◌, ◌≡◌, refl, inl, inr, Bool, true, false, ◌||◌, arith, subst, Bool-cases,
  if◌then◌else◌, nat_beq, nat_beq_iff,
}
use scnsim.Base.Eq.{nat_eq}
use scnsim.Base.Dict.{contains}
use scnsim.Assembly.State.{Plan, Endpoint, Element, body_of, between_of, no_element, Use, Part}
use scnsim.Assembly.Action.{
  Answer, fails, gives, Error, Method, ◌then◌, bind, returning, body_consumed,
}
use scnsim.Assembly.Endpoints.{use_element, check_endpoint}
use scnsim.Assembly.Chain.{
  ◌also◌, use_all, bodies, any_used, has_twice, distinct_ends, prepared_chain, connect, set_used,
  join_pin, part,
}
use scnsim.Assembly.Consumed.{Used, Keeps, bind-Keeps, join_pin-Keeps, connect-Keeps}

-- Whether a component's body is one of the elements.
unfoldable pub holds_body : ℕ → List Element → Bool
holds_body c [] = false
holds_body c (body_of d ∷ xs) = nat_beq d c || holds_body c xs
holds_body c (between_of d a b ∷ xs) = nat_beq d c || holds_body c xs
holds_body c (no_element ∷ xs) = holds_body c xs

use_element-component :
    (self : ℕ) (x : Element) (u : Use) (p : Plan) (c : ℕ)
    → use_element self x p ≡ gives u
    → holds_body c (x ∷ []) ≡ true
    → u.component ≡ c
unfolding use_element holds_body
use_element-component self (body_of d) u p c h e = ground (arith, h, e, nat_beq_iff d c)
use_element-component self (between_of d a b) u p c h e = ground (arith, h, e, nat_beq_iff d c)
use_element-component self no_element u p c h e = absurd (ground (arith, h))

holds_first :
    (c : ℕ) (x : Element) (xs : List Element)
    → holds_body c (x ∷ xs) ≡ (holds_body c (x ∷ []) || holds_body c xs)
unfolding holds_body
holds_first c (body_of d) xs = ground arith
holds_first c (between_of d a b) xs = ground arith
holds_first c no_element xs = refl

-- The prepared uses have the bodies of the elements.
pub use_all-bodies :
    (self c : ℕ) (xs : List Element) (us : List Use) (p : Plan)
    → use_all self xs p ≡ gives us
    → holds_body c xs ≡ true
    → contains c (bodies us) ≡ true
unfolding use_all contains holds_body
use_all-bodies self c [] us p e h = absurd (ground (arith, h))
use_all-bodies self c (x ∷ xs) us p e h =
    split (use_element self x p) refl (use_all self xs p) refl (λ vs. use_all-bodies self c xs vs p)
  where
    first :
        (u : Use) → use_element self x p ≡ gives u → holds_body c (x ∷ []) ≡ true → u.component ≡ c
    first u k o = use_element-component self x u p c k o

    split :
        (a : Answer Use)
        → use_element self x p ≡ a
        → (b : Answer (List Use)) → use_all self xs p ≡ b
        → ((vs : List Use)
            → use_all self xs p ≡ gives vs
            → holds_body c xs ≡ true
            → contains c (bodies vs) ≡ true)
        → contains c (bodies us) ≡ true
    split (fails f) k b l rest = absurd (ground (arith, e, k))
    split (gives u) k (fails f) l rest = absurd (ground (arith, e, k, l))
    split (gives u) k (gives vs) l rest =
        let same : (u ∷ vs) ≡ us = ground (arith, e, k, l) in
        subst (λ us. contains c (bodies us) ≡ true) same
          (elim (Bool-cases (holds_body c (x ∷ []))) [
            | inl o ↦
                ground (arith, first u k o, nat_beq_iff u.component c, nat_beq_iff c u.component)
            | inr o ↦ ground (arith, o, h, holds_first c x xs, rest vs l)
          ])

contains-any_used :
    (c : ℕ) (ds : List ℕ) (p : Plan) → Used c p → contains c ds ≡ true → any_used ds p ≡ true
unfolding contains any_used
contains-any_used c [] p u h = absurd (ground (arith, h))
contains-any_used c (d ∷ ds) p u h =
    ground (arith, u, h, contains-any_used c ds p u, nat_beq_iff d c, nat_beq_iff c d)

also_gives :
    {A : Type 0} (a : Answer (Unit {0})) (b : Answer A) (x : A) → (a also b) ≡ gives x → b ≡ gives x
also_gives (fails e) b x h = absurd (ground (arith, h))
also_gives (gives _) b x h = h

-- What is prepared has all its bodies unused.
pub prepared_chain-use_all :
    (self : ℕ) (xs : List Element) (start end : Endpoint) (p : Plan) (us : List Use)
    → prepared_chain self xs start end p ≡ gives us
    → (use_all self xs p ≡ gives us) × (any_used (bodies us) p ≡ false)
unfolding prepared_chain
prepared_chain-use_all self [] start end p us h = absurd (ground (arith, h))
prepared_chain-use_all self (x ∷ xs) start end p us h = split (use_all self (x ∷ xs) p) refl (
    also_gives (distinct_ends start end p) (judged (use_all self (x ∷ xs) p)) us (
      also_gives (check_endpoint self false end p) _ us
        (also_gives (check_endpoint self false start p) _ us h)))
  where
    judged : Answer (List Use) → Answer (List Use)
    judged (fails e) = fails e
    judged (gives vs) =
        if has_twice (bodies vs) || any_used (bodies vs) p then fails body_consumed else gives vs

    split :
        (r : Answer (List Use))
        → use_all self (x ∷ xs) p ≡ r
        → judged r ≡ gives us
        → (use_all self (x ∷ xs) p ≡ gives us) × (any_used (bodies us) p ≡ false)
    split (fails e) k g = absurd (ground (arith, g))
    split (gives vs) k g = (ground (arith, k, g), ground (arith, g))

pub prepared_chain-fails :
    (c self : ℕ) (xs : List Element) (start end : Endpoint) (p : Plan)
    → Used c p
    → holds_body c xs ≡ true
    → (e : Error) × (prepared_chain self xs start end p ≡ fails e)
prepared_chain-fails c self xs start end p u h = split (prepared_chain self xs start end p) refl
  where
    split :
        (r : Answer (List Use))
        → prepared_chain self xs start end p ≡ r
        → (e : Error) × (r ≡ fails e)
    split (fails e) k = (e, refl)
    split (gives us) k =
        let (all, unused) = prepared_chain-use_all self xs start end p us k in
        let found = use_all-bodies self c xs us p all h in
        let taken = contains-any_used c (bodies us) p u found in
        absurd (ground (arith, taken, unused))

-- A method that leaves the mark when it returns.
abbrev pub Marks : {A : Type 0} → ℕ → Method A → Type 0
Marks {A = A} c m = (p : Plan) (x : A) → (m p).0 ≡ gives x → Used c (m p).1

module _ (c : ℕ) where
  -- The mark is set by what follows.
  pub bind-Marks :
      {A B : Type 0} (m : Method A) (k : A → Method B)
      → ((x : A) → Marks c (k x))
      → Marks c (bind m k)
  bind-Marks {A = A} {B = B} m k f p y h = split (m p) h
    where
      next : Answer A × Plan → Answer B × Plan
      next r = elim r.0 [ gives x ↦ k x r.1 | fails e ↦ (fails e, r.1) ]

      split : (r : Answer A × Plan) → (next r).0 ≡ gives y → Used c (next r).1
      split (gives x, q) h = f x q y h
      split (fails e, q) h = absurd (ground (arith, h))

  -- The mark is set at once, and what follows keeps it.
  pub bind-Keeps-Marks :
      {A B : Type 0} (m : Method A) (k : A → Method B)
      → Marks c m
      → ((x : A) → Keeps c (k x))
      → Marks c (bind m k)
  bind-Keeps-Marks {A = A} {B = B} m k f g p y h = split (m p) (f p) h
    where
      next : Answer A × Plan → Answer B × Plan
      next r = elim r.0 [ gives x ↦ k x r.1 | fails e ↦ (fails e, r.1) ]

      split :
          (r : Answer A × Plan)
          → ((x : A) → r.0 ≡ gives x → Used c r.1)
          → (next r).0 ≡ gives y
          → Used c (next r).1
      split (gives x, q) f h = g x q (f x refl)
      split (fails e, q) f h = absurd (ground (arith, h))

  set_used-mark : (d : ℕ) (p : Plan) → nat_beq d c ≡ true → Used c (set_used d p)
  set_used-mark d p h = ground (arith, h, nat_beq_iff c d, nat_beq_iff d c)

  pub connect-Marks :
      (self : ℕ) (us : List Use) (ns : List ℕ)
      → contains c (bodies us) ≡ true
      → Marks c (connect self us ns)
  unfolding connect contains
  connect-Marks self [] ns h p x g = absurd (ground (arith, h))
  connect-Marks self (v ∷ us) [] h p x g = absurd (ground (arith, g))
  connect-Marks self (v ∷ us) (n ∷ []) h p x g = absurd (ground (arith, g))
  connect-Marks self (v ∷ us) (n ∷ m ∷ ns) h p x g = elim (Bool-cases (nat_beq v.component c)) [
    | inl here ↦
        bind-Keeps c (join_pin self v.pin_1 n) second (join_pin-Keeps c self v.pin_1 n)
          (λ _.
            bind-Keeps c (join_pin self v.pin_2 m) third (join_pin-Keeps c self v.pin_2 m) λ _ q.
              bind-Keeps c (connect self us (m ∷ ns)) (last q) (connect-Keeps c self us (m ∷ ns))
                (λ parts t w. w) q)
          (set_used v.component p) (set_used-mark v.component p here)
    | inr there ↦
        bind-Marks (join_pin self v.pin_1 n) second
          (λ _. bind-Marks (join_pin self v.pin_2 m) third λ _ q.
            bind-Keeps-Marks (connect self us (m ∷ ns)) (last q)
              (connect-Marks self us (m ∷ ns) (ground (arith, h, there))) (λ parts t w. w) q)
          (set_used v.component p) x g
  ]
    where
      last : Plan → List Part → Method (List Part)
      last q parts = returning (part self v q ∷ parts)

      third : Unit {0} → Method (List Part)
      third _ q = bind (connect self us (m ∷ ns)) (last q) q

      second : Unit {0} → Method (List Part)
      second _ = bind (join_pin self v.pin_2 m) third
