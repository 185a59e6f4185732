-- ===== src/Assembly/Consumed.antt =====
-- The `used` mark of a component in src/scnsim/authoring/assembly.py: the wiring keeps it.
use scnsim.Base.{
  ℕ, List, [], ◌∷◌, ◌++◌, ◌≡◌, inl, inr, Bool, true, false, not, arith, sym, subst, Option-cases,
  if◌then◌else◌, nat_beq, nat_beq_iff,
}
use scnsim.Wire.Net.{join}
use scnsim.Assembly.State.{
  Plan, Endpoint, ground_of, bus_at, tap_at, pin_at, no_endpoint, Element, Use, Part,
}
use scnsim.Assembly.Action.{Answer, fails, gives, Method, ◌then◌, bind, read, returning}
use scnsim.Assembly.Endpoints.{is_reachable, touch_pin, getnet}
use scnsim.Assembly.Chain.{
  join_pin, set_used, part, connect, chain, prepared_chain, new_nets, after_first,
}

module _ (c : ℕ) where
  abbrev pub Used : Plan → Type 0
  Used p = nat_beq (p.components c).used 0 ≡ false

  abbrev pub Keeps : {A : Type 0} → Method A → Type 0
  Keeps m = (p : Plan) → Used p → Used (m p).1

  pub then-Keeps :
      {A : Type 0} (test : Plan → Answer (Unit {0})) (body : Method A)
      → Keeps body
      → Keeps (test then body)
  then-Keeps {A = A} test body h p u = split (test p)
    where
      split :
          (r : Answer (Unit {0}))
          → Used (elim r as (λ _. Answer A × Plan) [ fails e ↦ (fails e, p) | gives _ ↦ body p ]).1
      split (fails e) = u
      split (gives _) = h p u

  pub bind-Keeps :
      {A B : Type 0} (m : Method A) (k : A → Method B)
      → Keeps m
      → ((x : A) → Keeps (k x))
      → Keeps (bind m k)
  bind-Keeps {A = A} {B = B} m k h f p u = split (m p) (h p u)
    where
      split :
          (r : Answer A × Plan)
          → Used r.1
          → Used
              (elim r.0 as (λ _. Answer B × Plan) [
                | gives x ↦ k x r.1
                | fails e ↦ (fails e, r.1)
              ]).1
      split (gives x, q) v = f x q v
      split (fails e, q) v = v

  pub read-Keeps :
      {A B : Type 0} (f : Plan → Answer A) (k : A → Method B)
      → ((x : A) → Keeps (k x))
      → Keeps (read f k)
  read-Keeps {A = A} {B = B} f k h p u = split (f p)
    where
      split :
          (r : Answer A)
          → Used (elim r as (λ _. Answer B × Plan) [ gives x ↦ k x p | fails e ↦ (fails e, p) ]).1
      split (gives x) = h x p u
      split (fails e) = u

  pub branch-Keeps :
      {A : Type 0} (b : Bool) (r t : Answer A × Plan)
      → Used r.1
      → Used t.1
      → Used (if b then r else t).1
  branch-Keeps true r t f g = f
  branch-Keeps false r t f g = g

  touch_pin-components : (i : ℕ) (p : Plan) → (touch_pin i p).1.components ≡ p.components
  unfolding touch_pin
  touch_pin-components i p = elim (Option-cases (p.pins i).net) [
    | inl h ↦ ground (arith, h)
    | inr (n, h) ↦ ground (arith, h)
  ]

  pub getnet-Keeps : (self : ℕ) (x : Endpoint) (link : Bool) → Keeps (getnet self x link)
  unfolding getnet
  getnet-Keeps self (ground_of s) link p u =
      branch-Keeps link _ _ u (branch-Keeps (not (nat_beq s self)) _ _ u u)
  getnet-Keeps self (bus_at b) link p u =
      branch-Keeps (not (nat_beq (p.buses b).scope self)) _ _ u u
  getnet-Keeps self (tap_at t) link p u =
      branch-Keeps (not (nat_beq (p.buses (p.taps t).bus).scope self)) _ _ u u
  getnet-Keeps self (pin_at i) link p u =
      branch-Keeps (not (is_reachable self (p.pins i) p)) _ _ u
        (subst (λ x. nat_beq (x c).used 0 ≡ false) (sym (touch_pin-components i p)) u)
  getnet-Keeps self no_endpoint link p u = u

  pub join_pin-Keeps : (self i net : ℕ) → Keeps (join_pin self i net)
  join_pin-Keeps self i net =
      bind-Keeps (getnet self (pin_at i) false)
        (λ n q. (gives tt, record q { nets = (join n net q.nets).1 }))
        (getnet-Keeps self (pin_at i) false) (λ n q u. u)

  set_used-Used : (d : ℕ) (p : Plan) → Used p → Used (set_used d p)
  set_used-Used d p u = ground (arith, u, nat_beq_iff c d)

  pub connect-Keeps : (self : ℕ) (us : List Use) (ns : List ℕ) → Keeps (connect self us ns)
  unfolding connect
  connect-Keeps self [] ns p u = u
  connect-Keeps self (v ∷ us) [] p u = u
  connect-Keeps self (v ∷ us) (n ∷ []) p u = u
  connect-Keeps self (v ∷ us) (n ∷ m ∷ ns) p u =
      let rest : Plan → Method (List Part) =
        λ q. bind (connect self us (m ∷ ns)) (λ parts. returning (part self v q ∷ parts)) in
      bind-Keeps (join_pin self v.pin_1 n) (λ _. bind (join_pin self v.pin_2 m) (λ _ q. rest q q))
        (join_pin-Keeps self v.pin_1 n)
        (λ _.
          bind-Keeps (join_pin self v.pin_2 m) (λ _ q. rest q q) (join_pin-Keeps self v.pin_2 m)
            λ _ q.
              bind-Keeps (connect self us (m ∷ ns)) (λ parts. returning (part self v q ∷ parts))
                (connect-Keeps self us (m ∷ ns)) (λ parts t w. w) q)
        (set_used v.component p) (set_used-Used v.component p u)

  pub chain-Keeps :
      (self : ℕ) (xs : List Element) (start end : Endpoint) → Keeps (chain self xs start end)
  unfolding chain
  chain-Keeps self xs start end =
      let last : List Use → ℕ → List ℕ → ℕ → Method (List Part) =
        λ us first middle n. connect self us (first ∷ (middle ++ n ∷ [])) in
      let middle : List Use → ℕ → Method (List Part) = λ us first p.
        let (ns, nets) = new_nets (after_first us) p.nets in
        bind (getnet self end false) (last us first ns) (record p { nets = nets }) in
      read-Keeps (prepared_chain self xs start end)
        (λ us. bind (getnet self start false) (middle us))
        λ us.
          bind-Keeps (getnet self start false) (middle us) (getnet-Keeps self start false)
            λ first p u.
              bind-Keeps (getnet self end false)
                (last us first (new_nets (after_first us) p.nets).0) (getnet-Keeps self end false)
                (λ n. connect-Keeps self us _)
                (record p { nets = (new_nets (after_first us) p.nets).1 }) u
