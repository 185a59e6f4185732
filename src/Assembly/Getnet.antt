-- ===== src/Assembly/Getnet.antt =====
-- What `getnet` of src/scnsim/authoring/assembly.py does for an endpoint that passed
-- `_check_endpoint`: the endpoint gets a net if it has none, and nothing else changes.
use scnsim.Base.{
  ℕ, ◌<◌, ◌+◌, ◌≡◌, ◌∙◌, sym, refl, inl, inr, Bool, true, false, none, some, ◌||◌, arith, ap, subst,
  Bool-cases, Option-cases, nat_beq, nat_beq_iff, is_some,
}
use scnsim.Wire.Net.{Nets, new_net}
use scnsim.Wire.Forest.{root_of, root_of-inside}
use scnsim.Wire.Create.{new_net-IsForest, root_of-new_net, root_of-new_net_self}
use scnsim.Assembly.State.{Plan, Pin, Endpoint, ground_of, bus_at, tap_at, pin_at, no_endpoint}
use scnsim.Assembly.Action.{gives, set_pin}
use scnsim.Assembly.Endpoints.{touch_pin, getnet}
use scnsim.Assembly.Wiring.{same_wire}
use scnsim.Assembly.Reach.{
  Wired, net_of, on_net, touches, Reaches, Frame, Grown, Got, same_Frame, same_Grown,
}

-- An assignment to one pin that keeps what is not its net.
module _ (i : ℕ) (y : Pin) (p : Plan) (scope : y.scope ≡ (p.pins i).scope)
    (public : y.public ≡ (p.pins i).public) (component : y.component ≡ (p.pins i).component) where
  set_pin-Frame : (nets : Nets) → Frame p (set_pin i y (record p { nets = nets }))
  set_pin-Frame nets = record {
    buses = refl;
    taps = refl;
    scopes = refl;
    components = refl;
    scope_count = refl;
    pin_scope = λ j. ground (arith, scope, nat_beq_iff j i);
    pin_public = λ j. ground (arith, public, nat_beq_iff j i);
    pin_component = λ j. ground (arith, component, nat_beq_iff j i);
  }

-- The pin had a net.
module _ (i n : ℕ) (b : Bool) (p : Plan) (h : (p.pins i).net ≡ some n) where
  abbrev bound : Plan
  bound = set_pin i (record (p.pins i) { bound = b }) p

  bound_net : (j : ℕ) → (bound.pins j).net ≡ (p.pins j).net
  bound_net j = ground (arith, nat_beq_iff j i)

  bound_net_of : (y : Endpoint) → net_of y bound ≡ net_of y p
  bound_net_of (bus_at c) = refl
  bound_net_of (tap_at t) = refl
  bound_net_of (pin_at j) = bound_net j
  bound_net_of (ground_of s) = refl
  bound_net_of no_endpoint = refl

  bound-Got : Got (pin_at i) n p bound
  bound-Got = record {
    frame = set_pin-Frame i (record (p.pins i) { bound = b }) p refl refl refl p.nets;
    at_ = bound_net i ∙ h;
    grown = λ w. record {
      wired = record {
        forest = w.forest;
        bus_in = w.bus_in;
        tap_in = w.tap_in;
        pin_in = λ j m e. w.pin_in j m (sym (bound_net j) ∙ e);
      };
      larger = omega arith;
      old = λ k _. refl;
      keeps = λ y m e. bound_net_of y ∙ e;
      others = λ y k _. ap (on_net p.nets k) (bound_net_of y);
    };
    here = λ w k _. sym (ap (on_net p.nets k) h);
  }

-- The pin had no net.
module _ (i : ℕ) (b : Bool) (p : Plan) (h : (p.pins i).net ≡ none) where
  abbrev fresh_nets : Nets
  fresh_nets = (new_net false p.nets).1

  abbrev fresh : Plan
  fresh =
      set_pin i (record (p.pins i) { net = some p.nets.size; bound = b })
        (record p { nets = fresh_nets })

  fresh_here : (fresh.pins i).net ≡ some p.nets.size
  fresh_here = ground (arith, nat_beq_iff i i)

  fresh_there : (j : ℕ) → nat_beq j i ≡ false → (fresh.pins j).net ≡ (p.pins j).net
  fresh_there j e = ground (arith, e)

  fresh_size : fresh_nets.size ≡ p.nets.size + 1
  unfolding new_net
  fresh_size = refl

  fresh_keeps : (y : Endpoint) (m : ℕ) → net_of y p ≡ some m → net_of y fresh ≡ some m
  fresh_keeps (bus_at c) m e = e
  fresh_keeps (tap_at t) m e = e
  fresh_keeps (pin_at j) m e = ground (arith, h, e, fresh_there j, nat_beq_iff j i)
  fresh_keeps (ground_of s) m e = e
  fresh_keeps no_endpoint m e = e

  module _ (w : Wired p) where
    fresh_old : (k : ℕ) → k < p.nets.size → root_of fresh_nets k ≡ root_of p.nets k
    fresh_old = root_of-new_net p.nets w.forest false

    old_wire :
        (k m : ℕ)
        → k < p.nets.size
        → m < p.nets.size
        → same_wire fresh_nets k m ≡ same_wire p.nets k m
    old_wire k m hk hm = ground (arith, fresh_old k hk, fresh_old m hm)

    fresh_wire : (k : ℕ) → k < p.nets.size → same_wire fresh_nets k p.nets.size ≡ false
    fresh_wire k hk = ground (
      arith,
      fresh_old k hk,
      root_of-inside p.nets w.forest k hk,
      root_of-new_net_self p.nets w.forest false,
      nat_beq_iff (root_of fresh_nets k) (root_of fresh_nets p.nets.size),
    )

    pin_others : (j k : ℕ) → k < p.nets.size → touches (pin_at j) fresh k ≡ touches (pin_at j) p k
    pin_others j k hk = elim (Bool-cases (nat_beq j i)) [
      | inl e ↦ ground (arith, e, nat_beq_iff j i, h, fresh_wire k hk)
      | inr e ↦ elim (Option-cases (p.pins j).net) [
        | inl q ↦ ground (arith, fresh_there j e, q)
        | inr (m, q) ↦ ground (arith, fresh_there j e, q, old_wire k m hk (w.pin_in j m q))
      ]
    ]

    fresh_others : (y : Endpoint) (k : ℕ) → k < p.nets.size → touches y fresh k ≡ touches y p k
    fresh_others (bus_at c) k hk = old_wire k (p.buses c).net hk (w.bus_in c)
    fresh_others (tap_at t) k hk = old_wire k (p.taps t).net hk (w.tap_in t)
    fresh_others (pin_at j) k hk = pin_others j k hk
    fresh_others (ground_of s) k hk = refl
    fresh_others no_endpoint k hk = refl

    fresh_pin_in : (j n : ℕ) → (fresh.pins j).net ≡ some n → n < fresh_nets.size
    fresh_pin_in j n e = elim (Bool-cases (nat_beq j i)) [
      | inl t ↦ ground (arith, t, e, fresh_size)
      | inr t ↦ ground (arith, fresh_there j t, e, fresh_size, w.pin_in j n)
    ]

    fresh-Grown : Grown p fresh
    fresh-Grown = record {
      wired = record {
        forest = new_net-IsForest p.nets w.forest false;
        bus_in = λ c. omega (arith, fresh_size, w.bus_in c);
        tap_in = λ t. omega (arith, fresh_size, w.tap_in t);
        pin_in = fresh_pin_in;
      };
      larger = omega (arith, fresh_size);
      old = fresh_old;
      keeps = fresh_keeps;
      others = fresh_others;
    }

  fresh-Got : Got (pin_at i) p.nets.size p fresh
  fresh-Got = record {
    frame =
        set_pin-Frame i (record (p.pins i) { net = some p.nets.size; bound = b }) p refl refl refl
          fresh_nets;
    at_ = fresh_here;
    grown = fresh-Grown;
    here = λ w k hk. fresh_wire w k hk ∙ sym (ap (on_net p.nets k) h);
  }

abbrev pub binds : ℕ → Plan → Bool
binds i p = (p.pins i).bound || is_some (p.pins i).component

touch_new :
    (i : ℕ) (p : Plan) (h : (p.pins i).net ≡ none)
    → touch_pin i p ≡ (p.nets.size, fresh i (binds i p) p h)
unfolding touch_pin new_net
touch_new i p h = ground (arith, h)

touch_old :
    (i n : ℕ) (p : Plan) (h : (p.pins i).net ≡ some n)
    → touch_pin i p ≡ (n, bound i n (binds i p) p h)
unfolding touch_pin
touch_old i n p h = ground (arith, h)

touch_pin-Got : (i : ℕ) (p : Plan) → Got (pin_at i) (touch_pin i p).0 p (touch_pin i p).1
touch_pin-Got i p = elim (Option-cases (p.pins i).net) [
  | inl h ↦ transported (touch_new i p h) (fresh-Got i (binds i p) p h)
  | inr (n, h) ↦ transported (touch_old i n p h) (bound-Got i n (binds i p) p h)
]
  where
    transported :
        {r : ℕ × Plan}
        → touch_pin i p ≡ r
        → Got (pin_at i) r.0 p r.1
        → Got (pin_at i) (touch_pin i p).0 p (touch_pin i p).1
    transported e g = subst (λ r. Got (pin_at i) r.0 p r.1) (sym e) g

pub getnet-Got :
    (self : ℕ) (x : Endpoint) (p : Plan)
    → Reaches self x p
    → (n : ℕ) × (q : Plan) × (getnet self x true p ≡ (gives n, q)) × Got x n p q
unfolding getnet
getnet-Got self (ground_of s) p h = absurd (ground arith)
getnet-Got self no_endpoint p h = absurd (ground arith)
getnet-Got self (bus_at b) p h = (
  (p.buses b).net,
  p,
  ground arith,
  record { frame = same_Frame p; at_ = refl; grown = same_Grown p; here = λ w k i. refl },
)
getnet-Got self (tap_at t) p h = (
  (p.taps t).net,
  p,
  ground arith,
  record { frame = same_Frame p; at_ = refl; grown = same_Grown p; here = λ w k i. refl },
)
getnet-Got self (pin_at i) p h =
    ((touch_pin i p).0, (touch_pin i p).1, ground arith, touch_pin-Got i p)
