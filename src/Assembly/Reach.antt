-- ===== src/Assembly/Reach.antt =====
-- What `getnet` of src/scnsim/authoring/assembly.py may change of a plan, and what it keeps.
use scnsim.Base.{ℕ, ◌<◌, ◌≤◌, ◌≡◌, refl, Bool, true, false, Option, none, some, arith, nat_beq}
use scnsim.Wire.Net.{Nets}
use scnsim.Wire.Forest.{IsForest, root_of}
use scnsim.Assembly.State.{Plan, Endpoint, ground_of, bus_at, tap_at, pin_at, no_endpoint}
use scnsim.Assembly.Action.{gives}
use scnsim.Assembly.Endpoints.{is_reachable, check_endpoint}
use scnsim.Assembly.Wiring.{same_wire}

-- The plan's nets form a forest, and its handles are on them.
pub record Wired (p : Plan) : Type 0 where
  pub forest : IsForest p.nets
  pub bus_in : (b : ℕ) → (p.buses b).net < p.nets.size
  pub tap_in : (t : ℕ) → (p.taps t).net < p.nets.size
  pub pin_in : (i n : ℕ) → (p.pins i).net ≡ some n → n < p.nets.size

-- The net that an endpoint of a link has, if it has one.
abbrev pub net_of : Endpoint → Plan → Option ℕ
net_of (bus_at b) p = some (p.buses b).net
net_of (tap_at t) p = some (p.taps t).net
net_of (pin_at i) p = (p.pins i).net
net_of (ground_of s) p = none
net_of no_endpoint p = none

abbrev pub on_net : Nets → ℕ → Option ℕ → Bool
on_net s k none = false
on_net s k (some n) = same_wire s k n

-- Whether a net is on the wire of an endpoint.
abbrev pub touches : Endpoint → Plan → ℕ → Bool
touches x p k = on_net p.nets k (net_of x p)

-- What `getnet` tests of an endpoint that may be linked.
abbrev pub Reaches : ℕ → Endpoint → Plan → Type 0
Reaches self (bus_at b) p = nat_beq (p.buses b).scope self ≡ true
Reaches self (tap_at t) p = nat_beq (p.buses (p.taps t).bus).scope self ≡ true
Reaches self (pin_at i) p = is_reachable self (p.pins i) p ≡ true
Reaches self (ground_of s) p = false ≡ true
Reaches self no_endpoint p = false ≡ true

pub check_endpoint-Reaches :
    (self : ℕ) (x : Endpoint) (p : Plan)
    → check_endpoint self true x p ≡ gives tt
    → Reaches self x p
unfolding check_endpoint
check_endpoint-Reaches self (ground_of s) p h = absurd (ground arith)
check_endpoint-Reaches self (bus_at b) p h = ground arith
check_endpoint-Reaches self (tap_at t) p h = ground arith
check_endpoint-Reaches self (pin_at i) p h = ground arith
check_endpoint-Reaches self no_endpoint p h = absurd (ground arith)

-- The plan differs in nets, and in the nets of pins, only.
pub record Frame (p q : Plan) : Type 0 where
  pub buses : q.buses ≡ p.buses
  pub taps : q.taps ≡ p.taps
  pub scopes : q.scopes ≡ p.scopes
  pub components : q.components ≡ p.components
  pub scope_count : q.scope_count ≡ p.scope_count
  pub pin_scope : (i : ℕ) → (q.pins i).scope ≡ (p.pins i).scope
  pub pin_public : (i : ℕ) → (q.pins i).public ≡ (p.pins i).public
  pub pin_component : (i : ℕ) → (q.pins i).component ≡ (p.pins i).component

-- How the nets grew.
pub record Grown (p q : Plan) : Type 0 where
  pub wired : Wired q
  pub larger : p.nets.size ≤ q.nets.size
  pub old : (k : ℕ) → k < p.nets.size → root_of q.nets k ≡ root_of p.nets k
  pub keeps : (y : Endpoint) (m : ℕ) → net_of y p ≡ some m → net_of y q ≡ some m
  pub others : (y : Endpoint) (k : ℕ) → k < p.nets.size → touches y q k ≡ touches y p k

pub record Got (x : Endpoint) (n : ℕ) (p q : Plan) : Type 0 where
  pub frame : Frame p q
  pub at_ : net_of x q ≡ some n
  pub grown : Wired p → Grown p q
  pub here : Wired p → (k : ℕ) → k < p.nets.size → same_wire q.nets k n ≡ touches x p k

pub same_Frame : (p : Plan) → Frame p p
same_Frame p = record {
  buses = refl;
  taps = refl;
  scopes = refl;
  components = refl;
  scope_count = refl;
  pin_scope = λ i. refl;
  pin_public = λ i. refl;
  pin_component = λ i. refl;
}

pub same_Grown : (p : Plan) → Wired p → Grown p p
same_Grown p w = record {
  wired = w;
  larger = omega arith;
  old = λ k h. refl;
  keeps = λ y m h. h;
  others = λ y k h. refl;
}
