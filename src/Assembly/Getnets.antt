-- ===== src/Assembly/Getnets.antt =====
-- `getnet` of src/scnsim/authoring/assembly.py on all the endpoints of a link, one after the other.
use scnsim.Base.{
  ℕ, List, [], ◌∷◌, ◌<◌, ◌≡◌, ◌∙◌, refl, Bool, true, false, some, ◌||◌, All, All-map, arith,
}
use scnsim.Assembly.State.{Plan, Endpoint, ground_of, bus_at, tap_at, pin_at, no_endpoint}
use scnsim.Assembly.Action.{gives}
use scnsim.Assembly.Endpoints.{is_reachable}
use scnsim.Assembly.Links.{getnet_all}
use scnsim.Assembly.Wiring.{on_any, Inside}
use scnsim.Assembly.Reach.{
  Wired, net_of, touches, Reaches, Frame, Grown, Got, same_Frame, same_Grown,
}
use scnsim.Assembly.Getnet.{getnet-Got}

pub Reaches-frame :
    (self : ℕ) (x : Endpoint) (p q : Plan) → Frame p q → Reaches self x p → Reaches self x q
unfolding is_reachable
Reaches-frame self (ground_of s) p q f h = h
Reaches-frame self no_endpoint p q f h = h
Reaches-frame self (bus_at b) p q f h = ground (arith, f.buses)
Reaches-frame self (tap_at t) p q f h = ground (arith, f.buses, f.taps)
Reaches-frame self (pin_at i) p q f h = ground (arith, f.pin_scope i, f.pin_public i, f.scopes)

trans_Frame : (p q r : Plan) → Frame p q → Frame q r → Frame p r
trans_Frame p q r f g = record {
  buses = g.buses ∙ f.buses;
  taps = g.taps ∙ f.taps;
  scopes = g.scopes ∙ f.scopes;
  components = g.components ∙ f.components;
  scope_count = g.scope_count ∙ f.scope_count;
  pin_scope = λ i. g.pin_scope i ∙ f.pin_scope i;
  pin_public = λ i. g.pin_public i ∙ f.pin_public i;
  pin_component = λ i. g.pin_component i ∙ f.pin_component i;
}

trans_Grown : (p q r : Plan) → Grown p q → Grown q r → Grown p r
trans_Grown p q r f g = record {
  wired = g.wired;
  larger = omega (arith, f.larger, g.larger);
  old = λ k h. g.old k (omega (arith, h, f.larger)) ∙ f.old k h;
  keeps = λ y m e. g.keeps y m (f.keeps y m e);
  others = λ y k h. g.others y k (omega (arith, h, f.larger)) ∙ f.others y k h;
}

-- Whether a net is on the wire of one of the endpoints.
unfoldable pub touches_any : List Endpoint → Plan → ℕ → Bool
touches_any [] p k = false
touches_any (x ∷ xs) p k = touches x p k || touches_any xs p k

touches_any-Grown :
    (xs : List Endpoint) (p q : Plan)
    → Grown p q
    → (k : ℕ) → k < p.nets.size
    → touches_any xs q k ≡ touches_any xs p k
unfolding touches_any
touches_any-Grown [] p q g k h = refl
touches_any-Grown (x ∷ xs) p q g k h =
    ground (arith, g.others x k h, touches_any-Grown xs p q g k h)

-- The endpoints have the nets.
pub data At (q : Plan) : List Endpoint → List ℕ → Type 0 where
  at_none : At q [] []
  at_more :
      {x : Endpoint} {n : ℕ} {xs : List Endpoint} {ns : List ℕ}
      → net_of x q ≡ some n
      → At q xs ns
      → At q (x ∷ xs) (n ∷ ns)

pub record GotAll (xs : List Endpoint) (ns : List ℕ) (p q : Plan) : Type 0 where
  pub frame : Frame p q
  pub at_ : Wired p → At q xs ns
  pub grown : Wired p → Grown p q
  pub inside : Wired p → Inside q.nets ns
  pub here : Wired p → (k : ℕ) → k < p.nets.size → on_any q.nets k ns ≡ touches_any xs p k

net_inside : (x : Endpoint) (n : ℕ) (q : Plan) → Wired q → net_of x q ≡ some n → n < q.nets.size
net_inside (bus_at b) n q w h = ground (arith, w.bus_in b, h)
net_inside (tap_at t) n q w h = ground (arith, w.tap_in t, h)
net_inside (pin_at i) n q w h = w.pin_in i n h
net_inside (ground_of s) n q w h = absurd (ground (arith, h))
net_inside no_endpoint n q w h = absurd (ground (arith, h))

module _ (x : Endpoint) (xs : List Endpoint) (n : ℕ) (ns : List ℕ) (p q r : Plan) (g : Got x n p q)
    (rest : GotAll xs ns q r) (w : Wired p) where
  still_here : (k : ℕ) → k < p.nets.size → on_any r.nets k (n ∷ ns) ≡ touches_any (x ∷ xs) p k
  unfolding on_any touches_any
  still_here k h =
      let one : Grown p q = g.grown w in
      let wide : k < q.nets.size = omega (arith, h, one.larger) in
      let two : Grown q r = rest.grown one.wired in
      let n_in : n < q.nets.size = net_inside x n q one.wired g.at_ in
      ground (
        arith,
        two.old k wide,
        two.old n n_in,
        g.here w k h,
        rest.here one.wired k wide,
        touches_any-Grown xs p q one k h,
      )

both_GotAll :
    (x : Endpoint) (xs : List Endpoint) (n : ℕ) (ns : List ℕ) (p q r : Plan)
    → Got x n p q
    → GotAll xs ns q r
    → GotAll (x ∷ xs) (n ∷ ns) p r
both_GotAll x xs n ns p q r g rest = record {
  frame = trans_Frame p q r g.frame rest.frame;
  at_ =
      λ w. let one = (g.grown w).wired in at_more ((rest.grown one).keeps x n g.at_) (rest.at_ one);
  grown = λ w. trans_Grown p q r (g.grown w) (rest.grown (g.grown w).wired);
  inside = λ w.
      let one = (g.grown w).wired in
      let kept = (rest.grown one).keeps x n g.at_ in
      (net_inside x n r (rest.grown one).wired kept, rest.inside one);
  here = still_here x xs n ns p q r g rest;
}

pub getnet_all-GotAll :
    (self : ℕ) (xs : List Endpoint) (p : Plan)
    → All (λ x. Reaches self x p) xs
    → (ns : List ℕ) × (q : Plan) × (getnet_all self true xs p ≡ (gives ns, q)) × GotAll xs ns p q
unfolding getnet_all on_any touches_any
getnet_all-GotAll self [] p h = (
  [],
  p,
  refl,
  record {
    frame = same_Frame p;
    at_ = λ w. at_none;
    grown = same_Grown p;
    inside = λ w. tt;
    here = λ w k h. refl;
  },
)
getnet_all-GotAll self (x ∷ xs) p (h, hs) =
    let (n, q, e, g) = getnet-Got self x p h in
    let reached =
      All-map (λ y. Reaches self y p) (λ y. Reaches self y q)
        (λ y. Reaches-frame self y p q g.frame) xs hs in
    let (ns, r, es, rest) = getnet_all-GotAll self xs q reached in
    (n ∷ ns, r, ground (arith, e, es), both_GotAll x xs n ns p q r g rest)
