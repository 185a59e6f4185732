-- ===== src/Assembly/Linking.antt =====
-- The wires after `link` of src/scnsim/authoring/assembly.py.
use scnsim.Base.{
  ℕ, String, List, [], ◌∷◌, ◌<◌, ◌≡◌, ◌∙◌, sym, refl, ap, inl, inr, true, some, ◌&&◌, ◌||◌, All,
  All-map, arith, subst, nat_beq_iff,
}
use scnsim.Wire.Net.{Nets}
use scnsim.Wire.Forest.{root_of}
use scnsim.Assembly.State.{
  Plan, Endpoint, ground_of, bus_at, tap_at, pin_at, no_endpoint, EndpointRecord,
}
use scnsim.Assembly.Action.{fails, gives, Error}
use scnsim.Assembly.Links.{link}
use scnsim.Assembly.Wiring.{same_wire, on_any, Joined, join_all-Joined}
use scnsim.Assembly.Reach.{Wired, net_of, on_net, Grown}
use scnsim.Assembly.Getnets.{touches_any, At, at_none, at_more, GotAll}
use scnsim.Assembly.Joining.{named, joined, Linked, link_cases}

-- Whatever link raises, at whatever step, the plan is as it was before the call.
pub link_retry :
    (nfc : String → String) (self : ℕ) (id : String) (xs : List Endpoint) (p q : Plan) (e : Error)
    → link nfc self id xs p ≡ (fails e, q)
    → q ≡ p
link_retry nfc self id xs p q e h = elim (link_cases nfc self id xs p) [
  | inl (d, k) ↦ ap (λ r. r.1) (sym h ∙ k)
  | inr (name, r, k, linked) ↦ absurd (ground (arith, h, k))
]

-- The endpoints, each with a net, are on the wire of one root.
abbrev pub Together : List Endpoint → Plan → Type 0
Together xs q = (r : ℕ) × All (λ x. (n : ℕ) × (net_of x q ≡ some n) × (root_of q.nets n ≡ r)) xs

-- The wires of the endpoints became one, and no others changed.
pub record OneWire (xs : List Endpoint) (p q : Plan) : Type 0 where
  pub wired : Wired q
  pub wires :
      (n m : ℕ)
      → n < p.nets.size
      → m < p.nets.size
      → same_wire q.nets n m ≡ (same_wire p.nets n m || (touches_any xs p n && touches_any xs p m))
  pub together : Together xs q

on_any_self : (s : Nets) (ks : List ℕ) → All (λ n. on_any s n ks ≡ true) ks
unfolding on_any
on_any_self s [] = tt
on_any_self s (k ∷ ks) = (
  ground (arith, nat_beq_iff (root_of s k) (root_of s k)),
  All-map (λ n. on_any s n ks ≡ true) (λ n. on_any s n (k ∷ ks) ≡ true) (λ n h. ground (arith, h))
      ks (on_any_self s ks),
)

All-zip :
    {P Q R : ℕ → Type 0} (ks : List ℕ)
    → ((k : ℕ) → P k → Q k → R k)
    → All P ks
    → All Q ks
    → All R ks
All-zip [] f h g = tt
All-zip {P = P} {Q = Q} {R = R} (k ∷ ks) f h g =
    (f k h.0 g.0, All-zip {P = P} {Q = Q} {R = R} ks f h.1 g.1)

At-root_of :
    (q t : Plan) (r : ℕ) (xs : List Endpoint) (ns : List ℕ)
    → ((x : Endpoint) → net_of x t ≡ net_of x q)
    → At q xs ns
    → All (λ n. root_of t.nets n ≡ r) ns
    → All (λ x. (n : ℕ) × (net_of x t ≡ some n) × (root_of t.nets n ≡ r)) xs
At-root_of q t r [] [] same at_none h = tt
At-root_of q t r [] (n ∷ ns) same h hs = elim h [ ]
At-root_of q t r (x ∷ xs) [] same h hs = elim h [ ]
At-root_of q t r (x ∷ xs) (n ∷ ns) same (at_more e more) (h, hs) =
    ((n, same x ∙ e, h), At-root_of q t r xs ns same more hs)

module _ (nfc : String → String) (self : ℕ) (id : String) where
  named-Wired : (name : String) (p : Plan) → Wired p → Wired (named nfc self id name p)
  named-Wired name p w = record {
    forest = w.forest;
    bus_in = w.bus_in;
    tap_in = w.tap_in;
    pin_in = w.pin_in;
  }

  net_of-named :
      (name : String) (x : Endpoint) (p : Plan) → net_of x (named nfc self id name p) ≡ net_of x p
  net_of-named name (bus_at b) p = refl
  net_of-named name (tap_at t) p = refl
  net_of-named name (pin_at i) p = refl
  net_of-named name (ground_of s) p = refl
  net_of-named name no_endpoint p = refl

  touches_any-named :
      (name : String) (xs : List Endpoint) (p : Plan) (k : ℕ)
      → touches_any xs (named nfc self id name p) k ≡ touches_any xs p k
  unfolding touches_any
  touches_any-named name [] p k = refl
  touches_any-named name (x ∷ xs) p k =
      ground (arith, ap (on_net p.nets k) (net_of-named name x p), touches_any-named name xs p k)

  net_of-joined :
      (name : String) (ns : List ℕ) (rs : List EndpointRecord) (q : Plan) (x : Endpoint)
      → net_of x (joined nfc self id name ns rs q) ≡ net_of x q
  net_of-joined name ns rs q (bus_at b) = refl
  net_of-joined name ns rs q (tap_at t) = refl
  net_of-joined name ns rs q (pin_at i) = refl
  net_of-joined name ns rs q (ground_of s) = refl
  net_of-joined name ns rs q no_endpoint = refl

  module _ (xs : List Endpoint) (p got : Plan) (name : String) (w : Wired p) (first : ℕ)
      (ns : List ℕ) (rs : List EndpointRecord)
      (all : GotAll xs (first ∷ ns) (named nfc self id name p) got) where
    start : Wired (named nfc self id name p)
    start = named-Wired name p w

    grown : Grown (named nfc self id name p) got
    grown = all.grown start

    abbrev final : Plan
    final = joined nfc self id name (first ∷ ns) rs got

    merged : Joined first ns got.nets final.nets
    merged = join_all-Joined first ns got.nets grown.wired.forest (all.inside start)

    final-Wired : Wired final
    final-Wired = record {
      forest = merged.forest;
      bus_in = λ b. subst (λ s. (got.buses b).net < s) (sym merged.size) (grown.wired.bus_in b);
      tap_in = λ t. subst (λ s. (got.taps t).net < s) (sym merged.size) (grown.wired.tap_in t);
      pin_in = λ i n e. subst (λ s. n < s) (sym merged.size) (grown.wired.pin_in i n e);
    }

    final_wires :
        (n m : ℕ)
        → n < p.nets.size
        → m < p.nets.size
        → same_wire final.nets n m
          ≡ (same_wire p.nets n m || (touches_any xs p n && touches_any xs p m))
    final_wires n m hn hm = ground (
      arith,
      merged.wires n m (omega (arith, hn, grown.larger)) (omega (arith, hm, grown.larger)),
      all.here start n hn,
      all.here start m hm,
      touches_any-named name xs p n,
      touches_any-named name xs p m,
      grown.old n hn,
      grown.old m hm,
    )

    on_first :
        (n : ℕ)
        → n < got.nets.size
        → on_any got.nets n (first ∷ ns) ≡ true
        → root_of final.nets n ≡ root_of final.nets first
    on_first n hn h =
        let hf : first < got.nets.size = (all.inside start).0 in
        ground (
          arith,
          merged.wires n first hn hf,
          (on_any_self got.nets (first ∷ ns)).0,
          h,
          nat_beq_iff (root_of final.nets n) (root_of final.nets first),
        )

    final_roots : All (λ n. root_of final.nets n ≡ root_of final.nets first) (first ∷ ns)
    final_roots =
        All-zip {P = λ n. n < got.nets.size} {Q = λ n. on_any got.nets n (first ∷ ns) ≡ true}
          {R = λ n. root_of final.nets n ≡ root_of final.nets first} (first ∷ ns) on_first
          (all.inside start) (on_any_self got.nets (first ∷ ns))

    final-OneWire : OneWire xs p final
    final-OneWire = record {
      wired = final-Wired;
      wires = final_wires;
      together = (
        root_of final.nets first,
        At-root_of got final (root_of final.nets first) xs (first ∷ ns)
            (net_of-joined name (first ∷ ns) rs got) (all.at_ start) final_roots,
      );
    }

  Linked-OneWire :
      (xs : List Endpoint) (p : Plan) (name : String) (q : Plan)
      → Wired p
      → Linked nfc self id xs p name q
      → OneWire xs p q
  Linked-OneWire [] p name q w linked = absurd (ground (arith, linked.long))
  Linked-OneWire (x ∷ xs) p name q w linked = split linked.ns linked.is linked.all
    where
      split :
          (ns : List ℕ)
          → q ≡ joined nfc self id name ns linked.rs linked.got
          → GotAll (x ∷ xs) ns (named nfc self id name p) linked.got
          → OneWire (x ∷ xs) p q
      split [] is all = elim (all.at_ (named-Wired name p w)) [ ]
      split (first ∷ ns) is all =
          subst (OneWire (x ∷ xs) p) (sym is)
            (final-OneWire (x ∷ xs) p linked.got name w first ns linked.rs all)

  -- When the nets of a plan form a forest that holds the nets of its buses, taps and pins, and
  -- link returns, then two nets that were there before are on one wire after it exactly if they
  -- were before or each was on the wire of an endpoint, all the endpoints have nets, and these
  -- have one root; the nets form such a forest again.
  pub link-OneWire :
      (xs : List Endpoint) (p q : Plan) (name : String)
      → Wired p
      → link nfc self id xs p ≡ (gives name, q)
      → OneWire xs p q
  link-OneWire xs p q name w h = elim (link_cases nfc self id xs p) [
    | inl (e, k) ↦ absurd (ground (arith, h, k))
    | inr (n, r, k, linked) ↦
        subst (OneWire xs p) (ap (λ r. r.1) (sym k ∙ h)) (Linked-OneWire xs p n r w linked)
  ]
