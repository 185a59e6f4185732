-- ===== src/Assembly/Wiring.antt =====
-- What the joins of `link` in src/scnsim/authoring/assembly.py do to the wires.
use scnsim.Base.{
  ℕ, List, [], ◌∷◌, ◌<◌, ◌≤◌, ◌≡◌, ◌∙◌, refl, Bool, false, ◌&&◌, ◌||◌, All, All-map, arith, nat_beq,
  nat_beq_iff,
}
use scnsim.Wire.Net.{Nets, join}
use scnsim.Wire.Forest.{IsForest, root_of}
use scnsim.Wire.Merge.{join-Merges, join-SameWire}
use scnsim.Assembly.Links.{join_all}

abbrev pub same_wire : Nets → ℕ → ℕ → Bool
same_wire s n m = nat_beq (root_of s n) (root_of s m)

-- Whether a net is on the wire of one of the nets.
unfoldable pub on_any : Nets → ℕ → List ℕ → Bool
on_any s n [] = false
on_any s n (k ∷ ks) = same_wire s n k || on_any s n ks

abbrev pub Inside : Nets → List ℕ → Type 0
Inside s = All (λ k. k < s.size)

pub Inside-le : (s t : Nets) (ks : List ℕ) → s.size ≤ t.size → Inside s ks → Inside t ks
Inside-le s t ks le h =
    All-map (λ k. k < s.size) (λ k. k < t.size) (λ k i. omega (arith, i, le)) ks h

module _ (s : Nets) (w : IsForest s) (a b : ℕ) (ha : a < s.size) (hb : b < s.size) where
  same_wire-join :
      (n m : ℕ)
      → n < s.size
      → m < s.size
      → same_wire (join a b s).1 n m ≡ (
          same_wire s n m
          || ((same_wire s n a && same_wire s m b) || (same_wire s n b && same_wire s m a)))
  same_wire-join n m hn hm =
      let t = (join a b s).1 in
      ground (
        arith,
        join-SameWire s w a b ha hb n m hn hm,
        nat_beq_iff (root_of t n) (root_of t m),
        nat_beq_iff (root_of s n) (root_of s m),
        nat_beq_iff (root_of s n) (root_of s a),
        nat_beq_iff (root_of s n) (root_of s b),
        nat_beq_iff (root_of s m) (root_of s a),
        nat_beq_iff (root_of s m) (root_of s b),
      )

  on_any-join :
      (n : ℕ) (ks : List ℕ)
      → n < s.size
      → Inside s ks
      → ((same_wire s n a || same_wire s n b) || on_any (join a b s).1 n ks)
        ≡ ((same_wire s n a || same_wire s n b) || on_any s n ks)
  unfolding on_any
  on_any-join n [] hn hs = refl
  on_any-join n (k ∷ ks) hn (hk, hs) =
      ground (arith, on_any-join n ks hn hs, same_wire-join n k hn hk)

  on_any-join_first :
      (n : ℕ) (ks : List ℕ)
      → n < s.size
      → Inside s ks
      → on_any (join a b s).1 n (a ∷ ks) ≡ on_any s n (a ∷ b ∷ ks)
  unfolding on_any
  on_any-join_first n ks hn hs = ground (
    arith,
    on_any-join n ks hn hs,
    same_wire-join n a hn ha,
    nat_beq_iff (root_of s a) (root_of s a),
  )

-- The joins of a list of nets to a first one: only their wires became one.
pub record Joined (first : ℕ) (ns : List ℕ) (s t : Nets) : Type 0 where
  pub forest : IsForest t
  pub size : t.size ≡ s.size
  pub wires :
      (n m : ℕ)
      → n < s.size
      → m < s.size
      → same_wire t n m ≡ (same_wire s n m || (on_any s n (first ∷ ns) && on_any s m (first ∷ ns)))

same_wire-alone :
    (first : ℕ) (s : Nets) (n m : ℕ)
    → same_wire s n m ≡ (same_wire s n m || (on_any s n (first ∷ []) && on_any s m (first ∷ [])))
unfolding on_any
same_wire-alone first s n m = ground (
  arith,
  nat_beq_iff (root_of s n) (root_of s m),
  nat_beq_iff (root_of s n) (root_of s first),
  nat_beq_iff (root_of s m) (root_of s first),
)

Joined-join :
    (first k : ℕ) (ns : List ℕ) (s t : Nets) (w : IsForest s)
    → Inside s (first ∷ k ∷ ns)
    → Joined first ns (join first k s).1 t
    → (n m : ℕ) → n < s.size
    → m < s.size
    → same_wire t n m
      ≡ (same_wire s n m || (on_any s n (first ∷ k ∷ ns) && on_any s m (first ∷ k ∷ ns)))
unfolding on_any
Joined-join first k ns s t w (hf, (hk, hs)) rest n m hn hm =
    let one = join-Merges s w first k hf hk in
    let size : (join first k s).1.size ≡ s.size = one.size in
    let hn1 : n < (join first k s).1.size = omega (arith, size) in
    let hm1 : m < (join first k s).1.size = omega (arith, size) in
    ground (
      arith,
      rest.wires n m hn1 hm1,
      same_wire-join s w first k hf hk n m hn hm,
      on_any-join_first s w first k hf hk n ns hn hs,
      on_any-join_first s w first k hf hk m ns hm hs,
    )

pub join_all-Joined :
    (first : ℕ) (ns : List ℕ) (s : Nets)
    → IsForest s
    → Inside s (first ∷ ns)
    → Joined first ns s (join_all first ns s)
unfolding join_all
join_all-Joined first [] s w (hf, _) = record {
  forest = w;
  size = refl;
  wires = λ n m hn hm. same_wire-alone first s n m;
}
join_all-Joined first (k ∷ ns) s w (hf, (hk, hs)) =
    let one = join-Merges s w first k hf hk in
    let inside : Inside (join first k s).1 (first ∷ ns) =
      Inside-le s (join first k s).1 (first ∷ ns) (omega (arith, one.size)) (hf, hs) in
    let rest = join_all-Joined first ns (join first k s).1 one.forest inside in
    record {
      forest = rest.forest;
      size = rest.size ∙ one.size;
      wires = Joined-join first k ns s (join_all first ns (join first k s).1) w (hf, (hk, hs)) rest;
    }
