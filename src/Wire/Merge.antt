-- ===== src/Wire/Merge.antt =====
-- `_Net.join` of src/scnsim/authoring/handles.py merges exactly two classes, and ground absorbs.
use scnsim.Base.{
  ℕ, ◌<◌, ◌≡◌, ◌≢◌, ◌⊎◌, ◌↔◌, inl, inr, refl, sym, ◌∙◌, Bool, true, false, ◌&&◌, ◌||◌, arith,
  if◌then◌else◌, nat_beq, nat_beq_iff, Bool-cases,
}
use scnsim.Wire.Net.{Nets, set_parent, link_roots, root, join}
use scnsim.Wire.Forest.{IsForest, root_of, root_of-inside, parent-root_of, depth-lt}
use scnsim.Wire.Root.{SameRoots, SameRoots-trans, root_lem}
use scnsim.Wire.Join.{linked-IsForest, root_of-linked}

-- `net.root().ground`
unfoldable pub is_grounded : Nets → ℕ → Bool
is_grounded s n = s.ground (root_of s n)

-- The two nets of a wire.
abbrev pub SameWire : Nets → ℕ → ℕ → Type 0
SameWire s n m = root_of s n ≡ root_of s m

-- What `join a b` did: the nets of one class took the root of the other.
pub record Merges (a b : ℕ) (s s' : Nets) : Type 0 where
  pub forest : IsForest s'
  pub size : s'.size ≡ s.size
  pub ground : s'.ground ≡ s.ground
  pub loser : ℕ
  pub winner : ℕ
  pub which :
      ((loser ≡ root_of s a)
        × (winner ≡ root_of s b)
        × ((loser ≡ winner) ⊎ (s.ground winner ≡ true)))
      ⊎ ((loser ≡ root_of s b) × (winner ≡ root_of s a) × (s.ground loser ≡ false))
  pub roots :
      (n : ℕ)
      → n < s.size
      → root_of s' n ≡ (if nat_beq (root_of s n) loser then winner else root_of s n)

module _ (s : Nets) (w : IsForest s) (a b : ℕ) (ha : a < s.size) (hb : b < s.size) where
  -- A root of `s` is a root of the compressed nets.
  still_top :
      (t : Nets)
      → IsForest t
      → SameRoots s t
      → (n : ℕ) → n < s.size
      → (root_of s n < t.size) × (t.parent (root_of s n) ≡ root_of s n)
  still_top t v same n i =
      let e = same.root_of n i in
      let h : n < t.size = omega (arith, same.size) in
      ground (arith, e, root_of-inside t v n h, parent-root_of t v n h)

  merge_one : (t : Nets) → IsForest t → SameRoots s t → root_of s a ≡ root_of s b → Merges a b s t
  merge_one t v same e = record {
    forest = v;
    size = same.size;
    ground = same.ground;
    loser = root_of s a;
    winner = root_of s b;
    which = inl (refl, refl, inl e);
    roots = λ n i. ground (arith, same.root_of n i, nat_beq_iff (root_of s n) (root_of s a));
  }

  merge_low :
      (t : Nets)
      → IsForest t
      → SameRoots s t
      → root_of s a ≢ root_of s b
      → t.ground (root_of s b) ≡ true
      → Merges a b s (set_parent (root_of s a) (root_of s b) t)
  merge_low t v same ne g =
      let (ia, ta) = still_top t v same a ha in
      let (ib, tb) = still_top t v same b hb in
      record {
        forest = linked-IsForest t v (root_of s a) (root_of s b) ia ib ta tb ne;
        size = same.size;
        ground = same.ground;
        loser = root_of s a;
        winner = root_of s b;
        which = inl (refl, refl, inr (ground (arith, same.ground)));
        roots = λ n i. ground (
          arith,
          same.root_of n i,
          same.size,
          root_of-linked t v (root_of s a) (root_of s b) ia ib ta tb ne n,
        );
      }

  merge_high :
      (t : Nets)
      → IsForest t
      → SameRoots s t
      → root_of s a ≢ root_of s b
      → t.ground (root_of s b) ≡ false
      → Merges a b s (set_parent (root_of s b) (root_of s a) t)
  merge_high t v same ne g =
      let (ia, ta) = still_top t v same a ha in
      let (ib, tb) = still_top t v same b hb in
      record {
        forest = linked-IsForest t v (root_of s b) (root_of s a) ib ia tb ta (λ e. ne (sym e));
        size = same.size;
        ground = same.ground;
        loser = root_of s b;
        winner = root_of s a;
        which = inr (refl, refl, ground (arith, same.ground));
        roots = λ n i. ground (
          arith,
          same.root_of n i,
          same.size,
          root_of-linked t v (root_of s b) (root_of s a) ib ia tb ta (λ e. ne (sym e)) n,
        );
      }

  join_link :
      (t : Nets)
      → IsForest t
      → SameRoots s t
      → Merges a b s (link_roots (root_of s a) (root_of s b) t).1
  join_link t v same = elim (Bool-cases (nat_beq (root_of s a) (root_of s b))) [
    | inl one ↦ rw one (merge_one t v same ((nat_beq_iff (root_of s a) (root_of s b)).0 one))
    | inr two ↦
        let ne : root_of s a ≢ root_of s b =
          ground (arith, nat_beq_iff (root_of s a) (root_of s b)) in
        elim (Bool-cases (t.ground (root_of s b))) [
          | inl low ↦ rw (two, low) (merge_low t v same ne low)
          | inr high ↦ rw (two, high) (merge_high t v same ne high)
        ]
  ]

  pub join-Merges : Merges a b s (join a b s).1
  unfolding join
  join-Merges =
      let (ra, v1, same1) = root_lem s w s.size a ha (depth-lt s w a ha) in
      let s1 = (root s.size a s).1 in
      let hb1 : b < s1.size = omega (arith, same1.size) in
      let (rb, v2, same2) = root_lem s1 v1 s1.size b hb1 (depth-lt s1 v1 b hb1) in
      rw (ra, rb ∙ same1.root_of b hb)
        (join_link (root s1.size b s1).1 v2 (SameRoots-trans same1 same2))

  -- On nets that form a forest, after join of two of them, two nets have the same root exactly if
  -- they had before, or one of them was on the wire of the first joined net and the other on the
  -- wire of the second.
  pub join-SameWire :
      (n m : ℕ)
      → n < s.size
      → m < s.size
      → SameWire (join a b s).1 n m
        ↔ (SameWire s n m ⊎ ((SameWire s n a × SameWire s m b) ⊎ (SameWire s n b × SameWire s m a)))
  join-SameWire n m hn hm =
      let j = join-Merges in
      ground (
        arith,
        j.which,
        j.roots n hn,
        j.roots m hm,
        nat_beq_iff (root_of s n) j.loser,
        nat_beq_iff (root_of s m) j.loser,
      )

  -- On nets that form a forest, after join of two of them a net's root is grounded exactly if it
  -- was, or the net is on one of the two joined wires and one of those was grounded.
  pub join-is_grounded :
      (n : ℕ)
      → n < s.size
      → is_grounded (join a b s).1 n ≡ (
          is_grounded s n
          || ((nat_beq (root_of s n) (root_of s a) || nat_beq (root_of s n) (root_of s b))
              && (is_grounded s a || is_grounded s b)))
  unfolding is_grounded
  join-is_grounded n hn =
      let j = join-Merges in
      ground (
        arith,
        j.which,
        j.ground,
        j.roots n hn,
        nat_beq_iff (root_of s n) j.loser,
        nat_beq_iff (root_of s n) (root_of s a),
        nat_beq_iff (root_of s n) (root_of s b),
      )
