-- ===== src/Wire/Root.antt =====
-- `_Net.root` of src/scnsim/authoring/handles.py returns the root, and its path compression changes
-- no root.

use scnsim.Base.{
  ℕ, zero, suc, ◌<◌, ◌≡◌, ◌≢◌, inl, inr, refl, sym, ◌∙◌, subst, arith, if◌then◌else◌, nat_beq,
  nat_beq_iff, Bool-cases,
}
use scnsim.Wire.Net.{Nets, update, set_parent, root}
use scnsim.Wire.Forest.{
  roots, IsForest, root_of, root_of-inside, parent-root_of, root_of-top, root_of-up,
}

-- The same nets with the same roots.
pub record SameRoots (s s' : Nets) : Type 0 where
  pub size : s'.size ≡ s.size
  pub ground : s'.ground ≡ s.ground
  pub roots : roots s'.size s'.parent ≡ roots s.size s.parent
  pub root_of : (n : ℕ) → n < s.size → root_of s' n ≡ root_of s n

roots-update :
    (n k : ℕ) (parent : ℕ → ℕ) (p : ℕ)
    → (parent k ≡ k → p ≡ k)
    → (p ≡ k → parent k ≡ k)
    → roots n (update parent k p) ≡ roots n parent
unfolding roots
roots-update zero k parent p h g = refl
roots-update (suc n) k parent p h g = ground (
  arith,
  roots-update n k parent p h g,
  nat_beq_iff n k,
  nat_beq_iff p n,
  nat_beq_iff (parent n) n,
)

module _ (s : Nets) (w : IsForest s) (k : ℕ) (h : k < s.size) where
  -- Pointing a net at its root.
  abbrev compressed : Nets
  compressed = set_parent k (root_of s k) s

  depth-root_of-lt : s.parent k ≢ k → w.depth (root_of s k) < w.depth k
  depth-root_of-lt ne = omega (
    arith,
    w.tops (root_of s k) (root_of-inside s w k h) (parent-root_of s w k h),
    w.falls k h ne,
  )

  compressed_parent :
      (n : ℕ) → compressed.parent n ≡ (if nat_beq n k then root_of s k else s.parent n)
  compressed_parent n = refl

  compressed-roots : roots s.size compressed.parent ≡ roots s.size s.parent
  compressed-roots =
      roots-update s.size k s.parent (root_of s k) (root_of-top s w k h)
        (λ e. let p = parent-root_of s w k h in ground arith)

  compressed-IsForest : IsForest compressed
  compressed-IsForest = record {
    depth = w.depth;
    inside = λ n i. ground (arith, w.inside n i, root_of-inside s w k h);
    tops = λ n i e.
        ground (arith, w.tops n i, nat_beq_iff n k, root_of-inside s w k h, parent-root_of s w k h);
    falls = λ n i ne.
        ground (arith, w.falls n i, nat_beq_iff n k, depth-root_of-lt, root_of-top s w k h);
    bounded = λ n i. rw compressed-roots (w.bounded n i);
  }

  root_of-compressed_from :
      (f n : ℕ) → n < s.size → w.depth n < f → root_of compressed n ≡ root_of s n
  root_of-compressed_from zero n i d = absurd (omega arith)
  root_of-compressed_from (suc f) n i d = elim (Bool-cases (nat_beq n k)) [
    | inl same ↦
        let e : n ≡ k = (nat_beq_iff n k).0 same in
        elim (Bool-cases (nat_beq (s.parent k) k)) [
          | inl top ↦
              let r = root_of-top s w k h ((nat_beq_iff (s.parent k) k).0 top) in
              ground (arith, r, root_of-top compressed compressed-IsForest k h, e)
          | inr up ↦ ground (
            arith,
            e,
            depth-root_of-lt,
            nat_beq_iff (s.parent k) k,
            nat_beq_iff (root_of s k) k,
            nat_beq_iff k k,
            root_of-inside s w k h,
            parent-root_of s w k h,
            root_of-up compressed compressed-IsForest k h,
            root_of-top compressed compressed-IsForest (root_of s k),
          )
        ]
    | inr other ↦ elim (Bool-cases (nat_beq (s.parent n) n)) [
      | inl top ↦
          let e = (nat_beq_iff (s.parent n) n).0 top in
          ground (arith, root_of-top compressed compressed-IsForest n i, root_of-top s w n i e)
      | inr up ↦ ground (
        arith,
        nat_beq_iff (s.parent n) n,
        w.inside n i,
        w.falls n i,
        root_of-up compressed compressed-IsForest n i,
        root_of-up s w n i,
        root_of-compressed_from f (s.parent n),
      )
    ]
  ]

  compressed-SameRoots : SameRoots s compressed
  compressed-SameRoots = record {
    size = refl;
    ground = refl;
    roots = compressed-roots;
    root_of = λ n i. root_of-compressed_from (suc (w.depth n)) n i (omega arith);
  }

SameRoots-refl : (s : Nets) → SameRoots s s
SameRoots-refl s = record { size = refl; ground = refl; roots = refl; root_of = λ n i. refl }

pub SameRoots-trans : {a b c : Nets} → SameRoots a b → SameRoots b c → SameRoots a c
SameRoots-trans {a} h g = record {
  size = g.size ∙ h.size;
  ground = g.ground ∙ h.ground;
  roots = g.roots ∙ h.roots;
  root_of = λ n i. g.root_of n (omega (arith, h.size)) ∙ h.root_of n i;
}

-- On nets that form a forest, root with more fuel than the net's depth returns the root that the
-- parent links lead to, and the path compression leaves a forest in which every net keeps its root.
pub root_lem :
    (s : Nets) (w : IsForest s) (f n : ℕ)
    → n < s.size
    → w.depth n < f
    → let (r, s') = root f n s in (r ≡ root_of s n) × IsForest s' × SameRoots s s'
unfolding root
root_lem s w zero n h d = absurd (omega arith)
root_lem s w (suc f) n h d = elim (Bool-cases (nat_beq (s.parent n) n)) [
  | inl top ↦
      rw top (sym (root_of-top s w n h ((nat_beq_iff (s.parent n) n).0 top)), w, SameRoots-refl s)
  | inr up ↦
      let ne : s.parent n ≢ n = ground (arith, nat_beq_iff (s.parent n) n) in
      let (is, w', same) =
        root_lem s w f (s.parent n) (w.inside n h) (omega (arith, w.falls n h ne)) in
      let top : (root f (s.parent n) s).0 ≡ root_of (root f (s.parent n) s).1 n =
        is ∙ sym (root_of-up s w n h ne) ∙ sym (same.root_of n h) in
      let h' : n < (root f (s.parent n) s).1.size = omega (arith, same.size) in
      rw up (
        is ∙ sym (root_of-up s w n h ne),
        subst (λ p. IsForest (set_parent n p (root f (s.parent n) s).1)) (sym top)
            (compressed-IsForest (root f (s.parent n) s).1 w' n h'),
        subst (λ p. SameRoots s (set_parent n p (root f (s.parent n) s).1)) (sym top)
            (SameRoots-trans same (compressed-SameRoots (root f (s.parent n) s).1 w' n h')),
      )
]
