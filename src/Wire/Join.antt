-- ===== src/Wire/Join.antt =====
-- `_Net.join` of src/scnsim/authoring/handles.py merges exactly two classes, and ground absorbs.
use scnsim.Base.{
  ℕ, zero, suc, ◌+◌, ◌<◌, ◌≡◌, ◌≢◌, inl, inr, sym, arith, if◌then◌else◌, nat_beq, nat_beq_iff,
  Bool-cases, ltb,
}
use scnsim.Wire.Net.{Nets, update, set_parent, root}
use scnsim.Wire.Forest.{roots, IsForest, root_of, root_of-top, root_of-up}

roots-update_child :
    (n k p : ℕ) (parent : ℕ → ℕ)
    → parent k ≡ k
    → p ≢ k
    → roots n (update parent k p) + (if ltb k n then 1 else 0) ≡ roots n parent
unfolding roots
roots-update_child zero k p parent h ne = ground arith
roots-update_child (suc n) k p parent h ne = ground (
  arith,
  roots-update_child n k p parent h ne,
  nat_beq_iff n k,
  nat_beq_iff p n,
  nat_beq_iff (parent n) n,
)

-- Linking one root below another.
module _ (s : Nets) (w : IsForest s) (k p : ℕ) (hk : k < s.size) (hp : p < s.size)
    (top : s.parent k ≡ k) (high : s.parent p ≡ p) (ne : k ≢ p) where
  abbrev pub linked : Nets
  linked = set_parent k p s

  -- Everything below k goes one step down.
  linked_depth : ℕ → ℕ
  linked_depth n = if nat_beq (root_of s n) k then w.depth n + 1 else w.depth n

  linked-roots : roots s.size linked.parent + 1 ≡ roots s.size s.parent
  linked-roots = ground (arith, roots-update_child s.size k p s.parent top (λ e. ne (sym e)))

  root_of-parent : (n : ℕ) → n < s.size → root_of s (s.parent n) ≡ root_of s n
  root_of-parent n i = elim (Bool-cases (nat_beq (s.parent n) n)) [
    | inl same ↦ rw ((nat_beq_iff (s.parent n) n).0 same)
    | inr up ↦ sym (root_of-up s w n i (ground (arith, nat_beq_iff (s.parent n) n)))
  ]

  pub linked-IsForest : IsForest linked
  unfolding linked_depth
  linked-IsForest = record {
    depth = linked_depth;
    inside = λ n i. ground (arith, w.inside n i);
    tops = λ n i e.
        ground
          (arith, w.tops n i, nat_beq_iff n k, root_of-top s w n i, nat_beq_iff (root_of s n) k);
    falls = λ n i up. ground (
      arith,
      w.falls n i,
      nat_beq_iff n k,
      nat_beq_iff (root_of s n) k,
      nat_beq_iff p k,
      nat_beq_iff (root_of s p) k,
      nat_beq_iff (root_of s (s.parent n)) k,
      root_of-top s w k hk top,
      root_of-top s w p hp high,
      w.tops p hp high,
      root_of-parent n i,
    );
    bounded = λ n i. ground (arith, w.bounded n i, linked-roots);
  }

  root_of-linked_from :
      (f n : ℕ)
      → n < s.size
      → w.depth n < f
      → root_of linked n ≡ (if nat_beq (root_of s n) k then p else root_of s n)
  root_of-linked_from zero n i d = absurd (omega arith)
  root_of-linked_from (suc f) n i d = elim (Bool-cases (nat_beq n k)) [
    | inl same ↦
        let e : n ≡ k = (nat_beq_iff n k).0 same in
        ground (
          arith,
          e,
          nat_beq_iff k k,
          nat_beq_iff p k,
          root_of-top s w k hk top,
          root_of-up linked linked-IsForest k hk,
          root_of-top linked linked-IsForest p hp,
        )
    | inr other ↦ elim (Bool-cases (nat_beq (s.parent n) n)) [
      | inl root ↦ ground (
        arith,
        nat_beq_iff (s.parent n) n,
        nat_beq_iff n k,
        root_of-top linked linked-IsForest n i,
        root_of-top s w n i,
      )
      | inr up ↦ ground (
        arith,
        nat_beq_iff (s.parent n) n,
        w.inside n i,
        w.falls n i,
        root_of-up linked linked-IsForest n i,
        root_of-up s w n i,
        root_of-linked_from f (s.parent n),
      )
    ]
  ]

  pub root_of-linked :
      (n : ℕ) → n < s.size → root_of linked n ≡ (if nat_beq (root_of s n) k then p else root_of s n)
  root_of-linked n i = root_of-linked_from (suc (w.depth n)) n i (omega arith)
