-- ===== src/Wire/Create.antt =====
-- A new `_Net` of src/scnsim/authoring/handles.py is a wire of its own.
use scnsim.Base.{
  ℕ, zero, suc, ◌+◌, ◌≤◌, ◌<◌, ◌≡◌, inl, inr, refl, Bool, arith, if◌then◌else◌, nat_beq,
  nat_beq_iff, Bool-cases,
}
use scnsim.Wire.Net.{Nets, update, no_nets, new_net}
use scnsim.Wire.Forest.{IsForest, roots, root_of, root_of-top, root_of-up}

pub no_nets-IsForest : IsForest no_nets
no_nets-IsForest = record {
  depth = λ n. 0;
  inside = λ n h. elim h [ ];
  tops = λ n h e. refl;
  falls = λ n h ne. elim h [ ];
  bounded = λ n h. elim h [ ];
}

roots-update_above :
    (n k p : ℕ) (parent : ℕ → ℕ) → n ≤ k → roots n (update parent k p) ≡ roots n parent
unfolding roots
roots-update_above zero k p parent h = refl
roots-update_above (suc n) k p parent h =
    ground (arith, roots-update_above n k p parent, nat_beq_iff n k)

roots-le : (n : ℕ) (parent : ℕ → ℕ) → roots n parent ≤ n
unfolding roots
roots-le zero parent = omega arith
roots-le (suc n) parent = ground (arith, roots-le n parent)

module _ (s : Nets) (w : IsForest s) (g : Bool) where
  roots-new : roots (s.size + 1) (update s.parent s.size s.size) ≡ roots s.size s.parent + 1
  unfolding roots
  roots-new =
      let e : s.size + 1 ≡ suc s.size = omega arith in
      rw e (
        ground (arith, roots-update_above s.size s.size s.size s.parent, nat_beq_iff s.size s.size))

  pub new_net-IsForest : IsForest (new_net g s).1
  unfolding new_net
  new_net-IsForest = record {
    depth = λ n. if nat_beq n s.size then 0 else w.depth n;
    inside = λ n i. ground (arith, w.inside n, nat_beq_iff n s.size);
    tops = λ n i e. ground (arith, w.tops n, nat_beq_iff n s.size);
    falls = λ n i ne.
        ground
          (arith, w.falls n, w.inside n, nat_beq_iff n s.size, nat_beq_iff (s.parent n) s.size);
    bounded = λ n i.
        ground (arith, w.bounded n, nat_beq_iff n s.size, roots-new, roots-le s.size s.parent);
  }

  root_of-new_net_from :
      (f n : ℕ) → n < s.size → w.depth n < f → root_of (new_net g s).1 n ≡ root_of s n
  unfolding new_net
  root_of-new_net_from zero n i d = absurd (omega arith)
  root_of-new_net_from (suc f) n i d = elim (Bool-cases (nat_beq (s.parent n) n)) [
    | inl top ↦ ground (
      arith,
      nat_beq_iff (s.parent n) n,
      nat_beq_iff n s.size,
      root_of-top s w n i,
      root_of-top (new_net g s).1 new_net-IsForest n,
    )
    | inr up ↦ ground (
      arith,
      nat_beq_iff (s.parent n) n,
      nat_beq_iff n s.size,
      w.inside n i,
      w.falls n i,
      root_of-up s w n i,
      root_of-up (new_net g s).1 new_net-IsForest n,
      root_of-new_net_from f (s.parent n),
    )
  ]

  -- The old nets keep their roots.
  pub root_of-new_net : (n : ℕ) → n < s.size → root_of (new_net g s).1 n ≡ root_of s n
  root_of-new_net n i = root_of-new_net_from (suc (w.depth n)) n i (omega arith)

  -- The new net is its own root.
  pub root_of-new_net_self : root_of (new_net g s).1 s.size ≡ s.size
  unfolding new_net
  root_of-new_net_self =
      root_of-top (new_net g s).1 new_net-IsForest s.size (omega arith)
        (ground (arith, nat_beq_iff s.size s.size))
