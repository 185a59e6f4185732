-- ===== src/Wire/Forest.antt =====
-- The nets of src/scnsim/authoring/handles.py form a forest whose depth is bounded by the number of
-- nets; following the parents ends at a root.
use scnsim.Base.{
  ℕ, zero, suc, ◌+◌, ◌≤◌, ◌<◌, ◌≡◌, ◌≢◌, inl, inr, refl, sym, ◌∙◌, arith, if◌then◌else◌, nat_beq,
  nat_beq_iff, Bool-cases,
}
use scnsim.Wire.Net.{Nets}

-- The number of roots among the first n nets.
unfoldable pub roots : ℕ → (ℕ → ℕ) → ℕ
roots zero parent = 0
roots (suc n) parent = roots n parent + (if nat_beq (parent n) n then 1 else 0)

pub record IsForest (s : Nets) : Type 0 where
  pub depth : ℕ → ℕ
  pub inside : (n : ℕ) → n < s.size → s.parent n < s.size
  pub tops : (n : ℕ) → n < s.size → s.parent n ≡ n → depth n ≡ 0
  pub falls : (n : ℕ) → n < s.size → s.parent n ≢ n → depth (s.parent n) < depth n
  pub bounded : (n : ℕ) → n < s.size → depth n + roots s.size s.parent ≤ s.size

-- The last net on the way up.
unfoldable pub find : ℕ → ℕ → Nets → ℕ
find zero n s = n
find (suc fuel) n s =
    let rest : ℕ = find fuel (s.parent n) s in if nat_beq (s.parent n) n then n else rest

-- The root of a net, which no compression changes.
unfoldable pub root_of : Nets → ℕ → ℕ
unfolding find
root_of s n = find s.size n s

roots-pos : (n k : ℕ) (parent : ℕ → ℕ) → k < n → parent k ≡ k → 0 < roots n parent
unfolding roots
roots-pos zero k parent h e = elim h [ ]
roots-pos (suc n) k parent h e = elim (Bool-cases (nat_beq k n)) [
  | inl same ↦ ground (arith, nat_beq_iff k n)
  | inr other ↦ ground (arith, roots-pos n k parent)
]

module _ (s : Nets) (w : IsForest s) where
  find_more : (f g n : ℕ) → n < s.size → w.depth n ≤ f → f ≤ g → find g n s ≡ find f n s
  unfolding find
  find_more zero zero n h d le = refl
  find_more zero (suc g) n h d le = elim (Bool-cases (nat_beq (s.parent n) n)) [
    | inl top ↦ rw top
    | inr up ↦ absurd (ground (arith, w.falls n h, nat_beq_iff (s.parent n) n))
  ]
  find_more (suc f) zero n h d le = absurd (omega arith)
  find_more (suc f) (suc g) n h d le = elim (Bool-cases (nat_beq (s.parent n) n)) [
    | inl top ↦ rw top
    | inr up ↦ rw up (
        find_more f g (s.parent n) (w.inside n h)
          (ground (arith, w.falls n h, nat_beq_iff (s.parent n) n)) (omega arith))
  ]

  find_top : (f n : ℕ) → n < s.size → w.depth n ≤ f → s.parent (find f n s) ≡ find f n s
  unfolding find
  find_top zero n h d = elim (Bool-cases (nat_beq (s.parent n) n)) [
    | inl top ↦ (nat_beq_iff (s.parent n) n).0 top
    | inr up ↦ absurd (ground (arith, w.falls n h, nat_beq_iff (s.parent n) n))
  ]
  find_top (suc f) n h d = elim (Bool-cases (nat_beq (s.parent n) n)) [
    | inl top ↦ rw top ((nat_beq_iff (s.parent n) n).0 top)
    | inr up ↦ rw up (
        find_top f (s.parent n) (w.inside n h)
          (ground (arith, w.falls n h, nat_beq_iff (s.parent n) n)))
  ]

  find_inside : (f n : ℕ) → n < s.size → find f n s < s.size
  unfolding find
  find_inside zero n h = h
  find_inside (suc f) n h = elim (Bool-cases (nat_beq (s.parent n) n)) [
    | inl top ↦ rw top h
    | inr up ↦ rw up (find_inside f (s.parent n) (w.inside n h))
  ]

  find_up : (f n : ℕ) → s.parent n ≢ n → find (suc f) n s ≡ find f (s.parent n) s
  unfolding find
  find_up f n ne = ground (arith, nat_beq_iff (s.parent n) n)

  pub root_of-inside : (n : ℕ) → n < s.size → root_of s n < s.size
  unfolding root_of
  root_of-inside n h = find_inside s.size n h

  pub parent-root_of : (n : ℕ) → n < s.size → s.parent (root_of s n) ≡ root_of s n
  unfolding root_of
  parent-root_of n h = find_top s.size n h (omega (arith, w.bounded n h))

  pub root_of-top : (n : ℕ) → n < s.size → s.parent n ≡ n → root_of s n ≡ n
  unfolding root_of
  root_of-top n h e = find_more 0 s.size n h (omega (arith, w.tops n h e)) (omega arith)

  pub root_of-up : (n : ℕ) → n < s.size → s.parent n ≢ n → root_of s n ≡ root_of s (s.parent n)
  unfolding root_of
  root_of-up n h ne =
      sym (find_more s.size (suc s.size) n h (omega (arith, w.bounded n h)) (omega arith))
      ∙ find_up s.size n ne

  -- The fuel is enough to reach the root, and one step is left.
  pub depth-lt : (n : ℕ) → n < s.size → w.depth n < s.size
  depth-lt n h = omega (
    arith,
    w.bounded n h,
    roots-pos s.size (root_of s n) s.parent (root_of-inside n h) (parent-root_of n h),
  )
