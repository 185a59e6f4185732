-- ===== src/Base/Dict.antt =====
-- A Python dict, or a table with a primary key: entries in the order of their first insertion.
use mathlib.Core.Path.{◌≡◌, refl, subst₂}
use mathlib.Core.Logic.{inl, inr}
use mathlib.Core.Bool.{Bool, true, false, ◌&&◌, ◌||◌}
use mathlib.Core.Option.{Option, none, some}
use mathlib.Core.List.{List, [], ◌∷◌}
use native.Mathlib.Omega.{arith}
use scnsim.Base.Tests.{if◌then◌else◌, Bool-cases}
use scnsim.Base.Lists.{All}
use scnsim.Base.Eq.{Eq, ◌==◌}

abbrev pub Dict {ℓ κ} : Type ℓ → Type κ → Type (ℓ ⊔ κ)
Dict K V = List (K × V)

module _ {ℓ κ} {K : Type ℓ} {V : Type κ} ⦃e : Eq K⦄ where
  unfoldable pub lookup : K → Dict K V → Option V
  lookup k [] = none
  lookup k ((j, v) ∷ d) = if j == k then some v else lookup k d

  -- `d[k] = v`
  unfoldable pub insert : K → V → Dict K V → Dict K V
  insert k v [] = (k, v) ∷ []
  insert k v ((j, w) ∷ d) = if j == k then (k, v) ∷ d else (j, w) ∷ insert k v d

  pub lookup-insert :
      (k j : K) (v : V) (d : Dict K V)
      → lookup j (insert k v d) ≡ (if k == j then some v else lookup j d)
  unfolding lookup insert
  lookup-insert k j v [] = refl
  lookup-insert k j v ((i, w) ∷ d) =
      ground
        (arith, e.beq_iff k j, e.beq_iff i k, e.beq_iff i j, e.beq_iff k k, lookup-insert k j v d)

  pub lookup-insert_self : (k : K) (v : V) (d : Dict K V) → lookup k (insert k v d) ≡ some v
  lookup-insert_self k v d = simp (lookup-insert, (e.beq_iff k k).1 refl)

module _ {ℓ} {K : Type ℓ} ⦃e : Eq K⦄ where
  pub eq_refl : (k : K) → (k == k) ≡ true
  eq_refl k = (e.beq_iff k k).1 refl

  -- `k in s`, for a set or a table of keys alone
  unfoldable pub contains : K → List K → Bool
  contains k [] = false
  contains k (j ∷ s) = j == k || contains k s

  -- Adding a key to a set.
  unfoldable pub add : K → List K → List K
  unfolding contains
  add j s = if contains j s then s else j ∷ s

  pub contains-add : (k j : K) (s : List K) → contains k (add j s) ≡ (j == k || contains k s)
  unfolding contains add
  contains-add k j s = ground (arith, e.beq_iff j k)

  pub contains-add_self : (k : K) (s : List K) → contains k (add k s) ≡ true
  unfolding contains add
  contains-add_self k s = ground (arith, e.beq_iff k k)

module _ {ℓ κ} {K : Type ℓ} {V : Type κ} ⦃e : Eq K⦄ ⦃f : Eq V⦄ where
  -- Every entry of the first is in the second.
  unfoldable pub sub_dict : Dict K V → Dict K V → Bool
  sub_dict [] d = true
  sub_dict ((k, v) ∷ c) d = elim (lookup k d) [ none ↦ false | some w ↦ v == w ] && sub_dict c d

  -- `c == d`
  unfoldable pub dict_beq : Dict K V → Dict K V → Bool
  unfolding sub_dict
  dict_beq c d = sub_dict c d && sub_dict d c

module _ {ℓ κ μ} {K : Type ℓ} {V : Type κ} ⦃e : Eq K⦄ (P : K × V → Type μ) where
  pub All-insert : (k : K) (v : V) (d : Dict K V) → P (k, v) → All P d → All P (insert k v d)
  unfolding insert
  All-insert k v [] p h = (p, tt)
  All-insert k v ((j, w) ∷ d) p h = elim (Bool-cases (j == k)) [
    | inl same ↦ rw same (p, h.1)
    | inr other ↦ rw other (h.0, All-insert k v d p h.1)
  ]

  pub All-lookup : (k : K) {v : V} (d : Dict K V) → All P d → lookup k d ≡ some v → P (k, v)
  unfolding lookup
  All-lookup k [] h q = cc
  All-lookup k {v} ((j, w) ∷ d) h q = elim (Bool-cases (j == k)) [
    | inl same ↦
        let key : j ≡ k = (e.beq_iff j k).0 same in
        let value : w ≡ v = ground arith in subst₂ (λ a b. P (a, b)) key value h.0
    | inr other ↦ All-lookup k d h.1 (ground arith)
  ]

module _ {ℓ} {K : Type ℓ} ⦃e : Eq K⦄ where
  All-contains_from :
      (s t : List K)
      → ((k : K) → contains k t ≡ true → contains k s ≡ true)
      → All (λ k. contains k s ≡ true) t
  unfolding contains
  All-contains_from s [] h = tt
  All-contains_from s (k ∷ t) h =
      (h k (ground (arith, e.beq_iff k k)), All-contains_from s t (λ j p. h j (ground arith)))

  -- Every item of a list is in it.
  pub All-contains : (s : List K) → All (λ k. contains k s ≡ true) s
  All-contains s = All-contains_from s s (λ k h. h)
