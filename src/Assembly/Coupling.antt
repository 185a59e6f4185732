-- ===== src/Assembly/Coupling.antt =====
-- `couple_inductive` of src/scnsim/authoring/assembly.py couples no pair of branches twice.
use scnsim.Base.{
  ℕ, String, List, [], ◌∷◌, ◌≡◌, ap, refl, inl, inr, Bool, true, some, not, ◌||◌, arith, subst,
  Bool-cases, nat_beq, nat_beq_iff,
}
use scnsim.Assembly.State.{Plan}
use scnsim.Assembly.Action.{
  Answer, fails, gives, Error, distinct_branches, private_branch, pair_coupled,
}
use scnsim.Assembly.Endpoints.{check}
use scnsim.Assembly.Inductive.{is_coupled, is_allowed, can_couple, couple, couple_inductive}

is_coupled_comm : (a b : ℕ) (pairs : List (ℕ × ℕ)) → is_coupled a b pairs ≡ is_coupled b a pairs
unfolding is_coupled
is_coupled_comm a b [] = refl
is_coupled_comm a b ((c, d) ∷ pairs) = ground (arith, is_coupled_comm a b pairs)

can_couple-fails :
    (self a b : ℕ) (k : Answer Bool) (p : Plan)
    → is_coupled a b (p.scopes self).coupled_pairs ≡ true
    → (e : Error) × (can_couple self a b k p ≡ fails e)
unfolding can_couple
can_couple-fails self a b k p h = elim (Bool-cases (nat_beq a b)) [
  | inl one ↦ (distinct_branches, ground (arith, one))
  | inr two ↦ elim (Bool-cases (not (is_allowed self a p) || not (is_allowed self b p))) [
    | inl hidden ↦ (private_branch, ground (arith, two, hidden))
    | inr fine ↦ (pair_coupled, ground (arith, two, fine, h))
  ]
]

module _ (nfc : String → String) (self : ℕ) where
  couple_inductive-fails :
      (id : String) (a b : ℕ) (k : Answer Bool) (p : Plan)
      → is_coupled a b (p.scopes self).coupled_pairs ≡ true
      → (e : Error) × (couple_inductive nfc self id (some a) (some b) k p ≡ (fails e, p))
  unfolding couple_inductive
  couple_inductive-fails id a b k p h =
      let (e, refused) = can_couple-fails self a b k p h in split (check self p) refl e refused
    where
      split :
          (r : Answer (Unit {0}))
          → check self p ≡ r
          → (e : Error) → can_couple self a b k p ≡ fails e
          → (e : Error) × (couple_inductive nfc self id (some a) (some b) k p ≡ (fails e, p))
      split (fails d) c e refused = (d, ground (arith, c))
      split (gives _) c e refused = (e, ground (arith, c, refused))

  couple-is_coupled :
      (id : String) (a b : ℕ) (p : Plan) (name : String)
      → (couple nfc self id a b p).0 ≡ gives name
      → is_coupled a b ((couple nfc self id a b p).1.scopes self).coupled_pairs ≡ true
  unfolding couple is_coupled
  couple-is_coupled id a b p name h =
      ground (arith, h, nat_beq_iff a a, nat_beq_iff b b, nat_beq_iff self self)

  couple_inductive-is_coupled :
      (id : String) (a b : ℕ) (k : Answer Bool) (p : Plan) (name : String)
      → (couple_inductive nfc self id (some a) (some b) k p).0 ≡ gives name
      → is_coupled a b
          ((couple_inductive nfc self id (some a) (some b) k p).1.scopes self).coupled_pairs
        ≡ true
  unfolding couple_inductive
  couple_inductive-is_coupled id a b k p name h = ground (arith, h, couple-is_coupled id a b p name)

-- When couple_inductive returned for two inductive branches, then a call on the same scope at once
-- after it for the same branches, in this or the other order and with any id and coefficient,
-- raises and leaves the plan as it was.
pub couple_inductive_once :
    (nfc : String → String) (self : ℕ) (id later : String) (a b : ℕ) (k l : Answer Bool)
    (p q : Plan) (name : String)
    → couple_inductive nfc self id (some a) (some b) k p ≡ (gives name, q)
    → ((e : Error) × (couple_inductive nfc self later (some a) (some b) l q ≡ (fails e, q)))
      × ((e : Error) × (couple_inductive nfc self later (some b) (some a) l q ≡ (fails e, q)))
couple_inductive_once nfc self id later a b k l p q name h =
    let marked = couple_inductive-is_coupled nfc self id a b k p name (ap (λ r. r.0) h) in
    let forth : is_coupled a b (q.scopes self).coupled_pairs ≡ true =
      subst (λ t. is_coupled a b (t.scopes self).coupled_pairs ≡ true) (ap (λ r. r.1) h) marked in
    (
      couple_inductive-fails nfc self later a b l q forth,
      couple_inductive-fails nfc self later b a l q
          (ground (arith, forth, is_coupled_comm a b (q.scopes self).coupled_pairs)),
    )
