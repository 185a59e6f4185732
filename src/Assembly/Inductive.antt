-- ===== src/Assembly/Inductive.antt =====
-- `couple_inductive`, `expose_inductive_branch` and `expose_parameter` of
-- src/scnsim/authoring/assembly.py.
use scnsim.Base.{
  ℕ, zero, suc, String, List, [], ◌∷◌, ◌++◌, Bool, false, Option, none, some, not, ◌&&◌, ◌||◌,
  if◌then◌else◌, nat_beq,
}
use scnsim.Base.Eq.{nat_eq, string_eq}
use scnsim.Base.Dict.{lookup, insert, contains}
use scnsim.Assembly.State.{Plan, coupling_structure}
use scnsim.Assembly.Action.{
  Answer, fails, gives, Method, ◌then◌, bind, read, refuse_if, set_scope, type_error,
  attribute_error, key_error, recursion_error, distinct_branches, private_branch, pair_coupled,
  coefficient_range, invalid_branch, no_consumer,
}
use scnsim.Assembly.Endpoints.{identifier, check, path, is_self}
use scnsim.Assembly.Chain.{◌also◌}
use scnsim.Assembly.Structures.{sid, add_structure}
use scnsim.Assembly.Union.{values}
use scnsim.Assembly.Parts.{has}

-- `any(branch in child.exposed_branches.values() for child in self.children.values())`
unfoldable pub any_exposes : ℕ → List ℕ → Plan → Bool
any_exposes b [] p = false
any_exposes b (s ∷ ss) p = contains b (values (p.scopes s).exposed_branches) || any_exposes b ss p

-- `pair in self._coupled_pairs`: a frozenset has no order.
unfoldable pub is_coupled : ℕ → ℕ → List (ℕ × ℕ) → Bool
is_coupled a b [] = false
is_coupled a b ((c, d) ∷ pairs) =
    ((nat_beq c a && nat_beq d b) || (nat_beq c b && nat_beq d a)) || is_coupled a b pairs

-- `allowed`
unfoldable pub is_allowed : ℕ → ℕ → Plan → Bool
is_allowed self b p =
    is_self (p.components (p.branches b).component).owner self
    || any_exposes b (values (p.scopes self).children) p

-- The loop of `_physical_inductive_branch`, on fuel for the depth of the bodies.
unfoldable pub physical_branch : ℕ → ℕ → Plan → Answer ℕ
physical_branch zero b p = fails recursion_error
physical_branch (suc fuel) b p = elim (p.components (p.branches b).component).body [
  | none ↦ gives b
  | some body ↦ elim (lookup (p.branches b).id (p.scopes body).exposed_branches) [
    | none ↦ fails key_error
    | some inner ↦ physical_branch fuel inner p
  ]
]

-- `physical`: the component's path and the branch's id.
unfoldable pub physical : ℕ → Plan → Answer (List String × String)
physical b p = elim (physical_branch (suc p.scope_count) b p) [
  | fails e ↦ fails e
  | gives leaf ↦
      let x = p.components (p.branches leaf).component in
      elim x.owner [
        | none ↦ fails attribute_error
        | some owner ↦ gives (path owner p ++ x.id ∷ [], (p.branches leaf).id)
      ]
]

-- The tests of `couple_inductive`. `coefficient` is what `require_quantity` raises, or whether the
-- magnitude is strictly between -1 and 1.
unfoldable pub can_couple : ℕ → ℕ → ℕ → Answer Bool → Plan → Answer (Unit {0})
can_couple self a b coefficient p =
    refuse_if (nat_beq a b) distinct_branches
    also refuse_if (not (is_allowed self a p) || not (is_allowed self b p)) private_branch
    also refuse_if (is_coupled a b (p.scopes self).coupled_pairs) pair_coupled
    also elim coefficient [
      | fails e ↦ fails e
      | gives fits ↦ refuse_if (not fits) coefficient_range
    ]

-- `self._coupled_pairs.add(pair)`
abbrev pub add_pair : ℕ → ℕ → ℕ → Plan → Plan
add_pair self a b p =
    let s = p.scopes self in
    set_scope self (record s { coupled_pairs = (a, b) ∷ s.coupled_pairs }) p

-- `consumes` of `expose_parameter`, on fuel for the depth of the tree of scopes.
unfoldable pub any_consumes : (ℕ → Bool) → ℕ → List ℕ → Plan → Bool
any_consumes inside r [] p = false
any_consumes inside r (c ∷ cs) p =
    contains r (p.components c).field_parameters
    || (elim (p.components c).body [ none ↦ false | some body ↦ inside body ]
        || any_consumes inside r cs p)

unfoldable pub any_scope_consumes : (ℕ → Bool) → List ℕ → Bool
any_scope_consumes inside [] = false
any_scope_consumes inside (s ∷ ss) = inside s || any_scope_consumes inside ss

unfoldable pub consumes_from : ℕ → ℕ → Plan → ℕ → Bool
consumes_from zero r p s = false
consumes_from (suc fuel) r p s =
    any_consumes (consumes_from fuel r p) r (values (p.scopes s).components) p
    || any_scope_consumes (consumes_from fuel r p) (values (p.scopes s).children)

module _ (nfc : String → String) (self : ℕ) where
  -- What `couple_inductive` does after its tests.
  unfoldable pub couple : String → ℕ → ℕ → Method String
  couple id a b = bind (sid nfc self id) λ name p.
      read (physical a)
        (λ x.
          read (physical b) λ y q. (gives name, add_structure self (coupling_structure name x y) q))
        (add_pair self a b p)

  -- `couple_inductive`; an argument that is no InductiveBranchRef is none.
  unfoldable pub couple_inductive : String → Option ℕ → Option ℕ → Answer Bool → Method String
  couple_inductive id (some a) (some b) coefficient =
      check self then can_couple self a b coefficient then couple id a b
  couple_inductive id _ _ coefficient = check self then λ p. (fails type_error, p)

  -- `expose_inductive_branch`
  unfoldable pub expose_inductive_branch : String → Option ℕ → Method (Option ℕ)
  expose_inductive_branch id branch =
      check self
      then read (λ _. identifier nfc id)
          λ name p.
            let s = p.scopes self in
            elim branch [
              | none ↦ (fails invalid_branch, p)
              | some b ↦
                  if has name s.exposed_branches
                    || not (is_self (p.components (p.branches b).component).owner self)
                  then (fails invalid_branch, p)
                  else (
                    gives (some b),
                    set_scope self
                        (record s { exposed_branches = insert name b s.exposed_branches }) p,
                  )
            ]

  -- `expose_parameter`, which only a Composite has.
  unfoldable pub expose_parameter : String → Option ℕ → Method (Option ℕ)
  expose_parameter id parameter p =
      if not (p.scopes self).is_composite
      then (fails attribute_error, p)
      else (check self
            then read (λ _. identifier nfc id)
                λ name p.
                  let s = p.scopes self in
                  elim parameter [
                    | none ↦ (fails type_error, p)
                    | some r ↦
                        if has name s.exposed_parameters
                        then (fails type_error, p)
                        else if not (consumes_from p.scope_count r p self)
                        then (fails no_consumer, p)
                        else (
                          gives (some r),
                          set_scope self
                              (record s { exposed_parameters = insert name r s.exposed_parameters })
                              p,
                        )
                  ])
          p
