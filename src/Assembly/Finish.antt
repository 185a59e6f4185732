-- ===== src/Assembly/Finish.antt =====
-- `complete` of src/scnsim/authoring/assembly.py, and the seal of src/scnsim/authoring/plan.py.
use scnsim.Base.{
  ℕ, zero, suc, List, [], ◌∷◌, Bool, true, false, Option, none, some, not, ◌&&◌, ◌||◌, ltb,
  if◌then◌else◌, nat_beq, is_some,
}
use scnsim.Base.Eq.{nat_eq, list_eq}
use scnsim.Wire.Forest.{root_of}
use scnsim.Assembly.State.{Plan, composite}
use scnsim.Assembly.Action.{
  Answer, fails, gives, Method, refuse_if, preparing_run, runtime_error, recursion_error,
  type_error, attribute_error, incomplete_composite, unbound_terminal, shorted_body, unused_body,
  multiply_consumed,
}
use scnsim.Assembly.Endpoints.{is_ordinary, is_self}
use scnsim.Assembly.Chain.{◌also◌, has_twice}
use scnsim.Assembly.Union.{values}

-- `any(not p.bound for p in c.pins.values())`
unfoldable pub any_unbound : List ℕ → Plan → Bool
any_unbound [] p = false
any_unbound (i ∷ is) p = not (p.pins i).bound || any_unbound is p

-- `[p.net.root() for p in c.pins.values()]`
unfoldable pub net_roots : List ℕ → Plan → Answer (List ℕ)
net_roots [] p = gives []
net_roots (i ∷ is) p = elim (p.pins i).net [
  | none ↦ fails attribute_error
  | some n ↦ elim (net_roots is p) [ fails e ↦ fails e | gives rs ↦ gives (root_of p.nets n ∷ rs) ]
]

-- The tests of `complete` on a component after those of its kind.
unfoldable pub body_holds : ℕ → Plan → Answer (Unit {0})
body_holds c p =
    let x = p.components c in
    elim (net_roots (values x.pins) p) [
      | fails e ↦ fails e
      | gives roots ↦
          refuse_if (is_ordinary x.kind && has_twice roots) shorted_body
          also refuse_if (is_ordinary x.kind && not (nat_beq x.used 1)) unused_body
          also refuse_if (ltb 1 x.used) multiply_consumed
    ]

-- The tests of a composite: `finish` is `complete` of a scope.
unfoldable pub composite_holds : (ℕ → Answer (Unit {0})) → ℕ → Plan → Answer (Unit {0})
composite_holds finish c p = elim (p.components c).body [
  | none ↦ fails incomplete_composite
  | some body ↦ refuse_if (not (p.scopes body).built) incomplete_composite also finish body
]

unfoldable pub component_holds : (ℕ → Answer (Unit {0})) → ℕ → Plan → Answer (Unit {0})
component_holds finish c p =
    elim (p.components c).kind [
      | composite ↦ composite_holds finish c p
      | _ ↦ refuse_if (any_unbound (values (p.components c).pins) p) unbound_terminal
    ]
    also body_holds c p

unfoldable pub each : (ℕ → Answer (Unit {0})) → List ℕ → Answer (Unit {0})
each test [] = gives tt
each test (x ∷ xs) = test x also each test xs

-- `complete`, on fuel for the depth of the tree of scopes.
unfoldable pub complete_from : ℕ → Plan → ℕ → Answer (Unit {0})
complete_from zero p self = fails recursion_error
complete_from (suc fuel) p self =
    each (complete_from fuel p) (values (p.scopes self).children)
    also each (λ c. component_holds (complete_from fuel p) c p) (values (p.scopes self).components)

unfoldable pub complete_scope : ℕ → Plan → Answer (Unit {0})
complete_scope self p = complete_from p.scope_count p self

-- `_run_seal_preparation` up to its `yield`: the token, which is new.
unfoldable pub prepare_seal : ℕ → Method (Option ℕ)
prepare_seal token p =
    if p.sealed
    then (gives none, p)
    else if is_some p.run_seal_token
    then (fails preparing_run, p)
    else (gives (some token), record p { run_seal_token = some token })

-- The `finally` of `_run_seal_preparation`, which runs only when a token was given.
unfoldable pub release_seal : Option ℕ → Plan → Plan
release_seal none p = p
release_seal (some token) p =
    if is_self p.run_seal_token token then record p { run_seal_token = none } else p

-- `_seal_validated`: the first argument is whether it is given an AuthoringSnapshot.
unfoldable pub seal_validated : Bool → Option ℕ → Method (Unit {0})
seal_validated is_snapshot token p =
    if not is_snapshot
    then (fails type_error, p)
    else if p.sealed
    then (if is_some token then fails runtime_error else gives tt, p)
    else (elim token [
      | none ↦ (fails runtime_error, p)
      | some t ↦
          if not (is_self p.run_seal_token t)
          then (fails runtime_error, p)
          else (gives tt, record p { sealed = true; run_seal_token = none })
    ])
