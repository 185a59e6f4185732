-- ===== src/Assembly/Union.antt =====
-- `_walk` and `_validate_proposed_union` of src/scnsim/authoring/assembly.py: the tests on all scopes
-- before wires are joined.
use scnsim.Base.{
  ℕ, zero, suc, String, List, [], ◌∷◌, ◌++◌, Bool, true, false, none, some, not, ◌&&◌, ◌||◌,
  if◌then◌else◌, nat_beq,
}
use scnsim.Base.Eq.{nat_eq, string_eq, list_eq}
use scnsim.Base.Dict.{Dict}
use scnsim.Wire.Forest.{root_of}
use scnsim.Assembly.State.{Plan, Port, Endpoint, Terminal, rooted, loose}
use scnsim.Assembly.Action.{
  Answer, fails, gives, ◌then◌, refuse_if, merged_buses, shorted_body, grounded_port,
}
use scnsim.Assembly.Endpoints.{endpoint_root, is_ordinary}
use scnsim.Assembly.Chain.{◌also◌, same_terminal}

-- The values of a dict.
abbrev pub values : Dict String ℕ → List ℕ
values [] = []
values ((_, x) ∷ d) = x ∷ values d

-- `_walk`, on fuel for the depth of the tree of scopes: the scope, its children, and the bodies of its
-- components.
unfoldable pub walk_bodies : (ℕ → List ℕ) → List ℕ → Plan → List ℕ
walk_bodies visit [] p = []
walk_bodies visit (c ∷ cs) p = elim (p.components c).body [
  | none ↦ walk_bodies visit cs p
  | some body ↦ visit body ++ walk_bodies visit cs p
]

unfoldable pub walk_children : (ℕ → List ℕ) → List ℕ → List ℕ
walk_children visit [] = []
walk_children visit (s ∷ ss) = visit s ++ walk_children visit ss

unfoldable pub walk_from : ℕ → Plan → ℕ → List ℕ
walk_from zero p s = []
walk_from (suc fuel) p s =
    s
    ∷ (walk_children (walk_from fuel p) (values (p.scopes s).children)
        ++ walk_bodies (walk_from fuel p) (values (p.scopes s).components) p)

-- `CircuitPlan._walk`, which visits as `_Scope._walk` does from the root.
unfoldable pub walk : Plan → List ℕ
walk p = walk_from p.scope_count p p.root

-- `{self._endpoint_root(endpoint) for endpoint in endpoints}`
unfoldable pub endpoint_roots : List Endpoint → Plan → Answer (List Terminal)
endpoint_roots [] p = gives []
endpoint_roots (x ∷ xs) p = elim (endpoint_root x p) [
  | fails e ↦ fails e
  | gives t ↦ elim (endpoint_roots xs p) [ fails e ↦ fails e | gives ts ↦ gives (t ∷ ts) ]
]

unfoldable pub is_among : Terminal → List Terminal → Bool
is_among t [] = false
is_among t (r ∷ rs) = same_terminal r t || is_among t rs

-- What `projected` returns: the target of the union, or another root.
pub data Projected : Type 0 where
  target : Projected
  apart : Terminal → Projected

-- `projected(net)`. Under `ground` the target is the ground's root.
unfoldable pub projected : Bool → List Terminal → Plan → ℕ → Projected
projected ground roots p n =
    let r = root_of p.nets n in
    if is_among (rooted r) roots || (ground && nat_beq r (root_of p.nets p.ground_net))
    then target
    else apart (rooted r)

-- `is` of two projections.
abbrev pub same_projected : Projected → Projected → Bool
same_projected target target = true
same_projected (apart s) (apart t) = same_terminal s t
same_projected _ _ = false

-- The roots of the scope's buses that the union reaches.
unfoldable pub reached_buses : List Terminal → List ℕ → Plan → List ℕ
reached_buses roots [] p = []
reached_buses roots (b ∷ bs) p = elim (projected false roots p (p.buses b).net) [
  | target ↦ root_of p.nets (p.buses b).net ∷ reached_buses roots bs p
  | apart _ ↦ reached_buses roots bs p
]

-- `len({…}) > 1`
unfoldable pub has_two : List ℕ → Bool
has_two [] = false
has_two (r ∷ []) = false
has_two (r ∷ s ∷ rs) = not (nat_beq r s) || has_two (s ∷ rs)

-- `pin_roots`: a pin that has no net stands for itself.
unfoldable pub pin_roots : Bool → List Terminal → List ℕ → Plan → List Projected
pin_roots ground roots [] p = []
pin_roots ground roots (i ∷ is) p =
    elim (p.pins i).net [ none ↦ apart (loose i) | some n ↦ projected ground roots p n ]
    ∷ pin_roots ground roots is p

unfoldable pub projects_to : Projected → List Projected → Bool
projects_to t [] = false
projects_to t (r ∷ rs) = same_projected t r || projects_to t rs

unfoldable pub repeats : List Projected → Bool
repeats [] = false
repeats (t ∷ ts) = projects_to t ts || repeats ts

-- The test of one component, of a scope's, and of all.
unfoldable pub shorts : Bool → List Terminal → Plan → ℕ → Bool
shorts ground roots p c =
    is_ordinary (p.components c).kind
    && repeats (pin_roots ground roots (values (p.components c).pins) p)

unfoldable pub any_body : (ℕ → Bool) → List ℕ → Bool
any_body test [] = false
any_body test (c ∷ cs) = test c || any_body test cs

unfoldable pub any_scope : (ℕ → Bool) → List ℕ → Plan → Bool
any_scope test [] p = false
any_scope test (s ∷ ss) p = any_body test (values (p.scopes s).components) || any_scope test ss p

-- The test of a port: it would be on the ground's wire.
unfoldable pub grounds_port : Bool → List Terminal → Plan → Port → Bool
grounds_port ground roots p port =
    elim (projected ground roots p port.net) [
      | target ↦ ground
      | apart t ↦ same_terminal t (rooted (root_of p.nets p.ground_net))
    ]
    || (ground && is_among (rooted (root_of p.nets port.net)) roots)

unfoldable pub any_port : (Port → Bool) → List Port → Bool
any_port test [] = false
any_port test (x ∷ xs) = test x || any_port test xs

-- `_validate_proposed_union(endpoints, ground=…)`
unfoldable pub validate_proposed_union : ℕ → Bool → List Endpoint → Plan → Answer (Unit {0})
validate_proposed_union self ground endpoints p = elim (endpoint_roots endpoints p) [
  | fails e ↦ fails e
  | gives roots ↦
      refuse_if (not ground && has_two (reached_buses roots (values (p.scopes self).buses) p))
        merged_buses
      also refuse_if (any_scope (shorts ground roots p) (walk p) p) shorted_body
      also refuse_if (any_port (grounds_port ground roots p) p.ports) grounded_port
]
