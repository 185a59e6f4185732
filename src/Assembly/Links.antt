-- ===== src/Assembly/Links.antt =====
-- `link` and `ground_pins` of src/scnsim/authoring/assembly.py.
use scnsim.Base.{
  ℕ, String, List, [], ◌∷◌, ◌++◌, Bool, true, false, none, some, not, ◌&&◌, ◌||◌, ltb, length, map,
  if◌then◌else◌, nat_beq,
}
use scnsim.Base.Eq.{nat_eq, string_eq, list_eq}
use scnsim.Wire.Net.{Nets, join}
use scnsim.Wire.Merge.{is_grounded}
use scnsim.Assembly.State.{
  Plan, Endpoint, ground_of, bus_at, tap_at, pin_at, no_endpoint, Terminal, EndpointRecord,
  link_structure,
}
use scnsim.Assembly.Action.{
  Answer, fails, gives, Method, ◌then◌, bind, read, returning, refuse_if, set_scope,
  endpoints_not_unique, redundant_link, pins_not_unique, already_grounded,
}
use scnsim.Assembly.Endpoints.{check, getnet, ep, check_endpoint}
use scnsim.Assembly.Chain.{◌also◌, same_terminal, has_twice}
use scnsim.Assembly.Structures.{sid, add_structure}
use scnsim.Assembly.Union.{endpoint_roots, validate_proposed_union}

-- `for x in endpoints: self._check_endpoint(x, link=…)`
unfoldable pub check_all : ℕ → Bool → List Endpoint → Plan → Answer (Unit {0})
check_all self link [] p = gives tt
check_all self link (x ∷ xs) p = check_endpoint self link x p also check_all self link xs p

-- Equality of endpoints: handles are compared by identity.
abbrev pub same_endpoint : Endpoint → Endpoint → Bool
same_endpoint (ground_of s) (ground_of t) = nat_beq s t
same_endpoint (bus_at a) (bus_at b) = nat_beq a b
same_endpoint (tap_at a) (tap_at b) = nat_beq a b
same_endpoint (pin_at a) (pin_at b) = nat_beq a b
same_endpoint no_endpoint no_endpoint = true
same_endpoint _ _ = false

unfoldable pub stands_in : Endpoint → List Endpoint → Bool
stands_in x [] = false
stands_in x (y ∷ ys) = same_endpoint x y || stands_in x ys

unfoldable pub all_unique : List Endpoint → Bool
all_unique [] = true
all_unique (x ∷ xs) = not (stands_in x xs) && all_unique xs

-- `all(x is roots[0] for x in roots[1:])`: an endpoint without a net gets a pending one, which is no
-- other's.
unfoldable pub all_same : Terminal → List Terminal → Bool
all_same r [] = true
all_same r (t ∷ ts) = same_terminal t r && all_same r ts

abbrev pub is_redundant : List Terminal → Bool
is_redundant [] = true
is_redundant (t ∷ ts) = all_same t ts

unfoldable pub not_redundant : List Endpoint → Plan → Answer (Unit {0})
not_redundant endpoints p = elim (endpoint_roots endpoints p) [
  | fails e ↦ fails e
  | gives roots ↦ refuse_if (is_redundant roots) redundant_link
]

-- `[self.getnet(x, True) for x in endpoints]`
unfoldable pub getnet_all : ℕ → Bool → List Endpoint → Method (List ℕ)
getnet_all self link [] p = (gives [], p)
getnet_all self link (x ∷ xs) p =
    bind (getnet self x link) (λ n. bind (getnet_all self link xs) (λ ns. returning (n ∷ ns))) p

-- `for n in …: first.join(n)`
unfoldable pub join_all : ℕ → List ℕ → Nets → Nets
join_all first [] s = s
join_all first (n ∷ ns) s = join_all first ns (join first n s).1

abbrev pub join_first : List ℕ → Nets → Nets
join_first [] s = s
join_first (n ∷ ns) s = join_all n ns s

-- `[self.ep(x) for x in endpoints]`
unfoldable pub ep_all : List Endpoint → Plan → Answer (List EndpointRecord)
ep_all [] p = gives []
ep_all (x ∷ xs) p = elim (ep x p) [
  | fails e ↦ fails e
  | gives r ↦ elim (ep_all xs p) [ fails e ↦ fails e | gives rs ↦ gives (r ∷ rs) ]
]

module _ (nfc : String → String) (self : ℕ) where
  -- `link`
  unfoldable pub link : String → List Endpoint → Method String
  link id endpoints =
      check self
      then (λ p.
          refuse_if (ltb (length endpoints) 2 || not (all_unique endpoints)) endpoints_not_unique)
      then check_all self true endpoints
      then not_redundant endpoints
      then validate_proposed_union self false endpoints
      then bind (sid nfc self id) λ name. bind (getnet_all self true endpoints) λ ns p.
        read (ep_all endpoints)
          (λ rs q. (gives name, add_structure self (link_structure name rs) q))
          (record p { nets = join_first ns p.nets })

-- `x.root().ground` of one of the pins' nets.
unfoldable pub any_grounded : List ℕ → Plan → Bool
any_grounded [] p = false
any_grounded (i ∷ is) p =
    elim (p.pins i).net [ none ↦ false | some n ↦ is_grounded p.nets n ] || any_grounded is p

-- `for x in ns: x.join(self.root.ground_net)`
unfoldable pub join_ground : ℕ → List ℕ → Nets → Nets
join_ground ground [] s = s
join_ground ground (n ∷ ns) s = join_ground ground ns (join n ground s).1

-- `ground_pins`
unfoldable pub ground_pins : ℕ → List ℕ → Method (Unit {0})
ground_pins self pins =
    check self
    then (λ p. refuse_if (ltb (length pins) 1 || has_twice pins) pins_not_unique)
    then check_all self false (map pin_at pins)
    then (λ p. refuse_if (any_grounded pins p) already_grounded)
    then validate_proposed_union self true (map pin_at pins)
    then bind (getnet_all self false (map pin_at pins)) λ ns p.
      let s = p.scopes self in
      (
        gives tt,
        set_scope self (record s { ground_calls = s.ground_calls ++ pins ∷ [] })
            (record p { nets = join_ground p.ground_net ns p.nets }),
      )
