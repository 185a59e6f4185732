-- ===== src/Assembly/Endpoints.antt =====
-- `check`, `path`, `getnet`, `ep`, `use`, `_check_endpoint` and `_endpoint_root` of
-- src/scnsim/authoring/assembly.py, and `identifier` of src/scnsim/authoring/physical_values.py.
use scnsim.Base.{
  ℕ, zero, suc, String, List, [], ◌∷◌, ◌++◌, Bool, true, false, Option, none, some, not, ◌&&◌, ◌||◌,
  ltb, if◌then◌else◌, nat_beq, is_some,
}
use scnsim.Base.Text.{codes}
use scnsim.Base.Eq.{◌==◌, nat_eq, string_eq, list_eq}
use scnsim.Base.Dict.{Dict, lookup}
use scnsim.Wire.Net.{new_net}
use scnsim.Wire.Forest.{root_of}
use scnsim.Assembly.State.{
  Plan, Pin, Component, BodyKind, ordinary, complete, composite, Endpoint, ground_of, bus_at,
  tap_at, pin_at, no_endpoint, Element, body_of, between_of, no_element, Use, Terminal, rooted,
  loose, EndpointRecord, ground_record, bus_record, tap_record, pin_record,
}
use scnsim.Assembly.Action.{
  Answer, fails, gives, Method, refuse_if, set_pin, type_error, value_error, key_error,
  preparing_run, plan_sealed, ground_cannot_link, foreign_ground, foreign_bus, stale_bus, stale_tap,
  foreign_pin, stale_pin, stale_public_pin, ordinary_required, foreign_body, aliased_terminals,
}

-- The characters that `identifier` refuses: control characters and the two slashes.
abbrev pub is_unportable : ℕ → Bool
is_unportable c = ltb c 32 || (nat_beq c 127 || (nat_beq c b'/' || nat_beq c b'\\'))

unfoldable pub any_unportable : List ℕ → Bool
any_unportable [] = false
any_unportable (c ∷ cs) = is_unportable c || any_unportable cs

-- `identifier`: `nfc` is `unicodedata.normalize("NFC", …)`.
unfoldable pub identifier : (String → String) → String → Answer String
identifier nfc value =
    if nfc value == "" || any_unportable (codes (nfc value))
    then fails value_error
    else gives (nfc value)

-- `x is self` for an owner or a scope that may be None.
abbrev pub is_self : Option ℕ → ℕ → Bool
is_self none self = false
is_self (some x) self = nat_beq x self

-- `check`
unfoldable pub check : ℕ → Plan → Answer (Unit {0})
check self p =
    if is_some p.run_seal_token
    then fails preparing_run
    else refuse_if (p.sealed || (p.scopes self).built) plan_sealed

-- `path`, on fuel for the parents: the plan's scopes are enough.
unfoldable pub path_from : ℕ → ℕ → Plan → List String
path_from zero self p = []
path_from (suc fuel) self p = elim (p.scopes self).parent [
  | none ↦ []
  | some parent ↦ path_from fuel parent p ++ (p.scopes self).id ∷ []
]

unfoldable pub path : ℕ → Plan → List String
path self p = path_from p.scope_count self p

-- `PinRef.component_id`
unfoldable pub component_id : Pin → Plan → String
component_id x p = elim x.component [ none ↦ x.name | some c ↦ (p.components c).id ]

-- `x.scope is self`, or a child's public pin.
unfoldable pub is_reachable : ℕ → Pin → Plan → Bool
is_reachable self x p =
    is_self x.scope self
    || (x.public && elim x.scope [ none ↦ false | some s ↦ is_self (p.scopes s).parent self ])

-- The attributes that `getnet` sets on a pin, with the net that it then has.
unfoldable pub touch_pin : ℕ → Plan → ℕ × Plan
touch_pin i p =
    let x = p.pins i in
    let bound = x.bound || is_some x.component in
    elim x.net [
      | some n ↦ (n, set_pin i (record x { bound = bound }) p)
      | none ↦
          let (n, nets) = new_net false p.nets in
          (n, set_pin i (record x { net = some n; bound = bound }) (record p { nets = nets }))
    ]

-- `getnet(x, link)`
unfoldable pub getnet : ℕ → Endpoint → Bool → Method ℕ
getnet self (ground_of scope) link p =
    if link
    then (fails ground_cannot_link, p)
    else if not (nat_beq scope self)
    then (fails foreign_ground, p)
    else (gives p.ground_net, p)
getnet self (bus_at b) link p =
    if not (nat_beq (p.buses b).scope self)
    then (fails foreign_bus, p)
    else (gives (p.buses b).net, p)
getnet self (tap_at t) link p =
    if not (nat_beq (p.buses (p.taps t).bus).scope self)
    then (fails foreign_bus, p)
    else (gives (p.taps t).net, p)
getnet self (pin_at i) link p =
    if not (is_reachable self (p.pins i) p)
    then (fails foreign_pin, p)
    else (let (n, q) = touch_pin i p in (gives n, q))
getnet self no_endpoint link p = (fails type_error, p)

-- `ep`. The scope of a pin that was never added is None, and has no path.
unfoldable pub ep : Endpoint → Plan → Answer EndpointRecord
ep (ground_of scope) p = gives ground_record
ep (bus_at b) p = gives (bus_record (path (p.buses b).scope p) (p.buses b).id)
ep (tap_at t) p =
    gives
      (tap_record (path (p.buses (p.taps t).bus).scope p) (p.buses (p.taps t).bus).id (p.taps t).id)
ep (pin_at i) p = elim (p.pins i).scope [
  | none ↦ fails type_error
  | some scope ↦
      gives
        (pin_record (path scope p) (component_id (p.pins i) p) (p.pins i).name (p.pins i).public)
]
ep no_endpoint p = fails type_error

abbrev pub is_ordinary : BodyKind → Bool
is_ordinary ordinary = true
is_ordinary complete = false
is_ordinary composite = false

-- `_check_intrinsic_pair`
unfoldable pub check_intrinsic_pair : Component → String → String → Answer (Unit {0})
check_intrinsic_pair c a b = elim (lookup a c.intrinsic_pin_classes) [
  | none ↦ fails key_error
  | some first ↦ elim (lookup b c.intrinsic_pin_classes) [
    | none ↦ fails key_error
    | some second ↦ refuse_if (first == second) aliased_terminals
  ]
]

-- `a, b = tuple(x.pins.values())`
unfoldable pub two_pins : Dict String ℕ → Answer (ℕ × ℕ)
two_pins ((_, a) ∷ (_, b) ∷ []) = gives (a, b)
two_pins _ = fails value_error

-- `d.get(key) is x`
abbrev pub holds_at : String → ℕ → Dict String ℕ → Bool
holds_at key x d = is_self (lookup key d) x

-- `use`
unfoldable pub use_element : ℕ → Element → Plan → Answer Use
use_element self (body_of c) p =
    if not (is_self (p.components c).owner self && is_ordinary (p.components c).kind)
    then fails ordinary_required
    else (elim (two_pins (p.components c).pins) [
      | fails e ↦ fails e
      | gives (a, b) ↦ gives (record { component = c; pin_1 = a; pin_2 = b; between = false })
    ])
use_element self (between_of c a b) p =
    let x = p.components c in
    if is_ordinary x.kind
      || (not (is_self x.owner self)
          || (not (holds_at x.id c (p.scopes self).components)
              || (nat_beq a b
                  || (not (holds_at (p.pins a).name a x.pins)
                      || not (holds_at (p.pins b).name b x.pins)))))
    then fails foreign_body
    else (elim (check_intrinsic_pair x (p.pins a).name (p.pins b).name) [
      | fails e ↦ fails e
      | gives _ ↦ gives (record { component = c; pin_1 = a; pin_2 = b; between = true })
    ])
use_element self no_element p = fails type_error

-- `_check_endpoint(x, link=…)`
unfoldable pub check_endpoint : ℕ → Bool → Endpoint → Plan → Answer (Unit {0})
check_endpoint self link (ground_of scope) p =
    if link then fails ground_cannot_link else refuse_if (not (nat_beq scope self)) foreign_ground
check_endpoint self link (bus_at b) p =
    if not (nat_beq (p.buses b).scope self)
    then fails foreign_bus
    else refuse_if (not (holds_at (p.buses b).id b (p.scopes self).buses)) stale_bus
check_endpoint self link (tap_at t) p =
    let b = (p.taps t).bus in
    if not (nat_beq (p.buses b).scope self)
    then fails foreign_bus
    else refuse_if
        (not (holds_at (p.buses b).id b (p.scopes self).buses)
          || not (holds_at (p.taps t).id t (p.buses b).taps))
        stale_tap
check_endpoint self link (pin_at i) p =
    let x = p.pins i in
    if not (is_reachable self x p) then fails foreign_pin else (elim x.component [
      | some c ↦
          refuse_if
            (not (elim (p.components c).owner [
              | none ↦ not (is_some x.scope)
              | some owner ↦ is_self x.scope owner
            ]))
            stale_pin
      | none ↦
          refuse_if
            (x.public
              && not (elim x.scope [
                | none ↦ false
                | some scope ↦ holds_at x.name i (p.scopes scope).exposed_pins
              ]))
            stale_public_pin
    ])
check_endpoint self link no_endpoint p = fails type_error

-- `_endpoint_root`
unfoldable pub endpoint_root : Endpoint → Plan → Answer Terminal
endpoint_root (ground_of scope) p = gives (rooted (root_of p.nets p.ground_net))
endpoint_root (bus_at b) p = gives (rooted (root_of p.nets (p.buses b).net))
endpoint_root (tap_at t) p = gives (rooted (root_of p.nets (p.taps t).net))
endpoint_root (pin_at i) p = elim (p.pins i).net [
  | none ↦ gives (loose i)
  | some n ↦ gives (rooted (root_of p.nets n))
]
endpoint_root no_endpoint p = fails type_error
