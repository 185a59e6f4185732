-- ===== src/Assembly/Parts.antt =====
-- `subsystem`, `add`, `bus`, `tap`, `expose_pin` and `expose_coordinate` of
-- src/scnsim/authoring/assembly.py and handles.py, and `add_port` of plan.py.
use scnsim.Base.{
  ℕ, zero, suc, String, List, [], ◌∷◌, ◌++◌, ◌+◌, Bool, true, false, none, some, not, ◌&&◌, ◌||◌,
  length, if◌then◌else◌, nat_beq, is_some,
}
use scnsim.Base.Eq.{◌==◌, nat_eq, string_eq}
use scnsim.Base.Dict.{Dict, lookup, insert}
use scnsim.Wire.Net.{Nets, new_net, update}
use scnsim.Wire.Forest.{root_of}
use scnsim.Wire.Merge.{is_grounded}
use scnsim.Assembly.State.{
  Plan, new_scope, Pin, Port, Endpoint, subsystem_declared, component_declared,
}
use scnsim.Assembly.Action.{
  Answer, fails, gives, Method, ◌then◌, bind, read, refuse_if, set_scope, set_component, type_error,
  value_error, attribute_error, duplicate_part, duplicate_component, duplicate_bus, duplicate_tap,
  duplicate_public_pin, duplicate_coordinate, invalid_port,
}
use scnsim.Assembly.Endpoints.{identifier, check, getnet, ep}
use scnsim.Assembly.Structures.{is_local_bus}

-- `key in d`
abbrev pub has : String → Dict String ℕ → Bool
has key d = is_some (lookup key d)

-- The search for an anonymous bus's index, on fuel; `internal` is the text `internal-{index}`.
unfoldable pub free_index : (ℕ → String) → ℕ → ℕ → Dict String ℕ → ℕ
free_index internal zero index buses = index
free_index internal (suc fuel) index buses =
    let next : ℕ = free_index internal fuel (suc index) buses in
    if has (internal index) buses then next else index

-- `p.scope = self` for the pins of an added component.
unfoldable pub adopt_pins : ℕ → Dict String ℕ → (ℕ → Pin) → ℕ → Pin
adopt_pins self [] pins = pins
adopt_pins self ((_, i) ∷ d) pins =
    adopt_pins self d (update pins i (record (pins i) { scope = some self }))

-- `p.id == id or p.net.root() is n.root()` for one of the ports.
unfoldable pub port_taken : String → ℕ → List Port → Nets → Bool
port_taken id n [] s = false
port_taken id n (x ∷ xs) s =
    (x.id == id || nat_beq (root_of s x.net) (root_of s n)) || port_taken id n xs s

module _ (nfc : String → String) (self : ℕ) where
  -- `subsystem`: the new scope's number.
  unfoldable pub subsystem : String → Method ℕ
  subsystem id =
      check self
      then read (λ _. identifier nfc id)
          λ name p.
            let s = p.scopes self in
            if has name s.components || has name s.children
            then (fails duplicate_part, p)
            else (let child = p.scope_count in
                let q : Plan = record p {
                  scopes = update p.scopes child (new_scope name (some self) false);
                  scope_count = child + 1;
                } in
                (
                  gives child,
                  set_scope self
                      (record s {
                        children = insert name child s.children;
                        declarations = s.declarations ++ subsystem_declared name ∷ [];
                      })
                      q,
                ))

  -- `add` of a component that has no body.
  unfoldable pub add_native : ℕ → Method ℕ
  add_native c = check self then λ p.
      let s = p.scopes self in
      let x = p.components c in
      if has x.id s.components || (has x.id s.children || is_some x.owner)
      then (fails duplicate_component, p)
      else (let q : Plan = set_component c (record x { owner = some self }) p in
          let r : Plan = record q { pins = adopt_pins self x.pins q.pins } in
          (
            gives c,
            set_scope self
                (record s {
                  components = insert x.id c s.components;
                  declarations = s.declarations ++ component_declared x.id ∷ [];
                })
                r,
          ))

  -- `BusRef(self, id, anonymous)` and its entry.
  unfoldable pub new_bus : String → Bool → Plan → ℕ × Plan
  new_bus id anonymous p =
      let (n, nets) = new_net false p.nets in
      let b = p.bus_count in
      let s = p.scopes self in
      let q : Plan = record p {
        nets = nets;
        buses =
            update p.buses b
              (record { scope = self; id = id; net = n; taps = []; anonymous = anonymous });
        bus_count = b + 1;
      } in
      (b, set_scope self (record s { buses = insert id b s.buses }) q)

  -- `bus(id=…)`
  unfoldable pub bus : String → Method ℕ
  bus id =
      check self
      then read (λ _. identifier nfc id)
          λ name p.
            if has name (p.scopes self).buses
            then (fails duplicate_bus, p)
            else (let (b, q) = new_bus name false p in (gives b, q))

  -- `bus()`
  unfoldable pub anonymous_bus : (ℕ → String) → Method ℕ
  anonymous_bus internal = check self then λ p.
      let buses = (p.scopes self).buses in
      let name = internal (free_index internal (length buses) 0 buses) in
      if has name buses
      then (fails duplicate_bus, p)
      else (let (b, q) = new_bus name true p in (gives b, q))

  -- `BusRef.tap`: `self` is the bus's scope.
  unfoldable pub tap : ℕ → String → Method ℕ
  tap b id =
      (λ p. check (p.buses b).scope p)
      then read (λ _. identifier nfc id)
          λ name p.
            let x = p.buses b in
            if has name x.taps
            then (fails duplicate_tap, p)
            else (let t = p.tap_count in
                (
                  gives t,
                  record p {
                    taps = update p.taps t (record { bus = b; id = name; net = x.net });
                    tap_count = t + 1;
                    buses = update p.buses b (record x { taps = insert name t x.taps });
                  },
                ))

  -- The tests that `expose_pin` and `expose_coordinate` begin with.
  unfoldable pub can_expose : Endpoint → Plan → Answer (Unit {0})
  can_expose at_ p =
      if not (is_some (p.scopes self).parent) && not (p.scopes self).is_composite
      then fails attribute_error
      else refuse_if (not (is_local_bus nfc self at_ p)) type_error

  -- `expose_pin`: the new public pin's number.
  unfoldable pub expose_pin : String → Endpoint → Method ℕ
  expose_pin id at_ =
      check self
      then can_expose at_
      then read (λ _. identifier nfc id)
          λ name p.
            if has name (p.scopes self).exposed_pins
            then (fails duplicate_public_pin, p)
            else (read (ep at_)
                (λ _. bind (getnet self at_ false) λ n q.
                  let i = q.pin_count in
                  let s = q.scopes self in
                  (
                    gives i,
                    set_scope self (record s { exposed_pins = insert name i s.exposed_pins })
                        (record q {
                          pins = update q.pins i (record {
                            component = none;
                            scope = some self;
                            name = name;
                            net = some n;
                            public = true;
                            bound = false;
                          });
                          pin_count = i + 1;
                        }),
                  ))
                p)

  -- `expose_coordinate`
  unfoldable pub expose_coordinate : String → Endpoint → Method String
  expose_coordinate id at_ =
      check self
      then can_expose at_
      then read (λ _. identifier nfc id)
          λ name p.
            if is_some (lookup name (p.scopes self).exposed_coordinates)
            then (fails duplicate_coordinate, p)
            else (read (ep at_)
                (λ endpoint. bind (getnet self at_ false) λ n q.
                  let s = q.scopes self in
                  (
                    gives name,
                    set_scope self
                        (record s {
                          exposed_coordinates = insert name (n, endpoint) s.exposed_coordinates;
                        })
                        q,
                  ))
                p)

  -- `add_port` on the root scope; `positive` is whether the impedance is a positive resistance.
  unfoldable pub add_port : String → Endpoint → String → Bool → Method String
  add_port id at_ role positive =
      check self
      then read (λ _. identifier nfc id)
          λ name.
            (λ p. refuse_if (not (is_local_bus nfc self at_ p)) type_error)
            then bind (getnet self at_ false) λ n p.
              if is_grounded p.nets n || port_taken name n p.ports p.nets
              then (fails invalid_port, p)
              else if not (role == "terminated" || role == "nonloading_probe")
              then (fails value_error, p)
              else if not positive
              then (fails value_error, p)
              else (
                gives name,
                record p { ports = p.ports ++ record { id = name; net = n; role = role } ∷ [] },
              )
