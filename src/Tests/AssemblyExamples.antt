-- ===== src/Tests/AssemblyExamples.antt =====
-- Plans of src/scnsim/authoring at concrete inputs.
use scnsim.Base.{
  ℕ, String, List, [], ◌∷◌, ◌≡◌, ◌∙◌, sym, refl, Bool-cases, inl, inr, true, false, none, some, All,
  arith, if◌then◌else◌, nat_beq, nat_beq_iff,
}
use scnsim.Base.Dict.{lookup, insert, contains}
use scnsim.Wire.Net.{root, no_nets, new_net, join}
use scnsim.Wire.Forest.{root_of, find}
use scnsim.Wire.Merge.{is_grounded}
use scnsim.Assembly.State.{
  Plan, new_scope, Component, Pin, ordinary, bus_at, pin_at, body_of, Endpoint,
}
use scnsim.Assembly.Action.{fails, gives, Error, shorted_body, duplicate_structure, same_net}
use scnsim.Assembly.Calls.{
  Call, calls_series, calls_parallel, calls_link, calls_ground_pins, calls_bus, calls_add,
  calls_add_port, perform, closed_plan_refuses,
}
use scnsim.Assembly.Union.{
  walk_from, walk_bodies, walk_children, walk, endpoint_roots, is_among, projected, reached_buses,
  has_two, pin_roots, projects_to, repeats, shorts, any_body, any_scope, grounds_port, any_port,
  validate_proposed_union,
}
use scnsim.Assembly.Links.{
  check_all, stands_in, all_unique, all_same, not_redundant, getnet_all, join_all, ep_all, link,
  any_grounded, join_ground, ground_pins,
}
use scnsim.Assembly.Finish.{
  prepare_seal, complete_scope, any_unbound, net_roots, body_holds, composite_holds,
  component_holds, each, complete_from,
}
use scnsim.Assembly.Completeness.{BodiesAreComposite, ScopeFinished, complete_scope-walk}
use scnsim.Assembly.Reach.{Wired}
use scnsim.Assembly.Linking.{OneWire, link-OneWire, link_retry}
use scnsim.Wire.Create.{no_nets-IsForest, new_net-IsForest}
use scnsim.Assembly.Seal.{perform_each, Held, prepare_seal-Held}
use scnsim.Assembly.Once.{holds_body}
use scnsim.Assembly.Inductive.{
  any_exposes, is_coupled, is_allowed, physical_branch, physical, can_couple, couple,
  couple_inductive,
}
use scnsim.Assembly.Coupling.{couple_inductive_once}
use scnsim.Assembly.Single.{holds_branch, takes_body, structure_once}
use scnsim.Assembly.Endpoints.{
  path, identifier, any_unportable, check, path_from, component_id, is_reachable, touch_pin, getnet,
  ep, check_intrinsic_pair, two_pins, use_element, check_endpoint, endpoint_root,
}
use scnsim.Assembly.Chain.{
  use_all, has_twice, any_used, distinct_ends, prepared_chain, new_nets, connect, chain,
}
use scnsim.Assembly.Structures.{
  sid, publish_chain, series, is_local_bus, prepare_all, chain_all, all_nonempty, parallel,
}
use scnsim.Assembly.Parts.{bus, free_index, adopt_pins, port_taken, add_native, new_bus, add_port}

-- Names that are normalized already, and one text for the anonymous buses.
abbrev same : String → String
same x = x

abbrev internal : ℕ → String
internal _ = "internal-0"

abbrev blank_pin : Pin
blank_pin = record {
  component = none;
  scope = none;
  name = "";
  net = none;
  public = false;
  bound = false;
}

-- Component `c` has the pins 2c and 2c + 1.
abbrev pins_of_two : ℕ → Pin
pins_of_two i =
    if nat_beq i 0
    then record blank_pin { component = some 0; name = "1" }
    else if nat_beq i 1
    then record blank_pin { component = some 0; name = "2" }
    else if nat_beq i 2
    then record blank_pin { component = some 1; name = "1" }
    else record blank_pin { component = some 1; name = "2" }

abbrev resistor : String → ℕ → ℕ → Component
resistor id a b = record {
  id = id;
  kind = ordinary;
  body = none;
  owner = none;
  used = 0;
  pins = ("1", a) ∷ ("2", b) ∷ [];
  intrinsic_pin_classes = [];
  field_parameters = [];
}

-- A new root plan, beside two resistors.
abbrev fresh : Plan
fresh = record {
  nets = (new_net true no_nets).1;
  ground_net = 0;
  root = 0;
  sealed = false;
  run_seal_token = none;
  ports = [];
  scopes = λ i. new_scope "root" none false;
  scope_count = 1;
  components = λ c. if nat_beq c 0 then resistor "r1" 0 1 else resistor "r2" 2 3;
  pins = pins_of_two;
  pin_count = 4;
  buses = λ b. record { scope = 0; id = ""; net = 0; taps = []; anonymous = false };
  bus_count = 0;
  taps = λ t. record { bus = 0; id = ""; net = 0 };
  tap_count = 0;
  branches = λ b. record { component = b; id = "l" };
}

abbrev on_root : List Call → List (ℕ × Call)
on_root [] = []
on_root (c ∷ cs) = (0, c) ∷ on_root cs

abbrev after : List Call → Plan
after calls = perform_each same internal (on_root calls) fresh

abbrev loop : Plan
loop = after (
    calls_add 0
    ∷ calls_bus "a"
    ∷ calls_bus "b"
    ∷ calls_series "s" (bus_at 0) (body_of 0 ∷ []) (bus_at 1)
    ∷ [])

-- The unwired pins of one body can be linked, which only `complete` refuses.
loose_pins_link :
    let (a, p) =
      perform same internal 0
        (calls_link "l" (pin_at 0 ∷ pin_at 1 ∷ []))
        (after (calls_add 0 ∷ [])) in
    (a ≡ gives tt) × (complete_scope 0 p ≡ fails shorted_body)
unfolding perform_each perform identifier any_unportable check path path_from component_id
    is_reachable touch_pin getnet ep check_intrinsic_pair two_pins use_element check_endpoint
    endpoint_root use_all has_twice any_used distinct_ends prepared_chain new_nets connect chain sid
    publish_chain series is_local_bus prepare_all chain_all all_nonempty parallel walk_bodies
    walk_children walk_from walk endpoint_roots is_among projected reached_buses has_two pin_roots
    projects_to repeats shorts any_body any_scope grounds_port any_port validate_proposed_union
    check_all stands_in all_unique all_same not_redundant getnet_all join_all ep_all link
    any_grounded join_ground ground_pins free_index adopt_pins port_taken add_native new_bus bus
    add_port any_unbound net_roots body_holds composite_holds component_holds each complete_from
    complete_scope new_net join root root_of find is_grounded lookup insert contains
loose_pins_link = (refl, refl)

-- A link can ground a Port: its bus and a grounded pin.
link_grounds_port :
    let p = after (
      calls_add 0
      ∷ calls_bus "a"
      ∷ calls_add_port "p" (bus_at 0) "terminated" true
      ∷ calls_ground_pins (0 ∷ [])
      ∷ []) in
    let (a, q) = perform same internal 0 (calls_link "l" (bus_at 0 ∷ pin_at 0 ∷ [])) p in
    (is_grounded p.nets 1 ≡ false) × (a ≡ gives tt) × (is_grounded q.nets 1 ≡ true)
unfolding perform_each perform identifier any_unportable check path path_from component_id
    is_reachable touch_pin getnet ep check_intrinsic_pair two_pins use_element check_endpoint
    endpoint_root use_all has_twice any_used distinct_ends prepared_chain new_nets connect chain sid
    publish_chain series is_local_bus prepare_all chain_all all_nonempty parallel walk_bodies
    walk_children walk_from walk endpoint_roots is_among projected reached_buses has_two pin_roots
    projects_to repeats shorts any_body any_scope grounds_port any_port validate_proposed_union
    check_all stands_in all_unique all_same not_redundant getnet_all join_all ep_all link
    any_grounded join_ground ground_pins free_index adopt_pins port_taken add_native new_bus bus
    add_port any_unbound net_roots body_holds composite_holds component_holds each complete_from
    complete_scope new_net join root root_of find is_grounded lookup insert contains
link_grounds_port = (refl, refl, refl)

-- A parallel whose first branch joins its ends fails with its id and that branch's body consumed.
parallel_fails_half_way :
    let p = after (
      calls_add 0
      ∷ calls_add 1
      ∷ calls_bus "a"
      ∷ calls_bus "b"
      ∷ calls_link "l" (pin_at 0 ∷ bus_at 1 ∷ [])
      ∷ []) in
    let (a, q) =
      perform same internal 0
        (calls_parallel "p" (bus_at 0) ((body_of 0 ∷ []) ∷ (body_of 1 ∷ []) ∷ []) (bus_at 1))
        p in
    (a ≡ fails same_net) × ((q.components 0).used ≡ 1) × ((q.scopes 0).ids ≡ "p" ∷ "l" ∷ [])
unfolding perform_each perform identifier any_unportable check path path_from component_id
    is_reachable touch_pin getnet ep check_intrinsic_pair two_pins use_element check_endpoint
    endpoint_root use_all has_twice any_used distinct_ends prepared_chain new_nets connect chain sid
    publish_chain series is_local_bus prepare_all chain_all all_nonempty parallel walk_bodies
    walk_children walk_from walk endpoint_roots is_among projected reached_buses has_two pin_roots
    projects_to repeats shorts any_body any_scope grounds_port any_port validate_proposed_union
    check_all stands_in all_unique all_same not_redundant getnet_all join_all ep_all link
    any_grounded join_ground ground_pins free_index adopt_pins port_taken add_native new_bus bus
    add_port any_unbound net_roots body_holds composite_holds component_holds each complete_from
    complete_scope new_net join root root_of find is_grounded lookup insert contains
parallel_fails_half_way = (refl, refl, refl)

closed_plan_refuses_example :
    (e : Error) × (perform same internal 0 (calls_bus "c") (record loop { sealed = true })
      ≡ (fails e, record loop { sealed = true }))
closed_plan_refuses_example =
    closed_plan_refuses same internal 0 (calls_bus "c") (record loop { sealed = true }) (inl refl)

loop_bodies : (c : ℕ) → (loop.components c).body ≡ none
unfolding perform_each perform identifier any_unportable check path path_from component_id
    is_reachable touch_pin getnet ep check_intrinsic_pair two_pins use_element check_endpoint
    endpoint_root use_all has_twice any_used distinct_ends prepared_chain new_nets connect chain sid
    publish_chain series is_local_bus prepare_all chain_all all_nonempty parallel walk_bodies
    walk_children walk_from walk endpoint_roots is_among projected reached_buses has_two pin_roots
    projects_to repeats shorts any_body any_scope grounds_port any_port validate_proposed_union
    check_all stands_in all_unique all_same not_redundant getnet_all join_all ep_all link
    any_grounded join_ground ground_pins free_index adopt_pins port_taken add_native new_bus bus
    add_port any_unbound net_roots body_holds composite_holds component_holds each complete_from
    complete_scope new_net join root root_of find is_grounded lookup insert contains
loop_bodies c = elim (Bool-cases (nat_beq c 0)) [ inl h ↦ simp h | inr h ↦ simp h ]

no_bodies : BodiesAreComposite loop
no_bodies c b h = let q : some b ≡ none = sym h ∙ loop_bodies c in absurd (ground (arith, q))

complete_scope-walk_example : All (ScopeFinished loop) (walk_from loop.scope_count loop 0)
unfolding perform_each perform identifier any_unportable check path path_from component_id
    is_reachable touch_pin getnet ep check_intrinsic_pair two_pins use_element check_endpoint
    endpoint_root use_all has_twice any_used distinct_ends prepared_chain new_nets connect chain sid
    publish_chain series is_local_bus prepare_all chain_all all_nonempty parallel walk_bodies
    walk_children walk_from walk endpoint_roots is_among projected reached_buses has_two pin_roots
    projects_to repeats shorts any_body any_scope grounds_port any_port validate_proposed_union
    check_all stands_in all_unique all_same not_redundant getnet_all join_all ep_all link
    any_grounded join_ground ground_pins free_index adopt_pins port_taken add_native new_bus bus
    add_port any_unbound net_roots body_holds composite_holds component_holds each complete_from
    complete_scope new_net join root root_of find is_grounded lookup insert contains
complete_scope-walk_example = complete_scope-walk loop 0 no_bodies refl

prepare_seal-Held_example : Held same internal 7 fresh (record fresh { run_seal_token = some 7 })
unfolding prepare_seal
prepare_seal-Held_example =
    prepare_seal-Held same internal 7 fresh (record fresh { run_seal_token = some 7 }) refl

-- The two resistors in the root, and a bus on net 1.
abbrev wired : Plan
wired = record fresh {
  nets = (new_net false (new_net true no_nets).1).1;
  scopes = λ i. record (new_scope "root" none false) { buses = ("a", 0) ∷ []; ids = "old" ∷ [] };
  buses = λ b. record { scope = 0; id = "a"; net = 1; taps = []; anonymous = false };
  bus_count = 1;
  components = λ c. record (fresh.components c) { owner = some 0 };
  pins = λ i. record (pins_of_two i) { scope = some 0 };
}

wired-no_nets : (i : ℕ) → (wired.pins i).net ≡ none
wired-no_nets i = ground (arith, nat_beq_iff i 0, nat_beq_iff i 1, nat_beq_iff i 2)

wired-Wired : Wired wired
unfolding new_net
wired-Wired = record {
  forest =
      new_net-IsForest (new_net true no_nets).1 (new_net-IsForest no_nets no_nets-IsForest true)
        false;
  bus_in = λ b. omega arith;
  tap_in = λ t. omega arith;
  pin_in = λ i n h. absurd (ground (arith, h, wired-no_nets i));
}

abbrev ends : List Endpoint
ends = pin_at 1 ∷ bus_at 0 ∷ pin_at 2 ∷ []

link-OneWire_example : OneWire ends wired (link same 0 "l" ends wired).1
unfolding perform_each perform identifier any_unportable check path path_from component_id
    is_reachable touch_pin getnet ep check_intrinsic_pair two_pins use_element check_endpoint
    endpoint_root use_all has_twice any_used distinct_ends prepared_chain new_nets connect chain sid
    publish_chain series is_local_bus prepare_all chain_all all_nonempty parallel walk_bodies
    walk_children walk_from walk endpoint_roots is_among projected reached_buses has_two pin_roots
    projects_to repeats shorts any_body any_scope grounds_port any_port validate_proposed_union
    check_all stands_in all_unique all_same not_redundant getnet_all join_all ep_all link
    any_grounded join_ground ground_pins free_index adopt_pins port_taken add_native new_bus bus
    add_port any_unbound net_roots body_holds composite_holds component_holds each complete_from
    complete_scope new_net join root root_of find is_grounded lookup insert contains
link-OneWire_example =
    link-OneWire same 0 "l" ends wired (link same 0 "l" ends wired).1 "l" wired-Wired refl

link_retry_example : (link same 0 "old" ends wired).1 ≡ wired
unfolding perform_each perform identifier any_unportable check path path_from component_id
    is_reachable touch_pin getnet ep check_intrinsic_pair two_pins use_element check_endpoint
    endpoint_root use_all has_twice any_used distinct_ends prepared_chain new_nets connect chain sid
    publish_chain series is_local_bus prepare_all chain_all all_nonempty parallel walk_bodies
    walk_children walk_from walk endpoint_roots is_among projected reached_buses has_two pin_roots
    projects_to repeats shorts any_body any_scope grounds_port any_port validate_proposed_union
    check_all stands_in all_unique all_same not_redundant getnet_all join_all ep_all link
    any_grounded join_ground ground_pins free_index adopt_pins port_taken add_native new_bus bus
    add_port any_unbound net_roots body_holds composite_holds component_holds each complete_from
    complete_scope new_net join root root_of find is_grounded lookup insert contains
link_retry_example =
    link_retry same 0 "old" ends wired (link same 0 "old" ends wired).1 duplicate_structure refl

abbrev first_call : Call
first_call = calls_series "s" (bus_at 0) (body_of 0 ∷ []) (pin_at 2)

abbrev later_call : Call
later_call = calls_parallel "t" (bus_at 0) ((body_of 1 ∷ []) ∷ (body_of 0 ∷ []) ∷ []) (bus_at 1)

abbrev in_between : List (ℕ × Call)
in_between = (0, calls_bus "z") ∷ []

abbrev after_series : Plan
after_series = (perform same internal 0 first_call wired).1

structure_once_example :
    let r = perform_each same internal in_between after_series in
    (e : Error) × (perform same internal 0 later_call r ≡ (fails e, r))
unfolding perform_each perform identifier any_unportable check path path_from component_id
    is_reachable touch_pin getnet ep check_intrinsic_pair two_pins use_element check_endpoint
    endpoint_root use_all has_twice any_used distinct_ends prepared_chain new_nets connect chain sid
    publish_chain series is_local_bus prepare_all chain_all all_nonempty parallel walk_bodies
    walk_children walk_from walk endpoint_roots is_among projected reached_buses has_two pin_roots
    projects_to repeats shorts any_body any_scope grounds_port any_port validate_proposed_union
    check_all stands_in all_unique all_same not_redundant getnet_all join_all ep_all link
    any_grounded join_ground ground_pins free_index adopt_pins port_taken add_native new_bus bus
    add_port any_unbound net_roots body_holds composite_holds component_holds each complete_from
    complete_scope new_net join root root_of find is_grounded lookup insert contains holds_body
    holds_branch takes_body
structure_once_example =
    structure_once same internal 0 0 0 first_call later_call wired after_series in_between refl refl
      refl

-- The inductive branches of the two components on the root.
abbrev coupled : Plan
coupled = (couple_inductive same 0 "m" (some 0) (some 1) (gives true) wired).1

couple_inductive_once_example :
    ((e : Error) × (couple_inductive same 0 "n" (some 0) (some 1) (gives true) coupled
        ≡ (fails e, coupled)))
    × ((e : Error) × (couple_inductive same 0 "n" (some 1) (some 0) (gives true) coupled
          ≡ (fails e, coupled)))
unfolding perform_each perform identifier any_unportable check path path_from component_id
    is_reachable touch_pin getnet ep check_intrinsic_pair two_pins use_element check_endpoint
    endpoint_root use_all has_twice any_used distinct_ends prepared_chain new_nets connect chain sid
    publish_chain series is_local_bus prepare_all chain_all all_nonempty parallel walk_bodies
    walk_children walk_from walk endpoint_roots is_among projected reached_buses has_two pin_roots
    projects_to repeats shorts any_body any_scope grounds_port any_port validate_proposed_union
    check_all stands_in all_unique all_same not_redundant getnet_all join_all ep_all link
    any_grounded join_ground ground_pins free_index adopt_pins port_taken add_native new_bus bus
    add_port any_unbound net_roots body_holds composite_holds component_holds each complete_from
    complete_scope new_net join root root_of find is_grounded lookup insert contains holds_body
    holds_branch takes_body any_exposes is_coupled is_allowed physical_branch physical can_couple
    couple couple_inductive
couple_inductive_once_example =
    couple_inductive_once same 0 "m" "n" 0 1 (gives true) (gives true) wired coupled "m" refl
