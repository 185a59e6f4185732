-- ===== src/Assembly/State.antt =====
-- The objects of src/scnsim/authoring: scopes, components, pins, buses, taps and ports. An object is
-- its number in a table, so that handles which the source compares by `is` are compared by number.
use scnsim.Base.{ℕ, String, List, [], Bool, false, Option}
use scnsim.Base.Dict.{Dict}
use scnsim.Wire.Net.{Nets}

-- `PinRef`. `component` is none for a public boundary pin, `scope` before the component is added.
pub record Pin : Type 0 where
  pub component : Option ℕ
  pub scope : Option ℕ
  pub name : String
  pub net : Option ℕ
  pub public : Bool
  pub bound : Bool

-- `BusRef`
pub record Bus : Type 0 where
  pub scope : ℕ
  pub id : String
  pub net : ℕ
  pub taps : Dict String ℕ
  pub anonymous : Bool

-- `TapRef`: its scope is its bus's.
pub record Tap : Type 0 where
  pub bus : ℕ
  pub id : String
  pub net : ℕ

-- `InductiveBranchRef`
pub record Branch : Type 0 where
  pub component : ℕ
  pub id : String

pub data BodyKind : Type 0 where
  ordinary complete composite : BodyKind

-- `ComponentInstance`, as far as the assembly reads it.
pub record Component : Type 0 where
  pub id : String
  pub kind : BodyKind
  pub body : Option ℕ
  pub owner : Option ℕ
  pub used : ℕ
  pub pins : Dict String ℕ
  pub intrinsic_pin_classes : Dict String (List String)
  -- The parameters that its fields refer to.
  pub field_parameters : List ℕ

-- The record that `ep` builds.
pub data EndpointRecord : Type 0 where
  ground_record : EndpointRecord
  bus_record : (scope : List String) (id : String) → EndpointRecord
  tap_record : (scope : List String) (bus id : String) → EndpointRecord
  pin_record : (scope : List String) (component id : String) (public : Bool) → EndpointRecord

-- An element of a structure's record.
pub record Part : Type 0 where
  pub path : List String
  pub between : Bool
  pub pin_1 : String
  pub pin_2 : String

pub data Structure : Type 0 where
  series_structure :
      (id : String) (start : EndpointRecord) (elements : List Part) (end : EndpointRecord)
      → Structure
  parallel_structure :
      (id : String) (start : EndpointRecord) (branches : List (ℕ × List Part))
      (end : EndpointRecord)
      → Structure
  branch_structure :
      (id : String) (at_ : EndpointRecord) (elements : List Part) (end : EndpointRecord) → Structure
  link_structure : (id : String) (endpoints : List EndpointRecord) → Structure
  -- Without its coefficient.
  coupling_structure : (id : String) (inductor_a inductor_b : List String × String) → Structure

pub data Declaration : Type 0 where
  subsystem_declared component_declared structure_declared : String → Declaration

-- `_Scope`
pub record Scope : Type 0 where
  pub id : String
  pub parent : Option ℕ
  pub is_composite : Bool
  pub built : Bool
  pub components : Dict String ℕ
  pub children : Dict String ℕ
  pub declarations : List Declaration
  pub buses : Dict String ℕ
  pub structures : List Structure
  pub ids : List String
  pub exposed_pins : Dict String ℕ
  pub exposed_coordinates : Dict String (ℕ × EndpointRecord)
  pub exposed_branches : Dict String ℕ
  pub exposed_parameters : Dict String ℕ
  pub ground_calls : List (List ℕ)
  pub coupled_pairs : List (ℕ × ℕ)

-- `_Scope.init`
abbrev pub new_scope : String → Option ℕ → Bool → Scope
new_scope id parent is_composite = record {
  id = id;
  parent = parent;
  is_composite = is_composite;
  built = false;
  components = [];
  children = [];
  declarations = [];
  buses = [];
  structures = [];
  ids = [];
  exposed_pins = [];
  exposed_coordinates = [];
  exposed_branches = [];
  exposed_parameters = [];
  ground_calls = [];
  coupled_pairs = [];
}

-- `PortRef`, without its impedance.
pub record Port : Type 0 where
  pub id : String
  pub net : ℕ
  pub role : String

-- A root plan with all its objects. A table's objects are those below its size.
pub record Plan : Type 0 where
  pub nets : Nets
  pub ground_net : ℕ
  pub root : ℕ
  pub sealed : Bool
  pub run_seal_token : Option ℕ
  pub ports : List Port
  pub scopes : ℕ → Scope
  pub scope_count : ℕ
  pub components : ℕ → Component
  pub pins : ℕ → Pin
  pub pin_count : ℕ
  pub buses : ℕ → Bus
  pub bus_count : ℕ
  pub taps : ℕ → Tap
  pub tap_count : ℕ
  pub branches : ℕ → Branch

-- What a caller may pass as an endpoint.
pub data Endpoint : Type 0 where
  ground_of : (scope : ℕ) → Endpoint
  bus_at tap_at pin_at : ℕ → Endpoint
  no_endpoint : Endpoint

-- What a caller may pass as an element: a component, or a `TwoTerminalUse` of two pins.
pub data Element : Type 0 where
  body_of : ℕ → Element
  between_of : (component pin_1 pin_2 : ℕ) → Element
  no_element : Element

-- The tuple that `use` returns.
pub record Use : Type 0 where
  pub component : ℕ
  pub pin_1 : ℕ
  pub pin_2 : ℕ
  pub between : Bool

-- What `_endpoint_root` returns: a root net, or a pin that has no net yet.
pub data Terminal : Type 0 where
  rooted : ℕ → Terminal
  loose : ℕ → Terminal
