-- ===== src/Assembly/Action.antt =====
-- A method call on the plan of src/scnsim/authoring: it returns or raises, and what it wrote before
-- a raise stays written.
use scnsim.Base.{ℕ, Bool, if◌then◌else◌}
use scnsim.Wire.Net.{update}
use scnsim.Assembly.State.{Plan, Scope, Pin, Component}

-- The exceptions, by their messages.
pub data Error : Type 0 where
  -- PlanSealedError
  preparing_run plan_sealed : Error
  -- TypeError, ValueError, KeyError and AttributeError
  type_error value_error key_error attribute_error runtime_error recursion_error : Error
  -- SCNSimValidationError
  duplicate_part duplicate_component duplicate_bus duplicate_tap : Error
  ground_cannot_link foreign_ground foreign_bus stale_bus stale_tap : Error
  foreign_pin stale_pin stale_public_pin : Error
  ordinary_required foreign_body aliased_terminals : Error
  empty_structure one_terminal same_net body_consumed duplicate_structure few_branches : Error
  endpoints_not_unique redundant_link merged_buses shorted_body grounded_port : Error
  pins_not_unique already_grounded : Error
  duplicate_public_pin duplicate_coordinate invalid_port : Error
  distinct_branches private_branch pair_coupled coefficient_range : Error
  invalid_branch no_consumer : Error
  incomplete_composite unbound_terminal unused_body multiply_consumed : Error

pub data Answer (A : Type 0) : Type 0 where
  fails : Error → Answer A
  gives : A → Answer A

abbrev pub Method : Type 0 → Type 0
Method A = Plan → Answer A × Plan

-- A test before anything is written.
infixr 5 ◌then◌
abbrev pub ◌then◌ : {A : Type 0} → (Plan → Answer (Unit {0})) → Method A → Method A
◌then◌ test body p = elim (test p) [ fails e ↦ (fails e, p) | gives _ ↦ body p ]

module _ {A B : Type 0} where
  -- The next call, with the result of the one before.
  abbrev pub bind : Method A → (A → Method B) → Method B
  bind m k p = let (a, q) = m p in elim a [ gives x ↦ k x q | fails e ↦ (fails e, q) ]

  -- A result that is only read.
  abbrev pub read : (Plan → Answer A) → (A → Method B) → Method B
  read f k p = elim (f p) [ gives x ↦ k x p | fails e ↦ (fails e, p) ]

abbrev pub returning : {A : Type 0} → A → Method A
returning x p = (gives x, p)

abbrev pub refuse_if : Bool → Error → Answer (Unit {0})
refuse_if c e = if c then fails e else gives tt

-- Assignments to attributes.
abbrev pub set_scope : ℕ → Scope → Plan → Plan
set_scope i s p = record p { scopes = update p.scopes i s }

abbrev pub set_pin : ℕ → Pin → Plan → Plan
set_pin i x p = record p { pins = update p.pins i x }

abbrev pub set_component : ℕ → Component → Plan → Plan
set_component i c p = record p { components = update p.components i c }
