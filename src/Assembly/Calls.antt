-- ===== src/Assembly/Calls.antt =====
-- The modelled authoring calls of src/scnsim/authoring on the scopes of one plan, and what refuses
-- them all.
use scnsim.Base.{
  ℕ, String, List, ◌≡◌, refl, ◌⊎◌, inl, inr, Bool, true, Option, none, some, arith, Option-cases,
  Bool-cases, ◌≢◌,
}
use scnsim.Assembly.State.{Plan, Endpoint, Element}
use scnsim.Assembly.Action.{
  Answer, fails, gives, Error, Method, preparing_run, plan_sealed, attribute_error,
}
use scnsim.Assembly.Endpoints.{check}
use scnsim.Assembly.Structures.{series, branch, parallel}
use scnsim.Assembly.Links.{link, ground_pins}
use scnsim.Assembly.Parts.{
  subsystem, add_native, bus, anonymous_bus, tap, expose_pin, expose_coordinate, add_port,
}
use scnsim.Assembly.Inductive.{couple_inductive, expose_inductive_branch, expose_parameter}

-- A call, with the scope that it is made on.
pub data Call : Type 0 where
  calls_series : (id : String) (start : Endpoint) (elements : List Element) (end : Endpoint) → Call
  calls_branch : (id : String) (at_ : Endpoint) (elements : List Element) (end : Endpoint) → Call
  calls_parallel :
      (id : String) (start : Endpoint) (branches : List (List Element)) (end : Endpoint) → Call
  calls_link : (id : String) (endpoints : List Endpoint) → Call
  calls_ground_pins : (pins : List ℕ) → Call
  calls_subsystem calls_bus : (id : String) → Call
  calls_anonymous_bus : Call
  calls_add : (component : ℕ) → Call
  calls_tap : (bus : ℕ) (id : String) → Call
  calls_expose_pin calls_expose_coordinate : (id : String) (at_ : Endpoint) → Call
  calls_add_port : (id : String) (at_ : Endpoint) (role : String) (positive : Bool) → Call
  calls_couple_inductive :
      (id : String) (inductor_a inductor_b : Option ℕ) (coefficient : Answer Bool) → Call
  calls_expose_branch calls_expose_parameter : (id : String) (handle : Option ℕ) → Call

abbrev pub ignore : {A : Type 0} → Answer A × Plan → Answer (Unit {0}) × Plan
ignore (fails e, p) = (fails e, p)
ignore (gives _, p) = (gives tt, p)

module _ (nfc : String → String) (internal : ℕ → String) where
  unfoldable pub perform : ℕ → Call → Method (Unit {0})
  perform self (calls_series id start elements end) p =
      ignore (series nfc self id start elements end p)
  perform self (calls_branch id at_ elements end) p = ignore (branch nfc self id at_ elements end p)
  perform self (calls_parallel id start branches end) p =
      ignore (parallel nfc self id start branches end p)
  perform self (calls_link id endpoints) p = ignore (link nfc self id endpoints p)
  perform self (calls_ground_pins pins) p = ground_pins self pins p
  perform self (calls_subsystem id) p = ignore (subsystem nfc self id p)
  perform self (calls_bus id) p = ignore (bus nfc self id p)
  perform self calls_anonymous_bus p = ignore (anonymous_bus nfc self internal p)
  perform self (calls_add c) p = ignore (add_native nfc self c p)
  perform self (calls_tap b id) p = ignore (tap nfc self b id p)
  perform self (calls_expose_pin id at_) p = ignore (expose_pin nfc self id at_ p)
  perform self (calls_expose_coordinate id at_) p = ignore (expose_coordinate nfc self id at_ p)
  perform self (calls_add_port id at_ role positive) p =
      ignore (add_port nfc self id at_ role positive p)
  perform self (calls_couple_inductive id a b coefficient) p =
      ignore (couple_inductive nfc self id a b coefficient p)
  perform self (calls_expose_branch id branch) p =
      ignore (expose_inductive_branch nfc self id branch p)
  perform self (calls_expose_parameter id parameter) p =
      ignore (expose_parameter nfc self id parameter p)

  -- A sealed plan, or one that a Run is being prepared from.
  abbrev pub IsClosed : Plan → Type 0
  IsClosed p = (p.sealed ≡ true) ⊎ ((t : ℕ) × (p.run_seal_token ≡ some t))

  closed-check : (self : ℕ) (p : Plan) → IsClosed p → (e : Error) × (check self p ≡ fails e)
  unfolding check
  closed-check self p (inr (t, h)) = (preparing_run, ground (arith, h))
  closed-check self p (inl h) = elim (Option-cases p.run_seal_token) [
    | inr (t, g) ↦ (preparing_run, ground (arith, g))
    | inl g ↦ (plan_sealed, ground (arith, g))
  ]

  refused :
      (self : ℕ) (call : Call) (p : Plan) (e : Error)
      → ((b : ℕ) (id : String) → call ≢ calls_tap b id)
      → ((id : String) (r : Option ℕ) → call ≢ calls_expose_parameter id r)
      → check self p ≡ fails e
      → perform self call p ≡ (fails e, p)
  unfolding perform series branch parallel link ground_pins subsystem bus anonymous_bus add_native
      expose_pin expose_coordinate add_port couple_inductive expose_inductive_branch
  refused self (calls_series id start elements end) p e other also_ h = ground (arith, h)
  refused self (calls_branch id at_ elements end) p e other also_ h = ground (arith, h)
  refused self (calls_parallel id start branches end) p e other also_ h = ground (arith, h)
  refused self (calls_link id endpoints) p e other also_ h = ground (arith, h)
  refused self (calls_ground_pins pins) p e other also_ h = ground (arith, h)
  refused self (calls_subsystem id) p e other also_ h = ground (arith, h)
  refused self (calls_bus id) p e other also_ h = ground (arith, h)
  refused self calls_anonymous_bus p e other also_ h = ground (arith, h)
  refused self (calls_add c) p e other also_ h = ground (arith, h)
  refused self (calls_expose_pin id at_) p e other also_ h = ground (arith, h)
  refused self (calls_expose_coordinate id at_) p e other also_ h = ground (arith, h)
  refused self (calls_add_port id at_ role positive) p e other also_ h = ground (arith, h)
  refused self (calls_couple_inductive id (some a) (some b) k) p e other also_ h = ground (arith, h)
  refused self (calls_couple_inductive id none b k) p e other also_ h = ground (arith, h)
  refused self (calls_couple_inductive id (some a) none k) p e other also_ h = ground (arith, h)
  refused self (calls_expose_branch id branch) p e other also_ h = ground (arith, h)
  refused self (calls_tap b id) p e other also_ h = absurd (other b id refl)
  refused self (calls_expose_parameter id r) p e other also_ h = absurd (also_ id r refl)

  refused_parameter :
      (self : ℕ) (id : String) (r : Option ℕ) (p : Plan) (e : Error)
      → check self p ≡ fails e
      → (d : Error) × (perform self (calls_expose_parameter id r) p ≡ (fails d, p))
  unfolding perform expose_parameter
  refused_parameter self id r p e h = elim (Bool-cases (p.scopes self).is_composite) [
    | inl whole ↦ (e, ground (arith, h, whole))
    | inr plain ↦ (attribute_error, ground (arith, plain))
  ]

  refused_tap :
      (self b : ℕ) (id : String) (p : Plan) (e : Error)
      → check (p.buses b).scope p ≡ fails e
      → perform self (calls_tap b id) p ≡ (fails e, p)
  unfolding perform tap
  refused_tap self b id p e h = ground (arith, h)

  -- On a plan that is sealed or that a Run is being prepared from, each of the calls series,
  -- branch, parallel, link, ground_pins, subsystem, add of a component without a body, bus, tap,
  -- expose_pin, expose_coordinate, expose_inductive_branch, expose_parameter, couple_inductive
  -- and add_port, on any scope, raises and changes nothing.
  pub closed_plan_refuses :
      (self : ℕ) (call : Call) (p : Plan)
      → IsClosed p
      → (e : Error) × (perform self call p ≡ (fails e, p))
  closed_plan_refuses self (calls_tap b id) p h =
      let (e, shut) = closed-check (p.buses b).scope p h in (e, refused_tap self b id p e shut)
  closed_plan_refuses self (calls_series id start elements end) p h =
      let (e, shut) = closed-check self p h in
      (e, refused self (calls_series id start elements end) p e (λ b i q. cc) (λ i r q. cc) shut)
  closed_plan_refuses self (calls_branch id at_ elements end) p h =
      let (e, shut) = closed-check self p h in
      (e, refused self (calls_branch id at_ elements end) p e (λ b i q. cc) (λ i r q. cc) shut)
  closed_plan_refuses self (calls_parallel id start branches end) p h =
      let (e, shut) = closed-check self p h in
      (e, refused self (calls_parallel id start branches end) p e (λ b i q. cc) (λ i r q. cc) shut)
  closed_plan_refuses self (calls_link id endpoints) p h =
      let (e, shut) = closed-check self p h in
      (e, refused self (calls_link id endpoints) p e (λ b i q. cc) (λ i r q. cc) shut)
  closed_plan_refuses self (calls_ground_pins pins) p h =
      let (e, shut) = closed-check self p h in
      (e, refused self (calls_ground_pins pins) p e (λ b i q. cc) (λ i r q. cc) shut)
  closed_plan_refuses self (calls_subsystem id) p h =
      let (e, shut) = closed-check self p h in
      (e, refused self (calls_subsystem id) p e (λ b i q. cc) (λ i r q. cc) shut)
  closed_plan_refuses self (calls_bus id) p h =
      let (e, shut) = closed-check self p h in
      (e, refused self (calls_bus id) p e (λ b i q. cc) (λ i r q. cc) shut)
  closed_plan_refuses self calls_anonymous_bus p h =
      let (e, shut) = closed-check self p h in
      (e, refused self calls_anonymous_bus p e (λ b i q. cc) (λ i r q. cc) shut)
  closed_plan_refuses self (calls_add c) p h =
      let (e, shut) = closed-check self p h in
      (e, refused self (calls_add c) p e (λ b i q. cc) (λ i r q. cc) shut)
  closed_plan_refuses self (calls_expose_pin id at_) p h =
      let (e, shut) = closed-check self p h in
      (e, refused self (calls_expose_pin id at_) p e (λ b i q. cc) (λ i r q. cc) shut)
  closed_plan_refuses self (calls_expose_coordinate id at_) p h =
      let (e, shut) = closed-check self p h in
      (e, refused self (calls_expose_coordinate id at_) p e (λ b i q. cc) (λ i r q. cc) shut)
  closed_plan_refuses self (calls_add_port id at_ role positive) p h =
      let (e, shut) = closed-check self p h in
      (e, refused self (calls_add_port id at_ role positive) p e (λ b i q. cc) (λ i r q. cc) shut)
  closed_plan_refuses self (calls_couple_inductive id a b k) p h =
      let (e, shut) = closed-check self p h in
      (e, refused self (calls_couple_inductive id a b k) p e (λ b i q. cc) (λ i r q. cc) shut)
  closed_plan_refuses self (calls_expose_branch id branch) p h =
      let (e, shut) = closed-check self p h in
      (e, refused self (calls_expose_branch id branch) p e (λ b i q. cc) (λ i r q. cc) shut)
  closed_plan_refuses self (calls_expose_parameter id r) p h =
      let (e, shut) = closed-check self p h in refused_parameter self id r p e shut
