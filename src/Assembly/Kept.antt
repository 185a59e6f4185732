-- ===== src/Assembly/Kept.antt =====
-- Each modelled authoring call of src/scnsim/authoring keeps the `used` marks.
use scnsim.Base.{
  ℕ, suc, String, List, [], ◌∷◌, Option, none, some, Bool, true, false, arith, map, nat_beq_iff,
}
use scnsim.Base.Eq.{string_eq}
use scnsim.Assembly.State.{
  Plan, Endpoint, pin_at, EndpointRecord, Element, Part, Structure, series_structure,
  branch_structure,
}
use scnsim.Assembly.Action.{Answer, fails, gives, Method, bind, read, returning}
use scnsim.Assembly.Endpoints.{check, getnet}
use scnsim.Assembly.Chain.{chain, prepared_chain}
use scnsim.Assembly.Structures.{sid, publish_chain, series, branch, chain_all, parallel}
use scnsim.Assembly.Links.{getnet_all, link, ground_pins}
use scnsim.Assembly.Parts.{
  subsystem, add_native, new_bus, bus, anonymous_bus, tap, expose_pin, expose_coordinate, add_port,
}
use scnsim.Assembly.Inductive.{couple, couple_inductive, expose_inductive_branch, expose_parameter}
use scnsim.Assembly.Calls.{
  Call, calls_series, calls_branch, calls_parallel, calls_link, calls_ground_pins, calls_subsystem,
  calls_bus, calls_anonymous_bus, calls_add, calls_tap, calls_expose_pin, calls_expose_coordinate,
  calls_add_port, calls_couple_inductive, calls_expose_branch, calls_expose_parameter, ignore,
  perform,
}
use scnsim.Assembly.Consumed.{
  Used, Keeps, then-Keeps, bind-Keeps, read-Keeps, getnet-Keeps, chain-Keeps,
}

module _ (nfc : String → String) (c self : ℕ) where
  sid-Keeps : (id : String) → Keeps c (sid nfc self id)
  unfolding sid
  sid-Keeps id p u = ground (arith, u)

  subsystem-Keeps : (id : String) → Keeps c (subsystem nfc self id)
  unfolding subsystem
  subsystem-Keeps id p u = ground (arith, u)

  add_native-Keeps : (d : ℕ) → Keeps c (add_native nfc self d)
  unfolding add_native
  add_native-Keeps d p u = ground (arith, u, nat_beq_iff c d)

  bus-Keeps : (id : String) → Keeps c (bus nfc self id)
  unfolding bus new_bus
  bus-Keeps id p u = ground (arith, u)

  anonymous_bus-Keeps : (internal : ℕ → String) → Keeps c (anonymous_bus nfc self internal)
  unfolding anonymous_bus new_bus
  anonymous_bus-Keeps internal p u = ground (arith, u)

  tap-Keeps : (b : ℕ) (id : String) → Keeps c (tap nfc self b id)
  unfolding tap
  tap-Keeps b id p u = ground (arith, u)

  expose_pin-Keeps : (id : String) (x : Endpoint) → Keeps c (expose_pin nfc self id x)
  unfolding expose_pin
  expose_pin-Keeps id x p u = ground (arith, u, getnet-Keeps c self x false p u)

  expose_coordinate-Keeps : (id : String) (x : Endpoint) → Keeps c (expose_coordinate nfc self id x)
  unfolding expose_coordinate
  expose_coordinate-Keeps id x p u = ground (arith, u, getnet-Keeps c self x false p u)

  add_port-Keeps :
      (id : String) (x : Endpoint) (role : String) (positive : Bool)
      → Keeps c (add_port nfc self id x role positive)
  unfolding add_port
  add_port-Keeps id x role positive p u = ground (arith, u, getnet-Keeps c self x false p u)

  getnet_all-Keeps : (link_ : Bool) (xs : List Endpoint) → Keeps c (getnet_all self link_ xs)
  unfolding getnet_all
  getnet_all-Keeps link_ [] p u = u
  getnet_all-Keeps link_ (x ∷ xs) p u =
      let v = getnet-Keeps c self x link_ p u in
      ground (arith, v, getnet_all-Keeps link_ xs (getnet self x link_ p).1 v)

  publish_chain-Keeps :
      (make : EndpointRecord → List Part → EndpointRecord → Structure) (xs : List Element)
      (start end : Endpoint)
      → Keeps c (publish_chain nfc self make xs start end)
  unfolding publish_chain
  publish_chain-Keeps make xs start end p u = ground (arith, u, chain-Keeps c self xs start end p u)

  -- What series and branch do after their tests.
  named_chain-Keeps :
      (id : String) (make : String → EndpointRecord → List Part → EndpointRecord → Structure)
      (xs : List Element) (start end : Endpoint)
      → Keeps c (
          read (prepared_chain self xs start end) λ _.
            bind
              (sid nfc self id)
              λ name. bind (publish_chain nfc self (make name) xs start end) λ _. returning name)
  named_chain-Keeps id make xs start end =
      let publish : String → Method String =
        λ name. bind (publish_chain nfc self (make name) xs start end) λ _. returning name in
      read-Keeps c (prepared_chain self xs start end) (λ _. bind (sid nfc self id) publish)
        λ _. bind-Keeps c (sid nfc self id) publish (sid-Keeps id) λ name.
          bind-Keeps c (publish_chain nfc self (make name) xs start end) (λ _. returning name)
            (publish_chain-Keeps (make name) xs start end) (λ _ q v. v)

  series-Keeps :
      (id : String) (start : Endpoint) (xs : List Element) (end : Endpoint)
      → Keeps c (series nfc self id start xs end)
  unfolding series
  series-Keeps id start xs end =
      then-Keeps c (check self) _ (named_chain-Keeps id series_structure xs start end)

  branch_call-Keeps :
      (id : String) (x : Endpoint) (xs : List Element) (end : Endpoint)
      → Keeps c (branch nfc self id x xs end)
  unfolding branch
  branch_call-Keeps id x xs end p u =
      ground (arith, u, named_chain-Keeps id branch_structure xs x end p u)

  pub chain_all-Keeps :
      (i : ℕ) (xs : List (List Element)) (start end : Endpoint)
      → Keeps c (chain_all nfc self i xs start end)
  unfolding chain_all
  chain_all-Keeps i [] start end p u = u
  chain_all-Keeps i (x ∷ xs) start end p u =
      let v = chain-Keeps c self x start end p u in
      ground (arith, v, chain_all-Keeps (suc i) xs start end (chain self x start end p).1 v)

  parallel-Keeps :
      (id : String) (start : Endpoint) (xs : List (List Element)) (end : Endpoint)
      → Keeps c (parallel nfc self id start xs end)
  unfolding parallel
  parallel-Keeps id start xs end p u =
      let v = sid-Keeps id p u in
      ground (arith, u, v, chain_all-Keeps 1 xs start end (sid nfc self id p).1 v)

  link-Keeps : (id : String) (xs : List Endpoint) → Keeps c (link nfc self id xs)
  unfolding link
  link-Keeps id xs p u =
      let v = sid-Keeps id p u in
      ground (arith, u, v, getnet_all-Keeps true xs (sid nfc self id p).1 v)

  ground_pins-Keeps : (pins : List ℕ) → Keeps c (ground_pins self pins)
  unfolding ground_pins
  ground_pins-Keeps pins p u = ground (arith, u, getnet_all-Keeps false (map pin_at pins) p u)

  couple-Keeps : (id : String) (a b : ℕ) → Keeps c (couple nfc self id a b)
  unfolding couple
  couple-Keeps id a b p u = ground (arith, sid-Keeps id p u)

  couple_inductive-Keeps :
      (id : String) (a b : Option ℕ) (k : Answer Bool)
      → Keeps c (couple_inductive nfc self id a b k)
  unfolding couple_inductive
  couple_inductive-Keeps id none b k p u = ground (arith, u)
  couple_inductive-Keeps id (some a) none k p u = ground (arith, u)
  couple_inductive-Keeps id (some a) (some b) k p u = ground (arith, u, couple-Keeps id a b p u)

  expose_inductive_branch-Keeps :
      (id : String) (branch : Option ℕ) → Keeps c (expose_inductive_branch nfc self id branch)
  unfolding expose_inductive_branch
  expose_inductive_branch-Keeps id branch p u = ground (arith, u)

  expose_parameter-Keeps : (id : String) (r : Option ℕ) → Keeps c (expose_parameter nfc self id r)
  unfolding expose_parameter
  expose_parameter-Keeps id r p u = ground (arith, u)

module _ (nfc : String → String) (internal : ℕ → String) (c : ℕ) where
  ignore-Keeps : {A : Type 0} (r : Answer A × Plan) → Used c r.1 → Used c (ignore r).1
  ignore-Keeps (fails e, p) u = u
  ignore-Keeps (gives x, p) u = u

  pub perform-Keeps : (self : ℕ) (call : Call) → Keeps c (perform nfc internal self call)
  unfolding perform
  perform-Keeps self (calls_series id start xs end) p u =
      ignore-Keeps (series nfc self id start xs end p) (series-Keeps nfc c self id start xs end p u)
  perform-Keeps self (calls_branch id x xs end) p u =
      ignore-Keeps (branch nfc self id x xs end p) (branch_call-Keeps nfc c self id x xs end p u)
  perform-Keeps self (calls_parallel id start xs end) p u =
      ignore-Keeps (parallel nfc self id start xs end p)
        (parallel-Keeps nfc c self id start xs end p u)
  perform-Keeps self (calls_link id xs) p u =
      ignore-Keeps (link nfc self id xs p) (link-Keeps nfc c self id xs p u)
  perform-Keeps self (calls_ground_pins pins) p u = ground_pins-Keeps nfc c self pins p u
  perform-Keeps self (calls_subsystem id) p u =
      ignore-Keeps (subsystem nfc self id p) (subsystem-Keeps nfc c self id p u)
  perform-Keeps self (calls_bus id) p u =
      ignore-Keeps (bus nfc self id p) (bus-Keeps nfc c self id p u)
  perform-Keeps self calls_anonymous_bus p u =
      ignore-Keeps (anonymous_bus nfc self internal p) (anonymous_bus-Keeps nfc c self internal p u)
  perform-Keeps self (calls_add d) p u =
      ignore-Keeps (add_native nfc self d p) (add_native-Keeps nfc c self d p u)
  perform-Keeps self (calls_tap b id) p u =
      ignore-Keeps (tap nfc self b id p) (tap-Keeps nfc c self b id p u)
  perform-Keeps self (calls_expose_pin id x) p u =
      ignore-Keeps (expose_pin nfc self id x p) (expose_pin-Keeps nfc c self id x p u)
  perform-Keeps self (calls_expose_coordinate id x) p u =
      ignore-Keeps (expose_coordinate nfc self id x p) (expose_coordinate-Keeps nfc c self id x p u)
  perform-Keeps self (calls_add_port id x role positive) p u =
      ignore-Keeps (add_port nfc self id x role positive p)
        (add_port-Keeps nfc c self id x role positive p u)
  perform-Keeps self (calls_couple_inductive id a b k) p u =
      ignore-Keeps (couple_inductive nfc self id a b k p)
        (couple_inductive-Keeps nfc c self id a b k p u)
  perform-Keeps self (calls_expose_branch id branch) p u =
      ignore-Keeps (expose_inductive_branch nfc self id branch p)
        (expose_inductive_branch-Keeps nfc c self id branch p u)
  perform-Keeps self (calls_expose_parameter id r) p u =
      ignore-Keeps (expose_parameter nfc self id r p) (expose_parameter-Keeps nfc c self id r p u)
