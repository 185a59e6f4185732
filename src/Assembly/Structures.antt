-- ===== src/Assembly/Structures.antt =====
-- `sid`, `series`, `parallel` and `branch` of src/scnsim/authoring/assembly.py.
use scnsim.Base.{
  ℕ, suc, String, List, [], ◌∷◌, ◌++◌, Bool, true, false, not, ◌||◌, ltb, length, if◌then◌else◌,
  nat_beq,
}
use scnsim.Base.Eq.{nat_eq, string_eq, list_eq}
use scnsim.Base.Dict.{contains}
use scnsim.Assembly.State.{
  Plan, Endpoint, bus_at, tap_at, Element, EndpointRecord, Part, Structure, series_structure,
  parallel_structure, branch_structure, structure_declared,
}
use scnsim.Assembly.Action.{
  Answer, fails, gives, Method, ◌then◌, bind, read, returning, refuse_if, set_scope, type_error,
  body_consumed, duplicate_structure, few_branches,
}
use scnsim.Assembly.Endpoints.{identifier, check, ep}
use scnsim.Assembly.Chain.{has_twice, bodies, prepared_chain, chain}

-- `sid`
unfoldable pub sid : (String → String) → ℕ → String → Method String
sid nfc self id =
    read (λ _. identifier nfc id)
      λ name p.
        let s = p.scopes self in
        if contains name s.ids then (fails duplicate_structure, p) else (
          gives name,
          set_scope self
              (record s {
                ids = name ∷ s.ids;
                declarations = s.declarations ++ structure_declared name ∷ [];
              })
              p,
        )

-- `self.structures.append(…)`
abbrev pub add_structure : ℕ → Structure → Plan → Plan
add_structure self x p =
    let s = p.scopes self in set_scope self (record s { structures = s.structures ++ x ∷ [] }) p

module _ (nfc : String → String) (self : ℕ) where
  -- The records of the two ends around a chain, and the structure appended.
  unfoldable pub publish_chain :
      (EndpointRecord → List Part → EndpointRecord → Structure)
      → List Element
      → Endpoint
      → Endpoint
      → Method (Unit {0})
  publish_chain make elements start end = read (ep start) λ a.
      bind (chain self elements start end)
        λ parts. read (ep end) λ b p. (gives tt, add_structure self (make a parts b) p)

  -- `series`
  unfoldable pub series : String → Endpoint → List Element → Endpoint → Method String
  series id start elements end =
      check self
      then read (prepared_chain self elements start end) λ _.
        bind (sid nfc self id) λ name.
          bind (publish_chain (series_structure name) elements start end) λ _. returning name

  -- `isinstance(at, (BusRef, TapRef)) and at.scope is self`
  unfoldable pub is_local_bus : Endpoint → Plan → Bool
  is_local_bus (bus_at b) p = nat_beq (p.buses b).scope self
  is_local_bus (tap_at t) p = nat_beq (p.buses (p.taps t).bus).scope self
  is_local_bus _ p = false

  -- `branch`
  unfoldable pub branch : String → Endpoint → List Element → Endpoint → Method String
  branch id at_ elements end =
      check self
      then (λ p. refuse_if (not (is_local_bus at_ p)) type_error)
      then read (prepared_chain self elements at_ end) λ _.
        bind (sid nfc self id)
          λ name. bind (publish_chain (branch_structure name) elements at_ end) λ _. returning name

  -- `[self._prepared_chain(x, start, end) for x in branches]`, with the bodies flattened.
  unfoldable pub prepare_all : List (List Element) → Endpoint → Endpoint → Plan → Answer (List ℕ)
  prepare_all [] start end p = gives []
  prepare_all (x ∷ xs) start end p = elim (prepared_chain self x start end p) [
    | fails e ↦ fails e
    | gives us ↦ elim (prepare_all xs start end p) [
      | fails e ↦ fails e
      | gives cs ↦ gives (bodies us ++ cs)
    ]
  ]

  -- The branches' chains, numbered from 1 as the ids `{id}.branch_{i}` are.
  unfoldable pub chain_all :
      ℕ → List (List Element) → Endpoint → Endpoint → Method (List (ℕ × List Part))
  chain_all i [] start end = returning []
  chain_all i (x ∷ xs) start end =
      bind (chain self x start end)
        λ parts. bind (chain_all (suc i) xs start end) λ rest. returning ((i, parts) ∷ rest)

  unfoldable pub all_nonempty : List (List Element) → Bool
  all_nonempty [] = true
  all_nonempty ([] ∷ xs) = false
  all_nonempty ((_ ∷ _) ∷ xs) = all_nonempty xs

  -- `parallel`
  unfoldable pub parallel : String → Endpoint → List (List Element) → Endpoint → Method String
  parallel id start branches end =
      check self
      then (λ p. refuse_if (ltb (length branches) 2 || not (all_nonempty branches)) few_branches)
      then read (prepare_all branches start end) λ cs.
        (λ p. refuse_if (has_twice cs) body_consumed)
        then bind (sid nfc self id) λ name. read (ep start) λ a.
          bind (chain_all 1 branches start end) λ parts.
            read (ep end)
              λ b p. (gives name, add_structure self (parallel_structure name a parts b) p)
