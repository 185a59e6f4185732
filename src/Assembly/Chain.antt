-- ===== src/Assembly/Chain.antt =====
-- `_prepared_chain` and `chain` of src/scnsim/authoring/assembly.py: the tests on the elements of a
-- structure, and the wires between them.
use scnsim.Base.{
  ◌≡◌, refl, arith, ℕ, List, [], ◌∷◌, ◌++◌, Bool, false, not, ◌||◌, if◌then◌else◌, nat_beq,
}
use scnsim.Base.Eq.{nat_eq, string_eq, list_eq}
use scnsim.Base.Dict.{contains}
use scnsim.Wire.Net.{Nets, new_net, join}
use scnsim.Assembly.State.{Plan, Endpoint, pin_at, Element, Use, Terminal, rooted, loose, Part}
use scnsim.Assembly.Action.{
  Answer, fails, gives, Method, ◌then◌, bind, read, returning, refuse_if, set_component,
  value_error, empty_structure, one_terminal, same_net, body_consumed,
}
use scnsim.Assembly.Endpoints.{path, getnet, use_element, check_endpoint, endpoint_root}

-- One after the other: the first failure is the answer.
infixr 5 ◌also◌
abbrev pub ◌also◌ : {A : Type 0} → Answer (Unit {0}) → Answer A → Answer A
◌also◌ (fails e) next = fails e
◌also◌ (gives _) next = next

pub also_both : (a b : Answer (Unit {0})) → (a also b) ≡ gives tt → (a ≡ gives tt) × (b ≡ gives tt)
also_both (fails e) b h = absurd (ground arith)
also_both (gives _) b h = (refl, h)

-- `isinstance(start, PinRef) and start is end`
abbrev pub is_one_pin : Endpoint → Endpoint → Bool
is_one_pin (pin_at i) (pin_at j) = nat_beq i j
is_one_pin _ _ = false

-- `is` of two terminals.
abbrev pub same_terminal : Terminal → Terminal → Bool
same_terminal (rooted n) (rooted m) = nat_beq n m
same_terminal (loose i) (loose j) = nat_beq i j
same_terminal _ _ = false

-- `[self.use(x) for x in e]`
unfoldable pub use_all : ℕ → List Element → Plan → Answer (List Use)
use_all self [] p = gives []
use_all self (x ∷ xs) p = elim (use_element self x p) [
  | fails e ↦ fails e
  | gives u ↦ elim (use_all self xs p) [ fails e ↦ fails e | gives us ↦ gives (u ∷ us) ]
]

-- Whether a body stands twice in a list of bodies.
unfoldable pub has_twice : List ℕ → Bool
has_twice [] = false
has_twice (c ∷ cs) = contains c cs || has_twice cs

-- Whether one of the bodies is already used.
unfoldable pub any_used : List ℕ → Plan → Bool
any_used [] p = false
any_used (c ∷ cs) p = not (nat_beq (p.components c).used 0) || any_used cs p

abbrev pub bodies : List Use → List ℕ
bodies [] = []
bodies (u ∷ us) = u.component ∷ bodies us

-- The test of `_prepared_chain` that the endpoints are distinct.
unfoldable pub distinct_ends : Endpoint → Endpoint → Plan → Answer (Unit {0})
distinct_ends start end p =
    if is_one_pin start end then fails one_terminal else (elim (endpoint_root start p) [
      | fails e ↦ fails e
      | gives a ↦ elim (endpoint_root end p) [
        | fails e ↦ fails e
        | gives b ↦ refuse_if (same_terminal a b) same_net
      ]
    ])

-- `_prepared_chain`
unfoldable pub prepared_chain : ℕ → List Element → Endpoint → Endpoint → Plan → Answer (List Use)
prepared_chain self [] start end p = fails empty_structure
prepared_chain self (x ∷ xs) start end p =
    check_endpoint self false start p
    also check_endpoint self false end p
    also distinct_ends start end p
    also elim (use_all self (x ∷ xs) p) [
      | fails e ↦ fails e
      | gives us ↦
          if has_twice (bodies us) || any_used (bodies us) p then fails body_consumed else gives us
    ]

-- `[_Net("generated") for _ in e[1:]]`
unfoldable pub new_nets : {A : Type 0} → List A → Nets → List ℕ × Nets
new_nets [] s = ([], s)
new_nets (x ∷ xs) s = let (n, s1) = new_net false s in let (ns, s2) = new_nets xs s1 in (n ∷ ns, s2)

-- `e[1:]`
abbrev pub after_first : List Use → List Use
after_first [] = []
after_first (u ∷ us) = us

-- `self.getnet(…).join(net)`, for a pin.
abbrev pub join_pin : ℕ → ℕ → ℕ → Method (Unit {0})
join_pin self i net =
    bind (getnet self (pin_at i) false) λ n q. (gives tt, record q { nets = (join n net q.nets).1 })

abbrev pub set_used : ℕ → Plan → Plan
set_used c p = set_component c (record (p.components c) { used = 1 }) p

abbrev pub part : ℕ → Use → Plan → Part
part self u p = record {
  path = path self p ++ (p.components u.component).id ∷ [];
  between = u.between;
  pin_1 = (p.pins u.pin_1).name;
  pin_2 = (p.pins u.pin_2).name;
}

-- The loop of `chain` over the prepared elements and the nets between them.
unfoldable pub connect : ℕ → List Use → List ℕ → Method (List Part)
connect self (u ∷ us) (n ∷ m ∷ ns) p =
    bind (join_pin self u.pin_1 n)
      (λ _.
        bind (join_pin self u.pin_2 m)
          (λ _ q. bind (connect self us (m ∷ ns)) (λ parts. returning (part self u q ∷ parts)) q))
      (set_used u.component p)
connect self [] ns p = (gives [], p)
connect self (u ∷ us) _ p = (fails value_error, p)

-- `chain`
unfoldable pub chain : ℕ → List Element → Endpoint → Endpoint → Method (List Part)
chain self elements start end = read (prepared_chain self elements start end) λ us.
    bind (getnet self start false) λ first p.
      let (middle, nets) = new_nets (after_first us) p.nets in
      bind (getnet self end false) (λ last. connect self us (first ∷ (middle ++ last ∷ [])))
        (record p { nets = nets })
