-- ===== src/Assembly/Joining.antt =====
-- `link` of src/scnsim/authoring/assembly.py: it raises and changes nothing, or it makes one wire of
-- its endpoints' wires.
use scnsim.Base.{
  ℕ, String, List, [], ◌∷◌, ◌++◌, ◌≡◌, sym, refl, ◌⊎◌, inl, inr, true, false, not, ◌||◌, All,
  All-map, arith, subst, Option-cases, Bool-cases, if◌then◌else◌, nat_beq_iff, ltb, length,
}
use scnsim.Base.Eq.{string_eq}
use scnsim.Base.Dict.{contains}
use scnsim.Wire.Net.{Nets}
use scnsim.Assembly.State.{
  Plan, Endpoint, ground_of, bus_at, tap_at, pin_at, no_endpoint, EndpointRecord, pin_record,
  structure_declared, link_structure,
}
use scnsim.Assembly.Action.{
  Answer, fails, gives, Error, Method, ◌then◌, bind, read, refuse_if, set_scope,
  endpoints_not_unique, duplicate_structure,
}
use scnsim.Assembly.Endpoints.{
  identifier, path, component_id, check, is_reachable, ep, check_endpoint,
}
use scnsim.Assembly.Chain.{also_both}
use scnsim.Assembly.Structures.{sid, add_structure}
use scnsim.Assembly.Union.{validate_proposed_union}
use scnsim.Assembly.Links.{
  check_all, all_unique, not_redundant, getnet_all, join_first, ep_all, link,
}
use scnsim.Assembly.Reach.{Reaches, check_endpoint-Reaches}
use scnsim.Assembly.Getnets.{GotAll, Reaches-frame, getnet_all-GotAll}

abbrev pub AllReach : ℕ → List Endpoint → Plan → Type 0
AllReach self xs p = All (λ x. Reaches self x p) xs

then_cases :
    {A : Type 0} (test : Plan → Answer (Unit {0})) (body : Method A) (p : Plan)
    → ((e : Error) × ((test then body) p ≡ (fails e, p)))
      ⊎ ((test p ≡ gives tt) × ((test then body) p ≡ body p))
then_cases test body p = split (test p) refl
  where
    split :
        (r : Answer (Unit {0}))
        → test p ≡ r
        → ((e : Error) × ((test then body) p ≡ (fails e, p)))
          ⊎ ((test p ≡ gives tt) × ((test then body) p ≡ body p))
    split (fails e) h = inl (e, ground (arith, h))
    split (gives _) h = inr (h, ground (arith, h))

pub check_all-AllReach :
    (self : ℕ) (xs : List Endpoint) (p : Plan)
    → check_all self true xs p ≡ gives tt
    → AllReach self xs p
unfolding check_all
check_all-AllReach self [] p h = tt
check_all-AllReach self (x ∷ xs) p h =
    let (first, rest) = also_both (check_endpoint self true x p) (check_all self true xs p) h in
    (check_endpoint-Reaches self x p first, check_all-AllReach self xs p rest)

-- A pin in reach belongs to a scope, so that its record can be made.
ep-gives :
    (self : ℕ) (x : Endpoint) (p : Plan)
    → Reaches self x p
    → (r : EndpointRecord) × (ep x p ≡ gives r)
unfolding ep is_reachable
ep-gives self (ground_of s) p h = absurd (ground arith)
ep-gives self no_endpoint p h = absurd (ground arith)
ep-gives self (bus_at b) p h = (_, refl)
ep-gives self (tap_at t) p h = (_, refl)
ep-gives self (pin_at i) p h = elim (Option-cases (p.pins i).scope) [
  | inl q ↦ absurd (ground (arith, q))
  | inr (s, q) ↦ (
    pin_record (path s p) (component_id (p.pins i) p) (p.pins i).name (p.pins i).public,
    ground (arith, q),
  )
]

ep_all-gives :
    (self : ℕ) (xs : List Endpoint) (p : Plan)
    → AllReach self xs p
    → (rs : List EndpointRecord) × (ep_all xs p ≡ gives rs)
unfolding ep_all
ep_all-gives self [] p h = ([], refl)
ep_all-gives self (x ∷ xs) p (h, hs) =
    let (r, e) = ep-gives self x p h in
    let (rs, es) = ep_all-gives self xs p hs in (r ∷ rs, ground (arith, e, es))

Reaches-nets :
    (self : ℕ) (x : Endpoint) (p : Plan) (nets : Nets)
    → Reaches self x p
    → Reaches self x (record p { nets = nets })
unfolding is_reachable
Reaches-nets self (ground_of s) p nets h = h
Reaches-nets self no_endpoint p nets h = h
Reaches-nets self (bus_at b) p nets h = h
Reaches-nets self (tap_at t) p nets h = h
Reaches-nets self (pin_at i) p nets h = h

Reaches-after :
    (self : ℕ) {xs : List Endpoint} (x : Endpoint) (p q : Plan) (ns : List ℕ)
    → GotAll xs ns p q
    → Reaches self x p
    → Reaches self x (record q { nets = join_first ns q.nets })
Reaches-after self x p q ns all h =
    Reaches-nets self x q (join_first ns q.nets) (Reaches-frame self x p q all.frame h)

module _ (nfc : String → String) (self : ℕ) (id : String) where
  -- What `sid` changes.
  abbrev pub named : String → Plan → Plan
  named name p =
      let s = p.scopes self in
      set_scope self
        (record s {
          ids = name ∷ s.ids;
          declarations = s.declarations ++ structure_declared name ∷ [];
        })
        p

  sid_cases :
      (p : Plan)
      → ((e : Error) × (sid nfc self id p ≡ (fails e, p)))
        ⊎ ((name : String) × (sid nfc self id p ≡ (gives name, named name p)))
  unfolding sid
  sid_cases p = split (identifier nfc id) refl
    where
      split :
          (r : Answer String)
          → identifier nfc id ≡ r
          → ((e : Error) × (sid nfc self id p ≡ (fails e, p)))
            ⊎ ((name : String) × (sid nfc self id p ≡ (gives name, named name p)))
      split (fails e) h = inl (e, ground (arith, h))
      split (gives name) h = elim (Bool-cases (contains name (p.scopes self).ids)) [
        | inl q ↦ inl (duplicate_structure, ground (arith, h, q))
        | inr q ↦ inr (name, ground (arith, h, q))
      ]

  Reaches-named :
      (name : String) (x : Endpoint) (p : Plan) → Reaches self x p → Reaches self x (named name p)
  unfolding is_reachable
  Reaches-named name (ground_of s) p h = h
  Reaches-named name no_endpoint p h = h
  Reaches-named name (bus_at b) p h = h
  Reaches-named name (tap_at t) p h = h
  Reaches-named name (pin_at i) p h = elim (Option-cases (p.pins i).scope) [
    | inl q ↦ ground (arith, q)
    | inr (s, q) ↦ ground (arith, q, nat_beq_iff s self)
  ]

  -- The plan that a link leaves, from the one that `getnet` left.
  abbrev pub joined : String → List ℕ → List EndpointRecord → Plan → Plan
  joined name ns rs q =
      add_structure self (link_structure name rs) (record q { nets = join_first ns q.nets })

  -- A link that returned, with its steps.
  pub record Linked (xs : List Endpoint) (p : Plan) (name : String) (final : Plan) : Type 0 where
    pub ns : List ℕ
    pub rs : List EndpointRecord
    pub got : Plan
    pub all : GotAll xs ns (named name p) got
    pub is : final ≡ joined name ns rs got
    pub long : ltb (length xs) 2 ≡ false

  link_tail : String → List Endpoint → Method String
  link_tail name xs = bind (getnet_all self true xs) λ ns p.
      read (ep_all xs) (λ rs q. (gives name, add_structure self (link_structure name rs) q))
        (record p { nets = join_first ns p.nets })

  tail-Linked :
      (name : String) (xs : List Endpoint) (p : Plan)
      → AllReach self xs p
      → ltb (length xs) 2 ≡ false
      → (q : Plan) × (link_tail name xs (named name p) ≡ (gives name, q)) × Linked xs p name q
  unfolding link_tail
  tail-Linked name xs p h long =
      let start = named name p in
      let reach =
        All-map (λ x. Reaches self x p) (λ x. Reaches self x start) (λ x. Reaches-named name x p) xs
          h in
      let (ns, q, e, all) = getnet_all-GotAll self xs start reach in
      let after : Plan = record q { nets = join_first ns q.nets } in
      let still =
        All-map (λ x. Reaches self x start) (λ x. Reaches self x after)
          (λ x. Reaches-after self x start q ns all) xs reach in
      let (rs, es) = ep_all-gives self xs after still in
      (
        joined name ns rs q,
        ground (arith, e, es),
        record { ns = ns; rs = rs; got = q; all = all; is = refl; long = long },
      )

  -- The two ends of a link.
  abbrev pub Runs : List Endpoint → Plan → Answer String × Plan → Type 0
  Runs xs p r =
      ((e : Error) × (r ≡ (fails e, p)))
      ⊎ ((name : String) × (q : Plan) × (r ≡ (gives name, q)) × Linked xs p name q)

  then_Runs :
      (xs : List Endpoint) (test : Plan → Answer (Unit {0})) (body : Method String) (p : Plan)
      → (test p ≡ gives tt → Runs xs p (body p))
      → Runs xs p ((test then body) p)
  then_Runs xs test body p k = elim (then_cases test body p) [
    | inl (e, h) ↦ inl (e, h)
    | inr (passed, h) ↦ subst (Runs xs p) (sym h) (k passed)
  ]

  named-Runs :
      (xs : List Endpoint) (p : Plan)
      → AllReach self xs p
      → ltb (length xs) 2 ≡ false
      → Runs xs p (bind (sid nfc self id) (λ name. link_tail name xs) p)
  named-Runs xs p reach long = elim (sid_cases p) [
    | inl (e, h) ↦ inl (e, ground (arith, h))
    | inr (name, h) ↦
        let (q, e, linked) = tail-Linked name xs p reach long in
        inr (name, q, ground (arith, h, e), linked)
  ]

  pub link_cases : (xs : List Endpoint) (p : Plan) → Runs xs p (link nfc self id xs p)
  unfolding link link_tail
  link_cases xs p =
      let count : Plan → Answer (Unit {0}) =
        λ _. refuse_if (ltb (length xs) 2 || not (all_unique xs)) endpoints_not_unique in
      let union : Plan → Answer (Unit {0}) = validate_proposed_union self false xs in
      let publish : Method String = bind (sid nfc self id) (λ name. link_tail name xs) in
      let joins : Method String = union then publish in
      let useful : Method String = not_redundant xs then joins in
      let owned : Method String = check_all self true xs then useful in
      then_Runs xs (check self) (count then owned) p λ _. then_Runs xs count owned p λ long.
        then_Runs xs (check_all self true xs) useful p λ reach.
          then_Runs xs (not_redundant xs) joins p λ _.
            then_Runs xs union publish p
              λ _. named-Runs xs p (check_all-AllReach self xs p reach) (ground (arith, long))
