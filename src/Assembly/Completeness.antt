-- ===== src/Assembly/Completeness.antt =====
-- What `complete` of src/scnsim/authoring/assembly.py accepts, over all the scopes that `_walk` visits.
use scnsim.Base.{
  ℕ, zero, suc, List, [], ◌∷◌, ◌≡◌, refl, inl, inr, false, some, arith, All, All-append,
  Option-cases, nat_beq_iff,
}
use scnsim.Assembly.State.{Plan, ordinary, composite}
use scnsim.Assembly.Action.{Answer, fails, gives}
use scnsim.Assembly.Chain.{also_both, has_twice}
use scnsim.Assembly.Union.{values, walk_from, walk_bodies, walk_children}
use scnsim.Assembly.Finish.{
  any_unbound, net_roots, body_holds, composite_holds, component_holds, each, complete_from,
  complete_scope,
}

-- An ordinary component that passed: it carries the mark of one use, is bound, and has each pin on a
-- wire of its own. The mark alone does not say that a structure with it was published.
pub record IsFinished (p : Plan) (c : ℕ) : Type 0 where
  pub used : (p.components c).used ≡ 1
  pub bound : any_unbound (values (p.components c).pins) p ≡ false
  pub roots : List ℕ
  pub wired : net_roots (values (p.components c).pins) p ≡ gives roots
  pub apart : has_twice roots ≡ false

abbrev pub Finished : Plan → ℕ → Type 0
Finished p c = (p.components c).kind ≡ ordinary → IsFinished p c

-- Only composites have bodies.
abbrev pub BodiesAreComposite : Plan → Type 0
BodiesAreComposite p =
    (c b : ℕ) → (p.components c).body ≡ some b → (p.components c).kind ≡ composite

abbrev pub ScopeFinished : Plan → ℕ → Type 0
ScopeFinished p s = All (Finished p) (values (p.scopes s).components)

component_holds-Finished :
    (finish : ℕ → Answer (Unit {0})) (p : Plan) (c : ℕ)
    → component_holds finish c p ≡ gives tt
    → Finished p c
unfolding component_holds body_holds
component_holds-Finished finish p c h k = split (net_roots (values (p.components c).pins) p) refl
  where
    split : (r : Answer (List ℕ)) → net_roots (values (p.components c).pins) p ≡ r → IsFinished p c
    split (fails e) q = absurd (ground (arith, q))
    split (gives rs) q = record {
      used = ground (arith, q, nat_beq_iff (p.components c).used 1);
      bound = ground (arith, q);
      roots = rs;
      wired = q;
      apart = ground (arith, q);
    }

-- What `each` has tested.
each-All :
    {P : ℕ → Type 0} (test : ℕ → Answer (Unit {0})) (xs : List ℕ)
    → ((x : ℕ) → test x ≡ gives tt → P x)
    → each test xs ≡ gives tt
    → All P xs
unfolding each
each-All test [] f h = tt
each-All test (x ∷ xs) f h =
    let (now, later) = also_both (test x) (each test xs) h in (f x now, each-All test xs f later)

walked_children :
    (P : ℕ → Type 0) (visit : ℕ → List ℕ) (xs : List ℕ)
    → All (λ x. All P (visit x)) xs
    → All P (walk_children visit xs)
unfolding walk_children
walked_children P visit [] h = tt
walked_children P visit (x ∷ xs) (now, later) =
    All-append P (visit x) (walk_children visit xs) now (walked_children P visit xs later)

-- The bodies of components that passed.
walked_bodies :
    (P : ℕ → Type 0) (finish : ℕ → Answer (Unit {0})) (visit : ℕ → List ℕ) (p : Plan) (cs : List ℕ)
    → BodiesAreComposite p
    → ((b : ℕ) → finish b ≡ gives tt → All P (visit b))
    → All (λ c. component_holds finish c p ≡ gives tt) cs
    → All P (walk_bodies visit cs p)
unfolding walk_bodies component_holds composite_holds
walked_bodies P finish visit p [] only f h = tt
walked_bodies P finish visit p (c ∷ cs) only f (now, later) =
    elim (Option-cases (p.components c).body) [
      | inl bare ↦ simp (bare, walk_bodies) (walked_bodies P finish visit p cs only f later)
      | inr (b, whole) ↦
          let is = only c b whole in
          let done : finish b ≡ gives tt = ground (arith, is, whole) in
          simp (whole, walk_bodies)
            (All-append P (visit b) (walk_bodies visit cs p) (f b done)
              (walked_bodies P finish visit p cs only f later))
    ]

complete_from-walk :
    (fuel : ℕ) (p : Plan) (s : ℕ)
    → BodiesAreComposite p
    → complete_from fuel p s ≡ gives tt
    → All (ScopeFinished p) (walk_from fuel p s)
unfolding complete_from walk_from
complete_from-walk zero p s only h = tt
complete_from-walk (suc fuel) p s only h =
    let finish = complete_from fuel p in
    let children = values (p.scopes s).children in
    let components = values (p.scopes s).components in
    let (first, second) =
      also_both (each finish children) (each (λ c. component_holds finish c p) components) h in
    let passed = each-All (λ c. component_holds finish c p) components (λ c q. q) second in
    let down = λ (b : ℕ) (q : finish b ≡ gives tt). complete_from-walk fuel p b only q in
    (
      each-All (λ c. component_holds finish c p) components (component_holds-Finished finish p)
          second,
      All-append (ScopeFinished p) (walk_children (walk_from fuel p) children)
          (walk_bodies (walk_from fuel p) components p)
          (walked_children (ScopeFinished p) (walk_from fuel p) children
            (each-All finish children down first))
          (walked_bodies (ScopeFinished p) finish (walk_from fuel p) p components only down passed),
    )

-- When only composites have bodies and complete accepts a scope, every ordinary component of every
-- scope that _walk visits from it carries the mark `used = 1` that a structure sets, has all its
-- pins bound, and has no two pins on the same wire.
pub complete_scope-walk :
    (p : Plan) (s : ℕ)
    → BodiesAreComposite p
    → complete_scope s p ≡ gives tt
    → All (ScopeFinished p) (walk_from p.scope_count p s)
unfolding complete_scope
complete_scope-walk p s only h = complete_from-walk p.scope_count p s only h
