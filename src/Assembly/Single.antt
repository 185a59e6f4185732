-- ===== src/Assembly/Single.antt =====
-- The series, branches and parallels of src/scnsim/authoring/assembly.py, and a component that is
-- in more than one.
use scnsim.Base.{
  ℕ, suc, String, List, [], ◌∷◌, ◌≡◌, ap, refl, Bool, true, false, ◌||◌, arith, subst, inl, inr,
  Bool-cases, ◌⊎◌, not, ltb, length,
}
use scnsim.Assembly.State.{Plan, Endpoint, Element, Use, branch_structure, Part}
use scnsim.Assembly.Action.{
  Answer, fails, gives, Error, Method, bind, read, returning, refuse_if, type_error, few_branches,
}
use scnsim.Assembly.Endpoints.{check}
use scnsim.Assembly.Chain.{prepared_chain, chain}
use scnsim.Assembly.Structures.{
  sid, publish_chain, series, branch, prepare_all, chain_all, parallel, is_local_bus, all_nonempty,
}
use scnsim.Assembly.Calls.{Call, calls_series, calls_branch, calls_parallel, perform, ignore}
use scnsim.Assembly.Seal.{perform_each}
use scnsim.Assembly.Consumed.{Used}
use scnsim.Assembly.Kept.{chain_all-Keeps}
use scnsim.Assembly.Once.{holds_body, prepared_chain-fails, Marks, bind-Marks, bind-Keeps-Marks}
use scnsim.Assembly.Series.{
  read-Marks, chain-Marks, publish_chain-Marks, then-Marks, series-Marks, series-fails,
  perform_each-Used,
}

-- Whether a component's body is in one of the branches.
unfoldable pub holds_branch : ℕ → List (List Element) → Bool
holds_branch c [] = false
holds_branch c (x ∷ xs) = holds_body c x || holds_branch c xs

-- Whether a call makes a structure of wires and bodies that has the component's body.
unfoldable pub takes_body : ℕ → Call → Bool
takes_body c (calls_series id start xs end) = holds_body c xs
takes_body c (calls_branch id x xs end) = holds_body c xs
takes_body c (calls_parallel id start xs end) = holds_branch c xs
takes_body c _ = false

module _ (nfc : String → String) (c self : ℕ) where
  branch-Marks :
      (id : String) (x : Endpoint) (xs : List Element) (end : Endpoint)
      → holds_body c xs ≡ true
      → Marks c (branch nfc self id x xs end)
  unfolding branch
  branch-Marks id x xs end h = then-Marks c nfc self (check self) _ (
      then-Marks c nfc self (λ p. refuse_if (not (is_local_bus nfc self x p)) type_error)
        (read (prepared_chain self xs x end) λ _. bind (sid nfc self id) publish)
        (read-Marks c (prepared_chain self xs x end) (λ _. bind (sid nfc self id) publish)
          λ p _ _.
            bind-Marks c (sid nfc self id) publish
              (λ name.
                bind-Keeps-Marks c (publish_chain nfc self (branch_structure name) xs x end)
                  (λ _. returning name)
                  (publish_chain-Marks c nfc self (branch_structure name) xs x end h) (λ _ q u. u))
              p))
    where
      publish : String → Method String
      publish name =
          bind (publish_chain nfc self (branch_structure name) xs x end) λ _. returning name

  chain_all-Marks :
      (i : ℕ) (xs : List (List Element)) (start end : Endpoint)
      → holds_branch c xs ≡ true
      → Marks c (chain_all nfc self i xs start end)
  unfolding chain_all holds_branch
  chain_all-Marks i [] start end h p y g = absurd (ground (arith, h))
  chain_all-Marks i (x ∷ xs) start end h p y g = elim (Bool-cases (holds_body c x)) [
    | inl here ↦
        bind-Keeps-Marks c (chain self x start end) next (chain-Marks c self x start end here)
          (λ parts q u. kept parts q u) p y g
    | inr there ↦
        bind-Marks c (chain self x start end) next
          (λ parts.
            bind-Keeps-Marks c (chain_all nfc self (suc i) xs start end) (last parts)
              (chain_all-Marks (suc i) xs start end (ground (arith, h, there))) (λ _ q u. u))
          p y g
  ]
    where
      last : List Part → List (ℕ × List Part) → Method (List (ℕ × List Part))
      last parts rest = returning ((i, parts) ∷ rest)

      next : List Part → Method (List (ℕ × List Part))
      next parts = bind (chain_all nfc self (suc i) xs start end) (last parts)

      kept : (parts : List Part) (q : Plan) → Used c q → Used c (next parts q).1
      kept parts q u = ground (arith, u, chain_all-Keeps nfc c self (suc i) xs start end q u)

  parallel-Marks :
      (id : String) (start : Endpoint) (xs : List (List Element)) (end : Endpoint)
      → holds_branch c xs ≡ true
      → Marks c (parallel nfc self id start xs end)
  unfolding parallel
  parallel-Marks id start xs end h p y g =
      split (chain_all nfc self 1 xs start end (sid nfc self id p).1).0 refl
    where
      split :
          (r : Answer (List (ℕ × List Part)))
          → (chain_all nfc self 1 xs start end (sid nfc self id p).1).0 ≡ r
          → Used c (parallel nfc self id start xs end p).1
      split (fails e) k = absurd (ground (arith, g, k))
      split (gives ps) k =
          let u = chain_all-Marks 1 xs start end h (sid nfc self id p).1 ps k in
          ground (arith, g, k, u)

  branch-fails :
      (id : String) (x : Endpoint) (xs : List Element) (end : Endpoint) (p : Plan)
      → Used c p
      → holds_body c xs ≡ true
      → (e : Error) × (branch nfc self id x xs end p ≡ (fails e, p))
  unfolding branch
  branch-fails id x xs end p u h =
      split (check self p) refl (Bool-cases (is_local_bus nfc self x p))
    where
      split :
          (r : Answer (Unit {0}))
          → check self p ≡ r
          → (is_local_bus nfc self x p ≡ true) ⊎ (is_local_bus nfc self x p ≡ false)
          → (e : Error) × (branch nfc self id x xs end p ≡ (fails e, p))
      split (fails d) k l = (d, ground (arith, k))
      split (gives _) k (inr l) = (type_error, ground (arith, k, l))
      split (gives _) k (inl l) =
          let (e, refused) = prepared_chain-fails c self xs x end p u h in
          (e, ground (arith, k, l, refused))

  prepare_all-fails :
      (xs : List (List Element)) (start end : Endpoint) (p : Plan)
      → Used c p
      → holds_branch c xs ≡ true
      → (e : Error) × (prepare_all nfc self xs start end p ≡ fails e)
  unfolding prepare_all holds_branch
  prepare_all-fails [] start end p u h = absurd (ground (arith, h))
  prepare_all-fails (x ∷ xs) start end p u h =
      split (prepared_chain self x start end p) refl (Bool-cases (holds_body c x))
        (prepare_all-fails xs start end p u)
    where
      split :
          (r : Answer (List Use))
          → prepared_chain self x start end p ≡ r
          → (holds_body c x ≡ true) ⊎ (holds_body c x ≡ false)
          → (holds_branch c xs ≡ true
              → (e : Error) × (prepare_all nfc self xs start end p ≡ fails e))
          → (e : Error) × (prepare_all nfc self (x ∷ xs) start end p ≡ fails e)
      split (fails e) k l rest = (e, ground (arith, k))
      split (gives us) k (inl l) rest =
          let (e, refused) = prepared_chain-fails c self x start end p u l in
          absurd (ground (arith, k, refused))
      split (gives us) k (inr l) rest =
          let (e, refused) = rest (ground (arith, h, l)) in (e, ground (arith, k, refused))

  parallel-fails :
      (id : String) (start : Endpoint) (xs : List (List Element)) (end : Endpoint) (p : Plan)
      → Used c p
      → holds_branch c xs ≡ true
      → (e : Error) × (parallel nfc self id start xs end p ≡ (fails e, p))
  unfolding parallel
  parallel-fails id start xs end p u h =
      split (check self p) refl (Bool-cases (ltb (length xs) 2 || not (all_nonempty nfc self xs)))
    where
      few : Bool
      few = ltb (length xs) 2 || not (all_nonempty nfc self xs)

      split :
          (r : Answer (Unit {0}))
          → check self p ≡ r
          → (few ≡ true) ⊎ (few ≡ false)
          → (e : Error) × (parallel nfc self id start xs end p ≡ (fails e, p))
      split (fails d) k l = (d, ground (arith, k))
      split (gives _) k (inl l) = (few_branches, ground (arith, k, l))
      split (gives _) k (inr l) =
          let (e, refused) = prepare_all-fails xs start end p u h in
          (e, ground (arith, k, l, refused))

module _ (nfc : String → String) (internal : ℕ → String) (c : ℕ) where
  ignored :
      {A : Type 0} (m : Method A) (p : Plan)
      → Marks c m
      → (ignore (m p)).0 ≡ gives tt
      → Used c (ignore (m p)).1
  ignored {A = A} m p f h = split (m p) (f p) h
    where
      split :
          (r : Answer A × Plan)
          → ((x : A) → r.0 ≡ gives x → Used c r.1)
          → (ignore r).0 ≡ gives tt
          → Used c (ignore r).1
      split (fails e, q) g h = absurd (ground (arith, h))
      split (gives x, q) g h = g x refl

  taken-Used :
      (self : ℕ) (call : Call) (p : Plan)
      → takes_body c call ≡ true
      → (perform nfc internal self call p).0 ≡ gives tt
      → Used c (perform nfc internal self call p).1
  unfolding perform takes_body
  taken-Used self (calls_series id start xs end) p t h =
      ignored (series nfc self id start xs end) p (series-Marks c nfc self id start xs end t) h
  taken-Used self (calls_branch id x xs end) p t h =
      ignored (branch nfc self id x xs end) p (branch-Marks nfc c self id x xs end t) h
  taken-Used self (calls_parallel id start xs end) p t h =
      ignored (parallel nfc self id start xs end) p (parallel-Marks nfc c self id start xs end t) h
  taken-Used self _ p t h = absurd (ground (arith, t))

  Used-fails :
      (self : ℕ) (call : Call) (p : Plan)
      → Used c p
      → takes_body c call ≡ true
      → (e : Error) × (perform nfc internal self call p ≡ (fails e, p))
  unfolding perform takes_body
  Used-fails self (calls_series id start xs end) p u t =
      let (e, h) = series-fails c nfc self id start xs end p u t in (e, ap ignore h)
  Used-fails self (calls_branch id x xs end) p u t =
      let (e, h) = branch-fails nfc c self id x xs end p u t in (e, ap ignore h)
  Used-fails self (calls_parallel id start xs end) p u t =
      let (e, h) = parallel-fails nfc c self id start xs end p u t in (e, ap ignore h)
  Used-fails self _ p u t = absurd (ground (arith, t))

-- After a series, branch or parallel that returned and has the body of a component, and after any
-- sequence of the modelled authoring calls on any scopes, also calls that raised, every series,
-- branch or parallel on any scope that has that body among its elements raises and leaves the plan
-- as it was.
pub structure_once :
    (nfc : String → String) (internal : ℕ → String) (c self other : ℕ) (first later : Call)
    (p q : Plan) (calls : List (ℕ × Call))
    → perform nfc internal self first p ≡ (gives tt, q)
    → takes_body c first ≡ true
    → takes_body c later ≡ true
    → let r = perform_each nfc internal calls q in
      (e : Error) × (perform nfc internal other later r ≡ (fails e, r))
structure_once nfc internal c self other first later p q calls h takes again =
    let marked : Used c (perform nfc internal self first p).1 =
      taken-Used nfc internal c self first p takes (ap (λ r. r.0) h) in
    let used : Used c q = subst (Used c) (ap (λ r. r.1) h) marked in
    Used-fails nfc internal c other later (perform_each nfc internal calls q)
      (perform_each-Used nfc internal c calls q used) again
