-- ===== src/Assembly/Series.antt =====
-- A series of src/scnsim/authoring/assembly.py marks its components, and refuses a marked one.
use scnsim.Base.{ℕ, String, List, [], ◌∷◌, ◌++◌, ◌≡◌, refl, true, false, arith, if◌then◌else◌}
use scnsim.Base.Eq.{nat_eq}
use scnsim.Assembly.State.{Plan, Endpoint, Element, Use, Part, series_structure}
use scnsim.Assembly.Action.{Answer, fails, gives, Error, Method, ◌then◌, bind, read, returning}
use scnsim.Assembly.Endpoints.{check, getnet}
use scnsim.Assembly.Chain.{prepared_chain, connect, chain}
use scnsim.Assembly.Structures.{series, sid, publish_chain}
use scnsim.Assembly.Calls.{Call, perform}
use scnsim.Assembly.Seal.{perform_each}
use scnsim.Assembly.Consumed.{Used, read-Keeps}
use scnsim.Assembly.Kept.{perform-Keeps}
use scnsim.Assembly.State.{EndpointRecord, Structure}
use scnsim.Assembly.Endpoints.{ep}
use scnsim.Assembly.Chain.{new_nets, after_first}
use scnsim.Assembly.Structures.{add_structure}
use scnsim.Assembly.Once.{
  holds_body, prepared_chain-use_all, use_all-bodies, prepared_chain-fails, Marks, bind-Marks,
  bind-Keeps-Marks, connect-Marks,
}

module _ (c : ℕ) where
  -- After a result that was read.
  pub read-Marks :
      {A B : Type 0} (f : Plan → Answer A) (k : A → Method B)
      → ((p : Plan) (x : A) → f p ≡ gives x → (y : B) → (k x p).0 ≡ gives y → Used c (k x p).1)
      → Marks c (read f k)
  read-Marks {A = A} {B = B} f k g p y h = split (f p) refl h
    where
      next : Answer A → Answer B × Plan
      next r = elim r [ gives x ↦ k x p | fails e ↦ (fails e, p) ]

      split : (r : Answer A) → f p ≡ r → (next r).0 ≡ gives y → Used c (next r).1
      split (gives x) e h = g p x e y h
      split (fails d) e h = absurd (ground (arith, h))

  pub chain-Marks :
      (self : ℕ) (xs : List Element) (start end : Endpoint)
      → holds_body c xs ≡ true
      → Marks c (chain self xs start end)
  unfolding chain
  chain-Marks self xs start end h =
      read-Marks (prepared_chain self xs start end)
        (λ us. bind (getnet self start false) (middle us))
        λ p us e.
          bind-Marks c (getnet self start false) (middle us)
            (λ first q.
              bind-Marks c (getnet self end false)
                (last us first (new_nets (after_first us) q.nets).0)
                (λ n. connect-Marks c self us _ (
                  use_all-bodies self c xs us p (prepared_chain-use_all self xs start end p us e).0
                    h))
                (record q { nets = (new_nets (after_first us) q.nets).1 }))
            p
    where
      last : List Use → ℕ → List ℕ → ℕ → Method (List Part)
      last us first ns n = connect self us (first ∷ (ns ++ n ∷ []))

      middle : List Use → ℕ → Method (List Part)
      middle us first q =
          let (ns, nets) = new_nets (after_first us) q.nets in
          bind (getnet self end false) (last us first ns) (record q { nets = nets })

  module _ (nfc : String → String) (self : ℕ) where
    pub publish_chain-Marks :
        (make : EndpointRecord → List Part → EndpointRecord → Structure) (xs : List Element)
        (start end : Endpoint)
        → holds_body c xs ≡ true
        → Marks c (publish_chain nfc self make xs start end)
    unfolding publish_chain
    publish_chain-Marks make xs start end h =
        read-Marks (ep start) (λ a. bind (chain self xs start end) (ended a))
          λ p a _.
            bind-Keeps-Marks c (chain self xs start end) (ended a) (chain-Marks self xs start end h)
              (λ parts. read-Keeps c (ep end) (added a parts) (λ b q u. u)) p
      where
        added : EndpointRecord → List Part → EndpointRecord → Method (Unit {0})
        added a parts b p = (gives tt, add_structure self (make a parts b) p)

        ended : EndpointRecord → List Part → Method (Unit {0})
        ended a parts = read (ep end) (added a parts)

    pub then-Marks :
        {A : Type 0} (test : Plan → Answer (Unit {0})) (body : Method A)
        → Marks c body
        → Marks c (test then body)
    then-Marks {A = A} test body f p y h = split (test p) h
      where
        next : Answer (Unit {0}) → Answer A × Plan
        next r = elim r [ fails e ↦ (fails e, p) | gives _ ↦ body p ]

        split : (r : Answer (Unit {0})) → (next r).0 ≡ gives y → Used c (next r).1
        split (fails e) h = absurd (ground (arith, h))
        split (gives _) h = f p y h

    pub series-Marks :
        (id : String) (start : Endpoint) (xs : List Element) (end : Endpoint)
        → holds_body c xs ≡ true
        → Marks c (series nfc self id start xs end)
    unfolding series
    series-Marks id start xs end h =
        then-Marks (check self)
          (read (prepared_chain self xs start end) λ _. bind (sid nfc self id) publish)
          (read-Marks (prepared_chain self xs start end) (λ _. bind (sid nfc self id) publish)
            λ p _ _.
              bind-Marks c (sid nfc self id) publish
                (λ name.
                  bind-Keeps-Marks c (publish_chain nfc self (series_structure name) xs start end)
                    (λ _. returning name)
                    (publish_chain-Marks (series_structure name) xs start end h) (λ _ q u. u))
                p)
      where
        publish : String → Method String
        publish name =
            bind (publish_chain nfc self (series_structure name) xs start end) λ _. returning name

    pub series-fails :
        (id : String) (start : Endpoint) (xs : List Element) (end : Endpoint) (p : Plan)
        → Used c p
        → holds_body c xs ≡ true
        → (e : Error) × (series nfc self id start xs end p ≡ (fails e, p))
    unfolding series
    series-fails id start xs end p u h =
        let (e, refused) = prepared_chain-fails c self xs start end p u h in
        split (check self p) refl e refused
      where
        split :
            (r : Answer (Unit {0}))
            → check self p ≡ r
            → (e : Error) → prepared_chain self xs start end p ≡ fails e
            → (e : Error) × (series nfc self id start xs end p ≡ (fails e, p))
        split (fails d) k e refused = (d, ground (arith, k))
        split (gives _) k e refused = (e, ground (arith, k, refused))

pub perform_each-Used :
    (nfc : String → String) (internal : ℕ → String) (c : ℕ) (calls : List (ℕ × Call)) (p : Plan)
    → Used c p
    → Used c (perform_each nfc internal calls p)
unfolding perform_each
perform_each-Used nfc internal c [] p u = u
perform_each-Used nfc internal c ((self, call) ∷ calls) p u =
    perform_each-Used nfc internal c calls (perform nfc internal self call p).1
      (perform-Keeps nfc internal c self call p u)
