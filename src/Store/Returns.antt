-- ===== src/Store/Returns.antt =====
-- What a call of src/scnsim/workspace/operation_store.py has done when it returns, call by call.
use scnsim.Base.{
  ℕ, String, List, ◌∷◌, ◌≡◌, ◌⊎◌, inl, inr, refl, Option, none, some, ◌+◌, arith, true,
}
use scnsim.Base.Eq.{string_eq, pair_eq}
use scnsim.Base.Dict.{lookup, insert, contains}
use scnsim.Store.Database.{Database, Payload, Reference, Pointer, OperationRow, SpanRow}
use scnsim.Store.Action.{Result, ok, err, Session}
use scnsim.Store.Snapshot.{read_pointer, Selected}
use scnsim.Store.Writes.{put_object, append, set_pointer, select_first, index_operation, index_span}
use scnsim.Store.Calls.{Call, put, add, select, perform, perform_all}

-- The row that `set_pointer` writes.
abbrev pub pointer_row : String → Reference → Database → Pointer
pointer_row name r db = record {
  revision = elim (lookup name db.pointers) [ none ↦ 1 | some old ↦ old.revision + 1 ];
  sha256 = r.sha256;
  role = r.role;
}

module _ (hash : Payload → String) where
  pub set_pointer-ok :
      (name : String) (r : Reference) (s s' : Session)
      → set_pointer hash name r s ≡ (ok tt, s')
      → (s'.db ≡ record s.db { pointers = insert name (pointer_row name r s.db) s.db.pointers })
        × (contains (r.sha256, r.role) s.db.object_roles ≡ true)
  unfolding set_pointer
  set_pointer-ok name r s s' h = ground arith

  pub index_operation-ok :
      (id : String) (r : Reference) (row : OperationRow) (s s' : Session)
      → index_operation hash id r row s ≡ (ok tt, s')
      → (s'.db ≡ record s.db {
        operations = insert id (record row { sha256 = r.sha256; role = r.role }) s.db.operations;
      })
        × (contains (r.sha256, r.role) s.db.object_roles ≡ true)
  unfolding index_operation
  index_operation-ok id r row s s' h = ground arith

  pub index_span-ok :
      (id : String) (r : Reference) (row : SpanRow) (s s' : Session)
      → index_span hash id r row s ≡ (ok tt, s')
      → (s'.db ≡ record s.db {
        spans = insert id (record row { sha256 = r.sha256; role = r.role }) s.db.spans;
      })
        × (contains (r.sha256, r.role) s.db.object_roles ≡ true)
  unfolding index_span
  index_span-ok id r row s s' h = ground arith

  pub select_first-ok :
      (name : String) (r : Reference) (s s' : Session) {q : Reference}
      → select_first hash name r s ≡ (ok q, s')
      → ((old : Selected) × (read_pointer name s.db ≡ ok (some old))
          × (q ≡ old.reference)
          × (s' ≡ s))
        ⊎ ((read_pointer name s.db ≡ ok none) × (q ≡ r) × (set_pointer hash name r s ≡ (ok tt, s')))
  unfolding select_first
  select_first-ok name r s s' {q} h =
      split (read_pointer name s.db) (set_pointer hash name r s) refl refl
    where
      split :
          (p : Result (Option Selected)) (w : Result (Unit {0}) × Session)
          → read_pointer name s.db ≡ p
          → set_pointer hash name r s ≡ w
          → ((old : Selected) × (read_pointer name s.db ≡ ok (some old))
              × (q ≡ old.reference)
              × (s' ≡ s))
            ⊎ ((read_pointer name s.db ≡ ok none)
                × (q ≡ r)
                × (set_pointer hash name r s ≡ (ok tt, s')))
      split (err x) w d e = absurd (ground arith)
      split (ok (some old)) w d e = inl (old, d, ground arith, ground arith)
      split (ok none) (err x, s1) d e = absurd (ground arith)
      split (ok none) (ok _, s1) d e = inr (d, ground arith, ground arith)

  pub perform_put-ok :
      (payload : Payload) (role : String) (s s' : Session)
      → perform hash (put payload role) s ≡ (ok tt, s')
      → (r : Reference) × (put_object hash payload role s ≡ (ok r, s'))
  unfolding perform
  perform_put-ok payload role s s' h = split (put_object hash payload role s) refl
    where
      split :
          (p : Result Reference × Session)
          → put_object hash payload role s ≡ p
          → (r : Reference) × (put_object hash payload role s ≡ (ok r, s'))
      split (err x, s1) e = absurd (ground arith)
      split (ok r, s1) e = (r, ground arith)

  pub perform-add_ok :
      (stream kind : String) (payload : Payload) (s s' : Session)
      → perform hash (add stream kind payload) s ≡ (ok tt, s')
      → (n : ℕ) × (append hash stream kind payload s ≡ (ok n, s'))
  unfolding perform
  perform-add_ok stream kind payload s s' h = split (append hash stream kind payload s) refl
    where
      split :
          (p : Result ℕ × Session)
          → append hash stream kind payload s ≡ p
          → (n : ℕ) × (append hash stream kind payload s ≡ (ok n, s'))
      split (err x, s1) e = absurd (ground arith)
      split (ok n, s1) e = (n, ground arith)

  pub perform_select-ok :
      (name : String) (r : Reference) (s s' : Session)
      → perform hash (select name r) s ≡ (ok tt, s')
      → (q : Reference) × (select_first hash name r s ≡ (ok q, s'))
  unfolding perform
  perform_select-ok name r s s' h = split (select_first hash name r s) refl
    where
      split :
          (p : Result Reference × Session)
          → select_first hash name r s ≡ p
          → (q : Reference) × (select_first hash name r s ≡ (ok q, s'))
      split (err x, s1) e = absurd (ground arith)
      split (ok q, s1) e = (q, ground arith)

  pub perform_all_cons-ok :
      (call : Call) (calls : List Call) (s s' : Session)
      → perform_all hash (call ∷ calls) s ≡ (ok tt, s')
      → (s1 : Session) × (perform hash call s ≡ (ok tt, s1))
        × (perform_all hash calls s1 ≡ (ok tt, s'))
  unfolding perform_all
  perform_all_cons-ok call calls s s' h = split (perform hash call s) refl
    where
      split :
          (p : Result (Unit {0}) × Session)
          → perform hash call s ≡ p
          → (s1 : Session) × (perform hash call s ≡ (ok tt, s1))
            × (perform_all hash calls s1 ≡ (ok tt, s'))
      split (err x, s1) e = absurd (ground arith)
      split (ok _, s1) e = (s1, e, ground arith)
