-- ===== src/Store/Pointers.antt =====
-- Pointers of src/scnsim/workspace/operation_store.py: the first selection wins.
use scnsim.Base.{ℕ, String, ◌≡◌, inl, inr, refl, some, length, arith}
use scnsim.Base.Eq.{nat_eq, string_eq, pair_eq, list_eq}
use scnsim.Base.Dict.{lookup, lookup-insert_self}
use scnsim.Store.Database.{Database, Payload, Reference, make_reference, database_name}
use scnsim.Store.Action.{Result, ok, err, Session}
use scnsim.Store.Snapshot.{get_object, read_pointer}
use scnsim.Store.Writes.{set_pointer, select_first}
use scnsim.Store.Returns.{select_first-ok, set_pointer-ok, pointer_row}

module _ (hash : Payload → String) where
  -- A reference that reads is the one that its digest, role and bytes make.
  get_object-reference :
      (r : Reference) {p : Payload} (db : Database)
      → get_object hash r db ≡ ok p
      → (lookup r.sha256 db.objects ≡ some p) × (r ≡ make_reference r.sha256 r.role (length p))
  unfolding get_object
  get_object-reference r {p} db h =
      ground
        (arith, string_eq.beq_iff r.storage "sqlite", string_eq.beq_iff r.database database_name)

  set_pointer-get_object :
      (name : String) (r : Reference) (s s' : Session)
      → set_pointer hash name r s ≡ (ok tt, s')
      → (p : Payload) × (get_object hash r s.db ≡ ok p)
  unfolding set_pointer
  set_pointer-get_object name r s s' h = split (get_object hash r s.db) refl
    where
      split :
          (g : Result Payload)
          → get_object hash r s.db ≡ g
          → (p : Payload) × (get_object hash r s.db ≡ ok p)
      split (err e) d = absurd (ground arith)
      split (ok p) d = (p, d)

  read_pointer-set_pointer :
      (name : String) (r : Reference) (s s' : Session)
      → set_pointer hash name r s ≡ (ok tt, s')
      → (n : ℕ) × (read_pointer name s'.db ≡ ok (some (record { revision = n; reference = r })))
  unfolding read_pointer
  read_pointer-set_pointer name r s s' h =
      let (p, got) = set_pointer-get_object name r s s' h in
      let (known, is) = get_object-reference r s.db got in
      let (same, _) = set_pointer-ok hash name r s s' h in
      (
        (pointer_row name r s.db).revision,
        ground (arith, lookup-insert_self name (pointer_row name r s.db) s.db.pointers),
      )

  -- Once select_first has returned a reference for a name, select_first under that name with any
  -- other reference returns the same one and leaves the state as it is.
  pub select_first-stable :
      (name : String) (r later : Reference) (s s' : Session) {q : Reference}
      → select_first hash name r s ≡ (ok q, s')
      → select_first hash name later s' ≡ (ok q, s')
  unfolding select_first
  select_first-stable name r later s s' {q} h = elim (select_first-ok hash name r s s' h) [
    | inl (old, known, is, same) ↦ ground arith
    | inr (fresh, is, wrote) ↦
        let (n, read) = read_pointer-set_pointer name r s s' wrote in ground arith
  ]
