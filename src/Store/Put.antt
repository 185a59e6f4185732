-- ===== src/Store/Put.antt =====
-- What `put_object` of src/scnsim/workspace/operation_store.py does: it returns a reference to
-- stored bytes, or finds other bytes under the digest.
use scnsim.Base.{
  ℕ, String, [], ◌∷◌, ◌≡◌, refl, inl, inr, ◌+◌, ◌++◌, true, none, some, length, arith, Option-cases,
}
use scnsim.Base.Eq.{nat_eq, string_eq, pair_eq, list_eq, list_beq_iff}
use scnsim.Base.Dict.{lookup, insert, contains, add, lookup-insert_self, eq_refl}
use scnsim.Store.Database.{Database, Payload, Reference, Entry, make_reference, database_name}
use scnsim.Store.Action.{Result, Session, ok, err}
use scnsim.Store.Snapshot.{get_object, stream_revision}
use scnsim.Store.Writes.{put_object, append}

module _ (hash : Payload → String) where
  -- The two tables after `payload` is stored under `role`.
  abbrev pub put_objects : Payload → Database → Database
  put_objects payload db = record db {
    objects = elim (lookup (hash payload) db.objects) [
      | none ↦ insert (hash payload) payload db.objects
      | some old ↦ db.objects
    ];
  }

  abbrev pub put_roles : Payload → String → Database → Database
  put_roles payload role db = record db { object_roles = add (hash payload, role) db.object_roles }

  pub put_object-ok :
      (payload : Payload) (role : String) (s s' : Session) {r : Reference}
      → put_object hash payload role s ≡ (ok r, s')
      → (r ≡ make_reference (hash payload) role (length payload))
        × (s'.db ≡ put_roles payload role (put_objects payload s.db))
        × (lookup (hash payload) s'.db.objects ≡ some payload)
  unfolding put_object
  put_object-ok payload role s s' h = elim (Option-cases (lookup (hash payload) s.db.objects)) [
    | inl new ↦ ground (arith, lookup-insert_self (hash payload) payload s.db.objects)
    | inr (old, known) ↦ ground (arith, list_beq_iff old payload)
  ]

  abbrev pub new_entry : String → String → Payload → ℕ → Entry
  new_entry stream kind payload n = record {
    stream = stream;
    sequence = n;
    kind = kind;
    sha256 = hash payload;
    role = kind;
  }

  -- The database after one append, which numbers the entry `n`.
  abbrev pub appended : String → String → Payload → ℕ → Database → Database
  appended stream kind payload n db = record (put_roles payload kind (put_objects payload db)) {
    streams = insert stream n db.streams;
    entries = db.entries ++ new_entry stream kind payload n ∷ [];
  }

  pub append-ok :
      (stream kind : String) (payload : Payload) (s s' : Session) {n : ℕ}
      → append hash stream kind payload s ≡ (ok n, s')
      → (n ≡ stream_revision stream s.db + 1)
        × (s'.db ≡ appended stream kind payload n s.db)
        × (lookup (hash payload) s'.db.objects ≡ some payload)
  unfolding append stream_revision
  append-ok stream kind payload s s' {n} h = split (put_object hash payload kind s) refl
    where
      split :
          (p : Result Reference × Session)
          → put_object hash payload kind s ≡ p
          → (n ≡ stream_revision stream s.db + 1)
            × (s'.db ≡ appended stream kind payload n s.db)
            × (lookup (hash payload) s'.db.objects ≡ some payload)
      split (ok r, s1) e = ground (arith, put_object-ok payload kind s s1 e)
      split (err x, s1) e = ground arith

  -- A reference to stored bytes under their digest reads them.
  pub get_object-make_reference :
      (digest role : String) (payload : Payload) (db : Database)
      → contains (digest, role) db.object_roles ≡ true
      → lookup digest db.objects ≡ some payload
      → hash payload ≡ digest
      → get_object hash (make_reference digest role (length payload)) db ≡ ok payload
  unfolding get_object
  get_object-make_reference digest role payload db h k e = ground (
    arith,
    eq_refl database_name,
    eq_refl digest,
    eq_refl {K = String} "sqlite",
    eq_refl (length payload),
  )
