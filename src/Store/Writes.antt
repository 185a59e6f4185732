-- ===== src/Store/Writes.antt =====
-- `class StoreTransaction` of src/scnsim/workspace/operation_store.py: the mutations inside one
-- transaction. An INSERT checks the FOREIGN KEYs of `_SCHEMA`, as `PRAGMA foreign_keys=ON` asks.
use scnsim.Base.{
  ℕ, String, List, [], ◌∷◌, ◌++◌, ◌+◌, Bool, false, none, some, ◌&&◌, ◌||◌, not, length, is_some,
}
use scnsim.Base.Eq.{◌==◌, nat_eq, string_eq, pair_eq, list_eq}
use scnsim.Base.Dict.{lookup, insert, contains, add}
use scnsim.Store.Database.{Payload, Reference, Entry, OperationRow, SpanRow, make_reference}
use scnsim.Store.Action.{
  Action, ◌>>=◌, ◌>>◌, pure, gets, reads, or_raise, raise_if, modify, count, digest_collision,
  missing_bytes, constraint_failed,
}
use scnsim.Store.Snapshot.{get_object, read_pointer}

-- `FOREIGN KEY(sha256,role) REFERENCES object_roles(sha256,role)`
abbrev pub require_role : String → String → Action (Unit {0})
require_role digest role = do
  present ← gets (λ db. contains (digest, role) db.object_roles)
  raise_if (not present) constraint_failed

-- `INSERT INTO objects VALUES (?,?) ON CONFLICT DO NOTHING`, with the cursor's row count.
abbrev pub insert_object : String → Payload → Action ℕ
insert_object digest payload s = elim (lookup digest s.db.objects) [
  | some old ↦ pure 0 s
  | none ↦ pure 1 (record s { db = record s.db { objects = insert digest payload s.db.objects } })
]

-- `INSERT INTO object_roles VALUES (?,?) ON CONFLICT DO NOTHING`
abbrev pub insert_role : String → String → Action (Unit {0})
insert_role digest role = do
  known ← gets (λ db. is_some (lookup digest db.objects))
  raise_if (not known) constraint_failed
  modify (λ db. record db { object_roles = add (digest, role) db.object_roles })

-- Whether `entries` has a row with this primary key.
unfoldable pub has_entry : String → ℕ → List Entry → Bool
has_entry stream sequence [] = false
has_entry stream sequence (row ∷ rows) =
    (row.stream == stream && row.sequence == sequence) || has_entry stream sequence rows

module _ (hash : Payload → String) where
  unfoldable pub put_object : Payload → String → Action Reference
  put_object payload role = do
    let digest = hash payload
    count (λ c. record c {
      put_object_calls = c.put_object_calls + 1;
      logical_object_bytes = c.logical_object_bytes + length payload;
    })
    inserted ← insert_object digest payload
    count (λ c. record c { inserted_objects = c.inserted_objects + inserted })
    existing ← or_raise (← gets (λ db. lookup digest db.objects)) missing_bytes
    raise_if (not (existing == payload)) digest_collision
    insert_role digest role
    pure (make_reference digest role (length payload))

  -- The INSERT and the UPDATE of `streams`, and the revision then read.
  abbrev pub bump_stream : String → Action ℕ
  bump_stream stream s =
      let revision : ℕ = elim (lookup stream s.db.streams) [ none ↦ 1 | some r ↦ r + 1 ] in
      pure revision
        (record s { db = record s.db { streams = insert stream revision s.db.streams } })

  unfoldable pub append : String → String → Payload → Action ℕ
  unfolding put_object has_entry
  append stream kind payload = do
    reference ← put_object payload kind
    sequence ← bump_stream stream
    clash ← gets (λ db. has_entry stream sequence db.entries)
    raise_if clash constraint_failed
    require_role reference.sha256 reference.role
    modify (λ db. record db {
      entries =
          db.entries
          ++ record {
            stream = stream;
            sequence = sequence;
            kind = kind;
            sha256 = reference.sha256;
            role = reference.role;
          }
            ∷ [];
    })
    count (λ c. record c { appended_rows = c.appended_rows + 1 })
    pure sequence

  unfoldable pub set_pointer : String → Reference → Action (Unit {0})
  unfolding get_object
  set_pointer name r = do
    reads (get_object hash r)
    require_role r.sha256 r.role
    modify (λ db. record db {
      pointers =
          insert name
            (record {
              revision = elim (lookup name db.pointers) [ none ↦ 1 | some old ↦ old.revision + 1 ];
              sha256 = r.sha256;
              role = r.role;
            })
            db.pointers;
    })

  unfoldable pub select_first : String → Reference → Action Reference
  unfolding set_pointer read_pointer
  select_first name r = do
    selected ← reads (read_pointer name)
    elim selected [ some old ↦ pure old.reference | none ↦ do set_pointer name r; pure r ]

  -- `row` holds the columns that the caller gives; its sha256 and role come from the reference.
  unfoldable pub index_operation : String → Reference → OperationRow → Action (Unit {0})
  unfolding get_object
  index_operation operation_id r row = do
    reads (get_object hash r)
    require_role r.sha256 r.role
    modify (λ db. record db {
      operations =
          insert operation_id (record row { sha256 = r.sha256; role = r.role }) db.operations;
    })

  unfoldable pub index_span : String → Reference → SpanRow → Action (Unit {0})
  unfolding get_object
  index_span span_id r row = do
    reads (get_object hash r)
    require_role r.sha256 r.role
    modify (λ db. record db {
      spans = insert span_id (record row { sha256 = r.sha256; role = r.role }) db.spans;
    })
