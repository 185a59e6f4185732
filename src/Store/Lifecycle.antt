-- ===== src/Store/Lifecycle.antt =====
-- `initialize`, `reader` and `recover` of src/scnsim/workspace/operation_store.py, over the database
-- file that may not exist. Whether SQLite finds its own pages intact is the environment's answer.
pub mod Recovery
use scnsim.Base.{
  ℕ, String, List, [], ◌∷◌, ◌≡◌, refl, Bool, true, false, Option, none, some, ◌&&◌, not, length,
  if◌then◌else◌, is_some, arith, All, Bool-cases, inl, inr,
}
use scnsim.Base.Eq.{◌==◌, nat_eq, string_eq, pair_eq, Eq}
use scnsim.Base.Dict.{Dict, lookup, contains, All-contains, eq_refl}
use scnsim.Store.Database.{
  Database, Payload, Entry, Pointer, OperationRow, SpanRow, make_reference, database_name,
  store_version, created,
}
use scnsim.Store.Action.{
  Result, ok, err, Error, foreign_leaf, missing_database, damaged, broken_reference,
}
use scnsim.Store.Snapshot.{get_object, select_object}
use scnsim.Store.Transaction.{Metadata, verify_binding}
use scnsim.Store.Sound.{
  IsSound, HasRole, EntryHasRole, PointerHasRole, OperationHasRole, SpanHasRole,
}

-- The exception, if any, and the file afterwards.
unfoldable pub initialize : Metadata → Option Database → Result (Unit {0}) × Option Database
unfolding verify_binding
initialize metadata none = (ok tt, some (created metadata))
initialize metadata (some db) =
    (if verify_binding metadata db then ok tt else err foreign_leaf, some db)

-- What the block of `reader` gets.
unfoldable pub reader : Metadata → Option Database → Result (Option Database)
unfolding verify_binding
reader metadata none = ok none
reader metadata (some db) = if verify_binding metadata db then ok (some db) else err foreign_leaf

-- `PRAGMA foreign_key_check` finds no row, table by table.
unfoldable pub roles_refer : List (String × String) → Database → Bool
roles_refer [] db = true
roles_refer ((digest, role) ∷ rows) db = is_some (lookup digest db.objects) && roles_refer rows db

unfoldable pub entries_refer : List Entry → Database → Bool
entries_refer [] db = true
entries_refer (row ∷ rows) db =
    (contains (row.sha256, row.role) db.object_roles && is_some (lookup row.stream db.streams))
    && entries_refer rows db

unfoldable pub pointers_refer : Dict String Pointer → Database → Bool
pointers_refer [] db = true
pointers_refer ((name, row) ∷ rows) db =
    contains (row.sha256, row.role) db.object_roles && pointers_refer rows db

unfoldable pub operations_refer : Dict String OperationRow → Database → Bool
operations_refer [] db = true
operations_refer ((id, row) ∷ rows) db =
    contains (row.sha256, row.role) db.object_roles && operations_refer rows db

unfoldable pub spans_refer : Dict String SpanRow → Database → Bool
spans_refer [] db = true
spans_refer ((id, row) ∷ rows) db =
    contains (row.sha256, row.role) db.object_roles && spans_refer rows db

unfoldable pub foreign_keys_hold : Database → Bool
unfolding roles_refer entries_refer pointers_refer operations_refer spans_refer
foreign_keys_hold db =
    roles_refer db.object_roles db
    && entries_refer db.entries db
    && pointers_refer db.pointers db
    && operations_refer db.operations db
    && spans_refer db.spans db

module _ (hash : Payload → String) where
  -- The loop over `object_roles r JOIN objects o USING(sha256)`: a role with no object has no row.
  unfoldable pub verify_objects : List (String × String) → Database → Result (Unit {0})
  unfolding get_object
  verify_objects [] db = ok tt
  verify_objects ((digest, role) ∷ rows) db = elim (lookup digest db.objects) [
    | none ↦ verify_objects rows db
    | some payload ↦ elim (get_object hash (make_reference digest role (length payload)) db) [
      | err e ↦ err e
      | ok _ ↦ verify_objects rows db
    ]
  ]

  -- `pages` is the answer of `PRAGMA integrity_check`. A missing file is never created.
  unfoldable pub recover : Metadata → Bool → Option Database → Result (Unit {0})
  unfolding verify_binding foreign_keys_hold verify_objects
  recover metadata pages none = err missing_database
  recover metadata pages (some db) =
      if not (verify_binding metadata db)
      then err foreign_leaf
      else if not pages
      then err damaged
      else if not (foreign_keys_hold db)
      then err broken_reference
      else verify_objects db.object_roles db
