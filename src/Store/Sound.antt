-- ===== src/Store/Sound.antt =====
-- The integrity of the tables of src/scnsim/workspace/operation_store.py, and that every mutation
-- keeps it.
pub mod Rows
pub mod Preserve
use mathlib.Core.List.{map-append}
use scnsim.Base.{
  ℕ, zero, suc, ◌+◌, ◌≤◌, String, List, [], ◌∷◌, ◌++◌, map, ◌≡◌, refl, inl, inr, Bool, true, false,
  Option, none, some, ◌&&◌, ◌||◌, length, arith, if◌then◌else◌, Bool-cases, Option-cases, All,
  All-append, All-map, is_some,
}
use scnsim.Base.Eq.{Eq, ◌==◌, nat_eq, string_eq, pair_eq, list_eq}
use scnsim.Base.Dict.{
  Dict, lookup, insert, contains, contains-add, contains-add_self, lookup-insert, eq_refl,
}
use scnsim.Store.Database.{
  Database, Payload, Reference, Entry, Pointer, OperationRow, SpanRow, make_reference, created,
}
use scnsim.Store.Action.{Session, ok, err}
use scnsim.Store.Snapshot.{get_object, stream_revision, select_entries, select_object, read_pointer}
use scnsim.Store.Writes.{
  put_object, append, set_pointer, select_first, index_operation, index_span, has_entry,
}
use scnsim.Store.Put.{put_objects, put_roles, put_object-ok, new_entry, appended, append-ok}
use scnsim.Store.Grows.{Extends, put_object-Extends}
use scnsim.Store.Streams.{
  upto, sequences, upto-next, sequences-append, select_entries-append, has_entry-sequences,
  contains-upto_above,
}
use scnsim.Store.Calls.{Call, put, add, point, select, operation, span, perform, perform_all}

-- A foreign key into `object_roles`.
abbrev pub HasRole : Database → String → String → Type 0
HasRole db digest role = contains (digest, role) db.object_roles ≡ true

-- The foreign keys of a row of `entries`.
abbrev pub EntryHasRole : Database → Entry → Type 0
EntryHasRole db row =
    HasRole db row.sha256 row.role × (is_some (lookup row.stream db.streams) ≡ true)

abbrev pub PointerHasRole : Database → String × Pointer → Type 0
PointerHasRole db (name, row) = HasRole db row.sha256 row.role

abbrev pub OperationHasRole : Database → String × OperationRow → Type 0
OperationHasRole db (id, row) = HasRole db row.sha256 row.role

abbrev pub SpanHasRole : Database → String × SpanRow → Type 0
SpanHasRole db (id, row) = HasRole db row.sha256 row.role

pub record IsSound (hash : Payload → String) (db : Database) : Type 0 where
  -- a digest is the hash of its bytes
  pub digests : (d : String) (p : Payload) → lookup d db.objects ≡ some p → hash p ≡ d
  -- a role stands for stored bytes
  pub stored :
      (d role : String) → HasRole db d role → (p : Payload) × (lookup d db.objects ≡ some p)
  -- the entries of a stream are numbered 1 to its revision, in order
  pub contiguous :
      (stream : String)
      → sequences (select_entries stream db.entries) ≡ upto (stream_revision stream db)
  pub listed : All (EntryHasRole db) db.entries
  pub pointed : All (PointerHasRole db) db.pointers
  pub operated : All (OperationHasRole db) db.operations
  pub spanned : All (SpanHasRole db) db.spans

-- The database that `initialize` creates is sound.
pub created-IsSound :
    (hash : Payload → String) (metadata : Dict String String) → IsSound hash (created metadata)
unfolding lookup contains stream_revision select_entries
created-IsSound hash metadata = record {
  digests = λ d p h. cc;
  stored = λ d role h. absurd (ground arith);
  contiguous = λ stream. refl;
  listed = tt;
  pointed = tt;
  operated = tt;
  spanned = tt;
}
