-- ===== src/Store/Snapshot.antt =====
-- `class Snapshot` of src/scnsim/workspace/operation_store.py: the reads of one committed state.
use scnsim.Base.{
  ℕ, String, List, [], ◌∷◌, Option, none, some, ◌&&◌, not, leb, length, if◌then◌else◌,
}
use scnsim.Base.Eq.{◌==◌, nat_eq, string_eq, pair_eq}
use scnsim.Base.Dict.{lookup, contains}
use scnsim.Store.Database.{
  Database, Payload, Reference, Entry, make_reference, database_name, store_version,
}
use scnsim.Store.Action.{
  Result, ok, err, invalid_reference, missing_object, wrong_bytes, missing_bytes,
}

-- The rows of `SELECT o.payload FROM objects o JOIN object_roles r USING(sha256) WHERE …`.
unfoldable pub select_object : String → String → Database → Option Payload
select_object digest role db =
    if contains (digest, role) db.object_roles then lookup digest db.objects else none

module _ (hash : Payload → String) where
  unfoldable pub get_object : Reference → Database → Result Payload
  unfolding select_object
  get_object r db =
      if not
        (r.schema_version == store_version && r.storage == "sqlite" && r.database == database_name)
      then err invalid_reference
      else (elim (select_object r.sha256 r.role db) [
        | none ↦ err missing_object
        | some payload ↦
            if length payload == r.byte_length && hash payload == r.sha256
            then ok payload
            else err wrong_bytes
      ])

-- `_ref`
unfoldable pub object_ref : String → String → Database → Result Reference
object_ref digest role db = elim (lookup digest db.objects) [
  | none ↦ err missing_bytes
  | some payload ↦ ok (make_reference digest role (length payload))
]

unfoldable pub stream_revision : String → Database → ℕ
stream_revision stream db = elim (lookup stream db.streams) [ none ↦ 0 | some revision ↦ revision ]

-- One item of the list that `read_stream` returns.
pub record StreamEntry : Type 0 where
  pub sequence : ℕ
  pub kind : String
  pub reference : Reference

-- `WHERE stream=?`
unfoldable pub select_entries : String → List Entry → List Entry
select_entries stream [] = []
select_entries stream (row ∷ rows) =
    if row.stream == stream then row ∷ select_entries stream rows else select_entries stream rows

-- `ORDER BY sequence`
unfoldable pub insert_sequence : Entry → List Entry → List Entry
insert_sequence row [] = row ∷ []
insert_sequence row (other ∷ rows) =
    if leb row.sequence other.sequence then row ∷ other ∷ rows else other ∷ insert_sequence row rows

unfoldable pub order_sequence : List Entry → List Entry
unfolding insert_sequence
order_sequence [] = []
order_sequence (row ∷ rows) = insert_sequence row (order_sequence rows)

unfoldable pub stream_entries : List Entry → Database → Result (List StreamEntry)
unfolding object_ref
stream_entries [] db = ok []
stream_entries (row ∷ rows) db = elim (object_ref row.sha256 row.role db) [
  | err e ↦ err e
  | ok reference ↦ elim (stream_entries rows db) [
    | err e ↦ err e
    | ok entries ↦
        ok (record { sequence = row.sequence; kind = row.kind; reference = reference } ∷ entries)
  ]
]

pub record Stream : Type 0 where
  pub revision : ℕ
  pub entries : List StreamEntry

unfoldable pub read_stream : String → Database → Result Stream
unfolding stream_entries select_entries order_sequence stream_revision
read_stream stream db =
    elim (stream_entries (order_sequence (select_entries stream db.entries)) db) [
      | err e ↦ err e
      | ok entries ↦ ok (record { revision = stream_revision stream db; entries = entries })
    ]

pub record Selected : Type 0 where
  pub revision : ℕ
  pub reference : Reference

unfoldable pub read_pointer : String → Database → Result (Option Selected)
unfolding object_ref
read_pointer name db = elim (lookup name db.pointers) [
  | none ↦ ok none
  | some row ↦ elim (object_ref row.sha256 row.role db) [
    | err e ↦ err e
    | ok reference ↦ ok (some (record { revision = row.revision; reference = reference }))
  ]
]

pub data Status : Type 0 where
  not_committed committed unknown : Status

unfoldable pub transaction_status : String → Database → Status
transaction_status id db = if contains id db.transactions then committed else not_committed
