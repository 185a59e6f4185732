-- ===== src/Store/Reading.antt =====
-- Streams and pointers of src/scnsim/workspace/operation_store.py as they are read back.
use mathlib.Core.Path.{subst}
use scnsim.Base.{
  ℕ, String, List, [], ◌∷◌, ◌++◌, ◌≡◌, inl, inr, refl, some, ◌+◌, length, arith, Bool-cases, All,
}
use scnsim.Base.Eq.{◌==◌, nat_eq, string_eq, pair_eq, list_eq}
use scnsim.Base.Dict.{lookup, lookup-insert_self, eq_refl}
use scnsim.Store.Database.{Database, Payload, Entry, make_reference}
use scnsim.Store.Action.{Result, ok, Session}
use scnsim.Store.Snapshot.{
  object_ref, stream_revision, read_stream, StreamEntry, select_entries, stream_entries,
}
use scnsim.Store.Writes.{append}
use scnsim.Store.Put.{new_entry, appended, append-ok}
use scnsim.Store.Grows.{Extends, append-Extends}
use scnsim.Store.EntryReads.{stream_entries-Extends, stream_entries-append}
use scnsim.Store.Streams.{select_entries-append, order_sequence-upto}
use scnsim.Store.Sound.{IsSound, EntryHasRole}
use scnsim.Store.Sound.Preserve.{appends-IsSound}

select_entries-All :
    (db : Database) (stream : String) (rows : List Entry)
    → All (EntryHasRole db) rows
    → All (EntryHasRole db) (select_entries stream rows)
unfolding select_entries
select_entries-All db stream [] h = tt
select_entries-All db stream (row ∷ rows) h = elim (Bool-cases (row.stream == stream)) [
  | inl here ↦ rw here (h.0, select_entries-All db stream rows h.1)
  | inr other ↦ rw other (select_entries-All db stream rows h.1)
]

module _ (hash : Payload → String) where
  stream_entries-total :
      (db : Database)
      → IsSound hash db
      → (rows : List Entry) → All (EntryHasRole db) rows
      → (es : List StreamEntry) × (stream_entries rows db ≡ ok es)
  unfolding stream_entries object_ref
  stream_entries-total db v [] h = ([], refl)
  stream_entries-total db v (row ∷ rows) h =
      let (p, known) = v.stored row.sha256 row.role h.0.0 in
      let (es, rest) = stream_entries-total db v rows h.1 in
      (
        record {
          sequence = row.sequence;
          kind = row.kind;
          reference = make_reference row.sha256 row.role (length p);
        }
            ∷ es,
        ground arith,
      )

  -- In a sound database the entries of a stream are read in the order of their rows.
  read_stream-IsSound :
      (stream : String) (db : Database) {es : List StreamEntry}
      → IsSound hash db
      → stream_entries (select_entries stream db.entries) db ≡ ok es
      → read_stream stream db ≡ ok (record { revision = stream_revision stream db; entries = es })
  unfolding read_stream
  read_stream-IsSound stream db v h = ground (
    arith,
    h,
    order_sequence-upto (stream_revision stream db) (select_entries stream db.entries)
        (v.contiguous stream),
  )

  -- A sound stream can be read.
  read_stream-total :
      (stream : String) (db : Database)
      → IsSound hash db
      → (es : List StreamEntry) × (stream_entries (select_entries stream db.entries) db ≡ ok es)
        × (read_stream stream db
            ≡ ok (record { revision = stream_revision stream db; entries = es }))
  read_stream-total stream db v =
      let (es, h) =
        stream_entries-total db v (select_entries stream db.entries)
          (select_entries-All db stream db.entries v.listed) in
      (es, h, read_stream-IsSound stream db v h)

  -- The item that the append adds.
  abbrev pub added : String → Payload → ℕ → StreamEntry
  added kind payload n = record {
    sequence = n;
    kind = kind;
    reference = make_reference (hash payload) kind (length payload);
  }

  object_ref-stored :
      (digest role : String) {p : Payload} (db : Database)
      → lookup digest db.objects ≡ some p
      → object_ref digest role db ≡ ok (make_reference digest role (length p))
  unfolding object_ref
  object_ref-stored digest role db h = rw (h, object_ref)

  append-grows :
      (stream kind : String) (payload : Payload) (s s' : Session) {n : ℕ}
      → append hash stream kind payload s ≡ (ok n, s')
      → Extends s.db s'.db
  append-grows stream kind payload s s' e =
      subst (λ (p : Result ℕ × Session). Extends s.db p.1.db) e
        (append-Extends hash stream kind payload s)

  select_entries-appended :
      (stream kind : String) (payload : Payload) (n : ℕ) (db db' : Database)
      → db' ≡ appended hash stream kind payload n db
      → select_entries stream db'.entries
        ≡ select_entries stream db.entries ++ new_entry hash stream kind payload n ∷ []
  select_entries-appended stream kind payload n db db' same = rw same (
      ground (
        arith,
        select_entries-append stream db.entries (new_entry hash stream kind payload n),
        eq_refl stream,
      ))

  stream_revision-appended :
      (stream kind : String) (payload : Payload) (n : ℕ) (db db' : Database)
      → db' ≡ appended hash stream kind payload n db
      → stream_revision stream db' ≡ n
  unfolding stream_revision
  stream_revision-appended stream kind payload n db db' same =
      ground (arith, lookup-insert_self stream n db.streams)

  -- On a database with its integrity, a successful append makes read_stream return the items it
  -- returned before, in their order, followed by one item with the new payload's reference; the
  -- stream's revision before is the number of appends counted so far, and both the returned
  -- number and the new revision are that plus one.
  pub read_stream-append :
      (stream kind : String) (payload : Payload) (s s' : Session) {n : ℕ}
      → IsSound hash s.db
      → append hash stream kind payload s ≡ (ok n, s')
      → (es : List StreamEntry) × (read_stream stream s.db
          ≡ ok (record { revision = stream_revision stream s.db; entries = es }))
        × (read_stream stream s'.db
            ≡ ok (record { revision = n; entries = es ++ added kind payload n ∷ [] }))
        × (n ≡ stream_revision stream s.db + 1)
  read_stream-append stream kind payload s s' {n} v e =
      let (es, listed, read) = read_stream-total stream s.db v in
      let (next, same, known) = append-ok hash stream kind payload s s' e in
      let v' = appends-IsSound hash stream kind payload s s' v e in
      let reference = object_ref-stored (hash payload) kind s'.db known in
      let grown =
        stream_entries-append (select_entries stream s.db.entries)
          (new_entry hash stream kind payload n) s'.db
          (stream_entries-Extends (select_entries stream s.db.entries) s.db s'.db
            (append-grows stream kind payload s s' e) listed)
          reference in
      let after =
        read_stream-IsSound stream s'.db {es = es ++ added kind payload n ∷ []} v'
          (rw (select_entries-appended stream kind payload n s.db s'.db same) grown) in
      (es, read, rw (stream_revision-appended stream kind payload n s.db s'.db same) at after, next)
