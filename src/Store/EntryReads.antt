-- ===== src/Store/EntryReads.antt =====
-- The rows of `entries` of src/scnsim/workspace/operation_store.py as `read_stream` reads them.
use scnsim.Base.{String, List, [], ◌∷◌, ◌++◌, ◌≡◌, inl, inr, refl, arith, Option-cases}
use scnsim.Base.Eq.{nat_eq, string_eq, pair_eq, list_eq}
use scnsim.Base.Dict.{lookup}
use scnsim.Store.Database.{Database, Reference, Entry}
use scnsim.Store.Action.{Result, ok, err}
use scnsim.Store.Snapshot.{object_ref, StreamEntry, stream_entries}
use scnsim.Store.Grows.{Extends}

pub object_ref-Extends :
    (digest role : String) {r : Reference} (db db' : Database)
    → Extends db db'
    → object_ref digest role db ≡ ok r
    → object_ref digest role db' ≡ ok r
unfolding object_ref
object_ref-Extends digest role db db' x h = elim (Option-cases (lookup digest db.objects)) [
  | inl missing ↦ ground arith
  | inr (p, known) ↦ ground (arith, x.objects digest p known)
]

pub stream_entries-Extends :
    (rows : List Entry) {es : List StreamEntry} (db db' : Database)
    → Extends db db'
    → stream_entries rows db ≡ ok es
    → stream_entries rows db' ≡ ok es
unfolding stream_entries
stream_entries-Extends [] db db' x h = h
stream_entries-Extends (row ∷ rows) {es} db db' x h =
    split (object_ref row.sha256 row.role db) (stream_entries rows db) refl refl
      (λ r k. object_ref-Extends row.sha256 row.role {r = r} db db' x k)
      (λ rest k. stream_entries-Extends rows {es = rest} db db' x k)
  where
    split :
        (p : Result Reference) (q : Result (List StreamEntry))
        → object_ref row.sha256 row.role db ≡ p
        → stream_entries rows db ≡ q
        → ((r : Reference)
            → object_ref row.sha256 row.role db ≡ ok r
            → object_ref row.sha256 row.role db' ≡ ok r)
        → ((rest : List StreamEntry)
            → stream_entries rows db ≡ ok rest
            → stream_entries rows db' ≡ ok rest)
        → stream_entries (row ∷ rows) db' ≡ ok es
    split (err e) q d c f g = ground arith
    split (ok r) (err e) d c f g = ground arith
    split (ok r) (ok rest) d c f g = ground (arith, f r d, g rest c)

pub stream_entries-append :
    (rows : List Entry) (row : Entry) {es : List StreamEntry} {r : Reference} (db : Database)
    → stream_entries rows db ≡ ok es
    → object_ref row.sha256 row.role db ≡ ok r
    → stream_entries (rows ++ row ∷ []) db
      ≡ ok (es ++ record { sequence = row.sequence; kind = row.kind; reference = r } ∷ [])
unfolding stream_entries
stream_entries-append [] row db h k = ground arith
stream_entries-append (other ∷ rows) row {es} {r} db h k =
    split (object_ref other.sha256 other.role db) (stream_entries rows db) refl refl
      (λ rest q. stream_entries-append rows row {es = rest} db q k)
  where
    split :
        (p : Result Reference) (q : Result (List StreamEntry))
        → object_ref other.sha256 other.role db ≡ p
        → stream_entries rows db ≡ q
        → ((rest : List StreamEntry)
            → stream_entries rows db ≡ ok rest
            → stream_entries (rows ++ row ∷ []) db
              ≡ ok
                  (rest ++ record { sequence = row.sequence; kind = row.kind; reference = r } ∷ []))
        → stream_entries (other ∷ (rows ++ row ∷ [])) db
          ≡ ok (es ++ record { sequence = row.sequence; kind = row.kind; reference = r } ∷ [])
    split (err e) q d c f = ground arith
    split (ok o) (err e) d c f = ground arith
    split (ok o) (ok rest) d c f = ground (arith, f rest c)
