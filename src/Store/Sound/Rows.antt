-- ===== src/Store/Sound/Rows.antt =====
-- A sound database stays sound under each kind of row that
-- src/scnsim/workspace/operation_store.py writes.
use scnsim.Base.{
  ℕ, ◌+◌, String, [], ◌∷◌, ◌≡◌, inl, inr, some, arith, Bool-cases, All-append, All-map,
}
use scnsim.Base.Eq.{◌==◌, nat_eq, string_eq, pair_eq, list_eq}
use scnsim.Base.Dict.{
  lookup, insert, contains-add, contains-add_self, All-insert, lookup-insert_self, lookup-insert,
}
use scnsim.Store.Database.{Database, Payload, Pointer, OperationRow, SpanRow}
use scnsim.Store.Snapshot.{stream_revision, select_entries}
use scnsim.Store.Put.{put_objects, put_roles, new_entry, appended}
use scnsim.Store.Streams.{upto-next, sequences-append, select_entries-append}
use scnsim.Store.Sound.{
  HasRole, EntryHasRole, PointerHasRole, OperationHasRole, SpanHasRole, IsSound,
}

module _ (hash : Payload → String) where
  pub put-IsSound :
      (payload : Payload) (role : String) (db : Database)
      → IsSound hash db
      → lookup (hash payload) (put_objects hash payload db).objects ≡ some payload
      → IsSound hash (put_roles hash payload role (put_objects hash payload db))
  unfolding stream_revision
  put-IsSound payload role db v h = record {
    digests = λ d p e. ground (
      arith,
      v.digests d p,
      lookup-insert (hash payload) d payload db.objects,
      string_eq.beq_iff (hash payload) d,
    );
    stored = λ d r e. elim (Bool-cases (◌==◌ {A = String × String} (hash payload, role) (d, r))) [
      | inl same ↦ (payload, ground (arith, string_eq.beq_iff (hash payload) d))
      | inr other ↦
          let (p, known) =
            v.stored d r
              (ground (arith, contains-add (d, r) (hash payload, role) db.object_roles)) in
          (
            p,
            ground (
              arith,
              lookup-insert (hash payload) d payload db.objects,
              string_eq.beq_iff (hash payload) d,
            ),
          )
    ];
    contiguous = v.contiguous;
    listed =
        All-map (EntryHasRole db)
          (EntryHasRole (put_roles hash payload role (put_objects hash payload db)))
          (λ row e. (kept row.sha256 row.role e.0, e.1)) db.entries v.listed;
    pointed =
        All-map (PointerHasRole db)
          (PointerHasRole (put_roles hash payload role (put_objects hash payload db)))
          (λ (_, row) e. kept row.sha256 row.role e) db.pointers v.pointed;
    operated =
        All-map (OperationHasRole db)
          (OperationHasRole (put_roles hash payload role (put_objects hash payload db)))
          (λ (_, row) e. kept row.sha256 row.role e) db.operations v.operated;
    spanned =
        All-map (SpanHasRole db)
          (SpanHasRole (put_roles hash payload role (put_objects hash payload db)))
          (λ (_, row) e. kept row.sha256 row.role e) db.spans v.spanned;
  }
    where
      kept :
          (d r : String)
          → HasRole db d r
          → HasRole (put_roles hash payload role (put_objects hash payload db)) d r
      kept d r e = ground (arith, contains-add (d, r) (hash payload, role) db.object_roles)

  pub append-IsSound :
      (stream kind : String) (payload : Payload) (n : ℕ) (db : Database)
      → IsSound hash db
      → lookup (hash payload) (put_objects hash payload db).objects ≡ some payload
      → n ≡ stream_revision stream db + 1
      → IsSound hash (appended hash stream kind payload n db)
  unfolding stream_revision
  append-IsSound stream kind payload n db v h e =
      let w = put-IsSound payload kind db v h in
      record {
        digests = w.digests;
        stored = w.stored;
        contiguous = λ other. ground (
          arith,
          select_entries-append other db.entries (new_entry hash stream kind payload n),
          sequences-append (select_entries other db.entries) (new_entry hash stream kind payload n),
          lookup-insert stream other n db.streams,
          upto-next (stream_revision other db) n,
          v.contiguous other,
          string_eq.beq_iff stream other,
        );
        listed =
            All-append (EntryHasRole (appended hash stream kind payload n db)) db.entries
              (new_entry hash stream kind payload n ∷ [])
              (All-map (EntryHasRole (put_roles hash payload kind (put_objects hash payload db)))
                (EntryHasRole (appended hash stream kind payload n db))
                (λ row e. (e.0, ground (arith, lookup-insert stream row.stream n db.streams, e.1)))
                db.entries w.listed)
              (
                (
                  contains-add_self (hash payload, kind) db.object_roles,
                  ground (arith, lookup-insert_self stream n db.streams),
                ),
                tt,
              );
        pointed = w.pointed;
        operated = w.operated;
        spanned = w.spanned;
      }

  pub point-IsSound :
      (name : String) (row : Pointer) (db : Database)
      → IsSound hash db
      → HasRole db row.sha256 row.role
      → IsSound hash (record db { pointers = insert name row db.pointers })
  unfolding stream_revision
  point-IsSound name row db v h = record {
    digests = v.digests;
    stored = v.stored;
    contiguous = v.contiguous;
    listed = v.listed;
    pointed = All-insert (PointerHasRole db) name row db.pointers h v.pointed;
    operated = v.operated;
    spanned = v.spanned;
  }

  pub operation-IsSound :
      (id : String) (row : OperationRow) (db : Database)
      → IsSound hash db
      → HasRole db row.sha256 row.role
      → IsSound hash (record db { operations = insert id row db.operations })
  unfolding stream_revision
  operation-IsSound id row db v h = record {
    digests = v.digests;
    stored = v.stored;
    contiguous = v.contiguous;
    listed = v.listed;
    pointed = v.pointed;
    operated = All-insert (OperationHasRole db) id row db.operations h v.operated;
    spanned = v.spanned;
  }

  pub span-IsSound :
      (id : String) (row : SpanRow) (db : Database)
      → IsSound hash db
      → HasRole db row.sha256 row.role
      → IsSound hash (record db { spans = insert id row db.spans })
  unfolding stream_revision
  span-IsSound id row db v h = record {
    digests = v.digests;
    stored = v.stored;
    contiguous = v.contiguous;
    listed = v.listed;
    pointed = v.pointed;
    operated = v.operated;
    spanned = All-insert (SpanHasRole db) id row db.spans h v.spanned;
  }
