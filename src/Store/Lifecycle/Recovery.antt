-- ===== src/Store/Lifecycle/Recovery.antt =====
-- `recover` of src/scnsim/workspace/operation_store.py accepts every sound database.
use scnsim.Base.{String, List, [], ◌∷◌, ◌≡◌, refl, true, some, length, arith, All}
use scnsim.Base.Eq.{nat_eq, string_eq, pair_eq}
use scnsim.Base.Dict.{Dict, contains, All-contains, eq_refl}
use scnsim.Store.Database.{Database, Payload, Entry, Pointer, OperationRow, SpanRow, database_name}
use scnsim.Store.Action.{ok}
use scnsim.Store.Snapshot.{select_object}
use scnsim.Store.Transaction.{Metadata, verify_binding}
use scnsim.Store.Sound.{IsSound, EntryHasRole, PointerHasRole, OperationHasRole, SpanHasRole}
use scnsim.Store.Lifecycle.{
  roles_refer, entries_refer, pointers_refer, operations_refer, spans_refer, foreign_keys_hold,
  verify_objects, recover,
}

module _ (hash : Payload → String) (db : Database) (v : IsSound hash db) where
  roles_refer_lem :
      (rows : List (String × String))
      → All (λ k. contains k db.object_roles ≡ true) rows
      → roles_refer rows db ≡ true
  unfolding roles_refer
  roles_refer_lem [] h = refl
  roles_refer_lem ((digest, role) ∷ rows) h =
      let (p, known) = v.stored digest role h.0 in ground (arith, roles_refer_lem rows h.1)

  entries_refer_lem :
      (rows : List Entry) → All (EntryHasRole db) rows → entries_refer rows db ≡ true
  unfolding entries_refer
  entries_refer_lem [] h = refl
  entries_refer_lem (row ∷ rows) h = ground (arith, entries_refer_lem rows h.1)

  pointers_refer_lem :
      (rows : Dict String Pointer) → All (PointerHasRole db) rows → pointers_refer rows db ≡ true
  unfolding pointers_refer
  pointers_refer_lem [] h = refl
  pointers_refer_lem ((name, row) ∷ rows) h = ground (arith, pointers_refer_lem rows h.1)

  operations_refer_lem :
      (rows : Dict String OperationRow)
      → All (OperationHasRole db) rows
      → operations_refer rows db ≡ true
  unfolding operations_refer
  operations_refer_lem [] h = refl
  operations_refer_lem ((id, row) ∷ rows) h = ground (arith, operations_refer_lem rows h.1)

  spans_refer_lem :
      (rows : Dict String SpanRow) → All (SpanHasRole db) rows → spans_refer rows db ≡ true
  unfolding spans_refer
  spans_refer_lem [] h = refl
  spans_refer_lem ((id, row) ∷ rows) h = ground (arith, spans_refer_lem rows h.1)

  verify_objects_lem :
      (rows : List (String × String))
      → All (λ k. contains k db.object_roles ≡ true) rows
      → verify_objects hash rows db ≡ ok tt
  unfolding verify_objects select_object
  verify_objects_lem [] h = refl
  verify_objects_lem ((digest, role) ∷ rows) h =
      let (p, known) = v.stored digest role h.0 in
      ground (
        arith,
        v.digests digest p known,
        eq_refl database_name,
        eq_refl digest,
        eq_refl {K = String} "sqlite",
        eq_refl (length p),
        verify_objects_lem rows h.1,
      )

  foreign_keys_hold_lem : foreign_keys_hold db ≡ true
  unfolding foreign_keys_hold
  foreign_keys_hold_lem = ground (
    arith,
    roles_refer_lem db.object_roles (All-contains db.object_roles),
    entries_refer_lem db.entries v.listed,
    pointers_refer_lem db.pointers v.pointed,
    operations_refer_lem db.operations v.operated,
    spans_refer_lem db.spans v.spanned,
  )

  -- On a database with its integrity whose metadata is the store's, and whose pages SQLite finds
  -- intact, recover succeeds.
  pub recover-IsSound :
      (metadata : Metadata)
      → verify_binding metadata db ≡ true
      → recover hash metadata true (some db) ≡ ok tt
  unfolding recover
  recover-IsSound metadata h = ground (
    arith,
    foreign_keys_hold_lem,
    verify_objects_lem db.object_roles (All-contains db.object_roles),
  )
