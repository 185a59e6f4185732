-- ===== src/Tests/StoreExamples.antt =====
-- The store of src/scnsim/workspace/operation_store.py at concrete inputs, with a toy hash.
use scnsim.Base.{
  String, List, [], ◌∷◌, ◌++◌, ◌≡◌, inl, refl, true, false, some, length, ◌+◌, if◌then◌else◌,
  nat_beq,
}
use scnsim.Base.Eq.{nat_eq, string_eq, pair_eq, list_eq}
use scnsim.Base.Dict.{lookup, insert, contains, add, sub_dict, dict_beq}
use scnsim.Store.Database.{Database, Payload, make_reference, created}
use scnsim.Store.Action.{ok, Session, replayed_transaction, revision_changed}
use scnsim.Store.Snapshot.{
  get_object, select_object, stream_revision, read_stream, read_pointer, StreamEntry, object_ref,
}
use scnsim.Store.Writes.{put_object, append, has_entry, set_pointer, select_first}
use scnsim.Store.Calls.{Call, perform, perform_all}
use scnsim.Store.Sound.{IsSound, created-IsSound}
use scnsim.Store.Reads.{put_object-survives, append-total}
use scnsim.Store.Reading.{read_stream-append, added}
use scnsim.Store.Pointers.{select_first-stable}
use scnsim.Store.Lifecycle.{recover}
use scnsim.Store.Lifecycle.Recovery.{recover-IsSound}
use scnsim.Store.Transaction.{
  Metadata, completes, raises, transaction, rolled_back, verify_binding, revisions_match,
}
use scnsim.Store.Transaction.Atomic.{
  AllOrNothing, IsTruthful, transaction-AllOrNothing, transaction-IsTruthful, opening,
}
use scnsim.Store.Transaction.Conflicts.{
  transaction-IsSound, transaction_replay, lost_update_refused,
}

toy_hash : Payload → String
toy_hash p = if nat_beq (length p) 2 then "two" else "other"

abbrev leaf : Metadata
leaf = ("schema_version", "3") ∷ ("plan_sha256", "p") ∷ []

abbrev start : Database
start = created leaf

abbrev bytes : Payload
bytes = 7 ∷ 8 ∷ []

abbrev calls : List Call
calls = Call.add "task" "event" bytes ∷ Call.put (1 ∷ []) "blob" ∷ []

program : Unit {0}
unfolding toy_hash lookup insert contains add sub_dict dict_beq select_object get_object put_object
    has_entry append perform perform_all transaction stream_revision revisions_match verify_binding
    select_first set_pointer read_pointer object_ref
program = tt

start-IsSound : IsSound toy_hash start
start-IsSound = created-IsSound toy_hash leaf

abbrev stored : Session
stored = (put_object toy_hash bytes "event" (opening start)).1

put_object-survives_example :
    get_object toy_hash (make_reference "two" "event" 2) (perform_all toy_hash calls stored).1.db
    ≡ ok bytes
unfolding program
put_object-survives_example =
    put_object-survives toy_hash bytes "event" (opening start) stored calls refl

append-total_example : (append toy_hash "task" "event" bytes (opening start)).0 ≡ ok 1
unfolding program
append-total_example =
    append-total toy_hash "task" "event" bytes (opening start) start-IsSound (inl refl)

read_stream-append_example :
    (es : List StreamEntry) × (read_stream "task" start
      ≡ ok (record { revision = 0; entries = es }))
    × (read_stream "task" (append toy_hash "task" "event" bytes (opening start)).1.db
        ≡ ok (record { revision = 1; entries = es ++ added toy_hash "event" bytes 1 ∷ [] }))
    × (1 ≡ stream_revision "task" start + 1)
unfolding program
read_stream-append_example =
    read_stream-append toy_hash "task" "event" bytes (opening start)
      (append toy_hash "task" "event" bytes (opening start)).1 start-IsSound refl

abbrev chosen : Session
chosen = (select_first toy_hash "result" (make_reference "two" "event" 2) stored).1

select_first-stable_example :
    select_first toy_hash "result" (make_reference "other" "blob" 1) chosen
    ≡ (ok (make_reference "two" "event" 2), chosen)
unfolding program
select_first-stable_example =
    select_first-stable toy_hash "result" (make_reference "two" "event" 2)
      (make_reference "other" "blob" 1) stored chosen refl

recover-IsSound_example : recover toy_hash leaf true (some start) ≡ ok tt
unfolding program
recover-IsSound_example = recover-IsSound toy_hash start start-IsSound leaf refl

transaction-AllOrNothing_example : AllOrNothing "t1" (perform_all toy_hash calls) start (
    transaction leaf "t1" (("task", 0) ∷ []) (perform_all toy_hash calls) (raises true false) start)
transaction-AllOrNothing_example =
    transaction-AllOrNothing leaf "t1" (("task", 0) ∷ []) (perform_all toy_hash calls)
      (raises true false) start

transaction-IsTruthful_example :
    IsTruthful leaf "t1" (("task", 0) ∷ []) start (
      transaction leaf "t1"
        (("task", 0) ∷ [])
        (perform_all toy_hash calls)
        (raises true true)
        start)
transaction-IsTruthful_example =
    transaction-IsTruthful leaf "t1" (("task", 0) ∷ []) (perform_all toy_hash calls)
      (raises true true) start

transaction-IsSound_example :
    IsSound toy_hash
      (transaction leaf "t1" (("task", 0) ∷ []) (perform_all toy_hash calls) completes start).db
transaction-IsSound_example =
    transaction-IsSound toy_hash leaf "t1" (("task", 0) ∷ []) calls completes start start-IsSound

abbrev after : Database
after = (transaction leaf "t1" (("task", 0) ∷ []) (perform_all toy_hash calls) completes start).db

transaction_replay_example :
    transaction leaf "t1" [] (perform_all toy_hash calls) completes after
    ≡ rolled_back replayed_transaction after
unfolding program
transaction_replay_example =
    transaction_replay toy_hash leaf "t1" (("task", 0) ∷ []) [] calls calls completes completes
      start refl

lost_update_refused_example :
    transaction leaf "t2" (("task", 0) ∷ []) (perform_all toy_hash calls) completes after
    ≡ rolled_back revision_changed after
unfolding program
lost_update_refused_example =
    lost_update_refused toy_hash leaf "t1" "t2" "task" (("task", 0) ∷ []) (("task", 0) ∷ []) calls
      calls completes completes start (inl ("event", bytes, refl)) refl refl refl
