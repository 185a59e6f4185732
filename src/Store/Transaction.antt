-- ===== src/Store/Transaction.antt =====
-- `OperationStore.transaction`, `_reconcile`, `initialize`, `reader` and `recover` of
-- src/scnsim/workspace/operation_store.py. The flock makes writers take turns, so a call is a
-- function of the committed database. How COMMIT ends is the environment's choice.
pub mod Atomic
pub mod Conflicts
use scnsim.Base.{
  ℕ, String, List, [], ◌∷◌, Bool, true, false, Option, none, some, ◌&&◌, not, length, if◌then◌else◌,
}
use scnsim.Base.Eq.{◌==◌, nat_eq, string_eq}
use scnsim.Base.Dict.{Dict, lookup, contains, dict_beq}
use scnsim.Store.Database.{Database, Payload, make_reference}
use scnsim.Store.Action.{
  Result, ok, err, Error, Action, Session, Counts, foreign_leaf, replayed_transaction,
  revision_changed, constraint_failed, commit_failed,
}
use scnsim.Store.Snapshot.{
  get_object, stream_revision, transaction_status, Status, not_committed, committed, unknown,
  select_object,
}

-- `_metadata` of the store.
abbrev pub Metadata : Type 0
Metadata = Dict String String

-- How `COMMIT` ends: it returns, or it raises. In the second case the native transaction may yet
-- be durable, and the connection of `_reconcile` may fail to open or to read.
pub data Commit : Type 0 where
  completes : Commit
  raises : (durable readable : Bool) → Commit

-- What a `with store.transaction(…)` block leaves: the body's value or the exception,
-- `transaction.outcome`, and the committed database.
pub record Outcome (A : Type 0) : Type 0 where
  pub result : Result A
  pub status : Status
  pub db : Database

-- `_verify_binding`
unfoldable pub verify_binding : Metadata → Database → Bool
unfolding dict_beq
verify_binding metadata db = dict_beq db.metadata metadata

-- The loop over `expected_revisions.items()`.
unfoldable pub revisions_match : Dict String ℕ → Database → Bool
unfolding stream_revision
revisions_match [] db = true
revisions_match ((stream, expected) ∷ rest) db =
    stream_revision stream db == expected && revisions_match rest db

abbrev no_counts : Counts
no_counts = record {
  put_object_calls = 0;
  logical_object_bytes = 0;
  inserted_objects = 0;
  appended_rows = 0;
}

unfoldable pub reconcile : Metadata → String → Bool → Database → Status
unfolding verify_binding transaction_status
reconcile metadata id readable db =
    if readable && verify_binding metadata db then transaction_status id db else unknown

-- The native transaction after `INSERT INTO transactions`.
abbrev pub marked : String → Database → Database
marked id db = record db { transactions = id ∷ db.transactions }

module _ {A : Type 0} where
  -- An exception before the commit rolls everything back.
  abbrev pub rolled_back : Error → Database → Outcome A
  rolled_back e db = record { result = err e; status = not_committed; db = db }

  -- From the INSERT of the marker on.
  unfoldable pub commit : Metadata → String → Commit → A → Database → Database → Outcome A
  unfolding reconcile
  commit metadata id c value old new =
      if contains id new.transactions then rolled_back constraint_failed old else elim c [
        | completes ↦ record { result = ok value; status = committed; db = marked id new }
        | raises durable readable ↦
            let db : Database = if durable then marked id new else old in
            record {
              result = err commit_failed;
              status = reconcile metadata id readable db;
              db = db;
            }
      ]

  unfoldable pub transaction :
      Metadata → String → Dict String ℕ → Action A → Commit → Database → Outcome A
  unfolding verify_binding transaction_status revisions_match commit
  transaction metadata id expected body c db =
      if not (verify_binding metadata db)
      then rolled_back foreign_leaf db
      else if contains id db.transactions
      then rolled_back replayed_transaction db
      else if not (revisions_match expected db)
      then rolled_back revision_changed db
      else (let (r, s) = body (record { db = db; counts = no_counts }) in
          elim r [ err e ↦ rolled_back e db | ok value ↦ commit metadata id c value db s.db ])
