-- ===== src/Store/Transaction/Conflicts.antt =====
-- Replays and lost updates are refused by src/scnsim/workspace/operation_store.py, and a
-- transaction keeps the integrity of the database.
use scnsim.Base.{ℕ, String, List, [], ◌∷◌, ◌≡◌, ◌≢◌, inl, inr, refl, ◌∙◌, true, false, some, arith}
use scnsim.Base.Eq.{nat_eq, string_eq}
use scnsim.Base.Dict.{Dict, lookup, contains}
use scnsim.Store.Database.{Database, Payload}
use scnsim.Store.Action.{Result, ok, err, Action, Session, replayed_transaction, revision_changed}
use scnsim.Store.Snapshot.{committed, transaction_status, stream_revision}
use scnsim.Store.Calls.{Call, perform_all}
use scnsim.Store.Advances.{perform_all-Advances, Appends, perform_all-lt}
use scnsim.Store.Sound.{IsSound}
use scnsim.Store.Sound.Preserve.{perform_all-IsSound}
use scnsim.Store.Transaction.{
  Metadata, Commit, transaction, marked, verify_binding, revisions_match, rolled_back,
}
use scnsim.Store.Transaction.Atomic.{opening, contains_self, transaction-AllOrNothing}

-- A stream whose revision is another fails the check.
revisions_match_stale :
    (stream : String) (r : ℕ) (expected : Dict String ℕ) (db : Database)
    → lookup stream expected ≡ some r
    → stream_revision stream db ≢ r
    → revisions_match expected db ≡ false
unfolding lookup revisions_match
revisions_match_stale stream r [] db h ne = cc
revisions_match_stale stream r ((other, n) ∷ rest) db h ne =
    ground (arith, string_eq.beq_iff other stream, revisions_match_stale stream r rest db)

verify_binding-eq :
    (metadata : Metadata) (db db' : Database)
    → db'.metadata ≡ db.metadata
    → verify_binding metadata db' ≡ verify_binding metadata db
unfolding verify_binding
verify_binding-eq metadata db db' h = rw h

module _ {A : Type 0} (metadata : Metadata) (id : String) (expected : Dict String ℕ) where
  transaction_replayed :
      (body : Action A) (c : Commit) (db : Database)
      → verify_binding metadata db ≡ true
      → contains id db.transactions ≡ true
      → transaction metadata id expected body c db ≡ rolled_back replayed_transaction db
  unfolding transaction
  transaction_replayed body c db h k = ground arith

  transaction_stale :
      (body : Action A) (c : Commit) (db : Database)
      → verify_binding metadata db ≡ true
      → contains id db.transactions ≡ false
      → revisions_match expected db ≡ false
      → transaction metadata id expected body c db ≡ rolled_back revision_changed db
  unfolding transaction
  transaction_stale body c db h k m = ground arith

marked-IsSound :
    (hash : Payload → String) (id : String) (db : Database)
    → IsSound hash db
    → IsSound hash (marked id db)
unfolding stream_revision
marked-IsSound hash id db v = record {
  digests = v.digests;
  stored = v.stored;
  contiguous = v.contiguous;
  listed = v.listed;
  pointed = v.pointed;
  operated = v.operated;
  spanned = v.spanned;
}

module _ (hash : Payload → String) (metadata : Metadata) where
  committed-ok :
      (id : String) (expected : Dict String ℕ) (calls : List Call) (c : Commit) (db : Database)
      → (transaction metadata id expected (perform_all hash calls) c db).status ≡ committed
      → (s : Session) × (perform_all hash calls (opening db) ≡ (ok tt, s))
        × ((transaction metadata id expected (perform_all hash calls) c db).db ≡ marked id s.db)
        × (verify_binding metadata db ≡ true)
  unfolding transaction transaction_status
  committed-ok id expected calls c db h = split (perform_all hash calls (opening db)) refl
    where
      split :
          (p : Result (Unit {0}) × Session)
          → perform_all hash calls (opening db) ≡ p
          → (s : Session) × (perform_all hash calls (opening db) ≡ (ok tt, s))
            × ((transaction metadata id expected (perform_all hash calls) c db).db ≡ marked id s.db)
            × (verify_binding metadata db ≡ true)
      split (err x, s1) e = absurd (ground arith)
      split (ok _, s1) e = (s1, e, ground arith, ground arith)

  -- A transaction of store calls keeps the integrity of the database, whether it commits, is
  -- rolled back, or its COMMIT raises: every digest is the hash of its payload, every role has
  -- its object, the sequences of each stream run from 1 to its revision, and every entry,
  -- pointer, operation and span refers to a stored role.
  pub transaction-IsSound :
      (id : String) (expected : Dict String ℕ) (calls : List Call) (c : Commit) (db : Database)
      → IsSound hash db
      → IsSound hash (transaction metadata id expected (perform_all hash calls) c db).db
  transaction-IsSound id expected calls c db v =
      elim (transaction-AllOrNothing metadata id expected (perform_all hash calls) c db) [
        | inl same ↦ rw same v
        | inr (final, (_, ran)) ↦ rw final (
            marked-IsSound hash id _ (
              perform_all-IsSound hash calls (opening db) (perform_all hash calls (opening db)).1 v
                (ground (arith, ran))))
      ]

  -- When a transaction of store calls is reported committed, a later transaction under the same
  -- id on the database it left is rolled back as a replay, whatever revisions it expects,
  -- whatever calls it makes and however its COMMIT would end.
  pub transaction_replay :
      (id : String) (expected later : Dict String ℕ) (calls again : List Call) (c c' : Commit)
      (db : Database)
      → let o = transaction metadata id expected (perform_all hash calls) c db in
        o.status ≡ committed
        → transaction metadata id later (perform_all hash again) c' o.db
          ≡ rolled_back replayed_transaction o.db
  transaction_replay id expected later calls again c c' db h =
      let (s, ran, final, bound) = committed-ok id expected calls c db h in
      let kept = (perform_all-Advances hash calls (opening db) s ran).metadata in
      rw final (
        transaction_replayed metadata id later (perform_all hash again) c' (marked id s.db)
          (verify_binding-eq metadata db (marked id s.db) kept ∙ bound)
          (contains_self id s.db.transactions))

  -- When a transaction of put_object, append, set_pointer, select_first, index_operation and
  -- index_span calls that appends to a stream is reported committed, a later transaction on the
  -- database it left, under an id not yet used, that still expects the stream's revision before
  -- the append is rolled back with the revision conflict and changes nothing.
  pub lost_update_refused :
      (id other stream : String) (expected stale : Dict String ℕ) (calls again : List Call)
      (c c' : Commit) (db : Database)
      → let o = transaction metadata id expected (perform_all hash calls) c db in
        Appends stream calls
        → o.status ≡ committed
        → lookup stream stale ≡ some (stream_revision stream db)
        → contains other o.db.transactions ≡ false
        → transaction metadata other stale (perform_all hash again) c' o.db
          ≡ rolled_back revision_changed o.db
  unfolding stream_revision
  lost_update_refused id other stream expected stale calls again c c' db a h known fresh =
      let (s, ran, final, bound) = committed-ok id expected calls c db h in
      let kept = (perform_all-Advances hash calls (opening db) s ran).metadata in
      let grown = perform_all-lt hash stream calls (opening db) s a ran in
      rw final (
        transaction_stale metadata other stale (perform_all hash again) c' (marked id s.db)
          (verify_binding-eq metadata db (marked id s.db) kept ∙ bound) (rw final at fresh)
          (revisions_match_stale stream (stream_revision stream db) stale (marked id s.db) known
            (omega arith)))
