-- ===== src/Store/Transaction/Atomic.antt =====
-- A transaction of src/scnsim/workspace/operation_store.py is all or nothing, and its outcome
-- tells which.
use scnsim.Base.{ℕ, String, List, ◌∷◌, ◌≡◌, ◌⊎◌, true, arith}
use scnsim.Base.Eq.{nat_eq, string_eq}
use scnsim.Base.Dict.{Dict, contains, eq_refl}
use scnsim.Store.Database.{Database}
use scnsim.Store.Action.{ok, Action, Session}
use scnsim.Store.Snapshot.{not_committed, committed, transaction_status}
use scnsim.Store.Transaction.{Metadata, Commit, Outcome, transaction, marked, no_counts}

-- The session that a body starts in.
abbrev pub opening : Database → Session
opening db = record { db = db; counts = no_counts }

-- The committed database is the old one, or it is the body's with the transaction's marker.
abbrev pub AllOrNothing : {A : Type 0} → String → Action A → Database → Outcome A → Type 0
AllOrNothing {A} id body db o =
    (o.db ≡ db)
    ⊎ ((o.db ≡ marked id (body (opening db)).1.db)
        × ((value : A) × ((body (opening db)).0 ≡ ok value)))

pub contains_self : (id : String) (s : List String) → contains id (id ∷ s) ≡ true
unfolding contains
contains_self id s = ground (arith, eq_refl id)

module _ {A : Type 0} (metadata : Metadata) (id : String) (expected : Dict String ℕ) where
  -- After a transaction with any body the committed database is the old one, or it is what the
  -- body left with the transaction's marker added, and then the body returned a value.
  pub transaction-AllOrNothing :
      (body : Action A) (c : Commit) (db : Database)
      → AllOrNothing id body db (transaction metadata id expected body c db)
  unfolding transaction
  transaction-AllOrNothing body c db = ground arith

  -- The reported status against the committed database.
  abbrev pub IsTruthful : Database → Outcome A → Type 0
  IsTruthful db o =
      (o.status ≡ committed → contains id o.db.transactions ≡ true)
      × (o.status ≡ not_committed → o.db ≡ db)

  -- After a transaction with any body, the outcome committed is reported only if the marker is in
  -- the committed database, and the outcome not_committed only if the committed database is the
  -- old one.
  pub transaction-IsTruthful :
      (body : Action A) (c : Commit) (db : Database)
      → IsTruthful db (transaction metadata id expected body c db)
  unfolding transaction transaction_status
  transaction-IsTruthful body c db = (
    ground (arith, contains_self id (body (opening db)).1.db.transactions),
    ground (arith, contains_self id (body (opening db)).1.db.transactions),
  )
