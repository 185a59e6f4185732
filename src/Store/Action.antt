-- ===== src/Store/Action.antt =====
-- A run of statements on one connection: state and exceptions. What was written before a raise
-- stays in the connection's state until the transaction ends.
use scnsim.Base.{ℕ, Bool, Option, none, some, if◌then◌else◌}
use scnsim.Store.Database.{Database}

-- The messages that `_integrity` is raised with.
pub data Error : Type 0 where
  invalid_reference missing_object wrong_bytes missing_bytes digest_collision : Error
  foreign_leaf replayed_transaction revision_changed : Error
  damaged broken_reference : Error
  -- `sqlite3.IntegrityError`: a FOREIGN KEY or PRIMARY KEY of `_SCHEMA` is violated.
  constraint_failed : Error
  -- `sqlite3.OperationalError`: mode=rw opens no missing file.
  missing_database : Error
  -- The COMMIT statement itself failed.
  commit_failed : Error

pub data Result {ℓ} (A : Type ℓ) : Type ℓ where
  ok : A → Result A
  err : Error → Result A

-- `StoreTransaction.counts`
pub record Counts : Type 0 where
  pub put_object_calls : ℕ
  pub logical_object_bytes : ℕ
  pub inserted_objects : ℕ
  pub appended_rows : ℕ

-- The connection's view of the database inside a transaction, and the counters.
pub record Session : Type 0 where
  pub db : Database
  pub counts : Counts

abbrev pub Action : Type 0 → Type 0
Action A = Session → Result A × Session

module _ {A : Type 0} where
  abbrev pub pure : A → Action A
  pure a s = (ok a, s)

  abbrev pub raise : Error → Action A
  raise e s = (err e, s)

  abbrev pub gets : (Database → A) → Action A
  gets f s = (ok (f s.db), s)

  abbrev pub or_raise : Option A → Error → Action A
  or_raise none e = raise e
  or_raise (some a) e = pure a

  -- A read of the database that may raise.
  abbrev pub reads : (Database → Result A) → Action A
  reads f s = (f s.db, s)

infixl 5 ◌>>=◌ ◌>>◌
abbrev pub ◌>>=◌ : {A B : Type 0} → Action A → (A → Action B) → Action B
◌>>=◌ m f s = let (r, s') = m s in elim r [ ok a ↦ f a s' | err e ↦ raise e s' ]

abbrev pub ◌>>◌ : {A B : Type 0} → Action A → Action B → Action B
m >> k = m >>= λ _. k

abbrev pub raise_if : Bool → Error → Action (Unit {0})
raise_if c e s = (if c then err e else ok tt, s)

abbrev pub modify : (Database → Database) → Action (Unit {0})
modify f s = (ok tt, record s { db = f s.db })

abbrev pub count : (Counts → Counts) → Action (Unit {0})
count f s = (ok tt, record s { counts = f s.counts })
