-- ===== src/Store/Grows.antt =====
-- Stored objects are immutable: no mutation of src/scnsim/workspace/operation_store.py removes or
-- changes bytes that a reference names.
use scnsim.Base.{String, List, ◌≡◌, inl, inr, true, none, some, arith, Option-cases}
use scnsim.Base.Eq.{nat_eq, string_eq, pair_eq, list_eq}
use scnsim.Base.Dict.{lookup, insert, contains, contains-add, lookup-insert}
use scnsim.Store.Database.{Database, Payload, Reference}
use scnsim.Store.Action.{Session, ok}
use scnsim.Store.Snapshot.{get_object}
use scnsim.Store.Writes.{put_object, append}

-- Every object and every role of the first database is in the second.
pub record Extends (db db' : Database) : Type 0 where
  pub objects :
      (d : String) (p : Payload) → lookup d db.objects ≡ some p → lookup d db'.objects ≡ some p
  pub roles :
      (k : String × String) → contains k db.object_roles ≡ true → contains k db'.object_roles ≡ true

Extends-refl : (db : Database) → Extends db db
Extends-refl db = record { objects = λ d p h. h; roles = λ k h. h }

lookup-insert_new :
    (k j : String) (v w : Payload) (d : List (String × Payload))
    → lookup k d ≡ none
    → lookup j d ≡ some w
    → lookup j (insert k v d) ≡ some w
lookup-insert_new k j v w d new old = ground (arith, lookup-insert k j v d, string_eq.beq_iff k j)

module _ (hash : Payload → String) where
  pub put_object-Extends :
      (payload : Payload) (role : String) (s : Session)
      → Extends s.db (put_object hash payload role s).1.db
  unfolding put_object
  put_object-Extends payload role s = record {
    objects = λ d p h. elim (Option-cases (lookup (hash payload) s.db.objects)) [
      | inl new ↦ ground (arith, lookup-insert_new (hash payload) d payload p s.db.objects)
      | inr (old, known) ↦ ground arith
    ];
    roles = λ k h. elim (Option-cases (lookup (hash payload) s.db.objects)) [
      | inl new ↦ ground (arith, contains-add k (hash payload, role) s.db.object_roles)
      | inr (old, known) ↦ ground (arith, contains-add k (hash payload, role) s.db.object_roles)
    ];
  }

  pub append-Extends :
      (stream kind : String) (payload : Payload) (s : Session)
      → Extends s.db (append hash stream kind payload s).1.db
  unfolding append
  append-Extends stream kind payload s =
      let e = put_object-Extends payload kind s in
      record {
        objects = λ d p h. ground (arith, e.objects d p h);
        roles = λ k h. ground (arith, e.roles k h);
      }

  -- The bytes behind a reference never change.
  pub get_object-Extends :
      (r : Reference) {p : Payload} (db db' : Database)
      → Extends db db'
      → get_object hash r db ≡ ok p
      → get_object hash r db' ≡ ok p
  unfolding get_object
  get_object-Extends r {p} db db' e h =
      ground (arith, e.objects r.sha256 p, e.roles (r.sha256, r.role))
