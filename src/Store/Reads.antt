-- ===== src/Store/Reads.antt =====
-- What src/scnsim/workspace/operation_store.py reads back after its writes.
use scnsim.Base.{suc, String, List, ◌≡◌, ◌⊎◌, refl, false, none, some, ◌+◌, length, arith}
use scnsim.Base.Eq.{nat_eq, string_eq, pair_eq, list_eq, list_beq_iff}
use scnsim.Base.Dict.{lookup, contains-add_self, lookup-insert_self}
use scnsim.Store.Database.{Database, Payload, Reference, make_reference}
use scnsim.Store.Action.{Result, ok, err, Session}
use scnsim.Store.Snapshot.{get_object, stream_revision}
use scnsim.Store.Writes.{put_object, append, has_entry}
use scnsim.Store.Put.{put_object-ok, get_object-make_reference}
use scnsim.Store.Grows.{get_object-Extends}
use scnsim.Store.Calls.{Call, perform_all, perform_all-Extends}
use scnsim.Store.Streams.{has_entry-sequences, contains-upto_above}
use scnsim.Store.Sound.{IsSound}

module _ (hash : Payload → String) where
  get_object-put :
      (payload : Payload) (role : String) (s s' : Session) {r : Reference}
      → put_object hash payload role s ≡ (ok r, s')
      → get_object hash r s'.db ≡ ok payload
  get_object-put payload role s s' e =
      let (is, same, known) = put_object-ok hash payload role s s' e in
      rw is (
        get_object-make_reference hash (hash payload) role payload s'.db
          (rw same (contains-add_self (hash payload, role) s.db.object_roles)) known refl)

  -- The reference that a successful put_object returns reads back the payload after any further
  -- store calls, also if one of them raises.
  pub put_object-survives :
      (payload : Payload) (role : String) (s s' : Session) {r : Reference} (calls : List Call)
      → put_object hash payload role s ≡ (ok r, s')
      → get_object hash r (perform_all hash calls s').1.db ≡ ok payload
  put_object-survives payload role s s' {r} calls e =
      get_object-Extends hash r s'.db (perform_all hash calls s').1.db
        (perform_all-Extends hash calls s') (get_object-put payload role s s' e)

  put_object-total :
      (payload : Payload) (role : String) (s : Session)
      → ((lookup (hash payload) s.db.objects ≡ none)
          ⊎ (lookup (hash payload) s.db.objects ≡ some payload))
      → (put_object hash payload role s).0
        ≡ ok (make_reference (hash payload) role (length payload))
  unfolding put_object
  put_object-total payload role s h =
      ground (
        arith,
        lookup-insert_self (hash payload) payload s.db.objects,
        list_beq_iff payload payload,
      )

  -- No other entry has the next number.
  fresh_entry :
      (stream : String) (db : Database)
      → IsSound hash db
      → has_entry stream (stream_revision stream db + 1) db.entries ≡ false
  fresh_entry stream db v =
      let n = stream_revision stream db in
      let e : n + 1 ≡ suc n = omega arith in
      rw (e, has_entry-sequences, v.contiguous stream) (contains-upto_above n n (omega arith))

  -- On a database with its integrity, an append whose payload's digest is new, or is stored with
  -- the same payload, succeeds and returns the stream's revision plus one.
  pub append-total :
      (stream kind : String) (payload : Payload) (s : Session)
      → IsSound hash s.db
      → ((lookup (hash payload) s.db.objects ≡ none)
          ⊎ (lookup (hash payload) s.db.objects ≡ some payload))
      → (append hash stream kind payload s).0 ≡ ok (stream_revision stream s.db + 1)
  unfolding append stream_revision
  append-total stream kind payload s v h =
      split (put_object hash payload kind s) refl (put_object-total payload kind s h)
        (fresh_entry stream s.db v)
    where
      split :
          (p : Result Reference × Session)
          → put_object hash payload kind s ≡ p
          → (put_object hash payload kind s).0
            ≡ ok (make_reference (hash payload) kind (length payload))
          → has_entry stream (stream_revision stream s.db + 1) s.db.entries ≡ false
          → (append hash stream kind payload s).0 ≡ ok (stream_revision stream s.db + 1)
      split (err x, s1) e t f = cc
      split (ok r, s1) e t f = ground (
        arith,
        put_object-ok hash payload kind s s1 e,
        contains-add_self (hash payload, kind) s.db.object_roles,
      )
