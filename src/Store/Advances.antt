-- ===== src/Store/Advances.antt =====
-- What the calls of src/scnsim/workspace/operation_store.py leave alone, and that the revision of a
-- stream only grows.
use mathlib.Core.Path.{subst}
use scnsim.Base.{ℕ, String, List, [], ◌∷◌, ◌≡◌, ◌⊎◌, inl, inr, refl, ◌∙◌, ◌≤◌, ◌<◌, arith}
use scnsim.Base.Eq.{nat_eq, string_eq}
use scnsim.Base.Dict.{lookup-insert, eq_refl}
use scnsim.Store.Database.{Database, Payload, Reference}
use scnsim.Store.Action.{ok, Session}
use scnsim.Store.Snapshot.{stream_revision}
use scnsim.Store.Writes.{put_object, append, set_pointer}
use scnsim.Store.Put.{put_object-ok, append-ok}
use scnsim.Store.Calls.{Call, put, add, point, select, operation, span, perform, perform_all}
use scnsim.Store.Returns.{
  set_pointer-ok, select_first-ok, perform_put-ok, perform-add_ok, perform_select-ok,
  index_operation-ok, index_span-ok, perform_all_cons-ok,
}

-- What a call leaves alone, and that no stream goes back.
pub record Advances (db db' : Database) : Type 0 where
  pub metadata : db'.metadata ≡ db.metadata
  pub transactions : db'.transactions ≡ db.transactions
  pub revisions : (stream : String) → stream_revision stream db ≤ stream_revision stream db'

-- One of the calls appends to the stream.
abbrev pub Appends : String → List Call → Type 0
Appends stream [] = ⊥
Appends stream (call ∷ calls) =
    ((kind : String) × (payload : Payload) × (call ≡ add stream kind payload))
    ⊎ Appends stream calls

Advances-refl : (db : Database) → Advances db db
Advances-refl db = record {
  metadata = refl;
  transactions = refl;
  revisions = λ stream. omega arith;
}

Advances-trans : {a b c : Database} → Advances a b → Advances b c → Advances a c
Advances-trans h k = record {
  metadata = k.metadata ∙ h.metadata;
  transactions = k.transactions ∙ h.transactions;
  revisions = λ stream. omega (arith, h.revisions stream, k.revisions stream);
}

module _ (hash : Payload → String) where
  set_pointer-Advances :
      (name : String) (r : Reference) (s s' : Session)
      → set_pointer hash name r s ≡ (ok tt, s')
      → Advances s.db s'.db
  unfolding stream_revision
  set_pointer-Advances name r s s' e =
      rw ((set_pointer-ok hash name r s s' e).0)
        (record { metadata = refl; transactions = refl; revisions = λ stream. omega arith })

  put_object-Advances :
      (payload : Payload) (role : String) (s s' : Session) {r : Reference}
      → put_object hash payload role s ≡ (ok r, s')
      → Advances s.db s'.db
  unfolding stream_revision
  put_object-Advances payload role s s' e =
      let (_, same, _) = put_object-ok hash payload role s s' e in
      rw same (record { metadata = refl; transactions = refl; revisions = λ stream. omega arith })

  append-Advances :
      (stream kind : String) (payload : Payload) (s s' : Session) {n : ℕ}
      → append hash stream kind payload s ≡ (ok n, s')
      → Advances s.db s'.db × (stream_revision stream s.db < stream_revision stream s'.db)
  unfolding stream_revision
  append-Advances stream kind payload s s' {n} e =
      let (next, same, _) = append-ok hash stream kind payload s s' e in
      rw same (
        record {
          metadata = refl;
          transactions = refl;
          revisions = λ other. ground (
            arith,
            next,
            lookup-insert stream other n s.db.streams,
            string_eq.beq_iff stream other,
          );
        },
        ground (arith, next, lookup-insert stream stream n s.db.streams, eq_refl stream),
      )

  perform-Advances :
      (call : Call) (s s' : Session) → perform hash call s ≡ (ok tt, s') → Advances s.db s'.db
  unfolding perform stream_revision
  perform-Advances (put payload role) s s' e =
      put_object-Advances payload role s s' (perform_put-ok hash payload role s s' e).1
  perform-Advances (add stream kind payload) s s' e =
      (append-Advances stream kind payload s s'
        (perform-add_ok hash stream kind payload s s' e).1).0
  perform-Advances (point name r) s s' e = set_pointer-Advances name r s s' e
  perform-Advances (select name r) s s' e =
      elim (select_first-ok hash name r s s' (perform_select-ok hash name r s s' e).1) [
        | inl (_, _, _, same) ↦ rw same (Advances-refl s.db)
        | inr (_, _, wrote) ↦ set_pointer-Advances name r s s' wrote
      ]
  perform-Advances (operation id r row) s s' e =
      rw ((index_operation-ok hash id r row s s' e).0)
        (record { metadata = refl; transactions = refl; revisions = λ stream. omega arith })
  perform-Advances (span id r row) s s' e =
      rw ((index_span-ok hash id r row s s' e).0)
        (record { metadata = refl; transactions = refl; revisions = λ stream. omega arith })

  pub perform_all-Advances :
      (calls : List Call) (s s' : Session)
      → perform_all hash calls s ≡ (ok tt, s')
      → Advances s.db s'.db
  unfolding perform_all
  perform_all-Advances [] s s' e = let same : s' ≡ s = ground arith in rw same (Advances-refl s.db)
  perform_all-Advances (call ∷ calls) s s' e =
      let (s1, first, rest) = perform_all_cons-ok hash call calls s s' e in
      Advances-trans (perform-Advances call s s1 first) (perform_all-Advances calls s1 s' rest)

  pub perform_all-lt :
      (stream : String) (calls : List Call) (s s' : Session)
      → Appends stream calls
      → perform_all hash calls s ≡ (ok tt, s')
      → stream_revision stream s.db < stream_revision stream s'.db
  perform_all-lt stream [] s s' a e = absurd a
  perform_all-lt stream (call ∷ calls) s s' a e =
      let (s1, first, rest) = perform_all_cons-ok hash call calls s s' e in
      elim a [
        | inl (kind, payload, is) ↦
            let (n, wrote) =
              perform-add_ok hash stream kind payload s s1
                (subst (λ c. perform hash c s ≡ (ok tt, s1)) is first) in
            omega (
              arith,
              (append-Advances stream kind payload s s1 wrote).1,
              (perform_all-Advances calls s1 s' rest).revisions stream,
            )
        | inr later ↦ omega (
          arith,
          perform_all-lt stream calls s1 s' later rest,
          (perform-Advances call s s1 first).revisions stream,
        )
      ]
