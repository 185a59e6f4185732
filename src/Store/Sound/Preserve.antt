-- ===== src/Store/Sound/Preserve.antt =====
-- Every `StoreTransaction` call of src/scnsim/workspace/operation_store.py that returns keeps the
-- integrity of the database.
use scnsim.Base.{ℕ, String, List, [], ◌∷◌, ◌≡◌, inl, inr, arith}
use scnsim.Base.Eq.{nat_eq, string_eq, pair_eq, list_eq}
use scnsim.Store.Database.{Payload, Reference}
use scnsim.Store.Action.{Session, ok}
use scnsim.Store.Writes.{put_object, append, set_pointer, select_first}
use scnsim.Store.Put.{put_object-ok, append-ok}
use scnsim.Store.Calls.{Call, put, add, point, select, operation, span, perform, perform_all}
use scnsim.Store.Sound.{IsSound}
use scnsim.Store.Returns.{
  set_pointer-ok, pointer_row, select_first-ok, perform_put-ok, perform-add_ok, perform_select-ok,
  index_operation-ok, index_span-ok, perform_all_cons-ok,
}
use scnsim.Store.Sound.Rows.{
  put-IsSound, append-IsSound, point-IsSound, operation-IsSound, span-IsSound,
}

module _ (hash : Payload → String) where
  put_object-IsSound :
      (payload : Payload) (role : String) (s s' : Session) {r : Reference}
      → IsSound hash s.db
      → put_object hash payload role s ≡ (ok r, s')
      → IsSound hash s'.db
  put_object-IsSound payload role s s' v e =
      let (_, same, known) = put_object-ok hash payload role s s' e in
      rw same (put-IsSound hash payload role s.db v (rw same at known))

  pub appends-IsSound :
      (stream kind : String) (payload : Payload) (s s' : Session) {n : ℕ}
      → IsSound hash s.db
      → append hash stream kind payload s ≡ (ok n, s')
      → IsSound hash s'.db
  appends-IsSound stream kind payload s s' {n} v e =
      let (next, same, known) = append-ok hash stream kind payload s s' e in
      rw same (append-IsSound hash stream kind payload n s.db v (rw same at known) next)

  set_pointer-IsSound :
      (name : String) (r : Reference) (s s' : Session)
      → IsSound hash s.db
      → set_pointer hash name r s ≡ (ok tt, s')
      → IsSound hash s'.db
  set_pointer-IsSound name r s s' v e =
      let (same, known) = set_pointer-ok hash name r s s' e in
      rw same (point-IsSound hash name (pointer_row name r s.db) s.db v known)

  select_first-IsSound :
      (name : String) (r : Reference) (s s' : Session) {q : Reference}
      → IsSound hash s.db
      → select_first hash name r s ≡ (ok q, s')
      → IsSound hash s'.db
  select_first-IsSound name r s s' v e = elim (select_first-ok hash name r s s' e) [
    | inl (_, _, _, same) ↦ rw same v
    | inr (_, _, wrote) ↦ set_pointer-IsSound name r s s' v wrote
  ]

  -- A call that returns keeps the integrity of the database.
  pub perform-IsSound :
      (call : Call) (s s' : Session)
      → IsSound hash s.db
      → perform hash call s ≡ (ok tt, s')
      → IsSound hash s'.db
  unfolding perform
  perform-IsSound (put payload role) s s' v e =
      put_object-IsSound payload role s s' v (perform_put-ok hash payload role s s' e).1
  perform-IsSound (add stream kind payload) s s' v e =
      appends-IsSound stream kind payload s s' v (perform-add_ok hash stream kind payload s s' e).1
  perform-IsSound (point name r) s s' v e = set_pointer-IsSound name r s s' v e
  perform-IsSound (select name r) s s' v e =
      select_first-IsSound name r s s' v (perform_select-ok hash name r s s' e).1
  perform-IsSound (operation id r row) s s' v e =
      let (same, known) = index_operation-ok hash id r row s s' e in
      rw same
        (operation-IsSound hash id (record row { sha256 = r.sha256; role = r.role }) s.db v known)
  perform-IsSound (span id r row) s s' v e =
      let (same, known) = index_span-ok hash id r row s s' e in
      rw same (span-IsSound hash id (record row { sha256 = r.sha256; role = r.role }) s.db v known)

  -- So does a whole body.
  pub perform_all-IsSound :
      (calls : List Call) (s s' : Session)
      → IsSound hash s.db
      → perform_all hash calls s ≡ (ok tt, s')
      → IsSound hash s'.db
  unfolding perform_all
  perform_all-IsSound [] s s' v e = let same : s' ≡ s = ground arith in rw same v
  perform_all-IsSound (call ∷ calls) s s' v e =
      let (s1, first, rest) = perform_all_cons-ok hash call calls s s' e in
      perform_all-IsSound calls s1 s' (perform-IsSound call s s1 v first) rest
