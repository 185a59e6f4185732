-- ===== src/Store/Calls.antt =====
-- The body of a transaction of src/scnsim/workspace/operation_store.py as the sequence of the
-- `StoreTransaction` calls that it makes.
use scnsim.Base.{String, List, [], ◌∷◌, arith}
use scnsim.Store.Database.{Payload, Reference, OperationRow, SpanRow}
use scnsim.Store.Action.{Action, Session, ◌>>◌, pure}
use scnsim.Store.Writes.{put_object, append, set_pointer, select_first, index_operation, index_span}
use scnsim.Store.Grows.{Extends, put_object-Extends, append-Extends}

pub data Call : Type 0 where
  put : Payload → String → Call
  add : String → String → Payload → Call
  point : String → Reference → Call
  select : String → Reference → Call
  operation : String → Reference → OperationRow → Call
  span : String → Reference → SpanRow → Call

module _ (hash : Payload → String) where
  unfoldable pub perform : Call → Action (Unit {0})
  perform (put payload role) = do put_object hash payload role; pure tt
  perform (add stream kind payload) = do append hash stream kind payload; pure tt
  perform (point name r) = set_pointer hash name r
  perform (select name r) = do select_first hash name r; pure tt
  perform (operation id r row) = index_operation hash id r row
  perform (span id r row) = index_span hash id r row

  -- A raise ends the body.
  unfoldable pub perform_all : List Call → Action (Unit {0})
  unfolding perform
  perform_all [] = pure tt
  perform_all (call ∷ calls) = do perform call; perform_all calls

  pub perform-Extends : (call : Call) (s : Session) → Extends s.db (perform call s).1.db
  unfolding perform set_pointer select_first index_operation index_span
  perform-Extends (put payload role) s =
      let e = put_object-Extends hash payload role s in
      record {
        objects = λ d p h. ground (arith, e.objects d p h);
        roles = λ k h. ground (arith, e.roles k h);
      }
  perform-Extends (add stream kind payload) s =
      let e = append-Extends hash stream kind payload s in
      record {
        objects = λ d p h. ground (arith, e.objects d p h);
        roles = λ k h. ground (arith, e.roles k h);
      }
  perform-Extends (point name r) s = record {
    objects = λ d p h. ground arith;
    roles = λ k h. ground arith;
  }
  perform-Extends (select name r) s = record {
    objects = λ d p h. ground arith;
    roles = λ k h. ground arith;
  }
  perform-Extends (operation id r row) s = record {
    objects = λ d p h. ground arith;
    roles = λ k h. ground arith;
  }
  perform-Extends (span id r row) s = record {
    objects = λ d p h. ground arith;
    roles = λ k h. ground arith;
  }

  pub perform_all-Extends :
      (calls : List Call) (s : Session) → Extends s.db (perform_all calls s).1.db
  unfolding perform_all
  perform_all-Extends [] s = record { objects = λ d p h. h; roles = λ k h. h }
  perform_all-Extends (call ∷ calls) s =
      let e = perform-Extends call s in
      let rest = perform_all-Extends calls (perform call s).1 in
      record {
        objects = λ d p h. ground (arith, e.objects d p h, rest.objects d p);
        roles = λ k h. ground (arith, e.roles k h, rest.roles k);
      }
