-- ===== src/Tests/TraceExamples.antt =====
-- Runs of the operation recorder of src/scnsim/benchmark/operations.py.
use scnsim.Base.Int.{pos, negsuc, minus_nat}
use scnsim.Base.{
  zero, suc, ℕ, String, List, [], ◌∷◌, ◌+◌, ◌≡◌, refl, Bool, true, false, none, some, arith,
}
use scnsim.Store.Database.{Payload}
use scnsim.Trace.Recorder.{
  Recorder, Span, Clock, fault, new_recorder, add_span, publish_pending_spans, span_row, success,
}
use scnsim.Trace.Cursor.{
  Call, Session, IsConsistent, perform_all, perform_all-IsConsistent, opens, closes, publishes,
  marks, measures,
}
use scnsim.Trace.Publish.{Handed, publish_pending_spans-Handed}
use scnsim.Trace.Nesting.{Work, done, raises, spans, run, Ran, run-Ran}
use scnsim.Trace.Lifecycle.{Archive, exit}
use scnsim.Trace.Finish.{exit-IsFinal, exit-Finished, Finished}

abbrev clock : Clock
clock = record { id = "clock"; monotonic_origin_ns = 5 }

abbrev fresh : Recorder
fresh = new_recorder "operation" "root" "solve" none none clock 5

abbrev compile_row : Span
compile_row = span_row fresh "b" (some "root") "compile" 6 7 success []

abbrev solve_row : Span
solve_row = span_row fresh "a" (some "root") "solve" 8 9 success []

abbrev measured : Recorder
measured = add_span solve_row (add_span compile_row fresh)

-- The rows here differ in their starts.
abbrev bytes_of : Span → Payload
bytes_of row = elim row.start_ns [ pos n ↦ n ∷ [] | negsuc n ↦ 0 ∷ n ∷ [] ]

-- A writer that counts, and refuses the second event.
abbrev counting : String → Span → ℕ → Bool × ℕ
counting operation_id row n = elim n [ zero ↦ (true, 1) | suc m ↦ (false, m + 2) ]

abbrev calls : List Call
calls =
    opens "a"
    ∷ measures "b" "compile" 6 7 none []
    ∷ closes "a" (some "root") "solve" 6 8 none []
    ∷ publishes
    ∷ marks (compile_row ∷ [])
    ∷ []

abbrev session : Session ℕ
session = record { recorder = fresh; writer = 0; acknowledged = [] }

perform_all-IsConsistent_example :
    IsConsistent bytes_of counting (perform_all bytes_of counting calls session)
perform_all-IsConsistent_example =
    perform_all-IsConsistent bytes_of counting calls session
      (record { handed = omega arith; recorded = omega arith; once = refl })

acknowledged_once : (perform_all bytes_of counting calls session).acknowledged ≡ compile_row ∷ []
unfolding perform_all minus_nat
acknowledged_once = refl

publish_pending_spans-Handed_example :
    Handed counting
      (compile_row ∷ solve_row ∷ [])
      measured
      0
      (publish_pending_spans counting measured 0)
publish_pending_spans-Handed_example = publish_pending_spans-Handed counting measured 0

abbrev new_id : ℕ → String
new_id k = elim k [ zero ↦ "a" | suc m ↦ "b" ]

abbrev work : Work
work = spans "outer" [] (spans "inner" [] (raises fault) done) done

run-Ran_example : Ran new_id (λ k. k) (λ i j h. h) 0 fresh (run new_id (λ k. k) work 0 fresh)
run-Ran_example = run-Ran new_id (λ k. k) (λ i j h. h) work 0 fresh refl

work_raised : (run new_id (λ k. k) work 0 fresh).0 ≡ some fault
unfolding run
work_raised = refl

-- An archive that takes everything and counts.
abbrev reliable : Archive ℕ
reliable = record {
  writer = λ n. (true, n);
  initialize_operation_record = λ c n. (true, n + 1);
  start_operation = λ row n. (true, n + 1);
  bind_operation = λ row n. (true, n + 1);
  bind_operation_attempt = λ row n. (true, n + 1);
  spans_archived = λ row rows n. (true, n + 1);
  finish_operation = λ row e rows n. (true, n + 1);
}

exit-IsFinal_example :
    let (raised, (s', log')) = exit reliable bytes_of "end" 20 21 (some fault) measured 0 in
    (s'.closed ≡ true)
    × (raised ≡ true → some fault ≡ none)
    × (exit reliable bytes_of "again" 30 31 none s' log' ≡ (false, (s', log')))
exit-IsFinal_example =
    exit-IsFinal reliable bytes_of "end" "again" 20 21 30 31 (some fault) none measured 0

exit-Finished_example :
    Finished reliable bytes_of none measured (exit reliable bytes_of "end" 20 21 none measured 0)
exit-Finished_example =
    exit-Finished reliable bytes_of "end" 20 21 none measured 0
      (λ log. refl, λ row rows log. refl, λ row e rows log. refl) refl (omega arith)
