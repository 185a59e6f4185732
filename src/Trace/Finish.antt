-- ===== src/Trace/Finish.antt =====
-- What `__exit__` of src/scnsim/benchmark/operations.py leaves, and when it raises.
use scnsim.Base.{
  ℕ, String, List, [], ◌∷◌, ◌++◌, ◌≡◌, refl, sym, ap, ◌∙◌, ◌+◌, ◌≤◌, Bool, true, false, Option,
  none, some, not, ◌&&◌, map, length, take, drop, arith, max, subst, is_some, length-drop,
  take-length,
}
use scnsim.Base.Eq.{◌==◌, nat_eq, list_eq, list_beq_iff}
use scnsim.Store.Database.{Payload}
use scnsim.Trace.Recorder.{Recorder, Span, Raised, ended, pending_spans, mark_spans_persisted}
use scnsim.Trace.Lifecycle.{Archive, root_row, archive_pending, finalize, exit}

module _ {Log : Type 0} (archive : Archive Log) (record_bytes : Span → Payload) where
  archive_pending-closed :
      (rows : List Span) (s : Recorder) (log : Log)
      → (archive_pending archive record_bytes rows s log).1.0.closed ≡ s.closed
  unfolding archive_pending mark_spans_persisted
  archive_pending-closed [] s log = refl
  archive_pending-closed (row ∷ rows) s log = ground arith

  finalize-closed :
      (id : String) (start end : ℕ) (error : Option Raised) (n : ℕ) (o : Bool × (Recorder × Log))
      → (finalize archive record_bytes id start end error n o).1.0.closed ≡ o.1.0.closed
  unfolding finalize
  finalize-closed id start end error n (archived, (s, log)) = ground arith

  finalize_raised :
      (id : String) (start end : ℕ) (error : Option Raised) (n : ℕ) (o : Bool × (Recorder × Log))
      → (finalize archive record_bytes id start end error n o).0 ≡ true
      → error ≡ none
  unfolding finalize
  finalize_raised id start end none n (archived, (s, log)) h = refl
  finalize_raised id start end (some e) n (archived, (s, log)) h = absurd (ground arith)

  exit-closed :
      (id : String) (start end : ℕ) (error : Option Raised) (s : Recorder) (log : Log)
      → (exit archive record_bytes id start end error s log).1.0.closed ≡ true
  unfolding exit
  exit-closed id start end error s log =
      let s1 : Recorder = record s { closed = true } in
      let log1 = (archive.writer log).1 in
      ground (
        arith,
        finalize-closed id start end error (length (pending_spans s1))
            (archive_pending archive record_bytes (pending_spans s1) s1 log1),
        archive_pending-closed (pending_spans s1) s1 log1,
      )

  exit_raised :
      (id : String) (start end : ℕ) (error : Option Raised) (s : Recorder) (log : Log)
      → (exit archive record_bytes id start end error s log).0 ≡ true
      → error ≡ none
  unfolding exit
  exit_raised id start end none s log h = refl
  exit_raised id start end (some e) s log h =
      let s1 : Recorder = record s { closed = true } in
      let log1 = (archive.writer log).1 in
      absurd (
        ground (
          arith,
          finalize_raised id start end (some e) (length (pending_spans s1))
              (archive_pending archive record_bytes (pending_spans s1) s1 log1),
        ))

  exit_again :
      (id : String) (start end : ℕ) (error : Option Raised) (s : Recorder) (log : Log)
      → s.closed ≡ true
      → exit archive record_bytes id start end error s log ≡ (false, (s, log))
  unfolding exit
  exit_again id start end error s log h = ground arith

  -- After __exit__ the recorder is closed, __exit__ raises only if the body did not, and a second
  -- __exit__ raises nothing and changes neither the recorder nor the archive; this holds whatever
  -- the archive answers.
  pub exit-IsFinal :
      (id later : String) (start end start' end' : ℕ) (error error' : Option Raised) (s : Recorder)
      (log : Log)
      → let (raised, (s', log')) = exit archive record_bytes id start end error s log in
        (s'.closed ≡ true)
        × (raised ≡ true → error ≡ none)
        × (exit archive record_bytes later start' end' error' s' log' ≡ (false, (s', log')))
  exit-IsFinal id later start end start' end' error error' s log =
      let o = exit archive record_bytes id start end error s log in
      (
        exit-closed id start end error s log,
        exit_raised id start end error s log,
        exit_again later start' end' error' o.1.0 o.1.1 (exit-closed id start end error s log),
      )

  -- Every call of the archive returns.
  abbrev pub Reliable : Type 0
  Reliable =
      ((log : Log) → (archive.writer log).0 ≡ true)
      × ((row : _) (rows : List Span) (log : Log) → (archive.spans_archived row rows log).0 ≡ true)
      × ((row : _) (e : Option Raised) (rows : List Span) (log : Log)
          → (archive.finish_operation row e rows log).0 ≡ true)

  -- The recorder after all its pending spans are marked.
  abbrev marked : Recorder → Recorder
  marked s =
      let persisted = s.persisted_spans + length (pending_spans s) in
      record s { persisted_spans = persisted; handed_spans = max s.handed_spans persisted }

  mark_pending :
      (s : Recorder) → mark_spans_persisted record_bytes (pending_spans s) s ≡ some (marked s)
  unfolding mark_spans_persisted pending_spans
  mark_pending s =
      let rows = drop s.persisted_spans s.spans in
      let all = ap (map record_bytes) (take-length rows) in
      let same : map record_bytes (take (length rows) rows) == map record_bytes rows ≡ true =
        (list_beq_iff (map record_bytes (take (length rows) rows)) (map record_bytes rows)).1 all in
      ground (arith, same)

  -- What was recorded is there, and all of it acknowledged.
  abbrev Acknowledged : Recorder → Recorder → Type 0
  Acknowledged s s' = (s'.persisted_spans ≡ length s.spans) × (s'.spans ≡ s.spans)

  archive_pending_reliable :
      (rows : List Span) (s : Recorder) (log : Log)
      → Reliable
      → s.persisted_spans ≤ length s.spans
      → pending_spans s ≡ rows
      → (s' : Recorder) × (log' : Log) × (archive_pending archive record_bytes rows s log
          ≡ (true, (s', log')))
        × Acknowledged s s'
  unfolding archive_pending pending_spans
  archive_pending_reliable [] s log (_, shown, _) h e =
      (s, log, refl, (omega (arith, length-drop s.persisted_spans s.spans, ap length e), refl))
  archive_pending_reliable (row ∷ rows) s log (_, shown, _) h e = (
    marked s,
    (archive.spans_archived (root_row s) (row ∷ rows) log).1,
    ground (arith, rw e at (mark_pending s), shown (root_row s) (row ∷ rows) log),
    (omega (arith, length-drop s.persisted_spans s.spans), refl),
  )

  finalize_reliable :
      (id : String) (start end : ℕ) (error : Option Raised) (n : ℕ) (s : Recorder) (log : Log)
      → Reliable
      → let (raised, (s', log')) =
          finalize archive record_bytes id start end error n (true, (s, log)) in
        (raised ≡ false)
        × (s'.status ≡ ended error)
        × (s'.persisted_spans ≡ s.persisted_spans)
        × ((row : Span) × (s'.spans ≡ s.spans ++ row ∷ []))
  unfolding finalize
  finalize_reliable id start end error n s log (_, _, finished) =
      (ap (λ b. not b && not (is_some error)) (finished _ error _ log), refl, refl, (_, refl))

  exit_live :
      (id : String) (start end : ℕ) (error : Option Raised) (s : Recorder) (log : Log)
      → Reliable
      → s.closed ≡ false
      → let s1 : Recorder = record s { closed = true } in
        exit archive record_bytes id start end error s log
        ≡ finalize archive record_bytes id start end error
            (length (pending_spans s1))
            (archive_pending archive record_bytes (pending_spans s1) s1 (archive.writer log).1)
  unfolding exit
  exit_live id start end error s log (opens, _, _) live = ground (arith, live, opens log)

  -- Nothing was raised, the status is the body's, and every span but the one for the end itself
  -- was acknowledged.
  abbrev pub Finished : Option Raised → Recorder → Bool × (Recorder × Log) → Type 0
  Finished error s o =
      (o.0 ≡ false)
      × (o.1.0.status ≡ ended error)
      × (o.1.0.persisted_spans ≡ length s.spans)
      × ((row : Span) × (o.1.0.spans ≡ s.spans ++ row ∷ []))

  -- When every call of the archive returns, the recorder is not closed, and its persisted cursor
  -- does not exceed its spans, __exit__ raises nothing, sets the status that the body's end asks
  -- for, acknowledges every span recorded before, and adds one span.
  pub exit-Finished :
      (id : String) (start end : ℕ) (error : Option Raised) (s : Recorder) (log : Log)
      → Reliable
      → s.closed ≡ false
      → s.persisted_spans ≤ length s.spans
      → Finished error s (exit archive record_bytes id start end error s log)
  exit-Finished id start end error s log r live h =
      let s1 : Recorder = record s { closed = true } in
      let n = length (pending_spans s1) in
      let (s2, log2, e, (all, same)) =
        archive_pending_reliable (pending_spans s1) s1 (archive.writer log).1 r h refl in
      let (quiet, status, persisted, (row, grown)) =
        finalize_reliable id start end error n s2 log2 r in
      let ran =
        exit_live id start end error s log r live
        ∙ ap (finalize archive record_bytes id start end error n) e in
      subst (Finished error s) (sym ran)
        (quiet, status, persisted ∙ all, (row, grown ∙ ap (λ rows. rows ++ row ∷ []) same))
