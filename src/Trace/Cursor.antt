-- ===== src/Trace/Cursor.antt =====
-- The two cursors of `OperationRecorder` in src/scnsim/benchmark/operations.py: what the archive
-- acknowledged, and what a writer was handed.
use scnsim.Base.{
  ℕ, String, List, [], ◌∷◌, ◌++◌, ◌≡◌, sym, ap, ◌∙◌, inl, inr, ◌+◌, ◌≤◌, Bool, Option, none, some,
  map, length, take, drop, arith, length-append, length-drop, length-take, length-map, map-append,
  take-append, take-add, Bool-cases,
}
use scnsim.Base.Eq.{◌==◌, nat_eq, list_eq}
use scnsim.Store.Database.{Payload}
use scnsim.Trace.Recorder.{
  Recorder, Span, Details, Raised, open_span, close_span, measure, pending_spans,
  mark_spans_persisted, hand_rows, publish_pending_spans, add_span,
}

-- A call on the recorder after it was entered.
pub data Call : Type 0 where
  opens : String → Call
  closes :
      String → Option String → String → (start_tick end_tick : ℕ) → Option Raised → Details → Call
  measures : String → String → (start_tick end_tick : ℕ) → Option String → Details → Call
  publishes : Call
  marks : List Span → Call

-- `acknowledged` collects the rows of the marks that did not raise.
pub record Session (W : Type 0) : Type 0 where
  pub recorder : Recorder
  pub writer : W
  pub acknowledged : List Span

module _ {W : Type 0} (record_bytes : Span → Payload)
    (append_event : String → Span → W → Bool × W) where
  -- A call that raises leaves what it did before.
  unfoldable pub perform : Call → Session W → Session W
  unfolding open_span close_span measure publish_pending_spans mark_spans_persisted
  perform (opens id) s = elim (open_span id s.recorder) [
    | none ↦ s
    | some r ↦ record s { recorder = r }
  ]
  perform (closes id parent kind start end error details) s = record s {
    recorder = close_span id parent kind start end error details s.recorder;
  }
  perform (measures id kind start end parent details) s = record s {
    recorder = measure id kind start end parent details s.recorder;
  }
  perform publishes s =
      let (_, (r, w)) = publish_pending_spans append_event s.recorder s.writer in
      record s { recorder = r; writer = w }
  perform (marks rows) s = elim (mark_spans_persisted record_bytes rows s.recorder) [
    | none ↦ s
    | some r ↦ record s { recorder = r; acknowledged = s.acknowledged ++ rows }
  ]

  unfoldable pub perform_all : List Call → Session W → Session W
  unfolding perform
  perform_all [] s = s
  perform_all (call ∷ calls) s = perform_all calls (perform call s)

  -- The acknowledged rows are the first spans, each once and in order, by the bytes they have.
  pub record IsConsistent (s : Session W) : Type 0 where
    pub handed : s.recorder.persisted_spans ≤ s.recorder.handed_spans
    pub recorded : s.recorder.handed_spans ≤ length s.recorder.spans
    pub once :
        map record_bytes s.acknowledged
        ≡ map record_bytes (take s.recorder.persisted_spans s.recorder.spans)

  add_span-IsConsistent :
      (row : Span) (s : Session W)
      → IsConsistent s
      → IsConsistent (record s { recorder = add_span row s.recorder })
  add_span-IsConsistent row s v = record {
    handed = v.handed;
    recorded = omega (arith, length-append s.recorder.spans (row ∷ []), v.recorded);
    once =
        v.once
        ∙ sym (
            ap (map record_bytes) (
              take-append s.recorder.persisted_spans s.recorder.spans (row ∷ [])
                (omega (arith, v.handed, v.recorded))));
  }

  -- A mark takes no more rows than are pending.
  marked_length :
      (rows pending : List Span)
      → map record_bytes (take (length rows) pending) ≡ map record_bytes rows
      → length rows ≤ length pending
  marked_length rows pending h =
      let e = ap length h in
      omega (
        arith,
        e,
        length-map record_bytes (take (length rows) pending),
        length-map record_bytes rows,
        length-take (length rows) pending,
      )

  marked_once :
      (rows : List Span) (s : Session W)
      → IsConsistent s
      → map record_bytes (take (length rows) (pending_spans s.recorder)) ≡ map record_bytes rows
      → map record_bytes (s.acknowledged ++ rows)
        ≡ map record_bytes (take (s.recorder.persisted_spans + length rows) s.recorder.spans)
  unfolding pending_spans
  marked_once rows s v same =
      let first = take s.recorder.persisted_spans s.recorder.spans in
      let next = take (length rows) (drop s.recorder.persisted_spans s.recorder.spans) in
      map-append record_bytes s.acknowledged rows
      ∙ ap (λ bytes. bytes ++ map record_bytes rows) v.once
      ∙ ap (λ bytes. map record_bytes first ++ bytes) (sym same)
      ∙ sym (map-append record_bytes first next)
      ∙ ap (map record_bytes)
          (sym (take-add s.recorder.persisted_spans (length rows) s.recorder.spans))

  mark-IsConsistent :
      (rows : List Span) (s : Session W) → IsConsistent s → IsConsistent (perform (marks rows) s)
  unfolding perform mark_spans_persisted pending_spans
  mark-IsConsistent rows s v =
      elim (Bool-cases (
        map record_bytes (take (length rows) (pending_spans s.recorder))
        == map record_bytes rows)) [
          | inr wrong ↦ rw (wrong, perform) v
          | inl right ↦
              let same : map record_bytes (take (length rows) (pending_spans s.recorder))
                  ≡ map record_bytes rows =
                (list_eq.beq_iff _ (map record_bytes rows)).0 right in
              let fits : length rows ≤ length (pending_spans s.recorder) =
                marked_length rows (pending_spans s.recorder) same in
              rw (right, perform)
                (record {
                  handed = omega arith;
                  recorded = omega (
                    arith,
                    fits,
                    length-drop s.recorder.persisted_spans s.recorder.spans,
                    v.handed,
                    v.recorded,
                  );
                  once = marked_once rows s v same;
                })
        ]

  hand_rows-IsConsistent :
      (rows : List Span) (s : Session W)
      → s.recorder.handed_spans + length rows ≤ length s.recorder.spans
      → IsConsistent s
      → let (_, (r, w)) = hand_rows append_event rows s.recorder s.writer in
        IsConsistent (record s { recorder = r; writer = w })
  unfolding hand_rows
  hand_rows-IsConsistent [] s h v = v
  hand_rows-IsConsistent (row ∷ rows) s h v =
      elim (Bool-cases (append_event s.recorder.operation_id row s.writer).0) [
        | inr refused ↦
            rw (refused, hand_rows)
              (record { handed = v.handed; recorded = v.recorded; once = v.once })
        | inl taken ↦
            rw (taken, hand_rows)
              (hand_rows-IsConsistent rows
                (record s {
                  recorder = record s.recorder { handed_spans = s.recorder.handed_spans + 1 };
                  writer = (append_event s.recorder.operation_id row s.writer).1;
                })
                (omega (arith, h))
                (record {
                  handed = omega (arith, v.handed);
                  recorded = omega (arith, h);
                  once = v.once;
                }))
      ]

  perform-IsConsistent :
      (call : Call) (s : Session W) → IsConsistent s → IsConsistent (perform call s)
  unfolding perform open_span close_span measure publish_pending_spans
  perform-IsConsistent (opens id) s v = elim (Bool-cases s.recorder.closed) [
    | inl shut ↦ simp (shut, perform) v
    | inr live ↦
        simp (live, perform) (record { handed = v.handed; recorded = v.recorded; once = v.once })
  ]
  perform-IsConsistent (closes id parent kind start end error details) s v =
      add_span-IsConsistent _ (record s { recorder = record s.recorder { stack = _ } })
        (record { handed = v.handed; recorded = v.recorded; once = v.once })
  perform-IsConsistent (measures id kind start end parent details) s v = add_span-IsConsistent _ s v
  perform-IsConsistent publishes s v =
      hand_rows-IsConsistent (drop s.recorder.handed_spans s.recorder.spans) s
        (omega (arith, length-drop s.recorder.handed_spans s.recorder.spans, v.recorded)) v
  perform-IsConsistent (marks rows) s v = mark-IsConsistent rows s v

  -- From a recorder in which the persisted cursor is at most the handed one, that one at most the
  -- number of spans, and the rows of all acknowledged marks have the bytes of the spans before
  -- the persisted cursor, any sequence of opened and closed spans, measures, publications and
  -- marks keeps this, whatever the writer answers: no span is acknowledged twice, out of order,
  -- or unrecorded.
  pub perform_all-IsConsistent :
      (calls : List Call) (s : Session W) → IsConsistent s → IsConsistent (perform_all calls s)
  unfolding perform_all
  perform_all-IsConsistent [] s v = v
  perform_all-IsConsistent (call ∷ calls) s v =
      perform_all-IsConsistent calls (perform call s) (perform-IsConsistent call s v)
