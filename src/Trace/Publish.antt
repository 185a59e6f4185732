-- ===== src/Trace/Publish.antt =====
-- `publish_pending_spans` of src/scnsim/benchmark/operations.py, with a writer that may raise at any
-- row.
use scnsim.Base.{
  ℕ, String, List, [], ◌∷◌, ◌++◌, ◌≡◌, refl, sym, ap, ◌∙◌, ◌⊎◌, inl, inr, ◌+◌, suc, Bool, true,
  false, length, drop, arith, subst,
}
use scnsim.Trace.Recorder.{Recorder, Span, hand_rows, publish_pending_spans}

module _ {W : Type 0} (append_event : String → Span → W → Bool × W) where
  -- The writer took all the rows, one after the other.
  pub data Takes (operation_id : String) : List Span → W → W → Type 0 where
    nothing : {w : W} → Takes operation_id [] w w
    next :
        {row : Span} {rows : List Span} {w w' w'' : W}
        → append_event operation_id row w ≡ (true, w')
        → Takes operation_id rows w' w''
        → Takes operation_id (row ∷ rows) w w''

  -- What became of the rows: all were taken, or the first that was not made the writer raise.
  pub record Handed (rows : List Span) (s : Recorder) (w : W) (o : Bool × (Recorder × W))
      : Type 0 where
    pub taken : List Span
    pub left : List Span
    pub last : W
    pub split : rows ≡ taken ++ left
    pub takes : Takes s.operation_id taken w last
    pub counted : o.1.0 ≡ record s { handed_spans = s.handed_spans + length taken }
    pub ends :
        ((o.0 ≡ true) × (left ≡ []) × (o.1.1 ≡ last))
        ⊎ ((o.0 ≡ false)
            × ((row : Span) × (rest : List Span) × (left ≡ row ∷ rest)
                × (append_event s.operation_id row last ≡ (false, o.1.1))))

  abbrev handed_one : Recorder → Recorder
  handed_one s = record s { handed_spans = s.handed_spans + 1 }

  hand_rows_refused :
      (row : Span) (rows : List Span) (s : Recorder) (w w' : W)
      → append_event s.operation_id row w ≡ (false, w')
      → hand_rows append_event (row ∷ rows) s w ≡ (false, (s, w'))
  unfolding hand_rows
  hand_rows_refused row rows s w w' e = ground (arith, e)

  hand_rows_taken :
      (row : Span) (rows : List Span) (s : Recorder) (w w' : W)
      → append_event s.operation_id row w ≡ (true, w')
      → hand_rows append_event (row ∷ rows) s w ≡ hand_rows append_event rows (handed_one s) w'
  unfolding hand_rows
  hand_rows_taken row rows s w w' e = ground (arith, e)

  more : (n m : ℕ) → n + 1 + m ≡ n + suc m
  more n m = omega arith

  no_more : (s : Recorder) → s ≡ record s { handed_spans = s.handed_spans + 0 }
  no_more s = ap (λ n. record s { handed_spans = n }) (omega arith)

  hand_rows-Handed :
      (rows : List Span) (s : Recorder) (w : W) → Handed rows s w (hand_rows append_event rows s w)
  unfolding hand_rows
  hand_rows-Handed [] s w = record {
    taken = [];
    left = [];
    last = w;
    split = refl;
    takes = nothing;
    counted = no_more s;
    ends = inl (refl, refl, refl);
  }
  hand_rows-Handed (row ∷ rows) s w =
      step (append_event s.operation_id row w) refl (hand_rows-Handed rows (handed_one s))
    where
      step :
          (a : Bool × W)
          → append_event s.operation_id row w ≡ a
          → ((w' : W)
              → Handed rows (handed_one s) w' (hand_rows append_event rows (handed_one s) w'))
          → Handed (row ∷ rows) s w (hand_rows append_event (row ∷ rows) s w)
      step (false, w') e rest =
          subst (Handed (row ∷ rows) s w) (sym (hand_rows_refused row rows s w w' e)) (record {
            taken = [];
            left = row ∷ rows;
            last = w;
            split = refl;
            takes = nothing;
            counted = no_more s;
            ends = inr (refl, (row, rows, refl, e));
          })
      step (true, w') e rest =
          let later = rest w' in
          subst (Handed (row ∷ rows) s w) (sym (hand_rows_taken row rows s w w' e)) (record {
            taken = row ∷ later.taken;
            left = later.left;
            last = later.last;
            split = ap (λ zs. row ∷ zs) later.split;
            takes = next e later.takes;
            counted =
                later.counted
                ∙ ap (λ n. record s { handed_spans = n })
                    (more s.handed_spans (length later.taken));
            ends = later.ends;
          })

  -- publish_pending_spans hands the writer a first part of the unhanded spans, one by one and in
  -- order, and moves the handed cursor by exactly their number; it returns when nothing is left,
  -- and raises when the writer refused the span after that part.
  pub publish_pending_spans-Handed :
      (s : Recorder) (w : W)
      → Handed (drop s.handed_spans s.spans) s w (publish_pending_spans append_event s w)
  unfolding publish_pending_spans
  publish_pending_spans-Handed s w = hand_rows-Handed (drop s.handed_spans s.spans) s w
