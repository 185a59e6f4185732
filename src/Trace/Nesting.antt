-- ===== src/Trace/Nesting.antt =====
-- `with recorder.span(…)` blocks of src/scnsim/benchmark/operations.py, run inside each other. The
-- k-th reading of the clock and the k-th new id are the environment's.
use scnsim.Base.{
  ℕ, String, List, [], ◌∷◌, ◌++◌, ◌≡◌, refl, sym, ap, ◌∙◌, ◌+◌, ◌≤◌, false, Option, none, some,
  arith, subst, append_nil, append_assoc,
}
use scnsim.Base.Eq.{string_eq}
use scnsim.Base.Dict.{eq_refl}
use scnsim.Base.Int.{minus_nat, minus_nat-le}
use scnsim.Trace.Recorder.{
  Recorder, Span, Details, Raised, fault, ended, span_row, innermost, open_span, close_span,
  pop_span,
}
use scnsim.Trace.Intervals.{Nested, Nested-append, Nested-from, Nested-close}

-- The body of a block: spans one after the other, each with its own body, up to the end or a raise.
pub data Work : Type 0 where
  done : Work
  raises : Raised → Work
  spans : String → Details → (body rest : Work) → Work

module _ (new_id : ℕ → String) (tick : ℕ → ℕ) where
  -- The exception, how many ids and readings were used, and the recorder.
  unfoldable pub run : Work → ℕ → Recorder → Option Raised × (ℕ × Recorder)
  unfolding open_span close_span
  run done k s = (none, (k, s))
  run (raises e) k s = (some e, (k, s))
  run (spans kind details body rest) k s = elim (open_span (new_id k) s) [
    | none ↦ (some fault, (k, s))
    | some s1 ↦
        let (error, (k2, s2)) = run body (k + 1) s1 in
        let s3 =
          close_span (new_id k) (innermost s.stack) kind (tick k) (tick k2) error details s2 in
        elim error [ some e ↦ (some e, (k2 + 1, s3)) | none ↦ run rest (k2 + 1) s3 ]
  ]

module _ (new_id : ℕ → String) (tick : ℕ → ℕ)
    (monotonic : (i j : ℕ) → i ≤ j → tick i ≤ tick j) where
  -- What a run leaves: the stack it found, and its rows after those it found.
  pub record Ran (k : ℕ) (s : Recorder) (o : Option Raised × (ℕ × Recorder)) : Type 0 where
    pub clock : o.1.1.clock ≡ s.clock
    pub stack : o.1.1.stack ≡ s.stack
    pub live : o.1.1.closed ≡ false
    pub used : k ≤ o.1.0
    pub rows : List Span
    pub spans : o.1.1.spans ≡ s.spans ++ rows
    pub nested :
        Nested
          (innermost s.stack)
          (minus_nat (tick k) s.clock.monotonic_origin_ns)
          (minus_nat (tick o.1.0) s.clock.monotonic_origin_ns)
          rows

  -- A span whose body ran.
  closed-Ran :
      (kind : String) (details : Details) (k : ℕ) (s : Recorder) (e : Option Raised) (k2 : ℕ)
      (s2 : Recorder)
      → Ran (k + 1) (record s { stack = new_id k ∷ s.stack }) (e, (k2, s2))
      → Ran k s (
        e,
        (k2 + 1, close_span (new_id k) (innermost s.stack) kind (tick k) (tick k2) e details s2),
      )
  unfolding close_span pop_span
  closed-Ran kind details k s e k2 s2 r =
      let origin = s.clock.monotonic_origin_ns in
      let le =
        λ (i : ℕ) (j : ℕ) (h : i ≤ j). minus_nat-le (tick i) (tick j) origin (monotonic i j h) in
      let row =
        span_row s2 (new_id k) (innermost s.stack) kind (tick k) (tick k2) (ended e) details in
      record {
        clock = r.clock;
        stack = ground (arith, r.stack, eq_refl (new_id k));
        live = r.live;
        used = omega (arith, r.used);
        rows = r.rows ++ row ∷ [];
        spans = ap (λ zs. zs ++ row ∷ []) r.spans ∙ append_assoc s.spans r.rows (row ∷ []);
        nested = rw r.clock (
            Nested-close (innermost s.stack) (minus_nat (tick k) origin)
              (minus_nat (tick (k2 + 1)) origin)
              (record row {
                clock = s.clock;
                start_ns = minus_nat (tick k) origin;
                end_ns = minus_nat (tick k2) origin;
              })
              r.rows (le k k (omega arith)) (le k k2 (omega (arith, r.used)))
              (le k2 (k2 + 1) (omega arith)) refl
              (Nested-from (some (new_id k)) _ _ _ r.rows (le k (k + 1) (omega arith)) r.nested));
      }

  still-Ran : (k : ℕ) (s : Recorder) (e : Option Raised) → s.closed ≡ false → Ran k s (e, (k, s))
  still-Ran k s e live = record {
    clock = refl;
    stack = refl;
    live = live;
    used = omega arith;
    rows = [];
    spans = sym (append_nil s.spans);
    nested = tt;
  }

  -- What runs after it.
  then-Ran :
      (k : ℕ) (s : Recorder) (e : Option Raised) (k3 : ℕ) (s3 : Recorder)
      (o : Option Raised × (ℕ × Recorder))
      → Ran k s (e, (k3, s3))
      → Ran k3 s3 o
      → Ran k s o
  then-Ran k s e k3 s3 o a b =
      let origin = s.clock.monotonic_origin_ns in
      let le =
        λ (i : ℕ) (j : ℕ) (h : i ≤ j). minus_nat-le (tick i) (tick j) origin (monotonic i j h) in
      record {
        clock = b.clock ∙ a.clock;
        stack = b.stack ∙ a.stack;
        live = b.live;
        used = omega (arith, a.used, b.used);
        rows = a.rows ++ b.rows;
        spans = b.spans ∙ ap (λ zs. zs ++ b.rows) a.spans ∙ append_assoc s.spans a.rows b.rows;
        nested =
            Nested-append (innermost s.stack) (minus_nat (tick k) origin)
              (minus_nat (tick k3) origin) (minus_nat (tick o.1.0) origin) a.rows b.rows
              (le k k3 a.used) (le k3 o.1.0 b.used) a.nested (rw (a.stack, a.clock) at b.nested);
      }

  module _ (kind : String) (details : Details) (body rest : Work) (k : ℕ) (s : Recorder) where
    abbrev pushed : Recorder
    pushed = record s { stack = new_id k ∷ s.stack }

    abbrev closed : Option Raised → ℕ → Recorder → Recorder
    closed e k2 s2 = close_span (new_id k) (innermost s.stack) kind (tick k) (tick k2) e details s2

    run_spans_raised :
        (e : Raised) (k2 : ℕ) (s2 : Recorder)
        → s.closed ≡ false
        → run new_id tick body (k + 1) pushed ≡ (some e, (k2, s2))
        → run new_id tick (spans kind details body rest) k s
          ≡ (some e, (k2 + 1, closed (some e) k2 s2))
    unfolding run open_span
    run_spans_raised e k2 s2 live eq = ground (arith, live, eq)

    run_spans_done :
        (k2 : ℕ) (s2 : Recorder)
        → s.closed ≡ false
        → run new_id tick body (k + 1) pushed ≡ (none, (k2, s2))
        → run new_id tick (spans kind details body rest) k s
          ≡ run new_id tick rest (k2 + 1) (closed none k2 s2)
    unfolding run open_span
    run_spans_done k2 s2 live eq = ground (arith, live, eq)

  -- On a recorder that is not closed, with a clock that never goes back, a body of nested span
  -- blocks that ends or raises anywhere leaves the stack as it was and adds rows after the
  -- recorder's own; each added row's interval lies between the first and the last reading of the
  -- clock and starts no later than it ends, and its parent is the span that was innermost before,
  -- or a row added after it whose interval covers its own.
  pub run-Ran :
      (w : Work) (k : ℕ) (s : Recorder) → s.closed ≡ false → Ran k s (run new_id tick w k s)
  unfolding run
  run-Ran done k s live = still-Ran k s none live
  run-Ran (raises e) k s live = still-Ran k s (some e) live
  run-Ran (spans kind details body rest) k s live =
      step (run new_id tick body (k + 1) (pushed kind details body rest k s)) refl
        (run-Ran body (k + 1) (pushed kind details body rest k s) live) (run-Ran rest)
    where
      step :
          (b : Option Raised × (ℕ × Recorder))
          → run new_id tick body (k + 1) (pushed kind details body rest k s) ≡ b
          → Ran
              (k + 1)
              (pushed kind details body rest k s)
              (run new_id tick body (k + 1) (pushed kind details body rest k s))
          → ((k3 : ℕ) (s3 : Recorder) → s3.closed ≡ false → Ran k3 s3 (run new_id tick rest k3 s3))
          → Ran k s (run new_id tick (spans kind details body rest) k s)
      step (some e, (k2, s2)) eq r later =
          subst (Ran k s) (sym (run_spans_raised kind details body rest k s e k2 s2 live eq))
            (closed-Ran kind details k s (some e) k2 s2 (rw eq at r))
      step (none, (k2, s2)) eq r later =
          let a = closed-Ran kind details k s none k2 s2 (rw eq at r) in
          subst (Ran k s) (sym (run_spans_done kind details body rest k s k2 s2 live eq)) (
            then-Ran k s none (k2 + 1) (closed kind details body rest k s none k2 s2) _ a
              (later (k2 + 1) (closed kind details body rest k s none k2 s2) a.live))
