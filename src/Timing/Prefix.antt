-- ===== src/Timing/Prefix.antt =====
-- The prefix that `TimingRecorder` of src/scnsim/benchmark/timing.py has acknowledged.
use scnsim.Base.{
  ℕ, suc, String, List, [], ◌∷◌, ◌++◌, ◌≡◌, ◌↔◌, refl, sym, ap, ◌∙◌, ◌+◌, ◌≤◌, true, some, length,
  take, drop, arith, append_assoc, append_nil, take-append_self, take-drop, drop-append, drop-add,
  length-append, length-drop,
}
use scnsim.Base.Eq.{list_beq_iff, string_eq, pair_eq, nat_eq, list_eq}
use scnsim.Base.Int.{int_beq_iff}
use scnsim.Base.Dict.{Dict}
use scnsim.Store.Database.{Payload}
use scnsim.Timing.{
  Measurement, TimingRecorder, measurement_beq, same_measurements, pending_measurements,
  mark_persisted, add_interval,
}

measurement_beq_iff : (a b : Measurement) → (measurement_beq a b ≡ true) ↔ (a ≡ b)
unfolding measurement_beq
measurement_beq_iff a b = ground (
  arith,
  string_eq.beq_iff a.task_id b.task_id,
  string_eq.beq_iff a.stage b.stage,
  int_beq_iff a.start_ns b.start_ns,
  int_beq_iff a.duration_ns b.duration_ns,
  list_beq_iff a.counts b.counts,
  list_beq_iff a.memory_bytes b.memory_bytes,
  list_beq_iff a.detail_bytes b.detail_bytes,
)

same_measurements_iff : (xs ys : List Measurement) → (same_measurements xs ys ≡ true) ↔ (xs ≡ ys)
unfolding same_measurements
same_measurements_iff [] [] = ground arith
same_measurements_iff [] (b ∷ ys) = ground arith
same_measurements_iff (a ∷ xs) [] = ground arith
same_measurements_iff (a ∷ xs) (b ∷ ys) =
    ground (arith, measurement_beq_iff a b, same_measurements_iff xs ys)

-- When mark_persisted does not raise, the pending measurements before it are the marked ones
-- followed by those pending after it, and the measurements themselves are the same.
pub mark_persisted-pending :
    (rows : List Measurement) (s s' : TimingRecorder)
    → mark_persisted rows s ≡ some s'
    → (pending_measurements s ≡ rows ++ pending_measurements s')
      × (s'.measurements ≡ s.measurements)
unfolding mark_persisted pending_measurements
mark_persisted-pending rows s s' h =
    let pending = drop s.persisted_count s.measurements in
    let taken : take (length rows) pending ≡ rows =
      ground (arith, same_measurements_iff (take (length rows) pending) rows) in
    let next : s'.persisted_count ≡ s.persisted_count + length rows = ground arith in
    let same : s'.measurements ≡ s.measurements = ground arith in
    (
      sym (take-drop (length rows) pending)
          ∙ ap (λ zs. zs ++ drop (length rows) pending) taken
          ∙ ap (λ zs. rows ++ zs) (sym (drop-add s.persisted_count (length rows) s.measurements))
          ∙ ap (λ zs. rows ++ zs) (rw (next, same) refl),
      same,
    )

-- The arguments of one `add_interval`.
pub record Interval : Type 0 where
  pub stage : String
  pub task_id : String
  pub start_tick : ℕ
  pub end_tick : ℕ
  pub counts : Dict String ℕ
  pub memory_bytes : Dict String ℕ
  pub detail_bytes : Payload

unfoldable pub add_all : List Interval → TimingRecorder → TimingRecorder
unfolding add_interval
add_all [] s = s
add_all (i ∷ is) s = add_all is (
    add_interval i.stage i.task_id i.start_tick i.end_tick i.counts i.memory_bytes i.detail_bytes s)

-- What intervals add to a recorder.
abbrev Grown : List Interval → TimingRecorder → TimingRecorder → Type 0
Grown is s s' =
    (rows : List Measurement) × (s'.measurements ≡ s.measurements ++ rows)
    × (length rows ≡ length is)
    × (s'.persisted_count ≡ s.persisted_count)

add_all-Grown : (is : List Interval) (s : TimingRecorder) → Grown is s (add_all is s)
unfolding add_all
add_all-Grown [] s = ([], sym (append_nil s.measurements), refl, refl)
add_all-Grown (i ∷ is) s =
    let next =
      add_interval i.stage i.task_id i.start_tick i.end_tick i.counts i.memory_bytes i.detail_bytes
        s in
    let (rows, grown, counted, kept) = add_all-Grown is next in
    (_ ∷ rows, grown ∙ append_assoc s.measurements (_ ∷ []) rows, ap suc counted, kept)

-- When the persisted count is at most the number of measurements, measurements that were read as
-- pending can be marked persisted after any further intervals were added, and as many measurements
-- are pending then as intervals were added.
pub mark_persisted_interleaved :
    (is : List Interval) (s : TimingRecorder)
    → s.persisted_count ≤ length s.measurements
    → (s' : TimingRecorder) × (mark_persisted (pending_measurements s) (add_all is s) ≡ some s')
      × (length (pending_measurements s') ≡ length is)
unfolding mark_persisted pending_measurements
mark_persisted_interleaved is s h =
    let g = add_all is s in
    let (rows, grown, counted, kept) = add_all-Grown is s in
    let pending = drop s.persisted_count s.measurements in
    let now : drop g.persisted_count g.measurements ≡ pending ++ rows =
      rw (kept, grown) (drop-append s.persisted_count s.measurements rows h) in
    let taken = ap (take (length pending)) now ∙ take-append_self pending rows in
    let same =
      (same_measurements_iff (take (length pending) (drop g.persisted_count g.measurements))
          pending).1
        taken in
    let left =
      drop-add g.persisted_count (length pending) g.measurements ∙ ap (drop (length pending)) now in
    (
      record g { persisted_count = g.persisted_count + length pending },
      ground (arith, same),
      omega (
        arith,
        ap length left,
        length-drop (length pending) (pending ++ rows),
        length-append pending rows,
        counted,
      ),
    )
