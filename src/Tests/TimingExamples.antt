-- ===== src/Tests/TimingExamples.antt =====
-- Runs of the timing recorder of src/scnsim/benchmark/timing.py.
use scnsim.Base.{[], ◌∷◌, ◌≡◌, refl, some, length, arith}
use scnsim.Base.Int.{pos, int_beq}
use scnsim.Timing.{
  Measurement, TimingRecorder, new_recorder, pending_measurements, mark_persisted,
  same_measurements, measurement_beq,
}
use scnsim.Timing.Prefix.{Interval, add_all, mark_persisted-pending, mark_persisted_interleaved}

abbrev solved : Measurement
solved = record {
  task_id = "task";
  stage = "solve";
  start_ns = pos 1;
  duration_ns = pos 2;
  counts = [];
  memory_bytes = [];
  detail_bytes = 123 ∷ 125 ∷ [];
}

abbrev holding : TimingRecorder
holding = record (new_recorder "clock" 5) { measurements = solved ∷ solved ∷ [] }

abbrev marked_once : TimingRecorder
marked_once = record holding { persisted_count = 1 }

holding_marked : mark_persisted (solved ∷ []) holding ≡ some marked_once
unfolding mark_persisted pending_measurements same_measurements measurement_beq int_beq
holding_marked = refl

mark_persisted-pending_example :
    (pending_measurements holding ≡ solved ∷ pending_measurements marked_once)
    × (marked_once.measurements ≡ holding.measurements)
mark_persisted-pending_example =
    mark_persisted-pending (solved ∷ []) holding marked_once holding_marked

abbrev late : Interval
late = record {
  stage = "verify";
  task_id = "task";
  start_tick = 9;
  end_tick = 12;
  counts = ("b", 1) ∷ ("a", 2) ∷ [];
  memory_bytes = [];
  detail_bytes = 123 ∷ 125 ∷ [];
}

mark_persisted_interleaved_example :
    (s' : TimingRecorder) × (mark_persisted
        (pending_measurements holding)
        (add_all (late ∷ []) holding)
      ≡ some s')
    × (length (pending_measurements s') ≡ length (late ∷ []))
mark_persisted_interleaved_example = mark_persisted_interleaved (late ∷ []) holding (omega arith)
