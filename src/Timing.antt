-- ===== src/Timing.antt =====
-- `class TimingRecorder` of src/scnsim/benchmark/timing.py. Its lock makes each method one step, so
-- threads that share a recorder call it one after the other. The clock's readings are arguments, and
-- the canonical bytes of a row's details are a parameter.
pub mod Prefix
use package.text.Mathlib.Text.{is_le}
use Prim.Native.String.{compare}
use scnsim.Base.{
  ℕ, String, List, [], ◌∷◌, ◌++◌, ◌+◌, Bool, true, false, Option, none, some, ◌&&◌, length, take,
  drop, if◌then◌else◌,
}
use scnsim.Base.Eq.{Eq, ◌==◌, nat_eq, string_eq, pair_eq, list_eq}
use scnsim.Base.Dict.{Dict}
use scnsim.Base.Int.{ℤ, minus_nat, int_eq}
use scnsim.Store.Database.{Payload}

-- `Measurement` of src/scnsim/benchmark/models.py.
pub record Measurement : Type 0 where
  pub task_id : String
  pub stage : String
  pub start_ns : ℤ
  pub duration_ns : ℤ
  pub counts : Dict String ℕ
  pub memory_bytes : Dict String ℕ
  pub detail_bytes : Payload

-- Equality of the frozen dataclass, field by field.
unfoldable pub measurement_beq : Measurement → Measurement → Bool
measurement_beq a b =
    a.task_id == b.task_id
    && a.stage == b.stage
    && a.start_ns == b.start_ns
    && a.duration_ns == b.duration_ns
    && ◌==◌ {A = List (String × ℕ)} a.counts b.counts
    && ◌==◌ {A = List (String × ℕ)} a.memory_bytes b.memory_bytes
    && ◌==◌ {A = List ℕ} a.detail_bytes b.detail_bytes

pub record TimingRecorder : Type 0 where
  pub clock_id : String
  pub origin_ns : ℕ
  pub measurements : List Measurement
  pub persisted_count : ℕ

-- `__init__`
abbrev pub new_recorder : String → ℕ → TimingRecorder
new_recorder clock_id origin_ns = record {
  clock_id = clock_id;
  origin_ns = origin_ns;
  measurements = [];
  persisted_count = 0;
}

-- `pending_measurements`
unfoldable pub pending_measurements : TimingRecorder → List Measurement
pending_measurements s = drop s.persisted_count s.measurements

-- Equality of two tuples of measurements.
unfoldable pub same_measurements : List Measurement → List Measurement → Bool
same_measurements [] [] = true
same_measurements (a ∷ xs) (b ∷ ys) = measurement_beq a b && same_measurements xs ys
same_measurements _ _ = false

-- `mark_persisted`; none: RuntimeError, and nothing changed.
unfoldable pub mark_persisted : List Measurement → TimingRecorder → Option TimingRecorder
mark_persisted measurements s =
    if same_measurements (take (length measurements) (pending_measurements s)) measurements
    then some (record s { persisted_count = s.persisted_count + length measurements })
    else none

-- `sorted(….items())`: the keys of a mapping differ, so they decide.
unfoldable pub insert_item : String × ℕ → Dict String ℕ → Dict String ℕ
insert_item item [] = item ∷ []
insert_item (key, n) ((other, m) ∷ rest) =
    if is_le (compare key other)
    then (key, n) ∷ (other, m) ∷ rest
    else (other, m) ∷ insert_item (key, n) rest

unfoldable pub sorted_items : Dict String ℕ → Dict String ℕ
sorted_items [] = []
sorted_items (item ∷ rest) = insert_item item (sorted_items rest)

-- `add_interval`, and with its two readings of the clock `span`, which records on an exception too.
unfoldable pub add_interval :
    (stage task_id : String) (start_tick end_tick : ℕ) (counts memory_bytes : Dict String ℕ)
    (detail_bytes : Payload)
    → TimingRecorder
    → TimingRecorder
add_interval stage task_id start_tick end_tick counts memory_bytes detail_bytes s = record s {
  measurements =
      s.measurements
      ++ record {
        task_id = task_id;
        stage = stage;
        start_ns = minus_nat start_tick s.origin_ns;
        duration_ns = minus_nat end_tick start_tick;
        counts = sorted_items counts;
        memory_bytes = sorted_items memory_bytes;
        detail_bytes = detail_bytes;
      }
        ∷ [];
}
