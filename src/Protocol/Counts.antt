-- ===== src/Protocol/Counts.antt =====
-- The counts of an accepted progress frame of src/scnsim/execution/protocol.py.
use scnsim.Base.{ℕ, String, ◌≡◌, refl, inl, inr, ◌≤◌, true, Option, none, some, arith, Option-cases}
use scnsim.Base.Eq.{nat_eq, string_eq}
use scnsim.Base.Dict.{lookup}
use scnsim.Base.Int.{ℤ, pos, negsuc}
use scnsim.Protocol.Json.{
  Json, null, boolean, integer, real, text, array, nested, Frame, Decoded, is_text, is_count,
  member, count_at, float64_from_hex,
}
use scnsim.Protocol.Frames.{
  decode_canonical_line, validate_progress, judge_progress, counts_hold, counts_agree, progress,
}

-- A count of the frame, which is an integer under its key.
abbrev pub HasCount : String → ℕ → Frame → Type 0
HasCount key n f = lookup key f ≡ some (integer (pos n))

member-count :
    (key : String) (least : ℕ) (f : Frame)
    → member key (is_count least) f ≡ true
    → HasCount key (count_at key f) f × (least ≤ count_at key f)
unfolding member is_count count_at
member-count key least f h = split (lookup key f) refl
  where
    split :
        (v : Option Json)
        → lookup key f ≡ v
        → HasCount key (count_at key f) f × (least ≤ count_at key f)
    split none e = absurd (ground (arith, e))
    split (some (integer (pos n))) e = (ground (arith, e), ground (arith, e))
    split (some (integer (negsuc n))) e = absurd (ground (arith, e))
    split (some null) e = absurd (ground (arith, e))
    split (some (boolean b)) e = absurd (ground (arith, e))
    split (some (real b)) e = absurd (ground (arith, e))
    split (some (text s)) e = absurd (ground (arith, e))
    split (some (array s)) e = absurd (ground (arith, e))
    split (some (nested b s)) e = absurd (ground (arith, e))

-- What the five counts of a frame say.
pub record Counts (f : Frame) : Type 0 where
  pub completed : ℕ
  pub total : ℕ
  pub evaluated : ℕ
  pub requested : ℕ
  pub achievable : ℕ
  pub completed_generations : HasCount "completed_generations" completed f
  pub total_generations : HasCount "total_generations" total f
  pub evaluated_count : HasCount "evaluated_count" evaluated f
  pub requested_budget : HasCount "requested_budget" requested f
  pub achievable_evaluations : HasCount "achievable_evaluations" achievable f
  pub run : completed ≤ total
  pub budget : achievable ≤ requested
  pub positive : (1 ≤ total) × (1 ≤ evaluated) × (1 ≤ achievable)
  pub started : lookup "event" f ≡ some (text "initial") → (completed ≡ 0) × (evaluated ≡ 1)

counts_agree-order :
    (best : ℕ) (f : Frame)
    → counts_agree best f ≡ true
    → (count_at "completed_generations" f ≤ count_at "total_generations" f)
      × (count_at "achievable_evaluations" f ≤ count_at "requested_budget" f)
      × (member "event" (is_text "initial") f ≡ true
          → (count_at "completed_generations" f ≡ 0) × (count_at "evaluated_count" f ≡ 1))
unfolding counts_agree
counts_agree-order best f h = (ground arith, ground arith, λ e. (ground arith, ground arith))

member-initial :
    (f : Frame)
    → lookup "event" f ≡ some (text "initial")
    → member "event" (is_text "initial") f ≡ true
unfolding member is_text
member-initial f e = ground (arith, e)

counts_hold-each :
    (f : Frame)
    → counts_hold f ≡ true
    → (member "completed_generations" (is_count 0) f ≡ true)
      × (member "total_generations" (is_count 1) f ≡ true)
      × (member "evaluated_count" (is_count 1) f ≡ true)
      × (member "requested_budget" (is_count 1) f ≡ true)
      × (member "achievable_evaluations" (is_count 1) f ≡ true)
unfolding counts_hold
counts_hold-each f h = (ground arith, ground arith, ground arith, ground arith, ground arith)

counts_of : (f : Frame) (best : ℕ) → counts_hold f ≡ true → counts_agree best f ≡ true → Counts f
counts_of f best each agree =
    let (c, t, e, r, a) = counts_hold-each f each in
    let (run, budget, started) = counts_agree-order best f agree in
    let completed = member-count "completed_generations" 0 f c in
    let total = member-count "total_generations" 1 f t in
    let evaluated = member-count "evaluated_count" 1 f e in
    let requested = member-count "requested_budget" 1 f r in
    let achievable = member-count "achievable_evaluations" 1 f a in
    record {
      completed = count_at "completed_generations" f;
      total = count_at "total_generations" f;
      evaluated = count_at "evaluated_count" f;
      requested = count_at "requested_budget" f;
      achievable = count_at "achievable_evaluations" f;
      completed_generations = completed.0;
      total_generations = total.0;
      evaluated_count = evaluated.0;
      requested_budget = requested.0;
      achievable_evaluations = achievable.0;
      run = run;
      budget = budget;
      positive = (total.1, evaluated.1, achievable.1);
      started = λ e. started (member-initial f e);
    }

module _ (integral : ℕ → Option ℤ) (loads : String → Option Decoded) (dumps : Frame → String) where
  judge_progress-holds :
      (request attempt : String) (f g : Frame)
      → judge_progress integral request attempt f ≡ progress g
      → (f ≡ g) × (counts_hold f ≡ true) × ((best : ℕ) × (counts_agree best f ≡ true))
  unfolding judge_progress
  judge_progress-holds request attempt f g h = split (lookup "best_cost_f64" f) refl
    where
      split :
          (v : Option Json)
          → lookup "best_cost_f64" f ≡ v
          → (f ≡ g) × (counts_hold f ≡ true) × ((best : ℕ) × (counts_agree best f ≡ true))
      split none e = absurd (ground (arith, e))
      split (some cost) e = elim (Option-cases (float64_from_hex cost)) [
        | inl bad ↦ absurd (ground (arith, e, bad))
        | inr (best, good) ↦
            (ground (arith, e, good), ground (arith, e, good), (best, ground (arith, e, good)))
      ]

  validate_progress-judges :
      (request attempt raw : String) (f : Frame)
      → validate_progress integral loads dumps request attempt raw ≡ progress f
      → (g : Frame) × (judge_progress integral request attempt g ≡ progress f)
  unfolding validate_progress
  validate_progress-judges request attempt raw f h =
      elim (Option-cases (decode_canonical_line loads dumps raw)) [
        | inl bad ↦ absurd (ground (arith, bad))
        | inr (g, good) ↦ (g, ground (arith, good))
      ]

  -- When _validate_progress returns a frame, its five counts are integers of the frame, the
  -- completed generations do not exceed the total, the achievable evaluations do not exceed the
  -- requested budget, the total, the evaluated and the achievable counts are at least 1, and a
  -- frame of the initial event has 0 completed generations and 1 evaluation.
  pub validate_progress-Counts :
      (request attempt raw : String) (f : Frame)
      → validate_progress integral loads dumps request attempt raw ≡ progress f
      → Counts f
  validate_progress-Counts request attempt raw f h =
      let (g, judged) = validate_progress-judges request attempt raw f h in
      let (same, each, (best, agree)) = judge_progress-holds request attempt g f judged in
      rw same at (counts_of g best each agree)
