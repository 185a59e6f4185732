-- ===== src/Tests/ContinuationExamples.antt =====
-- A continuation of src/scnsim/benchmark/optimization.py that bisects once.
use scnsim.Continuation.Bound.{continue_diagonal_root-bound}
use scnsim.Base.{length, ◌<◌, ℕ, ◌+◌, [], ◌∷◌, ◌≡◌, refl, none, some}
use scnsim.Continuation.{EvaluationResult, returned, unresolved, continue_diagonal_root, whole}
use scnsim.Continuation.Route.{Rests, continue_diagonal_root-Rests}

abbrev result_at : ℕ → EvaluationResult ℕ
result_at root = record { failure = none; root_omega_rad_s = root }

-- The first result is not resolved.
abbrev coarse : EvaluationResult ℕ
coarse = record { failure = some unresolved; root_omega_rad_s = 0 }

-- A backend that moves the root by one, and counts its calls.
abbrev backend : ℕ → ℕ → ℕ → ℕ → EvaluationResult ℕ × ℕ
backend t view root w = (result_at (root + 1), w + 1)

bisects_once : continue_diagonal_root {View = ℕ} 0 (λ t. some t) backend 5 coarse 0 ≡ (
  returned (result_at 7),
  (2, (whole, coarse) ∷ (2147483648, result_at 6) ∷ (whole, result_at 7) ∷ []),
)
unfolding continue_diagonal_root
bisects_once = refl

continue_diagonal_root-Rests_example :
    Rests 0 (λ t. some t) backend (some coarse) 0 5 whole (result_at 7)
continue_diagonal_root-Rests_example =
    continue_diagonal_root-Rests 0 (λ t. some t) backend 5 coarse (result_at 7) 0
      (2, (whole, coarse) ∷ (2147483648, result_at 6) ∷ (whole, result_at 7) ∷ []) bisects_once

continue_diagonal_root-bound_example :
    length (continue_diagonal_root {View = ℕ} 0 (λ t. some t) backend 5 coarse 0).1.1 < 8589934592
continue_diagonal_root-bound_example =
    continue_diagonal_root-bound 0 (λ t. some t) backend 5 coarse 0
