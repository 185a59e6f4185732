-- ===== src/Continuation.antt =====
-- `continue_diagonal_root` of src/scnsim/benchmark/optimization.py: a root followed from the baseline
-- to the candidate by bisection. The parameter t of 0.0 to 1.0 is counted in units of 2^-32: the
-- depth is at most 32, so every midpoint is a whole number of units, and exact in a binary64. The
-- backend and the forming of a point are parameters.
pub mod Route
pub mod Bound
use Prim.Native.Nat.{◌/◌}
use scnsim.Base.{
  ℕ, zero, suc, ◌+◌, ◌^◌, List, [], ◌∷◌, ◌++◌, Bool, true, false, Option, none, some, if◌then◌else◌,
  nat_beq,
}

pub data FailureKind : Type 0 where
  -- `numerical_resolution_unresolved`
  unresolved : FailureKind
  otherwise : FailureKind

-- `EvaluationResult`, as far as it is read here.
pub record EvaluationResult (Root : Type 0) : Type 0 where
  pub failure : Option FailureKind
  pub root_omega_rad_s : Root

pub data Outcome (Root : Type 0) : Type 0 where
  returned : EvaluationResult Root → Outcome Root
  -- `EvaluationFailure`
  evaluation_failure : FailureKind → Outcome Root
  -- The exceptions of forming a point: RLGC that differs, or a missing parameter.
  no_point : Outcome Root

-- t = 1.0
abbrev pub whole : ℕ
whole = 2 ^ 32

-- The depth at which a bisection is no longer tried.
abbrev pub max_depth : ℕ
max_depth = 32

-- A call of `observe`: t and the result.
abbrev pub Observed : Type 0 → Type 0
Observed Root = List (ℕ × EvaluationResult Root)

module _ {Root World View : Type 0} (endpoint_view : View) (form : ℕ → Option View)
    (evaluate : ℕ → View → Root → World → EvaluationResult Root × World) where
  -- The view at t: the endpoint's own, or the one of the interpolated point.
  abbrev pub view_at : ℕ → Option View
  view_at t = if nat_beq t whole then some endpoint_view else form t

  -- The result that came with the call, or a new evaluation from the root at the left.
  abbrev pub obtain :
      Option (EvaluationResult Root) → ℕ → View → Root → World → EvaluationResult Root × World
  obtain none t view left_root w = evaluate t view left_root w
  obtain (some result) t view left_root w = (result, w)

  -- `advance`, by what is left of the depth.
  unfoldable pub advance :
      (remaining left_t : ℕ)
      → Root
      → (right_t : ℕ) → Option (EvaluationResult Root)
      → World × Observed Root
      → Outcome Root × (World × Observed Root)
  advance zero left_t left_root right_t given (w, seen) = elim (view_at right_t) [
    | none ↦ (no_point, (w, seen))
    | some view ↦
        let (result, w') = obtain given right_t view left_root w in
        let seen' = seen ++ (right_t, result) ∷ [] in
        elim result.failure [
          | none ↦ (returned result, (w', seen'))
          | some kind ↦ (evaluation_failure kind, (w', seen'))
        ]
  ]
  advance (suc remaining) left_t left_root right_t given (w, seen) = elim (view_at right_t) [
    | none ↦ (no_point, (w, seen))
    | some view ↦
        let (result, w') = obtain given right_t view left_root w in
        let seen' = seen ++ (right_t, result) ∷ [] in
        elim result.failure [
          | none ↦ (returned result, (w', seen'))
          | some kind ↦ elim kind [
            | otherwise ↦ (evaluation_failure otherwise, (w', seen'))
            | unresolved ↦
                let midpoint = (left_t + right_t) / 2 in
                let (middle, s) = advance remaining left_t left_root midpoint none (w', seen') in
                elim middle [
                  | returned r ↦ advance remaining midpoint r.root_omega_rad_s right_t none s
                  | evaluation_failure kind ↦ (evaluation_failure kind, s)
                  | no_point ↦ (no_point, s)
                ]
          ]
        ]
  ]

  -- `continue_diagonal_root`
  unfoldable pub continue_diagonal_root :
      Root → EvaluationResult Root → World → Outcome Root × (World × Observed Root)
  unfolding advance
  continue_diagonal_root baseline_root initial_result w =
      advance max_depth 0 baseline_root whole (some initial_result) (w, [])
