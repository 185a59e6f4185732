-- ===== src/Continuation/Bound.antt =====
-- How many results a continuation of src/scnsim/benchmark/optimization.py looks at.
use scnsim.Base.{
  ℕ, zero, suc, ◌+◌, ◌^◌, ◌<◌, [], ◌∷◌, ◌++◌, Option, none, some, ◌≡◌, refl, inl, inr, arith,
  length, length-append, Option-cases,
}
use Prim.Native.Nat.{◌/◌}
use scnsim.Continuation.{
  EvaluationResult, Outcome, returned, evaluation_failure, no_point, Observed, advance,
  continue_diagonal_root, view_at, obtain, whole, max_depth, unresolved, otherwise,
}
use scnsim.Continuation.Route.{
  Evaluates, no_view, fine, broken, exhausted, bisected, second_half, positive, doubled,
}

module _ {Root World View : Type 0} (endpoint_view : View) (form : ℕ → Option View)
    (evaluate : ℕ → View → Root → World → EvaluationResult Root × World) where
  -- A depth adds fewer than twice as many results as it has units.
  abbrev BoundedAt : ℕ → Type 0
  BoundedAt n =
      (l : ℕ) (root : Root) (r : ℕ) (given : Option (EvaluationResult Root)) (w : World)
      (seen : Observed Root)
      → length (advance endpoint_view form evaluate n l root r given (w, seen)).1.1
        < length seen + 2 ^ suc n

  one_more :
      (n : ℕ) (seen : Observed Root) (x : ℕ × EvaluationResult Root)
      → length (seen ++ x ∷ []) < length seen + 2 ^ suc n
  one_more n seen x = omega (
    arith,
    length-append seen (x ∷ []),
    positive endpoint_view form evaluate n,
    doubled endpoint_view form evaluate n,
  )

  second-bound :
      (n l : ℕ) (root : Root) (r : ℕ) (given : Option (EvaluationResult Root)) (w : World)
      (seen : Observed Root) (o : Outcome Root × (World × Observed Root))
      → BoundedAt n
      → length (second_half endpoint_view form evaluate l root r given w seen n o).1.1
        < length o.1.1 + 2 ^ suc n
  second-bound n l root r given w seen (returned m, (w2, seen2)) ih =
      ih ((l + r) / 2) m.root_omega_rad_s r none w2 seen2
  second-bound n l root r given w seen (evaluation_failure kind, s) ih =
      omega (arith, positive endpoint_view form evaluate (suc n))
  second-bound n l root r given w seen (no_point, s) ih =
      omega (arith, positive endpoint_view form evaluate (suc n))

  -- A depth, with what an unresolved evaluation leads to there.
  advance_within :
      (n l : ℕ) (root : Root) (r : ℕ) (given : Option (EvaluationResult Root)) (w : World)
      (seen : Observed Root)
      → ((view : View) (first : EvaluationResult Root) (w' : World)
          → Evaluates endpoint_view form evaluate given r root w view (first, w')
          → first.failure ≡ some unresolved
          → length (advance endpoint_view form evaluate n l root r given (w, seen)).1.1
            < length seen + 2 ^ suc n)
      → length (advance endpoint_view form evaluate n l root r given (w, seen)).1.1
        < length seen + 2 ^ suc n
  advance_within n l root r given w seen later =
      elim (Option-cases (view_at endpoint_view form evaluate r)) [
        | inl none_there ↦
            rw (no_view endpoint_view form evaluate l root r given w seen n none_there)
              (omega (arith, positive endpoint_view form evaluate (suc n)))
        | inr (view, v) ↦
            let o = obtain endpoint_view form evaluate given r view root w in
            elim (Option-cases o.0.failure) [
              | inl ok ↦
                  rw
                    (fine endpoint_view form evaluate l root r given w seen n view o.0 o.1 (v, refl)
                      ok)
                    (one_more n seen (r, o.0))
              | inr (otherwise, bad) ↦
                  rw
                    (broken endpoint_view form evaluate l root r given w seen n view o.0 o.1
                      (v, refl) bad)
                    (one_more n seen (r, o.0))
              | inr (unresolved, bad) ↦ later view o.0 o.1 (v, refl) bad
            ]
      ]

  advance-bound : (n : ℕ) → BoundedAt n
  advance-bound zero l root r given w seen =
      advance_within zero l root r given w seen (λ view first w' ran bad.
        rw (exhausted endpoint_view form evaluate l root r given w seen view first w' ran bad)
          (one_more zero seen (r, first)))
  advance-bound (suc n) l root r given w seen =
      advance_within (suc n) l root r given w seen (λ view first w' ran bad.
        let seen' = seen ++ (r, first) ∷ [] in
        let o = advance endpoint_view form evaluate n l root ((l + r) / 2) none (w', seen') in
        rw (bisected endpoint_view form evaluate l root r given w seen n view first w' ran bad) (
          omega (
            arith,
            second-bound n l root r given w seen o (advance-bound n),
            advance-bound n l root ((l + r) / 2) none w' seen',
            length-append seen ((r, first) ∷ []),
            doubled endpoint_view form evaluate (suc n),
          )))

  -- However the evaluations and the forming of points go, continue_diagonal_root ends after it
  -- has looked at fewer than 2^33 results.
  pub continue_diagonal_root-bound :
      (baseline_root : Root) (initial_result : EvaluationResult Root) (w : World)
      → length
          (continue_diagonal_root endpoint_view form evaluate baseline_root initial_result w).1.1
        < 2 ^ suc max_depth
  unfolding continue_diagonal_root
  continue_diagonal_root-bound baseline_root initial_result w =
      omega (arith, advance-bound max_depth 0 baseline_root whole (some initial_result) w [])
