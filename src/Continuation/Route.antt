-- ===== src/Continuation/Route.antt =====
-- What a root continued by src/scnsim/benchmark/optimization.py rests on.
use Prim.Native.Nat.{◌/◌}
use scnsim.Base.{
  ℕ, zero, suc, ◌+◌, ◌^◌, ◌≤◌, ◌<◌, [], ◌∷◌, ◌++◌, Option, none, some, ◌≡◌, refl, sym, ◌∙◌, inl,
  inr, ◌⊎◌, arith, Option-cases,
}
use scnsim.Continuation.{
  EvaluationResult, Outcome, returned, evaluation_failure, no_point, Observed, advance,
  continue_diagonal_root, view_at, obtain, whole, max_depth, unresolved, otherwise,
}

module _ {Root World View : Type 0} (endpoint_view : View) (form : ℕ → Option View)
    (evaluate : ℕ → View → Root → World → EvaluationResult Root × World) where
  -- The backend gave the result at t, from that root.
  abbrev pub Evaluated : ℕ → Root → EvaluationResult Root → Type 0
  Evaluated t root result =
      (view : View) × (view_at endpoint_view form evaluate t ≡ some view)
      × ((w : World) × ((evaluate t view root w).0 ≡ result))

  -- Accepted evaluations from one t to another, each from the root of the one before.
  pub data Route : ℕ → Root → ℕ → EvaluationResult Root → Type 0 where
    accepted :
        {l r : ℕ} {root : Root} {result : EvaluationResult Root}
        → l < r
        → result.failure ≡ none
        → Evaluated r root result
        → Route l root r result
    joined :
        {l m r : ℕ} {root : Root} {middle result : EvaluationResult Root}
        → Route l root m middle
        → Route m middle.root_omega_rad_s r result
        → Route l root r result

  -- What is returned: the result that was given, or the end of a path.
  abbrev pub Rests : Option (EvaluationResult Root) → ℕ → Root → ℕ → EvaluationResult Root → Type 0
  Rests given l root r result =
      ((given ≡ some result) × (result.failure ≡ none)) ⊎ Route l root r result

  obtained-Rests :
      (given : Option (EvaluationResult Root)) (l : ℕ) (root : Root) (r : ℕ) (view : View)
      (w : World)
      → l < r
      → view_at endpoint_view form evaluate r ≡ some view
      → (obtain endpoint_view form evaluate given r view root w).0.failure ≡ none
      → Rests given l root r (obtain endpoint_view form evaluate given r view root w).0
  obtained-Rests none l root r view w h v ok = inr (accepted h ok (view, v, (w, refl)))
  obtained-Rests (some result) l root r view w h v ok = inl (refl, ok)

  Rests-Route :
      (l : ℕ) (root : Root) (r : ℕ) (result : EvaluationResult Root)
      → Rests none l root r result
      → Route l root r result
  Rests-Route l root r result (inl (given, ok)) = absurd (ground arith)
  Rests-Route l root r result (inr path) = path

  halved : (l r x : ℕ) → r ≡ l + (x + x) → (l + r) / 2 ≡ l + x
  halved l r x h = omega (arith, h)

  pub doubled : (n : ℕ) → 2 ^ suc n ≡ 2 ^ n + 2 ^ n
  doubled n = omega arith

  pub positive : (n : ℕ) → 1 ≤ 2 ^ n
  positive zero = omega arith
  positive (suc n) = omega (arith, positive n)

  -- One evaluation, seen from outside: the view, the result, and what follows from its failure.
  abbrev pub Evaluates :
      Option (EvaluationResult Root)
      → ℕ
      → Root
      → World
      → View
      → EvaluationResult Root × World
      → Type 0
  Evaluates given r root w view o =
      (view_at endpoint_view form evaluate r ≡ some view)
      × (obtain endpoint_view form evaluate given r view root w ≡ o)

  module _ (l : ℕ) (root : Root) (r : ℕ) (given : Option (EvaluationResult Root)) (w : World)
      (seen : Observed Root) where
    pub no_view :
        (n : ℕ)
        → view_at endpoint_view form evaluate r ≡ none
        → advance endpoint_view form evaluate n l root r given (w, seen) ≡ (no_point, (w, seen))
    unfolding advance
    no_view zero e = ground (arith, e)
    no_view (suc n) e = ground (arith, e)

    pub fine :
        (n : ℕ) (view : View) (result : EvaluationResult Root) (w' : World)
        → Evaluates given r root w view (result, w')
        → result.failure ≡ none
        → advance endpoint_view form evaluate n l root r given (w, seen)
          ≡ (returned result, (w', seen ++ (r, result) ∷ []))
    unfolding advance
    fine zero view result w' (e, o) ok = ground (arith, e, o, ok)
    fine (suc n) view result w' (e, o) ok = ground (arith, e, o, ok)

    pub broken :
        (n : ℕ) (view : View) (result : EvaluationResult Root) (w' : World)
        → Evaluates given r root w view (result, w')
        → result.failure ≡ some otherwise
        → advance endpoint_view form evaluate n l root r given (w, seen)
          ≡ (evaluation_failure otherwise, (w', seen ++ (r, result) ∷ []))
    unfolding advance
    broken zero view result w' (e, o) bad = ground (arith, e, o, bad)
    broken (suc n) view result w' (e, o) bad = ground (arith, e, o, bad)

    pub exhausted :
        (view : View) (result : EvaluationResult Root) (w' : World)
        → Evaluates given r root w view (result, w')
        → result.failure ≡ some unresolved
        → advance endpoint_view form evaluate zero l root r given (w, seen)
          ≡ (evaluation_failure unresolved, (w', seen ++ (r, result) ∷ []))
    unfolding advance
    exhausted view result w' (e, o) bad = ground (arith, e, o, bad)

    -- What a bisection does with the outcome of its first half.
    abbrev pub second_half :
        ℕ → Outcome Root × (World × Observed Root) → Outcome Root × (World × Observed Root)
    second_half n (returned m, s) =
        advance endpoint_view form evaluate n ((l + r) / 2) m.root_omega_rad_s r none s
    second_half n (evaluation_failure kind, s) = (evaluation_failure kind, s)
    second_half n (no_point, s) = (no_point, s)

    pub bisected :
        (n : ℕ) (view : View) (result : EvaluationResult Root) (w' : World)
        → Evaluates given r root w view (result, w')
        → result.failure ≡ some unresolved
        → advance endpoint_view form evaluate (suc n) l root r given (w, seen)
          ≡ second_half n (
              advance endpoint_view form evaluate n l root
                ((l + r) / 2)
                none
                (w', seen ++ (r, result) ∷ []))
    unfolding advance
    bisected n view result w' (e, o) bad = ground (arith, e, o, bad)

  -- What is shown of one depth.
  abbrev RoutesAt : ℕ → Type 0
  RoutesAt n =
      (l : ℕ) (root : Root) (r : ℕ) (given : Option (EvaluationResult Root)) (w : World)
      (seen : Observed Root) (result : EvaluationResult Root) (s : World × Observed Root)
      → r ≡ l + 2 ^ n
      → advance endpoint_view form evaluate n l root r given (w, seen) ≡ (returned result, s)
      → Rests given l root r result

  halves :
      (n l : ℕ) (root : Root) (r : ℕ) (given : Option (EvaluationResult Root)) (w w' : World)
      (seen seen' : Observed Root) (result : EvaluationResult Root) (s : World × Observed Root)
      (o : Outcome Root × (World × Observed Root))
      → RoutesAt n
      → r ≡ l + 2 ^ suc n
      → advance endpoint_view form evaluate n l root ((l + r) / 2) none (w', seen') ≡ o
      → second_half l root r given w seen n o ≡ (returned result, s)
      → Route l root r result
  halves n l root r given w w' seen seen' result s (returned m, (w2, seen2)) ih h first second =
      let mid = halved l r (2 ^ n) (omega (arith, doubled n)) in
      let left =
        Rests-Route l root ((l + r) / 2) m
          (ih l root ((l + r) / 2) none w' seen' m (w2, seen2) mid first) in
      let right = Rests-Route ((l + r) / 2) m.root_omega_rad_s r result (
        ih ((l + r) / 2) m.root_omega_rad_s r none w2 seen2 result s (omega (arith, mid, doubled n))
          second) in
      joined left right
  halves n l root r given w w' seen seen' result s (evaluation_failure kind, s2) ih h first second =
      absurd (ground arith)
  halves n l root r given w w' seen seen' result s (no_point, s2) ih h first second =
      absurd (ground arith)

  -- A depth, with what an unresolved evaluation leads to there.
  rested :
      (n l : ℕ) (root : Root) (r : ℕ) (given : Option (EvaluationResult Root)) (w : World)
      (seen : Observed Root) (result : EvaluationResult Root) (s : World × Observed Root)
      → l < r
      → advance endpoint_view form evaluate n l root r given (w, seen) ≡ (returned result, s)
      → ((view : View) (first : EvaluationResult Root) (w' : World)
          → Evaluates given r root w view (first, w')
          → first.failure ≡ some unresolved
          → Route l root r result)
      → Rests given l root r result
  rested n l root r given w seen result s h e later =
      elim (Option-cases (view_at endpoint_view form evaluate r)) [
        | inl none_there ↦ absurd (ground (arith, no_view l root r given w seen n none_there))
        | inr (view, v) ↦
            let o = obtain endpoint_view form evaluate given r view root w in
            elim (Option-cases o.0.failure) [
              | inl ok ↦
                  let q = fine l root r given w seen n view o.0 o.1 (v, refl) ok in
                  let same : o.0 ≡ result = ground (arith, q) in
                  rw same at (obtained-Rests given l root r view w h v ok)
              | inr (unresolved, bad) ↦ inr (later view o.0 o.1 (v, refl) bad)
              | inr (otherwise, bad) ↦
                  absurd (ground (arith, broken l root r given w seen n view o.0 o.1 (v, refl) bad))
            ]
      ]

  advance-routes : (n : ℕ) → RoutesAt n
  advance-routes zero l root r given w seen result s h e =
      rested zero l root r given w seen result s (omega (arith, h)) e (λ view first w' ran bad.
        absurd (ground (arith, exhausted l root r given w seen view first w' ran bad)))
  advance-routes (suc n) l root r given w seen result s h e =
      rested (suc n) l root r given w seen result s (omega (arith, h, positive (suc n))) e
        (λ view first w' ran bad.
          halves n l root r given w w' seen (seen ++ (r, first) ∷ []) result s _ (advance-routes n)
            h refl (sym (bisected l root r given w seen n view first w' ran bad) ∙ e))

  -- When continue_diagonal_root returns a result, that is the initial result without a failure,
  -- or the end of a path from t = 0 and the baseline's root to t = 1: each step of the path moves
  -- t up, was evaluated without a failure at its right end from the root that the step before it
  -- ended with, and the last step's evaluation is the result.
  pub continue_diagonal_root-Rests :
      (baseline_root : Root) (initial_result result : EvaluationResult Root) (w : World)
      (s : World × Observed Root)
      → continue_diagonal_root endpoint_view form evaluate baseline_root initial_result w
        ≡ (returned result, s)
      → Rests (some initial_result) 0 baseline_root whole result
  unfolding continue_diagonal_root
  continue_diagonal_root-Rests baseline_root initial_result result w s e =
      advance-routes max_depth 0 baseline_root whole (some initial_result) w [] result s refl e
