-- ===== src/Assembly/Seal.antt =====
-- How a Run takes a plan over: `_run_seal_preparation` and `_seal_validated` of
-- src/scnsim/authoring/plan.py against the modelled authoring calls.
use scnsim.Base.{
  ℕ, String, List, [], ◌∷◌, ◌≡◌, ◌≢◌, refl, sym, ap, ◌∙◌, inl, inr, Bool, true, false, Option, none,
  some, arith, Option-cases, nat_beq_iff,
}
use scnsim.Assembly.State.{Plan}
use scnsim.Assembly.Action.{fails, gives, runtime_error, type_error, preparing_run}
use scnsim.Assembly.Calls.{Call, perform, IsClosed, closed_plan_refuses}
use scnsim.Assembly.Finish.{prepare_seal, release_seal, seal_validated}

module _ (nfc : String → String) (internal : ℕ → String) where
  -- Calls one after the other, on any scopes, whatever they answer.
  unfoldable pub perform_each : List (ℕ × Call) → Plan → Plan
  perform_each [] p = p
  perform_each ((self, call) ∷ calls) p = perform_each calls (perform nfc internal self call p).1

  closed_stays :
      (calls : List (ℕ × Call)) (p : Plan) → IsClosed nfc internal p → perform_each calls p ≡ p
  unfolding perform_each
  closed_stays [] p h = refl
  closed_stays ((self, call) ∷ calls) p h =
      let (e, refused) = closed_plan_refuses nfc internal self call p h in
      ap (λ r. perform_each calls r.1) refused ∙ closed_stays calls p h

  -- The plan between the two ends of a preparation that got the token.
  pub record Held (token : ℕ) (p q : Plan) : Type 0 where
    pub still : (calls : List (ℕ × Call)) → perform_each calls q ≡ q
    pub exclusive : (other : ℕ) → prepare_seal other q ≡ (fails preparing_run, q)
    pub owned :
        (other : Option ℕ)
        → other ≢ some token
        → seal_validated true other q ≡ (fails runtime_error, q)
    pub released : release_seal (some token) q ≡ p
    pub typed : (other : Option ℕ) → seal_validated false other q ≡ (fails type_error, q)
    pub sealed : seal_validated true (some token) q ≡ (gives tt, record p { sealed = true })
    pub final :
        (calls : List (ℕ × Call))
        → perform_each calls (record p { sealed = true }) ≡ record p { sealed = true }

  prepared :
      (token : ℕ) (p q : Plan)
      → prepare_seal token p ≡ (gives (some token), q)
      → (p.sealed ≡ false)
        × (p.run_seal_token ≡ none)
        × (q ≡ record p { run_seal_token = some token })
  unfolding prepare_seal
  prepared token p q h = elim (Option-cases p.run_seal_token) [
    | inl free ↦ (ground arith, free, ground (arith, free))
    | inr (t, taken) ↦ absurd (ground (arith, taken))
  ]

  module _ (token : ℕ) (p : Plan) (open_ : p.sealed ≡ false) (free : p.run_seal_token ≡ none) where
    abbrev taken : Plan
    taken = record p { run_seal_token = some token }

    taken_exclusive : (other : ℕ) → prepare_seal other taken ≡ (fails preparing_run, taken)
    unfolding prepare_seal
    taken_exclusive other = ground (arith, open_)

    taken_owned :
        (other : Option ℕ)
        → other ≢ some token
        → seal_validated true other taken ≡ (fails runtime_error, taken)
    unfolding seal_validated
    taken_owned none ne = ground (arith, open_)
    taken_owned (some t) ne = ground (arith, open_, nat_beq_iff token t)

    taken_typed : (other : Option ℕ) → seal_validated false other taken ≡ (fails type_error, taken)
    unfolding seal_validated
    taken_typed other = refl

    without_token :
        (b : Bool) → record p { sealed = b; run_seal_token = none } ≡ record p { sealed = b }
    without_token b = ap (λ x. record p { sealed = b; run_seal_token = x }) (sym free)

    taken_released : release_seal (some token) taken ≡ p
    unfolding release_seal
    taken_released =
        ground (arith, nat_beq_iff token token, ap (λ x. record p { run_seal_token = x }) free)

    taken_sealed : seal_validated true (some token) taken ≡ (gives tt, record p { sealed = true })
    unfolding seal_validated
    taken_sealed = ground (arith, open_, nat_beq_iff token token, without_token true)

  -- When a Run gets the token of a plan that it prepares, the modelled authoring calls on any
  -- scopes leave the plan as it is, a second preparation and a seal with no or another token or
  -- without a snapshot are refused, releasing the token restores the plan, and sealing with it
  -- clears the token and seals the plan for good.
  pub prepare_seal-Held :
      (token : ℕ) (p q : Plan) → prepare_seal token p ≡ (gives (some token), q) → Held token p q
  prepare_seal-Held token p q h =
      let (open_, free, is) = prepared token p q h in
      rw is (record {
        still = λ calls. closed_stays calls (taken token p open_ free) (inr (token, refl));
        exclusive = taken_exclusive token p open_ free;
        owned = taken_owned token p open_ free;
        typed = λ other. taken_typed token p open_ free other;
        released = taken_released token p open_ free;
        sealed = taken_sealed token p open_ free;
        final = λ calls. closed_stays calls (record p { sealed = true }) (inl refl);
      })
