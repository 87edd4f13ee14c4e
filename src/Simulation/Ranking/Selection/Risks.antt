-- ===== src/Simulation/Ranking/Selection/Risks.antt =====
-- The outcomes that `_summarize_outcomes` of apps/api/src/app/simulation/engine.py returns have a delay
-- probability where they have a quantile.
use intelliq.Simulation.Outcomes.{Ratios, Quantiles, Outcome, Frame, summarize_outcome}
use intelliq.Simulation.Ranking.Keys.{known_risks}
use intelliq.Simulation.Ranking.{outcome_of}
use intelliq.Simulation.Outcomes.Counts.{summarize_outcome-IsCounted}
use intelliq.Prelude.{
  [], string_eq, nat_eq, ℕ, String, ◌≡◌, refl, sym, ap, ◌∙◌, subst, ◌⊎◌, inl, inr, Option, none,
  some, List, ◌∷◌, arith, Bool-cases, Option-cases, some-injective, All, ◌==◌,
}

module _ {N : Type 0} where
  -- An outcome that `_summarize_outcomes` returns for some samples.
  abbrev pub IsSummarized : Ratios N → Outcome N → Type 0
  IsSummarized r o =
      (q : Quantiles) × (frame : Frame) × (samples : ℕ) × (finishes : List (Option ℕ)) × (o
        ≡ summarize_outcome r q frame samples finishes)

  -- A quantile comes with a delay probability.
  abbrev pub HasRisk : Outcome N → Type 0
  HasRisk o = (o.finish_p90 ≡ none) ⊎ ((risk : N) × (o.delay_probability ≡ some risk))

  summarize_outcome-HasRisk :
      (r : Ratios N) (q : Quantiles) (frame : Frame) (samples : ℕ) (finishes : List (Option ℕ))
      → HasRisk (summarize_outcome r q frame samples finishes)
  summarize_outcome-HasRisk r q frame samples finishes =
      let o = summarize_outcome r q frame samples finishes in
      let counted = summarize_outcome-IsCounted r q frame samples finishes in
      elim (Option-cases o.delay_probability) [
        | inr known ↦ inr known
        | inl unknown ↦ elim counted.complete [
          | inl gone ↦ inl gone.3
          | inr complete ↦
              absurd
                (omega (arith, counted.no_guess.0 unknown, complete.0, counted.late_unfinished))
        ]
      ]

  pub IsSummarized-HasRisk : (r : Ratios N) (o : Outcome N) → IsSummarized r o → HasRisk o
  IsSummarized-HasRisk r o (q, frame, samples, finishes, e) =
      subst HasRisk (sym e) (summarize_outcome-HasRisk r q frame samples finishes)

  pub outcome_of-All :
      (P : Outcome N → Type 0) (id : String) (os : List (String × Outcome N)) {o : Outcome N}
      → outcome_of id os ≡ some o
      → All (λ e. P e.1) os
      → P o
  unfolding outcome_of
  outcome_of-All P id [] h a = cc
  outcome_of-All P id ((k, x) ∷ os) {o} h a = elim (Bool-cases (id == k)) [
    | inl here ↦ subst P (some-injective (rw here at h)) a.0
    | inr other ↦ outcome_of-All P id os (rw other at h) a.1
  ]

  -- One known risk is enough.
  pub known_risks-some :
      (id : String) (os : List (String × Outcome N)) {o : Outcome N} {risk : N}
      → outcome_of id os ≡ some o
      → o.delay_probability ≡ some risk
      → (x : N) × (xs : List N) × (known_risks os ≡ x ∷ xs)
  unfolding outcome_of known_risks
  known_risks-some id [] h k = cc
  known_risks-some id ((j, x) ∷ os) {o} {risk} h k = elim (Option-cases x.delay_probability) [
    | inr known ↦ (known.0, known_risks os, rw known.1 refl)
    | inl unknown ↦ elim (Bool-cases (id == j)) [
      | inl here ↦ absurd (
          differ
            (sym (ap (λ (y : Outcome N). y.delay_probability) (some-injective (rw here at h)))
              ∙ unknown)
            k)
      | inr other ↦
          let rest = known_risks-some id os (rw other at h) k in (rest.0, rest.1, rw unknown rest.2)
    ]
  ]
    where
      differ : {p : Option N} {a : N} → p ≡ none → p ≡ some a → ⊥
      differ p q = cc
