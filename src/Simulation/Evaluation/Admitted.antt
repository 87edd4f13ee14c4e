-- ===== src/Simulation/Evaluation/Admitted.antt =====
-- What a feasible evaluation of `_evaluate_candidate` of apps/api/src/app/simulation/engine.py has
-- passed.
use intelliq.Simulation.Actions.Evaluated.{Proposal}
use intelliq.Simulation.Actions.{Items, CandidateAction, compose_actions}
use intelliq.Simulation.Evaluation.{
  Engine, Evaluation, is_none_of, summarize_outcomes, strategy_result, run_samples,
  transfer_reasons, simulated, evaluate_candidate,
}
use intelliq.Simulation.Outcomes.{Outcome}
use intelliq.Simulation.Ranking.{Candidate, Decision}
use intelliq.Prelude.{
  ℕ, zero, suc, String, ◌≡◌, refl, sym, ap, true, some, List, ◌∷◌, ◌++◌, if-cases, length,
  tests_differ, Result, ok-injective, ok, err, [], ◌∙◌, >>=-eq-ok,
}

none_of_append : (a b : List String) → is_none_of (a ++ b) ≡ true → (a ≡ []) × (b ≡ [])
none_of_append [] [] h = (refl, refl)
none_of_append [] (x ∷ b) h = absurd (tests_differ refl h)
none_of_append (x ∷ a) b h = absurd (tests_differ refl h)

module _ {N : Type 0} {I : Items} {X : Type 0} (e : Engine N I X) (d : Decision N) where
  run_samples-length :
      (n index : ℕ) (action : CandidateAction I) (xs : List X)
      → run_samples e d n index action ≡ ok xs
      → length xs ≡ n
  unfolding run_samples
  run_samples-length zero index action xs h = ap length (sym (ok-injective h))
  run_samples-length (suc n) index action xs h =
      let (x, one, rest) = >>=-eq-ok (e.run_sample index action) _ h in
      let (ys, more, made) = >>=-eq-ok (run_samples e d n (suc index) action) _ rest in
      ap length (sym (ok-injective made)) ∙ ap suc (run_samples-length n (suc index) action ys more)

  -- The composition with the current plan and the preparation give no reason against the proposal,
  -- every sample runs, no guardrail rejects the samples, and transfers are of use; the row is made
  -- of the samples.
  pub record IsAdmitted (baseline_action : CandidateAction I) (baseline : List (String × Outcome N))
      (p : Proposal I) (c : Candidate N) : Type 0 where
    pub schedules : List X
    pub composed : (compose_actions baseline_action p.action).1 ≡ []
    pub prepared : e.prepare_reasons (compose_actions baseline_action p.action).0 ≡ []
    pub sampled :
        run_samples e d e.samples 0 (compose_actions baseline_action p.action).0 ≡ ok schedules
    pub counted : length schedules ≡ e.samples
    pub guarded :
        e.guardrail_rejections schedules baseline (compose_actions baseline_action p.action).0 ≡ []
    pub useful : transfer_reasons e d p.action schedules ≡ []
    pub made :
        strategy_result e d baseline p p.action []
          (summarize_outcomes e d schedules)
          (some schedules)
        ≡ c

  pub evaluate_candidate-IsAdmitted :
      (baseline_action : CandidateAction I) (baseline : List (String × Outcome N)) (p : Proposal I)
      → (evaluate_candidate e d baseline_action baseline p).feasible ≡ true
      → IsAdmitted baseline_action baseline p
          (evaluate_candidate e d baseline_action baseline p).row
  unfolding evaluate_candidate
  evaluate_candidate-IsAdmitted baseline_action baseline p =
      let (effective, composition_reasons) = compose_actions baseline_action p.action in
      if-cases
        (λ (x : Evaluation N X). x.feasible ≡ true → IsAdmitted baseline_action baseline p x.row)
        (is_none_of (composition_reasons ++ e.prepare_reasons effective)) _ _
        (λ clear. ran clear (run_samples e d e.samples 0 effective) refl)
        (λ no f. absurd (tests_differ refl f))
    where
      effective : CandidateAction I
      effective = (compose_actions baseline_action p.action).0

      ran :
          is_none_of ((compose_actions baseline_action p.action).1 ++ e.prepare_reasons effective)
            ≡ true
          → (r : Result String (List X)) → run_samples e d e.samples 0 effective ≡ r
          → (simulated e d baseline p effective r).feasible ≡ true
          → IsAdmitted baseline_action baseline p (simulated e d baseline p effective r).row
      ran clear (err reason) found f = absurd (tests_differ refl f)
      ran clear (ok xs) found f =
          let before = none_of_append _ _ clear in
          let after = none_of_append _ _ f in
          record {
            schedules = xs;
            composed = before.0;
            prepared = before.1;
            sampled = found;
            counted = run_samples-length e.samples 0 effective xs found;
            guarded = after.0;
            useful = after.1;
            made = refl;
          }
