-- ===== src/Simulation/Evaluation/Sound.antt =====
-- The strategies that `evaluate_portfolio` of apps/api/src/app/simulation/engine.py returns.
use intelliq.Simulation.Ranking.Selection.{Selected}
use intelliq.Simulation.Evaluation.Admitted.{IsAdmitted, evaluate_candidate-IsAdmitted}
use intelliq.Simulation.Actions.{Items, CandidateAction, compose_actions}
use intelliq.Simulation.Evaluation.{
  Engine, Evaluation, is_none_of, summarize_outcomes, strategy_result, run_samples, simulated,
  evaluate_candidate, max_candidates, is_kept_candidate, evaluations, feasible_candidates,
  selected_results, evaluate_portfolio,
}
use intelliq.Simulation.Outcomes.{Outcome, summarize_outcome}
use intelliq.Simulation.Ranking.{Project, Decision, Candidate, Scores}
use intelliq.Simulation.Ranking.Selection.Risks.{IsSummarized}
use intelliq.Simulation.Ranking.Order.Ascending.{All-sorted}
use intelliq.Simulation.Actions.Evaluated.{
  unique_evaluation_candidates-IsKept, Proposal, unique_evaluation_candidates,
}
use intelliq.Simulation.Ranking.Selection.Spared.{select_strategies-IsSpared, IsSpared, Outcomes}
use intelliq.Simulation.Ranking.Selection.Returns.{select_strategies-returns}
use intelliq.Prelude.{
  option_map, [], string_eq, nat_eq, String, ◌≡◌, refl, sym, ap, ◌∙◌, inl, inr, true, List, ◌∷◌,
  ◌++◌, map, Bool-cases, if-holds, All, Member, tests_differ, ◌==◌, ==_iff, ==_refl, or_true, mem,
  NoRepeats, Result, ok, err, subst, and_true, is_some, take, All-map, All-filter, All-take, Bool,
  some, All-Member, All-at,
}

All-of-map :
    {A B : Type 0} (P : B → Type 0) (g : A → B) (xs : List A)
    → All (λ x. P (g x)) xs
    → All P (map g xs)
All-of-map P g [] h = tt
All-of-map P g (x ∷ xs) h = (h.0, All-of-map P g xs h.1)

mem-map :
    {A : Type 0} (g : A → String) (k : String) (xs : List A)
    → mem k (map g xs) ≡ true
    → (x : A) × Member x xs × (k ≡ g x)
unfolding mem
mem-map g k [] h = cc
mem-map g k (x ∷ xs) h = elim (Bool-cases (k == g x)) [
  | inl same ↦ (x, inl refl, (==_iff k (g x)).0 same)
  | inr other ↦ let rest = mem-map g k xs (rw other at h) in (rest.0, inr rest.1, rest.2)
]

Member-map :
    {A : Type 0} (g : A → String) (a : A) (xs : List A) → Member a xs → mem (g a) (map g xs) ≡ true
unfolding mem
Member-map g a [] m = absurd m
Member-map g a (x ∷ xs) (inl here) = rw (here, ==_refl (g x)) refl
Member-map g a (x ∷ xs) (inr later) = rw (Member-map g a xs later) (or_true (g a == g x))

-- Of items without a repeated text two of the same text are one.
NoRepeats-one :
    {A : Type 0} (g : A → String) (xs : List A) {a b : A}
    → NoRepeats (map g xs)
    → Member a xs
    → Member b xs
    → g a ≡ g b
    → a ≡ b
NoRepeats-one g [] h m n e = absurd m
NoRepeats-one g (x ∷ xs) h (inl p) (inl q) e = p ∙ sym q
NoRepeats-one g (x ∷ xs) h (inl p) (inr n) e =
    absurd (tests_differ h.0 (ap (λ t. mem t (map g xs)) (sym (ap g p) ∙ e) ∙ Member-map g _ xs n))
NoRepeats-one g (x ∷ xs) h (inr m) (inl q) e =
    absurd
      (tests_differ h.0 (ap (λ t. mem t (map g xs)) (sym (ap g q) ∙ sym e) ∙ Member-map g _ xs m))
NoRepeats-one g (x ∷ xs) h (inr m) (inr n) e = NoRepeats-one g xs h.1 m n e

module _ {N : Type 0} {I : Items} {X : Type 0} (e : Engine N I X) (d : Decision N) where
  abbrev by_id : String × Outcome N → String × Outcome N → Bool
  by_id a b = d.id_lt a.0 b.0

  abbrev Summary : String × Outcome N → Type 0
  Summary o = IsSummarized e.ratios o.1

  summarize_outcomes-IsSummarized :
      (xs : List X) → All (λ o. IsSummarized e.ratios o.1) (summarize_outcomes e d xs)
  unfolding summarize_outcomes
  summarize_outcomes-IsSummarized xs =
      All-sorted _ _ _ (All-of-map _ _ d.projects (every d.projects))
    where
      every :
          (ps : List (Project N))
          → All
              (λ p. IsSummarized e.ratios (
                summarize_outcome e.ratios e.quantiles
                  (e.frame_of p)
                  e.samples
                  (map (λ x. e.project_finish x p.id) xs)))
              ps
      every [] = tt
      every (p ∷ ps) = (
        (e.quantiles, e.frame_of p, e.samples, map (λ x. e.project_finish x p.id) xs, refl),
        every ps,
      )

  abbrev Summarized : Evaluation N X → Type 0
  Summarized x = All (λ o. IsSummarized e.ratios o.1) x.row.outcomes_by_project

  evaluate_candidate-Summarized :
      (baseline_action : CandidateAction I) (baseline : List (String × Outcome N)) (p : Proposal I)
      → Summarized (evaluate_candidate e d baseline_action baseline p)
  unfolding evaluate_candidate strategy_result
  evaluate_candidate-Summarized baseline_action baseline p =
      let (effective, composition_reasons) = compose_actions baseline_action p.action in
      if-holds Summarized (is_none_of (composition_reasons ++ e.prepare_reasons effective)) _ _
        (ran (run_samples e d e.samples 0 effective) effective) (All-sorted by_id Summary [] tt)
    where
      ran :
          (r : Result String (List X)) (effective : CandidateAction I)
          → Summarized (simulated e d baseline p effective r)
      ran (err reason) effective = All-sorted by_id Summary [] tt
      ran (ok xs) effective =
          All-sorted by_id Summary (summarize_outcomes e d xs) (summarize_outcomes-IsSummarized xs)

  -- The row of a proposal that has passed its evaluation.
  abbrev pub IsFeasible :
      CandidateAction I → List (String × Outcome N) → List (Proposal I) → Candidate N → Type 0
  IsFeasible baseline_action baseline candidates c =
      (p : Proposal I) × Member p candidates × IsAdmitted e d baseline_action baseline p c

  feasible_candidates-IsFeasible :
      (baseline_action : CandidateAction I) (baseline : List (String × Outcome N))
      (candidates : List (Proposal I))
      → All
          (λ c.
            IsFeasible baseline_action baseline candidates c
            × All (λ o. IsSummarized e.ratios o.1) c.outcomes_by_project)
          (feasible_candidates e d (evaluations e d baseline_action baseline candidates))
  unfolding feasible_candidates evaluations
  feasible_candidates-IsFeasible baseline_action baseline candidates =
      let run = evaluate_candidate e d baseline_action baseline in
      let tried : All (λ x. (p : Proposal I) × Member p candidates × (run p ≡ x))
          (map run (take max_candidates (unique_evaluation_candidates candidates))) =
        All-of-map _ run _ (
          All-map (λ p m. (p, m, refl)) _
            (All-take _ max_candidates _ (unique_evaluation_candidates-IsKept candidates).1)) in
      All-of-map _ (λ (x : Evaluation N X). x.row) _
        (All-map
          (λ x q.
            let (p, m, same) = q.1 in
            let passed =
              ap (λ (y : Evaluation N X). y.feasible) same
              ∙ (and_true x.feasible (is_some x.schedule) q.0).0 in
            (
              (
                p,
                m,
                subst (λ (y : Evaluation N X). IsAdmitted e d baseline_action baseline p y.row) same
                    (evaluate_candidate-IsAdmitted e d baseline_action baseline p passed),
              ),
              subst Summarized same (evaluate_candidate-Summarized baseline_action baseline p),
            ))
          _ (All-filter _ (is_kept_candidate e d) _ tried))

  -- The strategies are among the selected candidates, which are feasible ones.
  selected_results-All :
      (P : Candidate N → Type 0) (feasible : List (Candidate N)) (selected : List (Selected N))
      → NoRepeats (map (λ c. c.id) feasible)
      → All (λ s. Member s.chosen.candidate feasible × P s.chosen.candidate) selected
      → All (λ c. Member c feasible × P c) (selected_results e d feasible selected)
  unfolding selected_results
  selected_results-All P feasible selected apart h =
      if-holds (All (λ c. Member c feasible × P c)) d.is_portfolio _ _
        (All-of-map _ (λ (s : Selected N). s.chosen.candidate) _ (All-sorted _ _ selected h))
        (All-map
          (λ c q.
            let (s, inside, same) =
              mem-map (λ (s : Selected N). s.chosen.candidate.id) c.id selected q.0 in
            let found = All-at _ selected h inside in
            let one = NoRepeats-one (λ c. c.id) feasible apart q.1 found.0 same in
            (q.1, subst P (sym one) found.1))
          _
          (All-filter _ (λ c. mem c.id (map (λ (s : Selected N). s.chosen.candidate.id) selected))
            feasible (All-Member feasible)))

  -- If the target is a project of the input and no two feasible candidates have one id, then the
  -- evaluation returns strategies, and every one after the current plan is the row of a candidate
  -- that composes with the current plan, that nothing rejects before its samples, whose every sample
  -- runs, and that no guardrail rejects after them; it raises no project's unknown count, and makes
  -- no guarded project worse than the samples of the current plan.
  pub evaluate_portfolio-IsFeasible :
      (f : Scores N) (baseline_action : CandidateAction I) (xs : List X)
      (candidates : List (Proposal I)) (target : Project N)
      → Member target d.projects
      → target.id ≡ d.target_project_id
      → NoRepeats (
          map
            (λ c. c.id)
            (feasible_candidates e d
              (evaluations e d baseline_action (summarize_outcomes e d xs) candidates)))
      → (rows : List (Candidate N)) × (evaluate_portfolio e d f baseline_action xs candidates
          ≡ some rows)
        × All
            (λ c.
              IsFeasible baseline_action (summarize_outcomes e d xs) candidates c
              × All
                  (Outcomes f (IsSpared f d) (summarize_outcomes e d xs) c.outcomes_by_project)
                  d.projects)
            rows
  unfolding evaluate_portfolio
  evaluate_portfolio-IsFeasible f baseline_action xs candidates target inside same apart =
      let baseline = summarize_outcomes e d xs in
      let feasible =
        feasible_candidates e d (evaluations e d baseline_action baseline candidates) in
      let known = feasible_candidates-IsFeasible baseline_action baseline candidates in
      let (selected, found) =
        select_strategies-returns f e.ratios d baseline feasible target inside same
          (All-map (λ c q. q.1) feasible known) in
      (
        selected_results e d feasible selected,
        ap (option_map (selected_results e d feasible)) found,
        All-map (λ c q. ((All-at _ feasible known q.0).0, q.1)) _
            (selected_results-All
              (λ c. All (Outcomes f (IsSpared f d) baseline c.outcomes_by_project) d.projects)
              feasible selected apart (select_strategies-IsSpared f d baseline feasible found)),
      )
