-- ===== src/Samples/Evaluated.antt =====
-- Candidates of apps/api/src/app/simulation/engine.py from the proposal to the strategy. A schedule
-- is the one finish of its projects, which a transfer moves forward.
use intelliq.Simulation.Ranking.Selection.{
  append_new, materials, add_policy, select_policies, select_strategies,
}
use intelliq.Simulation.Sample.{insert_sorted, sorted}
use intelliq.Simulation.Ranking.Material.{
  outcome_is_worse_under_censoring, outcome_is_materially_better, is_less,
  material_portfolio_improvement, material_target_improvement,
}
use intelliq.Simulation.Ranking.Keys.{
  known_risks, p90_delays, ranking_components, coverage, portfolio_outcome_key,
}
use intelliq.Simulation.Actions.Evaluated.{
  Proposal, same_evaluation, unique_evaluation_candidates, action_count,
}
use intelliq.Simulation.Actions.{
  CandidateAction, keep_first, combine, dedupe_strings, order_conflict, compose_reasons, ordering,
  compose_actions,
}
use intelliq.Simulation.Evaluation.{
  Engine, summarize_outcomes, strategy_result, run_samples, evaluate_candidate, evaluations,
  feasible_candidates, evaluate_portfolio, selected_results,
}
use intelliq.Simulation.Ranking.Selection.Spared.{IsSpared, Outcomes}
use intelliq.Simulation.Outcomes.{
  Outcome, present, missing, late, tally, day_counts, quantile_datetime, finish_histogram,
  summarize_outcome, quantile_of,
}
use intelliq.Simulation.Ranking.Order.{same_items, keep_distinct, lex, least}
use intelliq.Simulation.Ranking.{
  Candidate, outcome_of, priority_weight, weighted_outcome_metric, negative_buffer_exposure,
  disruption_components,
}
use intelliq.Prelude.{
  ℕ, ◌-◌, String, ◌≡◌, refl, sym, subst, inl, false, none, some, List, ◌∷◌, map, ltb, if◌then◌else◌,
  length, any, filter, All, mem, NoRepeats, ok, err, [], option_map, all, find?, Option,
}
use intelliq.Samples.Composed.{numbered, moving}
use intelliq.Samples.Ranked.{counts, deciles, frame, scores, decision, goal, move}
use intelliq.Simulation.Evaluation.Sound.{IsFeasible, evaluate_portfolio-IsFeasible}

abbrev crews : Engine ℕ numbered ℕ
crews = record {
  prepare_reasons = λ a. if ltb 3 (length a.transfers) then "too_many_transfers" ∷ [] else [];
  run_sample = λ index a.
      if ltb 0 (length a.overtime) then err "no_workers" else ok (9 - length a.transfers);
  project_finish = λ x id. some x;
  guardrail_rejections = λ xs baseline a. [];
  has_no_capacity = λ xs. false;
  samples = 2;
  ratios = counts;
  quantiles = deciles;
  frame_of = λ p. frame;
  action_outputs = λ a. map (λ t. move "v") a.transfers;
  outcome_delta = λ baseline o. (
    o.0,
    record {
      target_date_buffer_days_before = none;
      target_date_buffer_days_after = none;
      known_missing_commitments = [];
    },
  );
  no_hours = 0;
  overtime_hours = λ xs. 0;
  transfer_non_productive_hours = λ a. length a.transfers;
  changed_assignments = λ xs. [];
}

abbrev unchanged : CandidateAction numbered
unchanged = moving [] [] []

-- One move, the same move again, hours that no sample can work, too many moves, and two moves.
abbrev proposals : List (Proposal numbered)
proposals =
    record { id = "one"; action = moving (1 ∷ []) [] [] }
    ∷ record { id = "again"; action = moving (1 ∷ []) [] [] }
    ∷ record { id = "late"; action = moving [] (2 ∷ []) [] }
    ∷ record { id = "many"; action = moving (1 ∷ 2 ∷ 3 ∷ 4 ∷ []) [] [] }
    ∷ record { id = "two"; action = moving (1 ∷ 2 ∷ []) [] [] }
    ∷ []

abbrev current : List (String × Outcome ℕ)
current = summarize_outcomes crews (decision false) (9 ∷ 9 ∷ [])

abbrev feasible_ids : List (Proposal numbered) → List String
feasible_ids ps =
    map (λ c. c.id)
      (feasible_candidates crews (decision false)
        (evaluations crews (decision false) unchanged current ps))

known_ids : feasible_ids proposals ≡ "one" ∷ "two" ∷ []
unfolding feasible_candidates evaluations evaluate_candidate strategy_result run_samples
    unique_evaluation_candidates same_evaluation keep_distinct any same_items filter compose_actions
    compose_reasons order_conflict ordering combine keep_first dedupe_strings mem
known_ids = refl

apart : NoRepeats (feasible_ids proposals)
unfolding mem
apart = subst NoRepeats (sym known_ids) (refl, (refl, tt))

evaluate_portfolio-IsFeasible_example :
    (rows : List (Candidate ℕ)) × (evaluate_portfolio crews
        (decision false)
        scores
        unchanged
        (9 ∷ 9 ∷ [])
        proposals
      ≡ some rows)
    × All
        (λ c.
          IsFeasible crews (decision false) unchanged current proposals c
          × All
              (Outcomes scores (IsSpared scores (decision false)) current c.outcomes_by_project)
              (decision false).projects)
        rows
evaluate_portfolio-IsFeasible_example =
    evaluate_portfolio-IsFeasible crews (decision false) scores unchanged (9 ∷ 9 ∷ []) proposals
      (goal "p" 2) (inl refl) refl apart

kept_ids :
    option_map
      (map (λ c. c.id))
      (evaluate_portfolio crews (decision false) scores unchanged (9 ∷ 9 ∷ []) proposals)
    ≡ some ("one" ∷ "two" ∷ [])
unfolding evaluate_portfolio selected_results feasible_candidates evaluations evaluate_candidate
    strategy_result run_samples unique_evaluation_candidates same_evaluation keep_distinct any
    same_items filter sorted insert_sorted compose_actions compose_reasons order_conflict ordering
    combine keep_first dedupe_strings mem action_count summarize_outcomes summarize_outcome
    quantile_datetime quantile_of finish_histogram day_counts tally present missing late
    select_strategies select_policies add_policy append_new least lex materials
    material_target_improvement material_portfolio_improvement portfolio_outcome_key coverage
    is_less all outcome_is_worse_under_censoring outcome_is_materially_better ranking_components
    priority_weight weighted_outcome_metric negative_buffer_exposure disruption_components
    outcome_of p90_delays known_risks find?
kept_ids = refl

-- One, two and three moves; the id of the second is a parameter.
abbrev moves : String → List (Proposal numbered)
moves id =
    record { id = "one"; action = moving (1 ∷ []) [] [] }
    ∷ record { id = id; action = moving (1 ∷ 2 ∷ []) [] [] }
    ∷ record { id = "three"; action = moving (1 ∷ 2 ∷ 3 ∷ []) [] [] }
    ∷ []

abbrev strategy_ids : String → Option (List String)
strategy_ids id =
    option_map (map (λ c. c.id))
      (evaluate_portfolio crews (decision false) scores unchanged (9 ∷ 9 ∷ []) (moves id))

-- The second has no role, and is returned all the same if it has the id of the first.
unselected_ids :
    (strategy_ids "two" ≡ some ("one" ∷ "three" ∷ []))
    × (strategy_ids "one" ≡ some ("one" ∷ "one" ∷ "three" ∷ []))
unfolding evaluate_portfolio selected_results feasible_candidates evaluations evaluate_candidate
    strategy_result run_samples unique_evaluation_candidates same_evaluation keep_distinct any
    same_items filter sorted insert_sorted compose_actions compose_reasons order_conflict ordering
    combine keep_first dedupe_strings mem action_count summarize_outcomes summarize_outcome
    quantile_datetime quantile_of finish_histogram day_counts tally present missing late
    select_strategies select_policies add_policy append_new least lex materials
    material_target_improvement material_portfolio_improvement portfolio_outcome_key coverage
    is_less all outcome_is_worse_under_censoring outcome_is_materially_better ranking_components
    priority_weight weighted_outcome_metric negative_buffer_exposure disruption_components
    outcome_of p90_delays known_risks find?
unselected_ids = (refl, refl)
