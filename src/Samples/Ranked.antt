-- ===== src/Samples/Ranked.antt =====
-- Candidates of apps/api/src/app/simulation/engine.py that are summarized, compared and selected.
-- Whole numbers stand for the floats; their difference is a distance.
use intelliq.Simulation.Actions.Evaluated.{Proposal}
use intelliq.Simulation.Ranking.Selection.Returns.{select_strategies-returns}
use intelliq.Simulation.Ranking.Selection.Spared.{IsSpared, Outcomes, select_strategies-IsSpared}
use intelliq.Simulation.Ranking.Selection.Portfolio.{IsChoice, select_strategies-IsChoice}
use intelliq.Simulation.Ranking.Selection.Policies.{IsPolicies, select_strategies-IsPolicies}
use intelliq.Simulation.Actions.Evaluated.{
  same_evaluation, unique_evaluation_candidates, AllDiffer, IsKept,
  unique_evaluation_candidates-IsKept,
}
use intelliq.Samples.Composed.{numbered, moving}
use intelliq.Simulation.Ranking.Approach.{approach_of}
use intelliq.Simulation.Ranking.Order.{lex, same_items, keep_distinct}
use intelliq.Simulation.Sample.{insert_sorted, sorted}
use intelliq.Simulation.Ranking.Material.{
  outcome_is_worse_under_censoring, outcome_is_materially_better, is_less,
  material_portfolio_improvement, material_target_improvement,
}
use intelliq.Simulation.Ranking.Selection.{
  Ranked, materials, Selected, same_signature, publish, select_approaches, select_strategies,
}
use intelliq.Simulation.Outcomes.{
  Ratios, Quantile, Quantiles, Outcome, Frame, present, quantile_datetime, summarize_outcome,
}
use intelliq.Simulation.Ranking.Keys.{
  known_risks, p90_delays, ranking_components, coverage, portfolio_outcome_key,
}
use intelliq.Simulation.Ranking.{
  Scores, Project, Action, Candidate, Decision, outcome_of, priority_weight,
  weighted_outcome_metric, negative_buffer_exposure, disruption_components,
}
use intelliq.Simulation.Ranking.Order.Weak.{IsWeak}
use intelliq.Simulation.Outcomes.Counts.{IsCounted, summarize_outcome-IsCounted}
use intelliq.Simulation.Outcomes.Bounds.{IsFraction, LiesWithin, quantile_datetime-LiesWithin}
use intelliq.Prelude.Text.{codes}
use intelliq.Prelude.{
  [], string_eq, nat_eq, ℕ, ◌+◌, ◌-◌, ◌*◌, ◌/◌, max, String, ◌≡◌, refl, Bool, false, Option, none,
  some, List, ◌∷◌, arith, ltb, length, ◌==◌, true, any, all, find?, mem, All, Member, inl, map,
}

abbrev pub counts : Ratios ℕ
counts = record { ratio = λ a b. a; days_late = λ t. t; mean = λ ds. length ds }

abbrev middle : Quantile
middle = record { lower = λ gaps. gaps / 2; upper = λ gaps. gaps / 2; part = λ gaps n. 0 }

middle-IsFraction : IsFraction middle
middle-IsFraction = record {
  lower_le = λ gaps. omega arith;
  upper_le = λ gaps. omega arith;
  part_le = λ gaps n. omega arith;
}

abbrev pub deciles : Quantiles
deciles = record { p10 = middle; p50 = middle; p90 = middle }

abbrev pub frame : Frame
frame = record { horizon_end = 10; target_finish_at = 4; local_day = λ t. t / 2 }

-- Four samples, of which one is beyond the horizon.
abbrev finishes : List (Option ℕ)
finishes = some 3 ∷ some 6 ∷ none ∷ some 2 ∷ []

summarize_outcome-IsCounted_example :
    IsCounted counts deciles frame 4 finishes (summarize_outcome counts deciles frame 4 finishes)
summarize_outcome-IsCounted_example = summarize_outcome-IsCounted counts deciles frame 4 finishes

known_finishes : present finishes ≡ 3 ∷ 6 ∷ 2 ∷ []
unfolding present
known_finishes = refl

quantile_datetime-LiesWithin_example : LiesWithin 2 6 (quantile_datetime middle finishes)
unfolding present
quantile_datetime-LiesWithin_example =
    quantile_datetime-LiesWithin middle middle-IsFraction 2 6 finishes (omega arith)
      (omega arith, (omega arith, (omega arith, tt)))
      (omega arith, (omega arith, (omega arith, tt)))

abbrev pub scores : Scores ℕ
scores = record {
  nought = 0;
  epsilon = 0;
  infinite = 1000;
  plus = λ a b. a + b;
  minus = λ a b. max (a - b) (b - a);
  times = λ a b. a * b;
  over = λ a b. a / b;
  abs = λ a. a;
  lt = λ a b. ltb a b;
  same = λ a b. a == b;
  of_nat = λ n. n;
  nearest = λ n. n;
  to_six = λ n. n;
  days_after = λ a b. a - b;
  hours_after = λ a b. a - b;
}

abbrev shorter : String → String → Bool
shorter s t = ltb (length (codes s)) (length (codes t))

less-IsWeak : IsWeak scores.lt
less-IsWeak = record { asym = λ a b h. ground arith; trans = λ a b c h k. ground arith }

shorter-IsWeak : IsWeak shorter
shorter-IsWeak = record { asym = λ a b h. ground arith; trans = λ a b c h k. ground arith }

same_same : (a b : ℕ) → scores.same a b ≡ scores.same b a
same_same a b = ground arith

abbrev outcome : ℕ → ℕ → Outcome ℕ
outcome risk delay = record {
  delay_probability = some risk;
  expected_positive_delay_days = some delay;
  finish_p10 = some 1;
  finish_p50 = some 2;
  finish_p90 = some 3;
  unfinished_count = 0;
  censored = false;
  known_late_count = risk;
  unknown_censored_count = 0;
  known_late_unfinished_count = 0;
  finish_histogram = [];
}

abbrev pub move : String → Action
move worker = record {
  type = "transfer";
  worker_id = some (some worker);
  from_project_id = some (some "p");
  to_project_id = some (some "q");
  task_id = none;
  starts_at = some 1;
  ends_at = some 2;
}

abbrev offer : String → String → ℕ → ℕ → Candidate ℕ
offer id worker risk delay = record {
  id = id;
  labels = [];
  actions = move worker ∷ [];
  outcomes_by_project = ("p", outcome risk delay) ∷ ("q", outcome 1 1) ∷ [];
  deltas_by_project = [];
  overtime_hours = 0;
  transfer_non_productive_hours = delay;
  action_count = 1;
  changed_assignments = [];
}

abbrev pub goal : String → ℕ → Project ℕ
goal id priority = record { id = id; priority = priority; target_finish_at = 2 }

abbrev pub decision : Bool → Decision ℕ
decision portfolio = record {
  is_portfolio = portfolio;
  target_project_id = "p";
  projects = goal "p" 2 ∷ goal "q" 1 ∷ [];
  workers = [];
  protected_project_ids = "q" ∷ [];
  id_lt = shorter;
}

abbrev plan : List (String × Outcome ℕ)
plan = ("p", outcome 5 5) ∷ ("q", outcome 1 1) ∷ []

-- One candidate lowers the risk more, the other the delay; the third is worse than the plan.
abbrev offers : List (Candidate ℕ)
offers = offer "a" "v" 2 4 ∷ offer "bb" "w" 3 1 ∷ offer "ccc" "x" 6 6 ∷ []

-- The candidate of a risk and a delay of the first project.
abbrev ranked : String → String → ℕ → ℕ → Ranked ℕ
ranked id worker risk delay = record {
  candidate = offer id worker risk delay;
  components = record {
    fast = record {
      late_probability = some risk;
      unknown_censored_count = 0;
      expected_positive_delay_days = some delay;
      finish_p90_delay_days = some 1;
    };
    balanced = record {
      priority_weighted_late_probability = some (risk * 2 + 1);
      unknown_censored_count = 0;
      priority_weighted_expected_positive_delay_days = some (delay * 2 + 1);
      expected_delay_unknown_censored_count = 0;
      negative_buffer_change_days = some 0;
      negative_buffer_unknown_censored_count = 0;
    };
    safe = record {
      worst_project_late_probability = some risk;
      unknown_censored_count = 0;
      worst_p90_delay_days = some 1;
      worst_buffer_exposure_days = some 0;
      buffer_unknown_censored_count = 0;
    };
    disruption = record {
      changed_worker_days = 0;
      overtime_hours = 0;
      transfer_overhead_hours = delay;
      changed_assignment_count = 0;
      action_count = 1;
    };
  };
}

better_for_portfolio :
    materials scores (decision true) plan offers
    ≡ some (ranked "a" "v" 2 4 ∷ ranked "bb" "w" 3 1 ∷ [])
unfolding materials material_target_improvement material_portfolio_improvement portfolio_outcome_key
    coverage is_less all mem any outcome_is_worse_under_censoring outcome_is_materially_better
    ranking_components priority_weight weighted_outcome_metric negative_buffer_exposure
    disruption_components outcome_of p90_delays known_risks find?
better_for_portfolio = refl

better_for_project :
    materials scores (decision false) plan offers
    ≡ some (ranked "a" "v" 2 4 ∷ ranked "bb" "w" 3 1 ∷ [])
unfolding materials material_target_improvement material_portfolio_improvement portfolio_outcome_key
    coverage is_less all mem any outcome_is_worse_under_censoring outcome_is_materially_better
    ranking_components priority_weight weighted_outcome_metric negative_buffer_exposure
    disruption_components outcome_of p90_delays known_risks find?
better_for_project = refl

select_strategies-IsChoice_example :
    (ss : List (Selected ℕ)) × (select_strategies scores (decision true) plan offers ≡ some ss)
    × IsChoice scores
        (decision true)
        (keep_distinct
          (same_signature scores (decision true))
          []
          (ranked "a" "v" 2 4 ∷ ranked "bb" "w" 3 1 ∷ []))
        ss
select_strategies-IsChoice_example =
    select_strategies-IsChoice scores (decision true) less-IsWeak shorter-IsWeak plan offers
      (ranked "a" "v" 2 4) (ranked "bb" "w" 3 1 ∷ []) refl better_for_portfolio

select_strategies-IsPolicies_example :
    (ss : List (Selected ℕ)) × (select_strategies scores (decision false) plan offers ≡ some ss)
    × IsPolicies scores
        (decision false)
        (keep_distinct
          (same_signature scores (decision false))
          []
          (ranked "a" "v" 2 4 ∷ ranked "bb" "w" 3 1 ∷ []))
        ss
select_strategies-IsPolicies_example =
    select_strategies-IsPolicies scores (decision false) plan offers (ranked "a" "v" 2 4)
      (ranked "bb" "w" 3 1 ∷ []) less-IsWeak shorter-IsWeak same_same refl better_for_project

abbrev strategies : List (Selected ℕ)
unfolding select_approaches publish keep_distinct approach_of sorted insert_sorted lex same_items
    any
strategies =
    select_approaches scores (decision true) (ranked "a" "v" 2 4 ∷ ranked "bb" "w" 3 1 ∷ [])

published_strategies : select_strategies scores (decision true) plan offers ≡ some strategies
unfolding select_strategies strategies insert_sorted materials material_target_improvement
    material_portfolio_improvement portfolio_outcome_key coverage is_less all mem any
    outcome_is_worse_under_censoring outcome_is_materially_better ranking_components priority_weight
    weighted_outcome_metric negative_buffer_exposure disruption_components outcome_of p90_delays
    known_risks find?
published_strategies = refl

select_strategies-IsSpared_example :
    All
      (λ s.
        Member s.chosen.candidate offers
        × All
            (Outcomes scores
              (IsSpared scores (decision true))
              plan
              s.chosen.candidate.outcomes_by_project)
            (decision true).projects)
      strategies
select_strategies-IsSpared_example =
    select_strategies-IsSpared scores (decision true) plan offers published_strategies

-- The first and the last have the same parameters.
abbrev actions : List (Proposal numbered)
actions =
    record { id = "one"; action = moving (1 ∷ []) [] [] }
    ∷ record { id = "two"; action = moving [] (2 ∷ []) [] }
    ∷ record { id = "again"; action = moving (1 ∷ []) [] [] }
    ∷ []

sampled_once : map (λ p. p.id) (unique_evaluation_candidates actions) ≡ "one" ∷ "two" ∷ []
unfolding unique_evaluation_candidates same_evaluation keep_distinct any same_items
sampled_once = refl

unique_evaluation_candidates-IsKept_example :
    AllDiffer (unique_evaluation_candidates actions)
    × All (λ a. Member a actions) (unique_evaluation_candidates actions)
    × All (IsKept (unique_evaluation_candidates actions)) actions
unique_evaluation_candidates-IsKept_example = unique_evaluation_candidates-IsKept actions

-- A candidate whose first project has the summary of the samples above.
abbrev simulated : Candidate ℕ
simulated = record (offer "a" "v" 2 4) {
  outcomes_by_project = ("p", summarize_outcome counts deciles frame 4 finishes) ∷ [];
}

select_strategies-returns_example :
    (selected : List (Selected ℕ)) × (select_strategies scores
        (decision false)
        plan
        (simulated ∷ [])
      ≡ some selected)
select_strategies-returns_example =
    select_strategies-returns scores counts (decision false) plan (simulated ∷ []) (goal "p" 2)
      (inl refl) refl (((deciles, frame, 4, finishes, refl), tt), tt)
