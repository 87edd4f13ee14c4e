-- ===== src/Simulation/Evaluation.antt =====
-- The evaluation of the candidate actions in apps/api/src/app/simulation/engine.py:
-- `_evaluate_candidate`, `_strategy_result`, and `evaluate_portfolio` from the candidates to the
-- strategies. The preparation of an action, the samples, the guardrails and the texts of a row are a
-- parameter; progress reports, diagnostics and warnings are left out.
pub mod Admitted
pub mod Sound
use intelliq.Simulation.Sample.{sorted}
use intelliq.Simulation.Outcomes.{Ratios, Quantiles, Outcome, Frame, summarize_outcome}
use intelliq.Simulation.Ranking.{Project, Decision, Candidate, Scores, Delta, Action}
use intelliq.Simulation.Ranking.Selection.{Selected, select_strategies}
use intelliq.Simulation.Actions.Evaluated.{Proposal, action_count, unique_evaluation_candidates}
use intelliq.Simulation.Actions.{Items, CandidateAction, compose_actions, dedupe_strings}
use intelliq.Prelude.{
  string_eq, nat_eq, [], ℕ, zero, suc, String, Bool, true, false, ◌&&◌, Option, none, some, List,
  ◌∷◌, ◌++◌, map, ltb, if◌then◌else◌, is_some, option_map, get_or, length, take, all, filter, mem,
  Result, ◌>>=◌, ok, err,
}

-- `X` is a schedule. `run_sample` may raise a `SimulationInputError`, whose text it gives.
pub record Engine (N : Type 0) (I : Items) (X : Type 0) : Type 0 where
  pub prepare_reasons : CandidateAction I → List String
  pub run_sample : ℕ → CandidateAction I → Result String X
  pub project_finish : X → String → Option ℕ
  pub guardrail_rejections : List X → List (String × Outcome N) → CandidateAction I → List String
  pub has_no_capacity : List X → Bool
  pub samples : ℕ
  pub ratios : Ratios N
  pub quantiles : Quantiles
  pub frame_of : Project N → Frame
  pub action_outputs : CandidateAction I → List Action
  pub outcome_delta : List (String × Outcome N) → String × Outcome N → String × Delta N
  pub no_hours : N
  pub overtime_hours : List X → N
  pub transfer_non_productive_hours : CandidateAction I → N
  pub changed_assignments : List X → List (String × String × String)

pub record Evaluation (N : Type 0) (X : Type 0) : Type 0 where
  pub row : Candidate N
  pub feasible : Bool
  pub rejection_reasons : List String
  pub schedule : Option (List X)

-- `MAX_CANDIDATES`
abbrev pub max_candidates : ℕ
max_candidates = 60

abbrev pub is_none_of : List String → Bool
is_none_of [] = true
is_none_of (s ∷ ss) = false

module _ {N : Type 0} {I : Items} {X : Type 0} (e : Engine N I X) (d : Decision N) where
  -- `_summarize_outcomes` of the schedules of all samples.
  unfoldable pub summarize_outcomes : List X → List (String × Outcome N)
  unfolding summarize_outcome sorted
  summarize_outcomes xs =
      sorted (λ a b. d.id_lt a.0 b.0)
        (map
          (λ p. (
            p.id,
            summarize_outcome e.ratios e.quantiles (e.frame_of p) e.samples
                (map (λ x. e.project_finish x p.id) xs),
          ))
          d.projects)

  -- `_strategy_result`
  unfoldable pub strategy_result :
      List (String × Outcome N)
      → Proposal I
      → CandidateAction I
      → List String
      → List (String × Outcome N)
      → Option (List X)
      → Candidate N
  unfolding action_count sorted
  strategy_result baseline p action labels outcomes schedule =
      let ordered = sorted (λ a b. d.id_lt a.0 b.0) outcomes in
      record {
        id = p.id;
        labels = labels;
        actions = e.action_outputs action;
        outcomes_by_project = ordered;
        deltas_by_project = map (e.outcome_delta baseline) ordered;
        overtime_hours = get_or (option_map e.overtime_hours schedule) e.no_hours;
        transfer_non_productive_hours = e.transfer_non_productive_hours action;
        action_count = action_count action;
        changed_assignments = get_or (option_map e.changed_assignments schedule) [];
      }

  -- The samples from an index on, for a number of rounds.
  unfoldable pub run_samples : ℕ → ℕ → CandidateAction I → Result String (List X)
  run_samples zero index action = ok []
  run_samples (suc n) index action =
      e.run_sample index action >>= λ x. run_samples n (suc index) action >>= λ xs. ok (x ∷ xs)

  abbrev pub rejected : List (String × Outcome N) → Proposal I → List String → Evaluation N X
  rejected baseline p reasons = record {
    row = strategy_result baseline p p.action [] [] none;
    feasible = false;
    rejection_reasons = reasons;
    schedule = none;
  }

  abbrev pub transfer_reasons : CandidateAction I → List X → List String
  transfer_reasons action xs =
      if ltb 0 (length action.transfers) && e.has_no_capacity xs
      then "transfer_has_no_useful_target_capacity" ∷ []
      else []

  abbrev pub judged :
      List (String × Outcome N) → Proposal I → CandidateAction I → List X → Evaluation N X
  judged baseline p effective xs =
      let reasons = e.guardrail_rejections xs baseline effective ++ transfer_reasons p.action xs in
      record {
        row = strategy_result baseline p p.action [] (summarize_outcomes xs) (some xs);
        feasible = is_none_of reasons;
        rejection_reasons = dedupe_strings reasons;
        schedule = if is_none_of reasons then some xs else none;
      }

  abbrev pub simulated :
      List (String × Outcome N)
      → Proposal I
      → CandidateAction I
      → Result String (List X)
      → Evaluation N X
  simulated baseline p effective (err reason) = rejected baseline p (reason ∷ [])
  simulated baseline p effective (ok xs) = judged baseline p effective xs

  -- `_evaluate_candidate`
  unfoldable pub evaluate_candidate :
      CandidateAction I → List (String × Outcome N) → Proposal I → Evaluation N X
  unfolding compose_actions run_samples strategy_result summarize_outcomes dedupe_strings
  evaluate_candidate baseline_action baseline p =
      let (effective, composition_reasons) = compose_actions baseline_action p.action in
      let reasons = composition_reasons ++ e.prepare_reasons effective in
      if is_none_of reasons
      then simulated baseline p effective (run_samples e.samples 0 effective)
      else rejected baseline p reasons

  abbrev pub is_kept_candidate : Evaluation N X → Bool
  is_kept_candidate x = x.feasible && is_some x.schedule

  -- The evaluations of `evaluate_portfolio`, and the feasible candidates among them.
  unfoldable pub evaluations :
      CandidateAction I → List (String × Outcome N) → List (Proposal I) → List (Evaluation N X)
  unfolding evaluate_candidate unique_evaluation_candidates
  evaluations baseline_action baseline candidates =
      map (evaluate_candidate baseline_action baseline)
        (take max_candidates (unique_evaluation_candidates candidates))

  unfoldable pub feasible_candidates : List (Evaluation N X) → List (Candidate N)
  unfolding filter
  feasible_candidates xs = map (λ x. x.row) (filter is_kept_candidate xs)

  abbrev pub rank_of : Selected N → ℕ
  rank_of s = get_or s.rank 999

  -- The strategies after the current plan: those with a selected id, in the scope of a portfolio the
  -- selected ones by rank.
  unfoldable pub selected_results : List (Candidate N) → List (Selected N) → List (Candidate N)
  unfolding filter mem sorted
  selected_results feasible selected =
      if d.is_portfolio
      then map (λ s. s.chosen.candidate) (sorted (λ a b. ltb (rank_of a) (rank_of b)) selected)
      else filter (λ c. mem c.id (map (λ s. s.chosen.candidate.id) selected)) feasible

  -- The strategies that `evaluate_portfolio` returns after the current plan's, whose schedules are
  -- `xs`; `none` is an exception.
  unfoldable pub evaluate_portfolio :
      Scores N → CandidateAction I → List X → List (Proposal I) → Option (List (Candidate N))
  unfolding evaluations feasible_candidates summarize_outcomes select_strategies selected_results
  evaluate_portfolio f baseline_action xs candidates =
      let baseline = summarize_outcomes xs in
      let feasible = feasible_candidates (evaluations baseline_action baseline candidates) in
      option_map (selected_results feasible) (select_strategies f d baseline feasible)
