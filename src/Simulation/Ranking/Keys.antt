-- ===== src/Simulation/Ranking/Keys.antt =====
-- `_ranking_components` of apps/api/src/app/simulation/engine.py, and the keys that order the
-- candidates: `_fast_ranking_key`, `_balanced_ranking_key`, `_safe_ranking_key` and
-- `_portfolio_outcome_key`. The components that no key reads are left out.
use intelliq.Simulation.Outcomes.{Outcome}
use intelliq.Simulation.Ranking.{
  Scores, Project, Candidate, Decision, Disruption, outcome_of, fold_left, or_one, largest,
  rank_metric, priority_weight, weighted_outcome_metric, negative_buffer_exposure,
  disruption_components,
}
use intelliq.Prelude.{
  string_eq, nat_eq, [], ℕ, ◌+◌, String, Bool, true, false, ◌&&◌, Option, none, some, List, ◌∷◌,
  ◌++◌, ltb, if◌then◌else◌, length, find?, ◌==◌,
}

pub record Fast (N : Type 0) : Type 0 where
  pub late_probability : Option N
  pub unknown_censored_count : ℕ
  pub expected_positive_delay_days : Option N
  pub finish_p90_delay_days : Option N

pub record Balanced (N : Type 0) : Type 0 where
  pub priority_weighted_late_probability : Option N
  pub unknown_censored_count : ℕ
  pub priority_weighted_expected_positive_delay_days : Option N
  pub expected_delay_unknown_censored_count : ℕ
  pub negative_buffer_change_days : Option N
  pub negative_buffer_unknown_censored_count : ℕ

pub record Safe (N : Type 0) : Type 0 where
  pub worst_project_late_probability : Option N
  pub unknown_censored_count : ℕ
  pub worst_p90_delay_days : Option N
  pub worst_buffer_exposure_days : Option N
  pub buffer_unknown_censored_count : ℕ

pub record Components (N : Type 0) : Type 0 where
  pub fast : Fast N
  pub balanced : Balanced N
  pub safe : Safe N
  pub disruption : Disruption N

-- The delay probabilities that are known.
unfoldable pub known_risks : {N : Type 0} → List (String × Outcome N) → List N
known_risks [] = []
known_risks ((k, o) ∷ os) = elim o.delay_probability [
  | none ↦ known_risks os
  | some risk ↦ risk ∷ known_risks os
]

module _ {N : Type 0} (f : Scores N) where
  -- `_date_metric` of an instant that is known.
  abbrev pub date_metric : Option ℕ → ℕ → Option N
  date_metric none target = none
  date_metric (some finish) target = some (f.days_after finish target)

  abbrev pub fast_of : Option (Outcome N) → Project N → Fast N
  fast_of none project = record {
    late_probability = none;
    unknown_censored_count = 0;
    expected_positive_delay_days = none;
    finish_p90_delay_days = none;
  }
  fast_of (some o) project = record {
    late_probability = o.delay_probability;
    unknown_censored_count = o.unknown_censored_count;
    expected_positive_delay_days = o.expected_positive_delay_days;
    finish_p90_delay_days = date_metric o.finish_p90 project.target_finish_at;
  }

  abbrev pub balanced_of : Option N × ℕ → Option N × ℕ → Option N × ℕ → Balanced N
  balanced_of risk delay buffer = record {
    priority_weighted_late_probability = risk.0;
    unknown_censored_count = risk.1;
    priority_weighted_expected_positive_delay_days = delay.0;
    expected_delay_unknown_censored_count = delay.1;
    negative_buffer_change_days = buffer.0;
    negative_buffer_unknown_censored_count = buffer.1;
  }

  -- The loop that collects the delays of the 90th percentiles.
  abbrev pub add_p90 : List N × ℕ → Project N → Option (Outcome N) → List N × ℕ
  add_p90 (values, unknown) project none = (values, unknown + 1)
  add_p90 (values, unknown) project (some o) =
      elim (date_metric o.finish_p90 project.target_finish_at) [
        | none ↦ (values, unknown + or_one o.unknown_censored_count)
        | some value ↦ (values ++ value ∷ [], unknown)
      ]

  unfoldable pub p90_delays : Decision N → List (String × Outcome N) → List N × ℕ
  unfolding outcome_of
  p90_delays d outcomes =
      fold_left (λ acc p. add_p90 acc p (outcome_of p.id outcomes)) ([], 0) d.projects

  -- The greatest of the known risks; `none` is the exception of a `max` of nothing.
  abbrev pub worst_risk : Bool → List N → Option (Option N)
  worst_risk false risks = some none
  worst_risk true [] = none
  worst_risk true (r ∷ rs) = some (some (largest f r rs))

  abbrev pub worst_of : ℕ → List N → Option N
  worst_of unknown [] = none
  worst_of unknown (v ∷ vs) = if unknown == 0 then some (largest f v vs) else none

  abbrev pub safe_of : Option N → List N × ℕ → Option N × ℕ → Safe N
  safe_of risk p90 buffer = record {
    worst_project_late_probability = risk;
    unknown_censored_count = p90.1;
    worst_p90_delay_days = worst_of p90.1 p90.0;
    worst_buffer_exposure_days = buffer.0;
    buffer_unknown_censored_count = buffer.1;
  }

  abbrev pub components_of :
      Decision N
      → Candidate N
      → List N × ℕ
      → Option (Project N)
      → Option (Option N)
      → Option (Components N)
  components_of d c p90 none risk = none
  components_of d c p90 (some target) none = none
  components_of d c p90 (some target) (some risk) =
      let outcomes = c.outcomes_by_project in
      let buffer = negative_buffer_exposure f c in
      some (record {
        fast = fast_of (outcome_of d.target_project_id outcomes) target;
        balanced =
            balanced_of (weighted_outcome_metric f d outcomes (λ o. o.delay_probability))
              (weighted_outcome_metric f d outcomes (λ o. o.expected_positive_delay_days)) buffer;
        safe = safe_of risk p90 buffer;
        disruption = disruption_components f d c;
      })

  -- `_ranking_components`; `none` is an exception.
  unfoldable pub ranking_components : Decision N → Candidate N → Option (Components N)
  unfolding find? p90_delays known_risks
  ranking_components d c =
      let p90 = p90_delays d c.outcomes_by_project in
      let counts = (p90.1 == 0) && ltb 0 (length c.outcomes_by_project) in
      components_of d c p90 (find? (λ p. p.id == d.target_project_id) d.projects)
        (worst_risk counts (known_risks c.outcomes_by_project))

  abbrev pub disruption_key : Disruption N → List N
  disruption_key x = x.changed_worker_days ∷ x.overtime_hours ∷ x.transfer_overhead_hours ∷ []

  -- `_fast_ranking_key`
  unfoldable pub fast_ranking_key : Decision N → Candidate N → Components N → List N
  fast_ranking_key d c k =
      rank_metric f k.fast.late_probability k.fast.unknown_censored_count
      ++ rank_metric f k.fast.expected_positive_delay_days k.fast.unknown_censored_count
      ++ rank_metric f k.fast.finish_p90_delay_days k.fast.unknown_censored_count
      ++ disruption_key k.disruption

  -- The loop of `_portfolio_outcome_key`; a project without an outcome ends it.
  unfoldable pub coverage :
      Decision N → List (String × Outcome N) → N × N → List (Project N) → Option (N × N)
  unfolding outcome_of
  coverage d outcomes acc [] = some acc
  coverage d outcomes (unknown, unfinished) (p ∷ ps) = elim (outcome_of p.id outcomes) [
    | none ↦ none
    | some o ↦
        let weight = priority_weight f d p in
        coverage d outcomes
          (
            f.plus unknown (f.times weight (f.of_nat o.unknown_censored_count)),
            f.plus unfinished (f.times weight (f.of_nat o.unfinished_count)),
          )
          ps
  ]

  abbrev pub portfolio_key_of : Option (N × N) → Option N × ℕ → Option N × ℕ → List N
  portfolio_key_of none risk delay = f.infinite ∷ []
  portfolio_key_of (some (unknown, unfinished)) risk delay =
      unknown ∷ unfinished ∷ rank_metric f risk.0 risk.1 ++ rank_metric f delay.0 delay.1

  -- `_portfolio_outcome_key`
  unfoldable pub portfolio_outcome_key : Decision N → List (String × Outcome N) → List N
  unfolding coverage
  portfolio_outcome_key d outcomes =
      portfolio_key_of (coverage d outcomes (f.nought, f.nought) d.projects)
        (weighted_outcome_metric f d outcomes (λ o. o.delay_probability))
        (weighted_outcome_metric f d outcomes (λ o. o.expected_positive_delay_days))

  -- `_balanced_ranking_key`
  unfoldable pub balanced_ranking_key : Decision N → Candidate N → Components N → List N
  unfolding portfolio_outcome_key
  balanced_ranking_key d c k =
      (if d.is_portfolio then portfolio_outcome_key d c.outcomes_by_project else [])
      ++ rank_metric f k.balanced.priority_weighted_late_probability
          k.balanced.unknown_censored_count
      ++ rank_metric f k.balanced.priority_weighted_expected_positive_delay_days
          k.balanced.expected_delay_unknown_censored_count
      ++ rank_metric f k.balanced.negative_buffer_change_days
          k.balanced.negative_buffer_unknown_censored_count
      ++ disruption_key k.disruption

  -- `_safe_ranking_key`
  unfoldable pub safe_ranking_key : Decision N → Candidate N → Components N → List N
  safe_ranking_key d c k =
      rank_metric f k.safe.worst_project_late_probability k.safe.unknown_censored_count
      ++ rank_metric f k.safe.worst_p90_delay_days k.safe.unknown_censored_count
      ++ rank_metric f k.safe.worst_buffer_exposure_days k.safe.buffer_unknown_censored_count
      ++ disruption_key k.disruption
