-- ===== src/Simulation/Ranking/Material.antt =====
-- What makes a candidate better than the current plan, in apps/api/src/app/simulation/engine.py:
-- `_outcome_is_worse_under_censoring`, `_outcome_is_materially_better`,
-- `_material_target_improvement` and `_material_portfolio_improvement`.
use intelliq.Simulation.Outcomes.{Outcome}
use intelliq.Simulation.Ranking.Keys.{portfolio_outcome_key}
use intelliq.Simulation.Ranking.{Scores, Project, Candidate, Decision, outcome_of}
use intelliq.Prelude.{
  string_eq, nat_eq, [], ℕ, String, Bool, true, false, not, ◌&&◌, ◌||◌, Option, none, some, List,
  ◌∷◌, ltb, if◌then◌else◌, all, ◌==◌, mem,
}

module _ {N : Type 0} (f : Scores N) where
  -- Both numbers are known, and the second is greater than the first by more than `EPSILON`.
  abbrev pub is_raised : Option N → Option N → Bool
  is_raised (some before) (some after) = f.lt (f.plus before f.epsilon) after
  is_raised before after = false

  abbrev pub is_lowered : Option N → Option N → Bool
  is_lowered (some before) (some after) = f.lt after (f.minus before f.epsilon)
  is_lowered before after = false

  abbrev pub is_earlier : Option ℕ → Option ℕ → Bool
  is_earlier (some before) (some after) = ltb after before
  is_earlier before after = false

  -- `_outcome_is_worse_under_censoring`
  unfoldable pub outcome_is_worse_under_censoring : Outcome N → Outcome N → Bool
  outcome_is_worse_under_censoring before after =
      ltb before.unknown_censored_count after.unknown_censored_count
      || ltb before.unfinished_count after.unfinished_count
      || is_raised before.delay_probability after.delay_probability
      || ((after.unknown_censored_count == before.unknown_censored_count)
          && ltb before.known_late_count after.known_late_count)

  -- `_outcome_is_materially_better`
  unfoldable pub outcome_is_materially_better : Outcome N → Outcome N → Bool
  outcome_is_materially_better before after =
      ltb after.unknown_censored_count before.unknown_censored_count
      || ((after.unknown_censored_count == before.unknown_censored_count)
          && ltb after.known_late_count before.known_late_count)
      || is_lowered before.expected_positive_delay_days after.expected_positive_delay_days
      || is_lowered before.delay_probability after.delay_probability
      || is_earlier before.finish_p50 after.finish_p50

  -- A test of an outcome before and after; one that is missing fails.
  abbrev pub both : (Outcome N → Outcome N → Bool) → Option (Outcome N) → Option (Outcome N) → Bool
  both test none after = false
  both test (some before) none = false
  both test (some before) (some after) = test before after

  -- The loop of `_material_target_improvement`.
  abbrev pub is_kept : List (String × Outcome N) → List (String × Outcome N) → Project N → Bool
  is_kept baseline outcomes p =
      both (λ before after. not (outcome_is_worse_under_censoring before after))
        (outcome_of p.id baseline) (outcome_of p.id outcomes)

  -- The loop of `_material_portfolio_improvement`.
  abbrev pub is_spared :
      Decision N → List (String × Outcome N) → List (String × Outcome N) → Project N → Bool
  is_spared d baseline outcomes p =
      both
        (λ before after.
          not (ltb before.unknown_censored_count after.unknown_censored_count)
          && not
              (mem p.id d.protected_project_ids && outcome_is_worse_under_censoring before after))
        (outcome_of p.id baseline) (outcome_of p.id outcomes)

  -- The first pair of components that differ by more than `EPSILON` decides; `none` is the
  -- exception of keys of different lengths.
  unfoldable pub is_less : List N → List N → Option Bool
  is_less [] [] = some false
  is_less (b ∷ rest_before) (a ∷ rest_after) =
      let rest = is_less rest_before rest_after in
      if f.lt f.epsilon (f.abs (f.minus a b)) then some (f.lt a b) else rest
  is_less [] (a ∷ rest_after) = none
  is_less (b ∷ rest_before) [] = none

  -- `_material_portfolio_improvement`; `none` is an exception.
  unfoldable pub material_portfolio_improvement :
      Decision N → List (String × Outcome N) → Candidate N → Option Bool
  unfolding all outcome_is_worse_under_censoring
  material_portfolio_improvement d baseline c =
      if all (is_spared d baseline c.outcomes_by_project) d.projects
      then is_less (portfolio_outcome_key f d baseline)
          (portfolio_outcome_key f d c.outcomes_by_project)
      else some false

  -- `_material_target_improvement`; `none` is an exception.
  unfoldable pub material_target_improvement :
      Decision N → List (String × Outcome N) → Candidate N → Option Bool
  unfolding material_portfolio_improvement outcome_is_materially_better
  material_target_improvement d baseline c =
      if d.is_portfolio
      then material_portfolio_improvement d baseline c
      else some (
          both (λ before after. true) (outcome_of d.target_project_id baseline)
            (outcome_of d.target_project_id c.outcomes_by_project)
          && all (is_kept baseline c.outcomes_by_project) d.projects
          && both outcome_is_materially_better (outcome_of d.target_project_id baseline)
              (outcome_of d.target_project_id c.outcomes_by_project))
