-- ===== src/Simulation/Ranking/Selection/Returns.antt =====
-- `_select_strategies` of apps/api/src/app/simulation/engine.py does not raise on the outcomes that
-- `_summarize_outcomes` returns.
use intelliq.Simulation.Ranking.Selection.{
  Ranked, Selected, same_signature, add_material, materials, choose, select_strategies,
}
use intelliq.Simulation.Ranking.Order.{keep_distinct}
use intelliq.Simulation.Outcomes.{Outcome, Ratios}
use intelliq.Simulation.Ranking.Material.{
  is_spared, is_less, material_portfolio_improvement, material_target_improvement,
}
use intelliq.Simulation.Ranking.Keys.{coverage, portfolio_outcome_key, Components}
use intelliq.Simulation.Ranking.{
  Scores, Project, Candidate, Decision, outcome_of, rank_metric, weighted_outcome_metric,
  priority_weight,
}
use intelliq.Simulation.Ranking.Selection.Risks.{IsSummarized, IsSummarized-HasRisk}
use intelliq.Simulation.Ranking.Selection.Scored.{ranking_components-some}
use intelliq.Simulation.Ranking.Selection.Spared.{both-cases}
use intelliq.Prelude.{
  Member, option_map, [], string_eq, nat_eq, ℕ, String, ◌≡◌, refl, sym, ◌∙◌, inl, inr, Bool, true,
  false, Option, none, some, List, ◌∷◌, arith, Bool-cases, if-holds, length, all, All,
  length-append, All-map, all-All, ap,
}

module _ {N : Type 0} (f : Scores N) where
  -- Keys of one length are compared.
  is_less-some :
      (before after : List N)
      → length before ≡ length after
      → (b : Bool) × (is_less f before after ≡ some b)
  unfolding is_less
  is_less-some [] [] h = (false, refl)
  is_less-some [] (a ∷ later) h = absurd (omega (arith, h))
  is_less-some (b ∷ earlier) [] h = absurd (omega (arith, h))
  is_less-some (b ∷ earlier) (a ∷ later) h =
      let rest = is_less-some earlier later (omega (arith, h)) in
      elim (Bool-cases (f.lt f.epsilon (f.abs (f.minus a b)))) [
        | inl apart ↦ (f.lt a b, rw apart refl)
        | inr near ↦ (rest.0, rw near rest.1)
      ]

  coverage-some :
      (d : Decision N) (outcomes : List (String × Outcome N)) (acc : N × N) (ps : List (Project N))
      → All (λ p. (o : Outcome N) × (outcome_of p.id outcomes ≡ some o)) ps
      → (covered : N × N) × (coverage f d outcomes acc ps ≡ some covered)
  unfolding coverage
  coverage-some d outcomes acc [] h = (acc, refl)
  coverage-some d outcomes (unknown, unfinished) (p ∷ ps) h =
      let (o, found) = h.0 in
      let weight = priority_weight f d p in
      let rest =
        coverage-some d outcomes
          (
            f.plus unknown (f.times weight (f.of_nat o.unknown_censored_count)),
            f.plus unfinished (f.times weight (f.of_nat o.unfinished_count)),
          )
          ps h.1 in
      (rest.0, rw (found, coverage) rest.1)

  length-rank_metric : (value : Option N) (unknown : ℕ) → length (rank_metric f value unknown) ≡ 2
  length-rank_metric none unknown = refl
  length-rank_metric (some value) unknown = refl

  length-portfolio_outcome_key :
      (d : Decision N) (outcomes : List (String × Outcome N))
      → All (λ p. (o : Outcome N) × (outcome_of p.id outcomes ≡ some o)) d.projects
      → length (portfolio_outcome_key f d outcomes) ≡ 6
  unfolding portfolio_outcome_key
  length-portfolio_outcome_key d outcomes h =
      let (covered, e) = coverage-some d outcomes (f.nought, f.nought) d.projects h in
      let risk = weighted_outcome_metric f d outcomes (λ o. o.delay_probability) in
      let delay = weighted_outcome_metric f d outcomes (λ o. o.expected_positive_delay_days) in
      rw e (
        omega (
          arith,
          length-append (rank_metric f risk.0 risk.1) (rank_metric f delay.0 delay.1),
          length-rank_metric risk.0 risk.1,
          length-rank_metric delay.0 delay.1,
        ))

  spared-found :
      (d : Decision N) (baseline outcomes : List (String × Outcome N)) (p : Project N)
      → is_spared f d baseline outcomes p ≡ true
      → ((b : Outcome N) × (outcome_of p.id baseline ≡ some b))
        × ((o : Outcome N) × (outcome_of p.id outcomes ≡ some o))
  spared-found d baseline outcomes p h =
      let (b, a, e, g, t) =
        both-cases f _ (outcome_of p.id baseline) (outcome_of p.id outcomes) h in
      ((b, e), (a, g))

  improvement-some :
      (d : Decision N) (baseline : List (String × Outcome N)) (c : Candidate N)
      → (better : Bool) × (material_portfolio_improvement f d baseline c ≡ some better)
  unfolding material_portfolio_improvement
  improvement-some d baseline c =
      elim (Bool-cases (all (is_spared f d baseline c.outcomes_by_project) d.projects)) [
        | inr gap ↦ (false, rw gap refl)
        | inl every ↦
            let found =
              All-map (λ p q. spared-found d baseline c.outcomes_by_project p q) d.projects
                ((all-All _ d.projects).0 every) in
            let less =
              is_less-some (portfolio_outcome_key f d baseline)
                (portfolio_outcome_key f d c.outcomes_by_project)
                (length-portfolio_outcome_key d baseline (All-map (λ p q. q.0) d.projects found)
                  ∙ sym (
                      length-portfolio_outcome_key d c.outcomes_by_project
                        (All-map (λ p q. q.1) d.projects found))) in
            (less.0, rw every less.1)
      ]

  material_target_improvement-some :
      (d : Decision N) (baseline : List (String × Outcome N)) (c : Candidate N)
      → (better : Bool) × (material_target_improvement f d baseline c ≡ some better)
  unfolding material_target_improvement
  material_target_improvement-some d baseline c =
      if-holds (λ m. (better : Bool) × (m ≡ some better)) d.is_portfolio _ _
        (improvement-some d baseline c) (_, refl)

  add_material-some :
      (c : Candidate N) {k : Option (Components N)} {b : Option Bool}
      {rest : Option (List (Ranked N))}
      → ((x : Components N) × (k ≡ some x))
      → ((better : Bool) × (b ≡ some better))
      → ((ms : List (Ranked N)) × (rest ≡ some ms))
      → (ms : List (Ranked N)) × (add_material f c k b rest ≡ some ms)
  add_material-some c (x, e) (true, g) (ms, h) =
      (record { candidate = c; components = x } ∷ ms, rw (e, g, h) refl)
  add_material-some c (x, e) (false, g) (ms, h) = (ms, rw (e, g, h) refl)

  materials-some :
      (r : Ratios N) (d : Decision N) (baseline : List (String × Outcome N))
      (candidates : List (Candidate N)) (target : Project N)
      → Member target d.projects
      → target.id ≡ d.target_project_id
      → All (λ c. All (λ e. IsSummarized r e.1) c.outcomes_by_project) candidates
      → (ms : List (Ranked N)) × (materials f d baseline candidates ≡ some ms)
  unfolding materials
  materials-some r d baseline [] target inside same h = ([], refl)
  materials-some r d baseline (c ∷ cs) target inside same h =
      add_material-some c
        (ranking_components-some f d c target inside same
          (All-map (λ e q. IsSummarized-HasRisk r e.1 q) c.outcomes_by_project h.0))
        (material_target_improvement-some d baseline c)
        (materials-some r d baseline cs target inside same h.1)

  -- The selection raises no exception if the target is a project of the input and the outcomes of
  -- the candidates are those that `_summarize_outcomes` returns for some samples: no `next` fails,
  -- no maximum is taken of nothing, and the keys that are compared have one length.
  pub select_strategies-returns :
      (r : Ratios N) (d : Decision N) (baseline : List (String × Outcome N))
      (candidates : List (Candidate N)) (target : Project N)
      → Member target d.projects
      → target.id ≡ d.target_project_id
      → All (λ c. All (λ e. IsSummarized r e.1) c.outcomes_by_project) candidates
      → (selected : List (Selected N)) × (select_strategies f d baseline candidates ≡ some selected)
  unfolding select_strategies
  select_strategies-returns r d baseline candidates target inside same h =
      let (ms, found) = materials-some r d baseline candidates target inside same h in
      (_, ap (option_map (λ rs. choose f d (keep_distinct (same_signature f d) [] rs))) found)
