-- ===== src/Simulation/Ranking/Selection/Spared.antt =====
-- What the strategies of `_select_strategies` in apps/api/src/app/simulation/engine.py leave as it
-- is.
use intelliq.Simulation.Ranking.Selection.{Selected, materials, select_strategies}
use intelliq.Simulation.Outcomes.{Outcome}
use intelliq.Simulation.Ranking.Material.{
  is_raised, outcome_is_worse_under_censoring, both, is_kept, is_spared,
  material_portfolio_improvement, material_target_improvement,
}
use intelliq.Simulation.Ranking.{Scores, Project, Candidate, Decision, outcome_of}
use intelliq.Simulation.Ranking.Order.Distinct.{keep_distinct-All}
use intelliq.Simulation.Ranking.Selection.Materials.{IsMaterial, materials-IsMaterial, choose-All}
use intelliq.Prelude.{
  if-true, [], string_eq, nat_eq, ◌≤◌, ◌<◌, String, ◌≡◌, refl, subst, ◌⊎◌, inl, inr, Bool, true,
  false, not, ◌&&◌, Option, none, some, List, arith, ltb, Bool-cases, Option-cases, some-injective,
  all, All, All-map, all-All, Member, mem, sym, ◌∙◌,
}

module _ {N : Type 0} (f : Scores N) where
  -- No sample more is unfinished, no risk is higher by more than the tolerance, and no sample more
  -- is late unless fewer are unknown.
  pub record IsNoWorse (before after : Outcome N) : Type 0 where
    pub unfinished : after.unfinished_count ≤ before.unfinished_count
    pub risk : is_raised f before.delay_probability after.delay_probability ≡ false
    pub late :
        (after.unknown_censored_count < before.unknown_censored_count)
        ⊎ (after.known_late_count ≤ before.known_late_count)

  -- What a strategy may do to a project. Only in the scope of a portfolio, and only a project that
  -- is not protected, may it make worse.
  pub record IsSpared (d : Decision N) (p : Project N) (before after : Outcome N) : Type 0 where
    pub unknown : after.unknown_censored_count ≤ before.unknown_censored_count
    pub guarded :
        ((d.is_portfolio ≡ true) × (mem p.id d.protected_project_ids ≡ false))
        ⊎ IsNoWorse before after

  not_worse :
      (before after : Outcome N)
      → outcome_is_worse_under_censoring f before after ≡ false
      → (after.unknown_censored_count ≤ before.unknown_censored_count) × IsNoWorse before after
  unfolding outcome_is_worse_under_censoring
  not_worse before after h =
      (ground arith, record { unfinished = ground arith; risk = ground arith; late = ground arith })

  pub both-cases :
      (test : Outcome N → Outcome N → Bool) (before after : Option (Outcome N))
      → both f test before after ≡ true
      → (b : Outcome N) × (a : Outcome N) × (before ≡ some b) × (after ≡ some a) × (test b a ≡ true)
  both-cases test none after h = cc
  both-cases test (some b) none h = cc
  both-cases test (some b) (some a) h = (b, a, refl, refl, h)

  -- The outcomes of a project before and after, which both exist.
  abbrev pub Outcomes :
      (Project N → Outcome N → Outcome N → Type 0)
      → List (String × Outcome N)
      → List (String × Outcome N)
      → Project N
      → Type 0
  Outcomes R baseline outcomes p =
      (b : Outcome N) × (a : Outcome N) × (outcome_of p.id baseline ≡ some b)
      × (outcome_of p.id outcomes ≡ some a)
      × R p b a

  is_kept-IsSpared :
      (d : Decision N) (baseline outcomes : List (String × Outcome N)) (p : Project N)
      → is_kept f baseline outcomes p ≡ true
      → Outcomes (IsSpared d) baseline outcomes p
  is_kept-IsSpared d baseline outcomes p h =
      let o = both-cases _ (outcome_of p.id baseline) (outcome_of p.id outcomes) h in
      let fine = not_worse o.0 o.1 (ground (arith, o.4)) in
      (o.0, o.1, o.2, o.3, record { unknown = fine.0; guarded = inr fine.1 })

  IsSpared-guarded :
      (d : Decision N) (p : Project N) (before after : Outcome N)
      → d.is_portfolio ≡ true
      → (not (ltb before.unknown_censored_count after.unknown_censored_count)
          && not
              (mem p.id d.protected_project_ids && outcome_is_worse_under_censoring f before after))
        ≡ true
      → IsSpared d p before after
  IsSpared-guarded d p before after portfolio h = record {
    unknown = ground arith;
    guarded = elim (Bool-cases (mem p.id d.protected_project_ids)) [
      | inl protected ↦ inr (not_worse before after (ground arith)).1
      | inr free ↦ inl (portfolio, free)
    ];
  }

  is_spared-IsSpared :
      (d : Decision N) (baseline outcomes : List (String × Outcome N)) (p : Project N)
      → d.is_portfolio ≡ true
      → is_spared f d baseline outcomes p ≡ true
      → Outcomes (IsSpared d) baseline outcomes p
  is_spared-IsSpared d baseline outcomes p portfolio h =
      let o = both-cases _ (outcome_of p.id baseline) (outcome_of p.id outcomes) h in
      (o.0, o.1, o.2, o.3, IsSpared-guarded d p o.0 o.1 portfolio o.4)

  portfolio-IsSpared :
      (d : Decision N) (baseline : List (String × Outcome N)) (c : Candidate N)
      → d.is_portfolio ≡ true
      → material_portfolio_improvement f d baseline c ≡ some true
      → All (Outcomes (IsSpared d) baseline c.outcomes_by_project) d.projects
  unfolding material_portfolio_improvement
  portfolio-IsSpared d baseline c portfolio h =
      elim (Bool-cases (all (is_spared f d baseline c.outcomes_by_project) d.projects)) [
        | inl every ↦
            All-map (λ p q. is_spared-IsSpared d baseline c.outcomes_by_project p portfolio q)
              d.projects ((all-All _ d.projects).0 every)
        | inr gap ↦ absurd (no_candidate (rw gap at h))
      ]
    where
      no_candidate : ◌≡◌ {A = Option Bool} (some false) (some true) → ⊥
      no_candidate p = cc

  project-IsSpared :
      (d : Decision N) (baseline : List (String × Outcome N)) (c : Candidate N)
      → d.is_portfolio ≡ false
      → material_target_improvement f d baseline c ≡ some true
      → All (Outcomes (IsSpared d) baseline c.outcomes_by_project) d.projects
  unfolding material_target_improvement
  project-IsSpared d baseline c project h =
      let better = some-injective (rw project at h) in
      All-map (λ p q. is_kept-IsSpared d baseline c.outcomes_by_project p q) d.projects
        ((all-All _ d.projects).0 (ground (arith, better)))

  improvement-IsSpared :
      (d : Decision N) (baseline : List (String × Outcome N)) (c : Candidate N)
      → material_target_improvement f d baseline c ≡ some true
      → All (Outcomes (IsSpared d) baseline c.outcomes_by_project) d.projects
  unfolding material_target_improvement
  improvement-IsSpared d baseline c h = elim (Bool-cases d.is_portfolio) [
    | inl portfolio ↦ portfolio-IsSpared d baseline c portfolio (sym (if-true _ _ portfolio) ∙ h)
    | inr project ↦ project-IsSpared d baseline c project h
  ]

  -- Every strategy that is returned is one of the candidates, and for every project of the input it
  -- has an outcome with no more unknown samples than the current plan. It makes no project worse,
  -- in the scope of a portfolio no protected one: not more samples are unfinished, the risk is not
  -- higher by more than the tolerance, and not more samples are late unless fewer are unknown.
  pub select_strategies-IsSpared :
      (d : Decision N) (baseline : List (String × Outcome N)) (candidates : List (Candidate N))
      {selected : List (Selected N)}
      → select_strategies f d baseline candidates ≡ some selected
      → All
          (λ s.
            Member s.chosen.candidate candidates
            × All
                (Outcomes (IsSpared d) baseline s.chosen.candidate.outcomes_by_project)
                d.projects)
          selected
  unfolding select_strategies
  select_strategies-IsSpared d baseline candidates h =
      elim (Option-cases (materials f d baseline candidates)) [
        | inl raised ↦ absurd (fails (rw raised at h))
        | inr found ↦
            All-map (λ s q. (q.0, improvement-IsSpared d baseline s.chosen.candidate q.1)) _
              (subst (All (λ s. IsMaterial f d baseline candidates s.chosen))
                (some-injective (rw found.1 at h))
                (choose-All f (IsMaterial f d baseline candidates) d _ (
                  keep_distinct-All _ _ [] found.0
                    (materials-IsMaterial f d baseline candidates found.1))))
      ]
    where
      fails : {A : Type 0} {a : A} → ◌≡◌ {A = Option A} none (some a) → ⊥
      fails p = cc
