-- ===== src/Simulation/Ranking/Selection/Scored.antt =====
-- The components and the keys of a candidate exist: `_ranking_components` and the comparison of two
-- portfolio keys in apps/api/src/app/simulation/engine.py do not raise.
use intelliq.Simulation.Outcomes.{Outcome}
use intelliq.Simulation.Ranking.Keys.{
  Components, add_p90, worst_risk, ranking_components, known_risks, p90_delays, components_of,
}
use intelliq.Simulation.Ranking.{
  Scores, Project, Candidate, Decision, outcome_of, fold_left, or_one, largest,
}
use intelliq.Simulation.Ranking.Selection.Risks.{HasRisk, outcome_of-All, known_risks-some}
use intelliq.Prelude.{
  [], string_eq, nat_eq, ℕ, ◌+◌, String, ◌≡◌, refl, inl, inr, Bool, true, false, Option, none, some,
  List, ◌∷◌, arith, Bool-cases, Option-cases, find?, All, Member, subst, ◌&&◌, ltb, length, All-at,
  ◌==◌, ==_iff,
}

find?-some :
    {A : Type 0} (p : A → Bool) (xs : List A) {a : A}
    → Member a xs
    → p a ≡ true
    → (x : A) × (find? p xs ≡ some x)
unfolding find?
find?-some p [] m h = absurd m
find?-some p (x ∷ xs) (inl here) h = (x, rw (subst (λ y. p y ≡ true) here h) refl)
find?-some p (x ∷ xs) (inr later) h = elim (Bool-cases (p x)) [
  | inl first ↦ (x, rw first refl)
  | inr other ↦ rw other (find?-some p xs later h)
]

module _ {N : Type 0} (f : Scores N) where
  -- A count of nothing unknown means that the quantile was known.
  add_p90-known :
      (acc : List N × ℕ) (p : Project N) (m : Option (Outcome N))
      → (add_p90 f acc p m).1 ≡ 0
      → (acc.1 ≡ 0) × ((o : Outcome N) × (m ≡ some o) × ((t : ℕ) × (o.finish_p90 ≡ some t)))
  add_p90-known (values, unknown) p none h = absurd (omega (arith, h))
  add_p90-known (values, unknown) p (some o) h = elim (Option-cases o.finish_p90) [
    | inl gone ↦
        let count : unknown + or_one o.unknown_censored_count ≡ 0 = (rw gone at h) in
        absurd (ground (arith, count))
    | inr known ↦ let count : unknown ≡ 0 = (rw known.1 at h) in (count, (o, refl, known))
  ]

  p90_delays-known :
      (outcomes : List (String × Outcome N)) (acc : List N × ℕ) (ps : List (Project N))
      → (fold_left (λ a p. add_p90 f a p (outcome_of p.id outcomes)) acc ps).1 ≡ 0
      → (acc.1 ≡ 0)
        × All
            (λ p.
              (o : Outcome N) × (outcome_of p.id outcomes ≡ some o)
              × ((t : ℕ) × (o.finish_p90 ≡ some t)))
            ps
  p90_delays-known outcomes acc [] h = (h, tt)
  p90_delays-known outcomes acc (p ∷ ps) h =
      let later = p90_delays-known outcomes (add_p90 f acc p (outcome_of p.id outcomes)) ps h in
      let here = add_p90-known acc p (outcome_of p.id outcomes) later.0 in
      (here.0, (here.1, later.1))

  worst_risk-some :
      (counts : Bool) (risks : List N)
      → (counts ≡ true → (x : N) × (xs : List N) × (risks ≡ x ∷ xs))
      → (worst : Option N) × (worst_risk f counts risks ≡ some worst)
  worst_risk-some false risks h = (none, refl)
  worst_risk-some true [] h = let found = h refl in cc
  worst_risk-some true (x ∷ xs) h = (some (largest f x xs), refl)

  components_of-some :
      (d : Decision N) (c : Candidate N) (p90 : List N × ℕ) {target : Option (Project N)}
      {risk : Option (Option N)}
      → ((t : Project N) × (target ≡ some t))
      → ((r : Option N) × (risk ≡ some r))
      → (k : Components N) × (components_of f d c p90 target risk ≡ some k)
  components_of-some d c p90 (t, e) (r, g) = rw (e, g) (_, refl)

  -- A candidate whose outcomes have risks has components, if the target is a project.
  pub ranking_components-some :
      (d : Decision N) (c : Candidate N) (target : Project N)
      → Member target d.projects
      → target.id ≡ d.target_project_id
      → All (λ e. HasRisk e.1) c.outcomes_by_project
      → (k : Components N) × (ranking_components f d c ≡ some k)
  unfolding ranking_components p90_delays
  ranking_components-some d c target inside same known =
      let p90 = p90_delays f d c.outcomes_by_project in
      components_of-some d c p90
        (find?-some (λ p. p.id == d.target_project_id) d.projects inside
          ((==_iff target.id d.target_project_id).1 same))
        (worst_risk-some ((p90.1 == 0) && ltb 0 (length c.outcomes_by_project))
          (known_risks c.outcomes_by_project)
          (λ counts.
            let none_unknown : p90.1 ≡ 0 = ground (arith, counts) in
            let found =
              All-at _ d.projects
                (p90_delays-known c.outcomes_by_project ([], 0) d.projects none_unknown).1 inside in
            risk_of target c.outcomes_by_project found known))
    where
      risk_of :
          (p : Project N) (outcomes : List (String × Outcome N))
          → ((o : Outcome N) × (outcome_of p.id outcomes ≡ some o)
              × ((t : ℕ) × (o.finish_p90 ≡ some t)))
          → All (λ e. HasRisk e.1) outcomes
          → (x : N) × (xs : List N) × (known_risks outcomes ≡ x ∷ xs)
      risk_of p outcomes (o, e, (t, at)) known =
          elim (outcome_of-All HasRisk p.id outcomes e known) [
            | inl gone ↦ cc
            | inr risk ↦ known_risks-some p.id outcomes e risk.1
          ]
