-- ===== src/Simulation/Ranking/Selection/Materials.antt =====
-- Every strategy of `_select_strategies` in apps/api/src/app/simulation/engine.py is a candidate
-- that is materially better than the current plan.
use intelliq.Simulation.Ranking.Selection.{
  Ranked, Selected, Policy, same_signature, add_material, materials, key_lt, publish,
  select_approaches, add_role, add_policy, select_policies, choose, policies,
}
use intelliq.Simulation.Ranking.Order.{least}
use intelliq.Simulation.Outcomes.{Outcome}
use intelliq.Simulation.Ranking.Material.{material_target_improvement}
use intelliq.Simulation.Ranking.Keys.{Components, ranking_components}
use intelliq.Simulation.Ranking.{Scores, Candidate, Decision, fold_left}
use intelliq.Simulation.Ranking.Order.Distinct.{keep_distinct-All}
use intelliq.Simulation.Ranking.Order.Ascending.{All-sorted}
use intelliq.Simulation.Ranking.Order.Weak.{least-Member}
use intelliq.Prelude.{
  some-injective, [], ℕ, string_eq, nat_eq, ◌+◌, String, ◌≡◌, refl, sym, subst, ◌⊎◌, inl, inr, Bool,
  true, false, Option, none, some, List, ◌∷◌, map, if◌then◌else◌, Bool-cases, any, All, All-map,
  All-append, All-take, Member, All-at,
}

if-All :
    {A : Type 0} (P : A → Type 0) (b : Bool) (xs ys : List A)
    → All P xs
    → All P ys
    → All P (if b then xs else ys)
if-All P true xs ys h k = h
if-All P false xs ys h k = k

module _ {N : Type 0} (f : Scores N) where
  -- A candidate of the list that is better, with its components.
  abbrev pub IsMaterial :
      Decision N → List (String × Outcome N) → List (Candidate N) → Ranked N → Type 0
  IsMaterial d baseline cs r =
      Member r.candidate cs
      × (material_target_improvement f d baseline r.candidate ≡ some true)
      × (ranking_components f d r.candidate ≡ some r.components)

  add_material-cases :
      (c : Candidate N) (k : Option (Components N)) (b : Option Bool)
      (rest : Option (List (Ranked N))) {ms : List (Ranked N)}
      → add_material f c k b rest ≡ some ms
      → (rs : List (Ranked N)) × (rest ≡ some rs)
        × ((ms ≡ rs)
            ⊎ ((x : Components N) × (k ≡ some x)
                × (b ≡ some true)
                × (ms ≡ record { candidate = c; components = x } ∷ rs)))
  add_material-cases c (some k) (some true) (some rest) h =
      (rest, refl, inr (k, refl, refl, some-injective (sym h)))
  add_material-cases c (some k) (some false) (some rest) h =
      (rest, refl, inl (some-injective (sym h)))
  add_material-cases c (some k) (some true) none h = cc
  add_material-cases c (some k) (some false) none h = cc
  add_material-cases c (some k) none rest h = cc
  add_material-cases c none b rest h = cc

  pub materials-IsMaterial :
      (d : Decision N) (baseline : List (String × Outcome N)) (cs : List (Candidate N))
      {ms : List (Ranked N)}
      → materials f d baseline cs ≡ some ms
      → All (IsMaterial d baseline cs) ms
  unfolding materials
  materials-IsMaterial d baseline [] h =
      subst (All (IsMaterial d baseline [])) (some-injective h) tt
  materials-IsMaterial d baseline (c ∷ cs) h =
      let found = add_material-cases c _ _ (materials f d baseline cs) h in
      let later =
        All-map (λ r q. (inr q.0, q.1, q.2)) found.0 (materials-IsMaterial d baseline cs found.1) in
      elim found.2 [
        | inl same ↦ subst (All (IsMaterial d baseline (c ∷ cs))) (sym same) later
        | inr new ↦
            subst (All (IsMaterial d baseline (c ∷ cs))) (sym new.3)
              ((inl refl, new.2, new.1), later)
      ]

  publish-All :
      (P : Ranked N → Type 0) (d : Decision N) (rank : ℕ) (rs : List (Ranked N))
      → All P rs
      → All (λ s. P s.chosen) (publish f d rank rs)
  unfolding publish
  publish-All P d rank [] h = tt
  publish-All P d rank (r ∷ rs) h = (h.0, publish-All P d (rank + 1) rs h.1)

  select_approaches-All :
      (P : Ranked N → Type 0) (d : Decision N) (ms : List (Ranked N))
      → All P ms
      → All (λ s. P s.chosen) (select_approaches f d ms)
  unfolding select_approaches
  select_approaches-All P d ms h =
      publish-All P d 1 _ (All-take P 4 _ (keep_distinct-All _ P [] _ (All-sorted _ P ms h)))

  add_role-All :
      (P : Ranked N → Type 0) (test : Selected N → Bool) (policy : Policy N)
      (ss : List (Selected N))
      → All (λ s. P s.chosen) ss
      → All (λ s. P s.chosen) (map (λ s. if test s then add_role f policy s else s) ss)
  add_role-All P test policy [] h = tt
  add_role-All P test policy (s ∷ ss) h = elim (Bool-cases (test s)) [
    | inl on ↦ rw on (h.0, add_role-All P test policy ss h.1)
    | inr off ↦ rw off (h.0, add_role-All P test policy ss h.1)
  ]

  pub add_policy-All :
      (P : Ranked N → Type 0) (d : Decision N) (m : Ranked N) (ms : List (Ranked N))
      (ss : List (Selected N)) (policy : Policy N)
      → All P (m ∷ ms)
      → All (λ s. P s.chosen) ss
      → All (λ s. P s.chosen) (add_policy f d m ms ss policy)
  unfolding add_policy
  add_policy-All P d m ms ss policy h k =
      let best = least (key_lt f policy.key d) m ms in
      elim (Bool-cases (any (λ s. same_signature f d s.chosen best) ss)) [
        | inl old ↦ rw old (add_role-All P (λ s. same_signature f d s.chosen best) policy ss k)
        | inr new ↦ rw new (All-append _ ss _ k (All-at P (m ∷ ms) h (least-Member _ m ms), tt))
      ]

  add_policies-All :
      (P : Ranked N → Type 0) (d : Decision N) (m : Ranked N) (ms : List (Ranked N))
      (ss : List (Selected N)) (ps : List (Policy N))
      → All P (m ∷ ms)
      → All (λ s. P s.chosen) ss
      → All (λ s. P s.chosen) (fold_left (add_policy f d m ms) ss ps)
  add_policies-All P d m ms ss [] h k = k
  add_policies-All P d m ms ss (p ∷ ps) h k =
      add_policies-All P d m ms (add_policy f d m ms ss p) ps h (add_policy-All P d m ms ss p h k)

  pub choose-All :
      (P : Ranked N → Type 0) (d : Decision N) (ms : List (Ranked N))
      → All P ms
      → All (λ s. P s.chosen) (choose f d ms)
  unfolding select_policies
  choose-All P d [] h = tt
  choose-All P d (m ∷ ms) h =
      if-All (λ s. P s.chosen) d.is_portfolio _ _ (select_approaches-All P d (m ∷ ms) h)
        (All-take (λ s. P s.chosen) 3 _ (add_policies-All P d m ms [] (policies f) h tt))
