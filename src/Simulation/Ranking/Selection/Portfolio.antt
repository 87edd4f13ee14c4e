-- ===== src/Simulation/Ranking/Selection/Portfolio.antt =====
-- The strategies that `_select_strategies` of apps/api/src/app/simulation/engine.py returns for a
-- portfolio.
use intelliq.Simulation.Ranking.Order.Weak.{IsWeak, lex-IsWeak, lt-irreflexive}
use intelliq.Simulation.Ranking.Order.{keep_distinct}
use intelliq.Simulation.Sample.{sorted}
use intelliq.Simulation.Outcomes.{Outcome}
use intelliq.Simulation.Ranking.Selection.{
  Ranked, Selected, key_lt, publish, same_signature, materials, select_approaches, choose,
  select_strategies,
}
use intelliq.Simulation.Ranking.Approach.{approach_of, same_approach}
use intelliq.Simulation.Ranking.Keys.{balanced_ranking_key}
use intelliq.Simulation.Ranking.{Scores, Decision, Candidate}
use intelliq.Simulation.Ranking.Order.Distinct.{
  IsDistinct, keep_distinct-IsAscending, keep_distinct-IsDistinct,
}
use intelliq.Simulation.Ranking.Order.Ascending.{
  IsAscending, sorted-All, length-sorted, sorted-IsAscending,
}
use intelliq.Prelude.{
  [], string_eq, nat_eq, ℕ, zero, suc, ◌+◌, ◌≤◌, ◌≡◌, refl, ap, Bool, false, some, List, ◌∷◌, map,
  if◌then◌else◌, length, take, All, All-take, ◌==◌, ◌<◌, String, sym, ◌∙◌, subst, true, arith,
  option_map, if-true, any, length-take-le,
}

module _ {N : Type 0} (f : Scores N) where
  -- Two candidates of the same actions, up to their dates.
  abbrev pub same_actions : Decision N → Ranked N → Ranked N → Bool
  same_actions d a b =
      same_approach (approach_of d.id_lt a.candidate.actions)
        (approach_of d.id_lt b.candidate.actions)

  -- The rows have the ranks from `rank` on, and only the first rank of all is recommended.
  abbrev pub IsRanked : ℕ → List (Selected N) → Type 0
  IsRanked rank [] = Unit
  IsRanked rank (s ∷ ss) =
      (s.rank ≡ some rank)
      × (s.strategy ≡ (if rank == 1 then "recommended" else "alternative"))
      × IsRanked (rank + 1) ss

  -- No material candidate is better than the first one.
  abbrev pub IsBest : (Ranked N → Ranked N → Bool) → List (Ranked N) → List (Selected N) → Type 0
  IsBest better material [] = ⊥
  IsBest better material (s ∷ ss) = All (λ m. better m s.chosen ≡ false) material

  pub record IsChoice (d : Decision N) (material : List (Ranked N)) (ss : List (Selected N))
      : Type 0 where
    pub few : length ss ≤ 4
    pub ranked : IsRanked 1 ss
    pub ascending : IsAscending (key_lt f (balanced_ranking_key f) d) (map (λ s. s.chosen) ss)
    pub distinct : IsDistinct (same_actions d) (map (λ s. s.chosen) ss)
    pub best : IsBest (key_lt f (balanced_ranking_key f) d) material ss

  chosen-publish :
      (d : Decision N) (rank : ℕ) (rs : List (Ranked N))
      → map (λ (s : Selected N). s.chosen) (publish f d rank rs) ≡ rs
  unfolding publish
  chosen-publish d rank [] = refl
  chosen-publish d rank (r ∷ rs) = ap (λ xs. r ∷ xs) (chosen-publish d (rank + 1) rs)

  length-publish :
      (d : Decision N) (rank : ℕ) (rs : List (Ranked N)) → length (publish f d rank rs) ≡ length rs
  unfolding publish
  length-publish d rank [] = refl
  length-publish d rank (r ∷ rs) = ap suc (length-publish d (rank + 1) rs)

  publish-IsRanked :
      (d : Decision N) (rank : ℕ) (rs : List (Ranked N)) → IsRanked rank (publish f d rank rs)
  unfolding publish
  publish-IsRanked d rank [] = tt
  publish-IsRanked d rank (r ∷ rs) = (refl, refl, publish-IsRanked d (rank + 1) rs)

  take-IsAscending :
      {A : Type 0} (lt : A → A → Bool) (n : ℕ) (xs : List A)
      → IsAscending lt xs
      → IsAscending lt (take n xs)
  take-IsAscending lt zero xs h = tt
  take-IsAscending lt (suc n) [] h = tt
  take-IsAscending lt (suc n) (x ∷ xs) h = (All-take _ n xs h.0, take-IsAscending lt n xs h.1)

  take-IsDistinct :
      {A : Type 0} (same : A → A → Bool) (n : ℕ) (xs : List A)
      → IsDistinct same xs
      → IsDistinct same (take n xs)
  take-IsDistinct same zero xs h = tt
  take-IsDistinct same (suc n) [] h = tt
  take-IsDistinct same (suc n) (x ∷ xs) h = (All-take _ n xs h.0, take-IsDistinct same n xs h.1)

  module _ (d : Decision N) (wn : IsWeak f.lt) (wi : IsWeak d.id_lt) where
    abbrev better : Ranked N → Ranked N → Bool
    better = key_lt f (balanced_ranking_key f) d

    better-IsWeak : IsWeak better
    better-IsWeak =
        lex-IsWeak f.lt wn (λ r. balanced_ranking_key f d r.candidate r.components)
          (λ a b. d.id_lt a.candidate.id b.candidate.id)
          (record { asym = λ a b. wi.asym _ _; trans = λ a b c. wi.trans _ _ _ })

    publish-IsBest :
        (xs : List (Ranked N))
        → 0 < length xs
        → IsAscending better xs
        → IsBest better xs (publish f d 1 (take 4 (keep_distinct (same_actions d) [] xs)))
    unfolding publish keep_distinct any
    publish-IsBest [] h asc = absurd (omega (arith, h))
    publish-IsBest (x ∷ xs) h asc = (lt-irreflexive better better-IsWeak x, asc.0)

    sorted-IsBest :
        (material : List (Ranked N)) (ss : List (Selected N))
        → IsBest better (sorted better material) ss
        → IsBest better material ss
    sorted-IsBest material [] h = h
    sorted-IsBest material (s ∷ ss) h = sorted-All better _ material h

    select_approaches-IsChoice :
        (material : List (Ranked N))
        → 0 < length material
        → IsChoice d material (select_approaches f d material)
    unfolding select_approaches
    select_approaches-IsChoice material some_material =
        let ordered = sorted better material in
        let asc = sorted-IsAscending better better-IsWeak material in
        let kept = keep_distinct (same_actions d) [] ordered in
        record {
          few = omega (arith, length-publish d 1 (take 4 kept), length-take-le 4 kept);
          ranked = publish-IsRanked d 1 (take 4 kept);
          ascending = subst (IsAscending better) (sym (chosen-publish d 1 (take 4 kept))) (
              take-IsAscending better 4 kept
                (keep_distinct-IsAscending (same_actions d) better [] ordered asc));
          distinct = subst (IsDistinct (same_actions d)) (sym (chosen-publish d 1 (take 4 kept))) (
              take-IsDistinct (same_actions d) 4 kept
                (keep_distinct-IsDistinct (same_actions d) [] ordered));
          best = sorted-IsBest material _ (
              publish-IsBest ordered (omega (arith, length-sorted better material, some_material))
                asc);
        }

    -- If a candidate is materially better, then for a portfolio at least one and at most four
    -- strategies are returned, of different actions, ranked from 1 in the order of their keys, and
    -- no material candidate has a lesser key than the first, which alone is recommended. Of the
    -- candidates with the same outcomes only the first counts, and `<` is a weak order of the
    -- numbers and of the ids.
    pub select_strategies-IsChoice :
        (baseline : List (String × Outcome N)) (candidates : List (Candidate N)) (m : Ranked N)
        (ms : List (Ranked N))
        → d.is_portfolio ≡ true
        → materials f d baseline candidates ≡ some (m ∷ ms)
        → (ss : List (Selected N)) × (select_strategies f d baseline candidates ≡ some ss)
          × IsChoice d (keep_distinct (same_signature f d) [] (m ∷ ms)) ss
    unfolding select_strategies keep_distinct any
    select_strategies-IsChoice baseline candidates m ms portfolio found =
        let material = keep_distinct (same_signature f d) [] (m ∷ ms) in
        (
          select_approaches f d material,
          ap (option_map (λ rs. choose f d (keep_distinct (same_signature f d) [] rs))) found
              ∙ ap some (if-true _ _ portfolio),
          select_approaches-IsChoice material (omega arith),
        )
