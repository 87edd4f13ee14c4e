-- ===== src/Simulation/Ranking/Selection.antt =====
-- `_select_strategies` of apps/api/src/app/simulation/engine.py, with
-- `_candidate_outcome_signature`. What it writes into a candidate is a `Selected`. Two candidates
-- that come to the policies have different signatures, so the signature stands for the comparison of
-- the two dictionaries.
pub mod Materials
pub mod Spared
pub mod Portfolio
pub mod Roles
pub mod Risks
pub mod Returns
pub mod Scored
pub mod Policies
use intelliq.Simulation.Ranking.Approach.{approach_of, same_approach, name_of, kind_of, join}
use intelliq.Simulation.Ranking.Order.{lex, same_items, keep_distinct, least}
use intelliq.Simulation.Sample.{sorted}
use intelliq.Simulation.Outcomes.{Outcome}
use intelliq.Simulation.Ranking.Material.{material_target_improvement}
use intelliq.Simulation.Ranking.Keys.{
  Components, ranking_components, fast_ranking_key, balanced_ranking_key, safe_ranking_key,
}
use intelliq.Simulation.Ranking.{Scores, Candidate, Decision, fold_left}
use intelliq.Prelude.{
  string_eq, nat_eq, option_eq, [], ℕ, ◌+◌, String, Bool, true, false, ◌&&◌, Option, none, some,
  List, ◌∷◌, ◌++◌, map, if◌then◌else◌, option_map, take, any, ◌==◌, mem,
}

pub record Ranked (N : Type 0) : Type 0 where
  pub candidate : Candidate N
  pub components : Components N

pub record Selected (N : Type 0) : Type 0 where
  pub chosen : Ranked N
  pub rank : Option ℕ
  pub strategy : String
  pub strategy_name : String
  pub strategy_roles : List String
  pub labels : List String

pub record Policy (N : Type 0) : Type 0 where
  pub role : String
  pub name : String
  pub legacy_label : String
  pub key : Decision N → Candidate N → Components N → List N

-- `if text not in texts: texts.append(text)`
unfoldable pub append_new : String → List String → List String
unfolding mem
append_new text texts = if mem text texts then texts else texts ++ text ∷ []

module _ {N : Type 0} (f : Scores N) where
  abbrev pub same_number : Option N → Option N → Bool
  same_number none none = true
  same_number none (some b) = false
  same_number (some a) none = false
  same_number (some a) (some b) = f.same a b

  abbrev pub same_outcome : String × Outcome N → String × Outcome N → Bool
  same_outcome (i, a) (j, b) =
      (i == j)
      && (a.finish_p50 == b.finish_p50)
      && same_number a.delay_probability b.delay_probability
      && same_number a.expected_positive_delay_days b.expected_positive_delay_days
      && (a.unfinished_count == b.unfinished_count)

  -- The outcomes that `_candidate_outcome_signature` lists, and the comparison of two signatures.
  unfoldable pub same_signature : Decision N → Ranked N → Ranked N → Bool
  unfolding sorted same_items
  same_signature d a b =
      same_items same_outcome (sorted (λ o p. d.id_lt o.0 p.0) a.candidate.outcomes_by_project)
        (sorted (λ o p. d.id_lt o.0 p.0) b.candidate.outcomes_by_project)

  abbrev pub add_material :
      Candidate N
      → Option (Components N)
      → Option Bool
      → Option (List (Ranked N))
      → Option (List (Ranked N))
  add_material c (some k) (some true) (some rest) =
      some (record { candidate = c; components = k } ∷ rest)
  add_material c (some k) (some false) (some rest) = some rest
  add_material c (some k) (some better) none = none
  add_material c (some k) none rest = none
  add_material c none better rest = none

  -- The candidates that are materially better; `none` is an exception.
  unfoldable pub materials :
      Decision N → List (String × Outcome N) → List (Candidate N) → Option (List (Ranked N))
  unfolding ranking_components material_target_improvement
  materials d baseline [] = some []
  materials d baseline (c ∷ cs) =
      add_material c (ranking_components f d c) (material_target_improvement f d baseline c)
        (materials d baseline cs)

  -- `<` of two keys that end in the id of their candidate.
  abbrev pub key_lt :
      (Decision N → Candidate N → Components N → List N) → Decision N → Ranked N → Ranked N → Bool
  key_lt key d a b =
      lex f.lt (key d a.candidate a.components) (key d b.candidate b.components)
        (d.id_lt a.candidate.id b.candidate.id)

  -- What `_select_strategies` writes into the candidate of a rank.
  abbrev pub published : Decision N → ℕ → Ranked N → Selected N
  published d rank r =
      let title = join " + " (
        keep_distinct (λ s t. s == t) []
          (map (λ key. name_of (kind_of key)) (approach_of d.id_lt r.candidate.actions))) in
      let role = if rank == 1 then "recommended" else "alternative" in
      record {
        chosen = r;
        rank = some rank;
        strategy = role;
        strategy_name = title;
        strategy_roles = role ∷ [];
        labels = if rank == 1 then "recommended" ∷ [] else [];
      }

  unfoldable pub publish : Decision N → ℕ → List (Ranked N) → List (Selected N)
  unfolding keep_distinct approach_of
  publish d rank [] = []
  publish d rank (r ∷ rs) = published d rank r ∷ publish d (rank + 1) rs

  -- The scope of a portfolio: the four best approaches.
  unfoldable pub select_approaches : Decision N → List (Ranked N) → List (Selected N)
  unfolding balanced_ranking_key lex sorted keep_distinct approach_of same_items publish
  select_approaches d material = publish d 1 (
      take 4 (
        keep_distinct
          (λ a b.
            same_approach (approach_of d.id_lt a.candidate.actions)
              (approach_of d.id_lt b.candidate.actions))
          [] (sorted (key_lt (balanced_ranking_key f) d) material)))

  abbrev pub policies : List (Policy N)
  policies =
      record {
        role = "fast";
        name = "Fast";
        legacy_label = "fastestRecovery";
        key = fast_ranking_key f;
      }
      ∷ record {
        role = "balanced";
        name = "Balanced";
        legacy_label = "portfolioBalance";
        key = balanced_ranking_key f;
      }
      ∷ record {
        role = "safe";
        name = "Safe";
        legacy_label = "leastDisruption";
        key = safe_ranking_key f;
      }
      ∷ []

  abbrev pub add_role : Policy N → Selected N → Selected N
  add_role policy s = record s {
    strategy_roles = append_new policy.role s.strategy_roles;
    labels = append_new policy.legacy_label s.labels;
  }

  abbrev pub first_choice : Policy N → Ranked N → Selected N
  first_choice policy r = record {
    chosen = r;
    rank = none;
    strategy = policy.role;
    strategy_name = policy.name;
    strategy_roles = policy.role ∷ [];
    labels = r.candidate.labels ++ policy.name ∷ policy.legacy_label ∷ [];
  }

  -- One policy: the candidate of its least key gets its role.
  unfoldable pub add_policy :
      Decision N → Ranked N → List (Ranked N) → List (Selected N) → Policy N → List (Selected N)
  unfolding lex least any same_signature append_new
  add_policy d m ms selected policy =
      let best = least (key_lt policy.key d) m ms in
      if any (λ s. same_signature d s.chosen best) selected
      then map (λ s. if same_signature d s.chosen best then add_role policy s else s) selected
      else selected ++ first_choice policy best ∷ []

  unfoldable pub select_policies : Decision N → Ranked N → List (Ranked N) → List (Selected N)
  unfolding add_policy fast_ranking_key balanced_ranking_key safe_ranking_key
  select_policies d m ms = take 3 (fold_left (add_policy d m ms) [] policies)

  abbrev pub choose : Decision N → List (Ranked N) → List (Selected N)
  choose d [] = []
  choose d (m ∷ ms) =
      if d.is_portfolio then select_approaches d (m ∷ ms) else select_policies d m ms

  -- `_select_strategies`; `none` is an exception.
  unfoldable pub select_strategies :
      Decision N → List (String × Outcome N) → List (Candidate N) → Option (List (Selected N))
  unfolding materials keep_distinct same_signature select_approaches select_policies
  select_strategies d baseline candidates =
      option_map (λ ms. choose d (keep_distinct (same_signature d) [] ms))
        (materials d baseline candidates)
