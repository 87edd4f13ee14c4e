-- ===== src/Simulation/Ranking.antt =====
-- What the choice of strategies in apps/api/src/app/simulation/engine.py reads of a candidate, and
-- its measures: `_rank_metric`, `_weighted_outcome_metric`, `_priority_weight`,
-- `_negative_buffer_exposure` and `_disruption_components`. A candidate is the row that
-- `_strategy_result` returns, its outcomes those of Outcomes; the float operations are a parameter.
-- Instants stand for their texts, and the ids of workers and projects are unique.
pub mod Keys
pub mod Order
pub mod Approach
pub mod Material
pub mod Selection
use intelliq.Simulation.Outcomes.{Outcome}
use intelliq.Simulation.Input.{Worker}
use intelliq.Prelude.{
  string_eq, nat_eq, [], ℕ, ◌+◌, ◌-◌, min, max, String, Bool, true, not, Option, none, some, List,
  ◌∷◌, map, if◌then◌else◌, length, find?, ◌==◌,
}

-- `lt` is `<`, `nearest` is `round` of a positive float, `to_six` is `round(x, 6)`; `days_after a b`
-- and `hours_after a b` are the signed days and hours from `b` to `a`.
pub record Scores (N : Type 0) : Type 0 where
  pub nought : N
  pub epsilon : N
  pub infinite : N
  pub plus : N → N → N
  pub minus : N → N → N
  pub times : N → N → N
  pub over : N → N → N
  pub abs : N → N
  pub lt : N → N → Bool
  pub same : N → N → Bool
  pub of_nat : ℕ → N
  pub nearest : N → ℕ
  pub to_six : N → N
  pub days_after : ℕ → ℕ → N
  pub hours_after : ℕ → ℕ → N

pub record Project (N : Type 0) : Type 0 where
  pub id : String
  pub priority : N
  pub target_finish_at : ℕ

-- One entry of `deltasByProject`.
pub record Delta (N : Type 0) : Type 0 where
  pub target_date_buffer_days_before : Option N
  pub target_date_buffer_days_after : Option N
  pub known_missing_commitments : List String

-- One entry of `actions`. A key that is missing is `none`, a `None` is `some none`.
pub record Action : Type 0 where
  pub type : String
  pub worker_id : Option (Option String)
  pub from_project_id : Option (Option String)
  pub to_project_id : Option (Option String)
  pub task_id : Option (Option String)
  pub starts_at : Option ℕ
  pub ends_at : Option ℕ

pub record Candidate (N : Type 0) : Type 0 where
  pub id : String
  pub labels : List String
  pub actions : List Action
  pub outcomes_by_project : List (String × Outcome N)
  pub deltas_by_project : List (String × Delta N)
  pub overtime_hours : N
  pub transfer_non_productive_hours : N
  pub action_count : ℕ
  pub changed_assignments : List (String × String × String)

-- What the choice reads of the input, and Python's order of texts.
pub record Decision (N : Type 0) : Type 0 where
  pub is_portfolio : Bool
  pub target_project_id : String
  pub projects : List (Project N)
  pub workers : List Worker
  pub protected_project_ids : List String
  pub id_lt : String → String → Bool

pub record Disruption (N : Type 0) : Type 0 where
  pub changed_worker_days : N
  pub overtime_hours : N
  pub transfer_overhead_hours : N
  pub changed_assignment_count : N
  pub action_count : N

-- `outcomes.get(project_id)`
unfoldable pub outcome_of {ℓ} : {A : Type ℓ} → String → List (String × A) → Option A
outcome_of id [] = none
outcome_of id ((k, o) ∷ os) = let rest = outcome_of id os in if id == k then some o else rest

abbrev pub fold_left {ℓ κ} : {A : Type ℓ} {B : Type κ} → (B → A → B) → B → List A → B
fold_left step acc [] = acc
fold_left step acc (x ∷ xs) = fold_left step (step acc x) xs

-- `value or 1` of a count.
abbrev pub or_one : ℕ → ℕ
or_one n = if n == 0 then 1 else n

module _ {N : Type 0} (f : Scores N) where
  -- `max(xs)` and `min(xs)`, the first item given.
  abbrev pub largest : N → List N → N
  largest = fold_left (λ m x. if f.lt m x then x else m)

  abbrev pub smallest : N → List N → N
  smallest = fold_left (λ m x. if f.lt x m then x else m)

  -- `_rank_metric` of an optional number and a count.
  abbrev pub rank_metric : Option N → ℕ → List N
  rank_metric none unknown = f.of_nat 1 ∷ f.of_nat unknown ∷ []
  rank_metric (some value) unknown = f.of_nat 0 ∷ value ∷ []

  -- `max(priorities) - min(priorities) <= EPSILON`
  abbrev pub is_uniform : List N → Bool
  is_uniform [] = true
  is_uniform (p ∷ ps) = not (f.lt f.epsilon (f.minus (largest p ps) (smallest p ps)))

  -- `_priority_weight`
  unfoldable pub priority_weight : Decision N → Project N → N
  priority_weight d project =
      if is_uniform (map (λ p. p.priority) d.projects)
      then f.of_nat 1
      else (if not (f.lt f.epsilon project.priority)
          then f.of_nat 1
          else f.of_nat (max 1 (min 3 (f.nearest project.priority))))

  -- The total and the count of what is unknown, which is returned instead of it.
  abbrev pub unless_unknown : N × ℕ → Option N × ℕ
  unless_unknown (total, unknown) = (if unknown == 0 then some total else none, unknown)

  abbrev pub add_outcome :
      Decision N → (Outcome N → Option N) → N × ℕ → Project N → Option (Outcome N) → N × ℕ
  add_outcome d field (total, unknown) project none = (total, unknown + 1)
  add_outcome d field (total, unknown) project (some o) = elim (field o) [
    | none ↦ (total, unknown + or_one o.unknown_censored_count)
    | some value ↦ (f.plus total (f.times value (priority_weight d project)), unknown)
  ]

  -- `_weighted_outcome_metric` of the field of an outcome.
  unfoldable pub weighted_outcome_metric :
      Decision N → List (String × Outcome N) → (Outcome N → Option N) → Option N × ℕ
  unfolding outcome_of priority_weight
  weighted_outcome_metric d outcomes field = unless_unknown (
      fold_left (λ acc p. add_outcome d field acc p (outcome_of p.id outcomes)) (f.nought, 0)
        d.projects)

  -- `max(0.0, x)`
  abbrev pub positive : N → N
  positive x = if f.lt f.nought x then x else f.nought

  abbrev pub add_exposure : N × ℕ → Option N → Option N → List String → N × ℕ
  add_exposure (total, unknown) (some before) (some after) missing =
      (f.plus total (positive (f.minus before after)), unknown)
  add_exposure (total, unknown) before after [] = (total, unknown)
  add_exposure (total, unknown) before after (m ∷ ms) = (total, unknown + 1)

  -- `_negative_buffer_exposure`
  unfoldable pub negative_buffer_exposure : Candidate N → Option N × ℕ
  negative_buffer_exposure c = unless_unknown (
      fold_left
        (λ acc e.
          add_exposure acc e.1.target_date_buffer_days_before e.1.target_date_buffer_days_after
            e.1.known_missing_commitments)
        (f.nought, 0) c.deltas_by_project)

  -- The length of a worker's shift, over midnight too.
  abbrev pub shift_hours : Worker → N
  shift_hours worker =
      let hours = f.hours_after worker.shift_end worker.shift_start in
      if f.lt f.epsilon hours then hours else f.plus hours (f.of_nat 24)

  abbrev pub worker_days : N → Option Worker → Option ℕ → Option ℕ → N
  worker_days total (some worker) (some starts) (some ends) =
      f.plus total (f.over (positive (f.hours_after ends starts)) (shift_hours worker))
  worker_days total worker starts ends = total

  abbrev pub worker_by_id : Decision N → Option (Option String) → Option Worker
  worker_by_id d (some (some id)) = find? (λ w. w.id == id) d.workers
  worker_by_id d id = none

  -- `_disruption_components`
  unfoldable pub disruption_components : Decision N → Candidate N → Disruption N
  unfolding find?
  disruption_components d c = record {
    changed_worker_days = f.to_six (
        fold_left (λ total a. worker_days total (worker_by_id d a.worker_id) a.starts_at a.ends_at)
          f.nought c.actions);
    overtime_hours = f.to_six c.overtime_hours;
    transfer_overhead_hours = f.to_six c.transfer_non_productive_hours;
    changed_assignment_count = f.of_nat (length c.changed_assignments);
    action_count = f.of_nat c.action_count;
  }
