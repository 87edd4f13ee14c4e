-- ===== src/Simulation/Actions.antt =====
-- The composition of candidate actions in apps/api/src/app/simulation/engine.py:
-- `_dedupe_strings`, `_compose_actions`, `_compatible_action_parts` and `_bundle_actions`. The
-- items of an action are values of parameter types with an equality; what the tests read of an item
-- is a function of it. `source` is a text that nothing tests, and the id of a bundle is left out.
pub mod Laws
pub mod Bundles
pub mod Evaluated
use intelliq.Simulation.Input.{Interval}
use intelliq.Prelude.{
  string_eq, nat_eq, option_eq, [], String, Bool, true, false, not, ◌&&◌, ◌||◌, Option, List, ◌∷◌,
  ◌++◌, if◌then◌else◌, Eq, ◌==◌, mem,
}
use intelliq.Execution.Readback.{is_empty}

-- The types of transfers, overtime windows, date shifts, materials and weather responses.
pub record Items : Type 1 where
  pub Transfer : Type 0
  pub Overtime : Type 0
  pub DateShift : Type 0
  pub Material : Type 0
  pub Weather : Type 0
  pub transfer_worker : Transfer → String
  pub transfer_interval : Transfer → Interval
  pub overtime_worker : Overtime → String
  pub overtime_interval : Overtime → Interval
  pub shift_task : DateShift → String
  pub material_task : Material → String
  pub weather_scope : Weather → Option String × Option String
  pub weather_interval : Weather → Interval
  pub transfer_eq : Eq Transfer
  pub overtime_eq : Eq Overtime
  pub shift_eq : Eq DateShift
  pub material_eq : Eq Material
  pub weather_eq : Eq Weather

pub record CandidateAction (I : Items) : Type 0 where
  pub transfers : List I.Transfer
  pub overtime : List I.Overtime
  pub date_shifts : List I.DateShift
  pub materials : List I.Material
  pub weather : List I.Weather
  pub project_order : List String
  pub task_order : List String
  pub priority_action_type : String
  pub validation_errors : List String

module _ {A : Type 0} ⦃e : Eq A⦄ where
  -- The loop that keeps the first of each: `_dedupe_strings`, and `combine` on `(*left, *right)`.
  unfoldable pub keep_first : List A → List A → List A
  keep_first result [] = result
  keep_first result (x ∷ xs) = elim (mem x result) [
    | true ↦ keep_first result xs
    | false ↦ keep_first (result ++ x ∷ []) xs
  ]

  unfoldable pub combine : List A → List A → List A
  unfolding keep_first
  combine left right = keep_first [] (left ++ right)

unfoldable pub dedupe_strings : List String → List String
unfolding keep_first
dedupe_strings values = keep_first [] values

abbrev pub texts_beq : List String → List String → Bool
texts_beq [] [] = true
texts_beq [] (y ∷ ys) = false
texts_beq (x ∷ xs) [] = false
texts_beq (x ∷ xs) (y ∷ ys) = (x == y) && texts_beq xs ys

abbrev pub conflict_reason : String
conflict_reason = "conflicting_priority_overlay_with_implemented_action"

module _ {I : Items} where
  -- `action.project_order or action.task_order`
  abbrev pub has_order : CandidateAction I → Bool
  has_order action = not (is_empty action.project_order) || not (is_empty action.task_order)

  abbrev pub same_order : CandidateAction I → CandidateAction I → Bool
  same_order a b = texts_beq a.project_order b.project_order && texts_beq a.task_order b.task_order

  -- Both have an order, and not the same one.
  unfoldable pub order_conflict : CandidateAction I → CandidateAction I → Bool
  order_conflict baseline candidate =
      has_order candidate && (has_order baseline && not (same_order baseline candidate))

  unfoldable pub compose_reasons : CandidateAction I → CandidateAction I → List String
  compose_reasons baseline candidate =
      if order_conflict baseline candidate
      then candidate.validation_errors ++ conflict_reason ∷ []
      else candidate.validation_errors

  -- The action whose order the composition has.
  unfoldable pub ordering : CandidateAction I → CandidateAction I → CandidateAction I
  ordering baseline candidate =
      if has_order candidate && not (order_conflict baseline candidate) then candidate else baseline

  -- `_compose_actions`
  unfoldable pub compose_actions :
      CandidateAction I → CandidateAction I → CandidateAction I × List String
  unfolding combine keep_first
  compose_actions baseline candidate =
      let order = ordering baseline candidate in
      let reasons = compose_reasons baseline candidate in
      (
        record {
          transfers = combine ⦃e = I.transfer_eq⦄ baseline.transfers candidate.transfers;
          overtime = combine ⦃e = I.overtime_eq⦄ baseline.overtime candidate.overtime;
          date_shifts = combine ⦃e = I.shift_eq⦄ baseline.date_shifts candidate.date_shifts;
          materials = combine ⦃e = I.material_eq⦄ baseline.materials candidate.materials;
          weather = combine ⦃e = I.weather_eq⦄ baseline.weather candidate.weather;
          project_order = order.project_order;
          task_order = order.task_order;
          priority_action_type = order.priority_action_type;
          validation_errors = reasons;
        },
        reasons,
      )
