-- ===== src/Simulation/Readiness.antt =====
-- When a task may be worked on: `_task_readiness`, `_effective_earliest_start`,
-- `_effective_material_ready_at`, `_task_reserved` and `_slot_starts` of
-- apps/api/src/app/simulation/engine.py.
use intelliq.Simulation.Calendar.{overlaps}
use intelliq.Simulation.Input.{
  Interval, TaskStatus, Task, Reservation, DateShiftSpec, MaterialSpec, PreparedAction, open_task,
  canceled,
}
use intelliq.Prelude.{
  string_eq, nat_eq, option_eq, [], true, false, none, ℕ, zero, suc, ◌+◌, max, String, Bool, not,
  ◌&&◌, ◌||◌, Option, some, List, ◌∷◌, ltb, if◌then◌else◌, is_some, get_or, any, find?, ◌==◌,
}

pub data Readiness : Type 0 where
  earliest material canceled_predecessor predecessor ready : Readiness

abbrev pub is_ready : Readiness → Bool
is_ready ready = true
is_ready _ = false

abbrev pub is_canceled : TaskStatus → Bool
is_canceled canceled = true
is_canceled _ = false

-- `status in {"done", "canceled"}`
abbrev pub is_closed : TaskStatus → Bool
is_closed open_task = false
is_closed _ = true

-- `max(item.starts_at for item in shifts)` of the shifts of the task, if there are any.
unfoldable pub latest_shift : String → List DateShiftSpec → Option ℕ
latest_shift task_id [] = none
latest_shift task_id (item ∷ items) =
    let rest = latest_shift task_id items in
    if item.task_id == task_id then some (max item.starts_at (get_or rest 0)) else rest

unfoldable pub confirmed_material : String → List MaterialSpec → Option ℕ
confirmed_material task_id [] = none
confirmed_material task_id (item ∷ items) =
    let rest = confirmed_material task_id items in
    if (item.task_id == task_id) && item.confirmed && is_some item.available_at
    then item.available_at
    else rest

-- `predecessor_finish is None or predecessor_finish > slot_start`
abbrev pub is_late : Option ℕ → ℕ → Bool
is_late none slot_start = true
is_late (some finish) slot_start = ltb slot_start finish

abbrev pub is_before : ℕ → Option ℕ → Bool
is_before slot_start none = false
is_before slot_start (some at) = ltb slot_start at

module _ {N : Type 0} where
  unfoldable pub effective_earliest_start : Task N → PreparedAction → ℕ
  effective_earliest_start task prepared = elim (latest_shift task.id prepared.date_shifts) [
    | some start ↦ max task.earliest_start_at start
    | none ↦ max task.earliest_start_at (get_or task.planned_start_at 0)
  ]

  unfoldable pub effective_material_ready_at : Task N → PreparedAction → Option ℕ
  effective_material_ready_at task prepared = elim (confirmed_material task.id prepared.materials) [
    | some at ↦ some at
    | none ↦ task.material_ready_at
  ]

  -- `task_by_id[id]`; the parser has checked that every predecessor is a task.
  unfoldable pub task_by_id : List (Task N) → String → Option (Task N)
  task_by_id tasks id = find? (λ t. t.id == id) tasks

  abbrev pub is_canceled_task : Option (Task N) → Bool
  is_canceled_task none = false
  is_canceled_task (some task) = is_canceled task.status

  -- The loop over the predecessors.
  unfoldable pub predecessor_readiness :
      List (Task N) → (String → Option ℕ) → ℕ → List String → Readiness
  predecessor_readiness tasks task_finishes slot_start [] = ready
  predecessor_readiness tasks task_finishes slot_start (p ∷ ps) =
      let rest = predecessor_readiness tasks task_finishes slot_start ps in
      if is_canceled_task (task_by_id tasks p)
      then canceled_predecessor
      else if is_late (task_finishes p) slot_start
      then predecessor
      else rest

  -- `_task_readiness`, as `_run_sample` calls it.
  unfoldable pub task_readiness :
      List (Task N) → Task N → (String → Option ℕ) → ℕ → ℕ → Option ℕ → Readiness
  task_readiness tasks task task_finishes slot_start earliest_start material_ready_at =
      if ltb slot_start earliest_start
      then earliest
      else if is_before slot_start material_ready_at
      then material
      else predecessor_readiness tasks task_finishes slot_start task.predecessor_ids

  -- `_task_reserved`
  unfoldable pub task_reserved : List Reservation → Task N → Interval → Bool
  task_reserved reservations task interval =
      any
        (λ r.
          overlaps r.interval interval
          && ((r.task_id == some task.id)
              || (not (is_some r.task_id) && (r.project_id == some task.project_id))))
        reservations

-- `HOUR`
abbrev pub hour : ℕ
hour = 3600000000

-- `_slot_starts`: every round comes closer to the end, so that as many rounds as there are
-- microseconds are enough.
unfoldable pub slot_starts : ℕ → ℕ → ℕ → List ℕ
slot_starts zero cursor horizon_end = []
slot_starts (suc fuel) cursor horizon_end = elim (ltb cursor horizon_end) [
  | true ↦ cursor ∷ slot_starts fuel (cursor + hour) horizon_end
  | false ↦ []
]
