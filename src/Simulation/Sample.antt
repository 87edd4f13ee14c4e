-- ===== src/Simulation/Sample.antt =====
-- The hourly loop of `_run_sample` in apps/api/src/app/simulation/engine.py, from the prepared
-- action and the drawn efforts of one sample on, with `_task_sort_key`. The sets are lists, and a
-- row of `capacity_by_project_day` is the list of what was added to it. The workability of a task
-- in a slot is a function of the sample.

use intelliq.Simulation.Readiness.{
  Readiness, is_ready, is_closed, effective_earliest_start, effective_material_ready_at, task_by_id,
  task_readiness, task_reserved, hour, material, canceled_predecessor, predecessor,
}
use intelliq.Simulation.Calendar.{worker_can_do_task, worker_slot_capacity}
use intelliq.Simulation.Input.{
  Floats, Interval, Task, Worker, Reservation, PreparedAction, open_task, done, canceled,
}
pub mod Slots
pub mod Rosters
pub mod Crews
pub mod Finishes
pub mod Precedence
use intelliq.Prelude.{
  string_eq, nat_eq, option_eq, [], ℕ, ◌+◌, max, String, Bool, not, ◌&&◌, Option, none, some, List,
  ◌∷◌, map, if◌then◌else◌, is_some, get_or, filter, find?, ◌==◌,
}

pub record Project (N : Type 0) : Type 0 where
  pub id : String
  pub priority : N

pub record SortKey (N : Type 0) : Type 0 where
  pub explicit_task_index : ℕ
  pub explicit_project_index : ℕ
  pub task_priority : N
  pub project_priority : N
  pub project_id : String
  pub id : String

-- What one sample is run on: the validated input, the prepared action, the efforts drawn, and
-- Python's orders of texts and of the tuples that are sort keys.
pub record Sample (N : Type 0) : Type 0 where
  pub as_of : ℕ
  pub projects : List (Project N)
  pub tasks : List (Task N)
  pub workers : List Worker
  pub reservations : List Reservation
  pub prepared : PreparedAction
  pub draws : String → N
  pub workability : Task N → Interval → N
  pub negate : N → N
  pub id_lt : String → String → Bool
  pub key_lt : SortKey N → SortKey N → Bool

pub data Diagnostic : Type 0 where
  task_blocked_by_hard_reservation waiting_on_predecessor canceled_predecessor_requires_waiver :
      (task_id : String) → Diagnostic
  waiting_on_material_gate task_exposed_to_reduced_workability crew_below_minimum :
      (task_id : String) → Diagnostic
  task_stop_work_gate : (task_id : String) → Diagnostic
  unavailable_specialty_capacity transfer_donor_capacity_reserved :
      (task_id other_id : String) → Diagnostic
  shared_worker_contention : (worker_id : String) → Diagnostic

-- One addition to the row of a project's day.
pub record CapacityUse (N : Type 0) : Type 0 where
  pub project_id : String
  pub slot_start : ℕ
  pub used : N
  pub effective : N
  pub is_overtime : Bool
  pub by_transfer : Bool

-- What the loop updates. A missing key of `remaining` reads as 0.0.
pub record Schedule (N : Type 0) : Type 0 where
  pub task_finishes : String → Option ℕ
  pub remaining : String → N
  pub diagnostics : List Diagnostic
  pub changed_assignments : List (String × String × String)
  pub transfer_productive_hours : N
  pub overtime_hours : N
  pub transfer_used : List String
  pub capacity : List (CapacityUse N)

-- A worker's offer of a slot: `(worker, capacity, is_overtime)`.
pub record Offer (N : Type 0) : Type 0 where
  pub worker : Worker
  pub capacity : N
  pub is_overtime : Bool

-- The assignment of one slot: the schedule, the workers that are taken, and the crews so far.
pub record Slot (N : Type 0) : Type 0 where
  pub schedule : Schedule N
  pub assigned_workers : List String
  pub crews : List (Task N × List (Offer N))

-- `sorted`: stable.
module _ {A : Type 0} (lt : A → A → Bool) where
  unfoldable pub insert_sorted : A → List A → List A
  insert_sorted x [] = x ∷ []
  insert_sorted x (y ∷ ys) =
      let rest = insert_sorted x ys in if lt y x then y ∷ rest else x ∷ y ∷ ys

  unfoldable pub sorted : List A → List A
  sorted [] = []
  sorted (x ∷ xs) = insert_sorted x (sorted xs)

-- `order.index(id) if id in order else len(order)`
unfoldable pub index_in : String → List String → ℕ
index_in id [] = 0
index_in id (x ∷ xs) = let rest = index_in id xs in if x == id then 0 else rest + 1

abbrev pub updated : {A : Type 0} → (String → A) → String → A → String → A
updated g id a j = if id == j then a else g j

abbrev pub offered_ids : {N : Type 0} → List (Offer N) → List String
offered_ids crew = map (λ o. o.worker.id) crew

module _ {N : Type 0} (f : Floats N) (sample : Sample N) where
  abbrev pub slot_at : ℕ → Interval
  slot_at slot_start = record { start = slot_start; end = slot_start + hour }

  abbrev pub project_priority : String → N
  project_priority project_id = elim (find? (λ p. p.id == project_id) sample.projects) [
    | none ↦ f.nought
    | some p ↦ p.priority
  ]

  -- `_task_sort_key`
  abbrev pub task_sort_key : Task N → SortKey N
  task_sort_key task = record {
    explicit_task_index = index_in task.id sample.prepared.task_order;
    explicit_project_index = index_in task.project_id sample.prepared.project_order;
    task_priority = sample.negate task.priority;
    project_priority = sample.negate (project_priority task.project_id);
    project_id = task.project_id;
    id = task.id;
  }

  -- A task's finish before the first slot.
  unfoldable pub initial_finish : Task N → Option ℕ
  initial_finish task = elim task.status [
    | done ↦ some (get_or task.completed_at sample.as_of)
    | canceled ↦ none
    | open_task ↦
        if f.leb (sample.draws task.id) f.epsilon
        then some (max (effective_earliest_start task sample.prepared) sample.as_of)
        else none
  ]

  abbrev pub finish_of : Option (Task N) → Option ℕ
  finish_of none = none
  finish_of (some task) = initial_finish task

  abbrev pub effort_of : Option (Task N) → N
  effort_of none = f.nought
  effort_of (some task) = if is_closed task.status then f.nought else sample.draws task.id

  abbrev pub start : Schedule N
  start = record {
    task_finishes = λ id. finish_of (task_by_id sample.tasks id);
    remaining = λ id. effort_of (task_by_id sample.tasks id);
    diagnostics = [];
    changed_assignments = [];
    transfer_productive_hours = f.nought;
    overtime_hours = f.nought;
    transfer_used = [];
    capacity = [];
  }

  -- The tasks of `unfinished_active`.
  unfoldable pub is_unfinished : Schedule N → Task N → Bool
  is_unfinished s task =
      not (is_closed task.status)
      && not (is_some (s.task_finishes task.id))
      && not (f.leb (s.remaining task.id) f.epsilon)

  unfoldable pub readiness_at : Schedule N → ℕ → Task N → Readiness
  readiness_at s slot_start task =
      task_readiness sample.tasks task s.task_finishes slot_start
        (effective_earliest_start task sample.prepared)
        (effective_material_ready_at task sample.prepared)

  unfoldable pub is_ready_at : Schedule N → ℕ → Task N → Bool
  is_ready_at s slot_start task =
      not (task_reserved sample.reservations task (slot_at slot_start))
      && is_ready (readiness_at s slot_start task)

  -- `ready_tasks`
  unfoldable pub ready_tasks : Schedule N → ℕ → List (Task N)
  ready_tasks s slot_start =
      filter (is_ready_at s slot_start) (filter (is_unfinished s) sample.tasks)

  abbrev pub waiting : String → Readiness → List Diagnostic
  waiting id predecessor = waiting_on_predecessor id ∷ []
  waiting id canceled_predecessor = canceled_predecessor_requires_waiver id ∷ []
  waiting id material = waiting_on_material_gate id ∷ []
  waiting id _ = []

  abbrev pub readiness_diagnostics : Schedule N → ℕ → Task N → List Diagnostic
  readiness_diagnostics s slot_start task =
      if task_reserved sample.reservations task (slot_at slot_start)
      then task_blocked_by_hard_reservation task.id ∷ []
      else waiting task.id (readiness_at s slot_start task)

  abbrev pub capacity_of : ℕ → Task N → Worker → N × Bool × Option String
  capacity_of slot_start task worker =
      worker_slot_capacity f sample.reservations worker task (slot_at slot_start) sample.prepared

  -- The two tests that a worker passes for a task in the slot.
  unfoldable pub is_offered : ℕ → Task N → Worker → Bool
  is_offered slot_start task worker =
      not (f.leb (capacity_of slot_start task worker).0 f.epsilon)
      && worker_can_do_task worker task sample.prepared (slot_at slot_start)

  abbrev pub offer_of : ℕ → Task N → Worker → Offer N
  offer_of slot_start task worker =
      let c = capacity_of slot_start task worker in
      record { worker = worker; capacity = c.0; is_overtime = c.1 }

  -- `task_worker_options[task.id]`
  unfoldable pub task_worker_options : ℕ → Task N → List (Offer N)
  task_worker_options slot_start task =
      map (offer_of slot_start task) (
        filter (is_offered slot_start task) (sorted (λ v w. sample.id_lt v.id w.id) sample.workers))
