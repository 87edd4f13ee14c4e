-- ===== src/Simulation/Calendar.antt =====
-- The hours that a worker can give to a task in one slot: the interval operations,
-- `_worker_slot_capacity`, `_worker_can_do_task` and what they call, in
-- apps/api/src/app/simulation/engine.py.
use intelliq.Simulation.Input.{
  Floats, Interval, Task, Worker, Reservation, TransferSpec, OvertimeSpec, PreparedTransfer,
  PreparedAction,
}
use intelliq.Prelude.{
  string_eq, nat_eq, option_eq, [], true, false, none, ℕ, ◌+◌, ◌-◌, ◌%◌, min, max, String, Bool,
  not, ◌&&◌, ◌||◌, Option, some, List, ◌∷◌, ltb, leb, if◌then◌else◌, is_some, any, find?, ◌==◌, mem,
  ◌≡◌,
}
use intelliq.Execution.Readback.{is_empty}

-- `_overlaps`
unfoldable pub overlaps : Interval → Interval → Bool
overlaps left right = ltb left.start right.end && ltb right.start left.end

-- `_interval_contained_by_any`
unfoldable pub interval_contained_by_any : Interval → List Interval → Bool
interval_contained_by_any interval candidates =
    any (λ item. leb item.start interval.start && leb interval.end item.end) candidates

-- `_has_worker_reservation`
unfoldable pub has_worker_reservation : List Reservation → String → Interval → Bool
has_worker_reservation reservations worker_id interval =
    any (λ r. (r.worker_id == some worker_id) && overlaps r.interval interval) reservations

-- `_active_transfer_for_worker`
unfoldable pub active_transfer_for_worker :
    PreparedAction → String → Interval → Option PreparedTransfer
active_transfer_for_worker prepared worker_id slot =
    find?
      (λ t.
        (t.spec.worker_id == worker_id)
        && overlaps slot (record { start = t.spec.starts_at; end = t.spec.ends_at }))
      prepared.transfers

-- `_worker_has_project`
unfoldable pub worker_has_project : Worker → String → Bool
worker_has_project worker project_id =
    (not (is_some worker.home_project_id) && is_empty worker.project_ids)
    || (some project_id == worker.home_project_id)
    || mem project_id worker.project_ids

-- Whether the transfer that the worker is on leads to the task.
unfoldable pub transfer_serves : {N : Type 0} → TransferSpec → Task N → Bool
transfer_serves spec task =
    (task.project_id == spec.to_project_id)
    && (is_empty spec.eligible_target_task_ids || mem task.id spec.eligible_target_task_ids)

-- The test of the specialty.
unfoldable pub has_specialty : {N : Type 0} → Worker → Task N → Bool
has_specialty worker task = elim task.required_specialty_id [
  | none ↦ true
  | some specialty ↦ mem specialty worker.specialties
]

-- `_worker_can_do_task`
unfoldable pub worker_can_do_task :
    {N : Type 0} → Worker → Task N → PreparedAction → Interval → Bool
worker_can_do_task worker task prepared slot =
    if not (has_specialty worker task)
    then false
    else elim (active_transfer_for_worker prepared worker.id slot) [
      | some transfer ↦ transfer_serves transfer.spec task
      | none ↦
          if is_empty task.assigned_worker_ids
          then worker_has_project worker task.project_id
          else mem worker.id task.assigned_worker_ids
    ]

-- `_baseline_worker_can_do_task`
unfoldable pub baseline_worker_can_do_task : {N : Type 0} → Worker → Task N → Bool
baseline_worker_can_do_task worker task =
    if not (has_specialty worker task)
    then false
    else if is_empty task.assigned_worker_ids
    then worker_has_project worker task.project_id
    else mem worker.id task.assigned_worker_ids

-- A worker who is on no transfer in the slot may do exactly the tasks of the baseline.
pub worker_can_do_task-baseline :
    {N : Type 0} (worker : Worker) (task : Task N) (prepared : PreparedAction) (slot : Interval)
    → active_transfer_for_worker prepared worker.id slot ≡ none
    → worker_can_do_task worker task prepared slot ≡ baseline_worker_can_do_task worker task
unfolding worker_can_do_task baseline_worker_can_do_task
worker_can_do_task-baseline worker task prepared slot h = rw h

-- `timedelta(days=1)`
abbrev pub one_day : ℕ
one_day = 86400000000

-- `_worker_shift_interval`
unfoldable pub worker_shift_interval : Worker → ℕ → Interval
worker_shift_interval worker day =
    let shift_start = worker.timezone.combine day worker.shift_start in
    let shift_end = worker.timezone.combine day worker.shift_end in
    record {
      start = shift_start;
      end = if leb shift_end shift_start then shift_end + one_day else shift_end;
    }

-- `date.weekday()` of an ordinal.
abbrev pub weekday : ℕ → ℕ
weekday day = (day + 6) % 7

-- The day whose shift the slot belongs to.
unfoldable pub shift_date : Worker → Interval → ℕ
shift_date worker slot =
    let day = worker.timezone.local_date slot.start in
    if ltb worker.shift_end worker.shift_start
      && ltb (worker.timezone.local_time slot.start) worker.shift_end
    then day - 1
    else day

module _ {N : Type 0} (f : Floats N) where
  -- `_overlap_hours`: a negative length of time counts as none.
  unfoldable pub overlap_hours : Interval → Interval → N
  overlap_hours left right = f.hours (min left.end right.end - max left.start right.start)

  -- `_normal_calendar_capacity`
  unfoldable pub normal_calendar_capacity : Worker → Interval → N
  unfolding overlap_hours
  normal_calendar_capacity worker slot =
      let day = shift_date worker slot in
      if mem (weekday day) worker.working_weekdays
      then f.min f.one (overlap_hours slot (worker_shift_interval worker day))
      else f.nought

  -- The loop of `_overtime_calendar_capacity`.
  unfoldable pub overtime_hours_of : Worker → List OvertimeSpec → Interval → N → N
  overtime_hours_of worker [] slot capacity = capacity
  overtime_hours_of worker (item ∷ items) slot capacity = overtime_hours_of worker items slot (
      if item.worker_id == worker.id
      then f.max capacity
          (overlap_hours slot (record { start = item.starts_at; end = item.ends_at }))
      else capacity)

  unfoldable pub overtime_calendar_capacity : Worker → List OvertimeSpec → Interval → N
  overtime_calendar_capacity worker overtime slot =
      f.min f.one (overtime_hours_of worker overtime slot f.nought)

  -- The capacity, whether it is overtime, and the worker of the transfer that decides it.
  abbrev pub Capacity : Type 0
  Capacity = N × Bool × Option String

  unfoldable pub transfer_capacity : PreparedTransfer → Task N → Interval → Capacity
  transfer_capacity transfer task slot =
      let overlap =
        overlap_hours slot
          (record { start = transfer.productive_start; end = transfer.productive_end }) in
      if f.leb overlap f.epsilon || not (transfer_serves transfer.spec task)
      then (f.nought, false, some transfer.spec.worker_id)
      else (f.min f.one overlap, false, some transfer.spec.worker_id)

  unfoldable pub calendar_capacity : N → N → Capacity
  calendar_capacity normal overtime =
      if f.leb normal f.epsilon && f.leb overtime f.epsilon
      then (f.nought, false, none)
      else if f.leb overtime normal
      then (normal, false, none)
      else (overtime, true, none)

  -- `_worker_slot_capacity`
  unfoldable pub worker_slot_capacity :
      List Reservation → Worker → Task N → Interval → PreparedAction → Capacity
  worker_slot_capacity reservations worker task slot prepared =
      if not worker.active || has_worker_reservation reservations worker.id slot
      then (f.nought, false, none)
      else elim (active_transfer_for_worker prepared worker.id slot) [
        | some transfer ↦ transfer_capacity transfer task slot
        | none ↦
            calendar_capacity (normal_calendar_capacity worker slot)
              (overtime_calendar_capacity worker prepared.overtime slot)
      ]
