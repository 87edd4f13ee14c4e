-- ===== src/Simulation/Sample/Slots.antt =====
-- The slots of `_run_sample` in apps/api/src/app/simulation/engine.py: what is noted about the
-- ready tasks, the assignment of crews in the order of the sort keys, and the loop over the slots.
use intelliq.Simulation.Sample.{
  Sample, Diagnostic, Schedule, Offer, Slot, sorted, updated, offered_ids, slot_at, task_sort_key,
  start, is_unfinished, ready_tasks, readiness_diagnostics, capacity_of, is_offered,
  task_worker_options, task_stop_work_gate, shared_worker_contention, crew_below_minimum,
  transfer_donor_capacity_reserved, unavailable_specialty_capacity,
  task_exposed_to_reduced_workability,
}
use intelliq.Simulation.Readiness.{hour, slot_starts}
use intelliq.Simulation.Calendar.{active_transfer_for_worker}
use intelliq.Simulation.Input.{Floats, Task, Worker, PreparedTransfer}
use intelliq.Prelude.{
  string_eq, nat_eq, option_eq, [], ℕ, ◌+◌, ◌-◌, String, Bool, true, false, not, ◌&&◌, Option, none,
  some, List, ◌∷◌, ◌++◌, map, ltb, if◌then◌else◌, is_some, length, take, any, filter, ◌==◌, mem,
}
use intelliq.Execution.Readback.{is_empty}

-- How often a worker is offered.
unfoldable pub count : String → List String → ℕ
count id [] = 0
count id (x ∷ xs) = let rest = count id xs in if x == id then rest + 1 else rest

unfoldable pub gathered : {A B : Type 0} → (A → List B) → List A → List B
gathered g [] = []
gathered g (t ∷ ts) = g t ++ gathered g ts

unfoldable pub contention : List String → List Worker → List Diagnostic
contention offered [] = []
contention offered (w ∷ ws) =
    let rest = contention offered ws in
    if ltb 1 (count w.id offered) then shared_worker_contention w.id ∷ rest else rest

abbrev pub noted : {N : Type 0} → Schedule N → List Diagnostic → Schedule N
noted s ds = record s { diagnostics = ds ++ s.diagnostics }

abbrev pub serves_transfer : {N : Type 0} → Option PreparedTransfer → Task N → Bool
serves_transfer none task = false
serves_transfer (some t) task = task.project_id == t.spec.to_project_id

-- A task without enough options.
abbrev pub understaffed : {N : Type 0} → Task N → List (Offer N) → Slot N → Slot N
understaffed task [] st = st
understaffed task (o ∷ os) st = record st {
  schedule = noted st.schedule (crew_below_minimum task.id ∷ []);
}

module _ {N : Type 0} (f : Floats N) (sample : Sample N) where
  -- The transfers that are used by offers: the workers of `transfer_id`.
  unfoldable pub offered_transfers : ℕ → Task N → List Worker → List String
  offered_transfers slot_start task [] = []
  offered_transfers slot_start task (w ∷ ws) =
      let rest = offered_transfers slot_start task ws in
      if is_offered f sample slot_start task w
      then (elim (capacity_of f sample slot_start task w).2 [ none ↦ rest | some t ↦ t ∷ rest ])
      else rest

  -- What is noted about a ready task before crews are assigned.
  unfoldable pub option_diagnostics : ℕ → Task N → List Diagnostic
  option_diagnostics slot_start task =
      (elim task.required_specialty_id [
        | none ↦ []
        | some specialty ↦
            if is_empty (map (λ o. o.worker.id) (task_worker_options f sample slot_start task))
              && not (any (λ w. w.active && mem specialty w.specialties) sample.workers)
            then unavailable_specialty_capacity task.id specialty ∷ []
            else []
      ])
      ++ (if f.leb (f.minus f.one f.epsilon) (sample.workability task (slot_at f sample slot_start))
          then []
          else task_exposed_to_reduced_workability task.id ∷ [])

  -- The schedule once the ready tasks and their options are known.
  unfoldable pub opened : Schedule N → ℕ → Schedule N
  opened s slot_start =
      let tasks = ready_tasks f sample s slot_start in
      let offered = gathered (λ t. offered_ids (task_worker_options f sample slot_start t)) tasks in
      record s {
        diagnostics =
            gathered (readiness_diagnostics f sample s slot_start)
              (filter (is_unfinished f sample s) sample.tasks)
            ++ gathered (option_diagnostics slot_start) tasks
            ++ contention offered sample.workers
            ++ s.diagnostics;
        transfer_used =
            gathered (λ t. offered_transfers slot_start t sample.workers) tasks ++ s.transfer_used;
      }

  abbrev pub transfer_of : ℕ → Offer N → Option PreparedTransfer
  transfer_of slot_start o =
      active_transfer_for_worker sample.prepared o.worker.id (slot_at f sample slot_start)

  -- What one member of the crew adds.
  abbrev pub with_member : ℕ → Task N → N → Schedule N → Offer N → Schedule N
  with_member slot_start task workability s o =
      let served = serves_transfer (transfer_of slot_start o) task in
      record s {
        capacity =
            record {
              project_id = task.project_id;
              slot_start = slot_start;
              used = o.capacity;
              effective = f.times o.capacity workability;
              is_overtime = o.is_overtime;
              by_transfer = served;
            }
            ∷ s.capacity;
        overtime_hours =
            if o.is_overtime then f.plus s.overtime_hours o.capacity else s.overtime_hours;
        transfer_productive_hours =
            if served
            then f.plus s.transfer_productive_hours o.capacity
            else s.transfer_productive_hours;
        changed_assignments =
            if served
            then (o.worker.id, task.id, task.project_id) ∷ s.changed_assignments
            else s.changed_assignments;
        diagnostics =
            if is_some (transfer_of slot_start o) && not served
            then transfer_donor_capacity_reserved task.id o.worker.id ∷ s.diagnostics
            else s.diagnostics;
      }

  unfoldable pub with_crew : ℕ → Task N → N → Schedule N → List (Offer N) → Schedule N
  with_crew slot_start task workability s [] = s
  with_crew slot_start task workability s (o ∷ os) =
      with_crew slot_start task workability (with_member slot_start task workability s o) os

  -- `sum(option[1] for option in crew)`
  unfoldable pub total : N → List (Offer N) → N
  total acc [] = acc
  total acc (o ∷ os) = total (f.plus acc o.capacity) os

  -- The end of the round: the effort that is left, and the finish if there is none.
  unfoldable pub progressed : ℕ → Task N → N → Schedule N → Schedule N
  progressed slot_start task productive s =
      let left = f.max f.nought (f.minus (s.remaining task.id) productive) in
      record s {
        remaining = updated s.remaining task.id left;
        task_finishes =
            if f.leb left f.epsilon
            then updated s.task_finishes task.id (some (slot_start + hour))
            else s.task_finishes;
      }

  abbrev pub worked : ℕ → Task N → List (Offer N) → N → N → Slot N → Slot N
  worked slot_start task crew workability productive st = record {
    schedule =
        progressed slot_start task productive
          (with_crew slot_start task workability st.schedule crew);
    assigned_workers = offered_ids crew ++ st.assigned_workers;
    crews = (task, crew) ∷ st.crews;
  }

  -- A crew that is large enough.
  unfoldable pub employ : ℕ → Task N → List (Offer N) → Slot N → Slot N
  employ slot_start task crew st =
      let workability = sample.workability task (slot_at f sample slot_start) in
      let productive = f.times (total f.nought crew) workability in
      if f.leb workability f.epsilon
      then record st { schedule = noted st.schedule (task_stop_work_gate task.id ∷ []) }
      else if f.leb productive f.epsilon
      then st
      else worked slot_start task crew workability productive st

  abbrev pub free_options : ℕ → Task N → Slot N → List (Offer N)
  free_options slot_start task st =
      filter (λ o. not (mem o.worker.id st.assigned_workers))
        (task_worker_options f sample slot_start task)

  -- One round of the loop over the sorted ready tasks.
  unfoldable pub assign : ℕ → Task N → Slot N → Slot N
  unfolding employ
  assign slot_start task st =
      let options = free_options slot_start task st in
      if ltb (length options) task.min_crew
      then understaffed task options st
      else employ slot_start task (take task.max_crew options) st

  unfoldable pub assign_all : ℕ → List (Task N) → Slot N → Slot N
  unfolding assign
  assign_all slot_start [] st = st
  assign_all slot_start (t ∷ ts) st = assign_all slot_start ts (assign slot_start t st)

  -- One slot.
  unfoldable pub run_slot : Schedule N → ℕ → Slot N
  unfolding assign_all opened
  run_slot s slot_start =
      assign_all slot_start
        (sorted (λ t u. sample.key_lt (task_sort_key f sample t) (task_sort_key f sample u))
          (ready_tasks f sample s slot_start))
        (record { schedule = opened s slot_start; assigned_workers = []; crews = [] })

  -- The loop, which ends early when no task is unfinished.
  unfoldable pub run_slots : List ℕ → Schedule N → Schedule N
  unfolding run_slot
  run_slots [] s = s
  run_slots (slot_start ∷ slots) s =
      elim (is_empty (map (λ t. t.id) (filter (is_unfinished f sample s) sample.tasks))) [
        | true ↦ s
        | false ↦ run_slots slots (run_slot s slot_start).schedule
      ]

  unfoldable pub run_sample : ℕ → Schedule N
  unfolding run_slots slot_starts
  run_sample horizon_end =
      run_slots (slot_starts (horizon_end - sample.as_of) sample.as_of horizon_end) (start f sample)
