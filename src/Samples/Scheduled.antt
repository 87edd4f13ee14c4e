-- ===== src/Samples/Scheduled.antt =====
-- A sample of apps/api/src/app/simulation/engine.py with two tasks and two workers.
use intelliq.Simulation.Calendar.{
  has_worker_reservation, active_transfer_for_worker, worker_has_project, has_specialty,
  worker_can_do_task, worker_shift_interval, shift_date, overlap_hours, normal_calendar_capacity,
  overtime_hours_of, overtime_calendar_capacity, calendar_capacity, worker_slot_capacity,
}
use intelliq.Simulation.Sample.Finishes.{Given, run_sample-task_finishes}
use intelliq.Simulation.Sample.Crews.{roster, IsStaffed, run_slot-NoRepeats}
use intelliq.Simulation.Sample.Slots.{
  run_slot, run_sample, with_crew, total, progressed, employ, assign, assign_all, run_slots,
}
use intelliq.Simulation.Sample.{
  Sample, initial_finish, start, insert_sorted, sorted, is_unfinished, readiness_at, is_ready_at,
  ready_tasks, is_offered, task_worker_options,
}
use intelliq.Simulation.Readiness.{
  effective_earliest_start, task_by_id, hour, latest_shift, confirmed_material,
  effective_material_ready_at, predecessor_readiness, task_readiness, task_reserved, slot_starts,
}
use intelliq.Simulation.Input.{Floats, Zone, Task, Worker, open_task, done}
use intelliq.Prelude.{
  NoRepeats, string_eq, nat_eq, [], ℕ, ◌+◌, ◌-◌, ◌*◌, ◌≤◌, min, max, String, ◌≡◌, refl, ◌⊎◌, true,
  false, none, some, List, ◌∷◌, map, arith, leb, find?, All, Member, any, filter, mem,
}

-- Microseconds stand for the floats.
abbrev micros : Floats ℕ
micros = record {
  nought = 0;
  one = hour;
  epsilon = 0;
  plus = λ a b. a + b;
  minus = λ a b. a - b;
  times = λ a b. a;
  leb = λ a b. leb a b;
  min = λ a b. min a b;
  max = λ a b. max a b;
  hours = λ a. a;
}

abbrev clock : Zone
clock = record { local_date = λ t. 1; local_time = λ t. t; combine = λ day t. t }

abbrev worker : String → Worker
worker id = record {
  id = id;
  specialties = [];
  home_project_id = some "p";
  project_ids = [];
  working_weekdays = 0 ∷ [];
  shift_start = 0;
  shift_end = 5 * hour;
  timezone = clock;
  active = true;
}

abbrev task : String → List String → Task ℕ
task id predecessors = record {
  id = id;
  project_id = "p";
  status = open_task;
  predecessor_ids = predecessors;
  required_specialty_id = none;
  min_crew = 1;
  max_crew = 1;
  earliest_start_at = 0;
  planned_start_at = none;
  material_ready_at = none;
  assigned_worker_ids = [];
  priority = 1;
  completed_at = none;
}

abbrev site : Sample ℕ
site = record {
  as_of = 0;
  projects = record { id = "p"; priority = 1 } ∷ [];
  tasks = task "dig" [] ∷ task "pour" ("dig" ∷ []) ∷ [];
  workers = worker "a" ∷ worker "b" ∷ [];
  reservations = [];
  prepared = record {
    project_order = [];
    task_order = [];
    transfers = [];
    overtime = [];
    date_shifts = [];
    materials = [];
  };
  draws = λ id. hour;
  workability = λ t slot. hour;
  negate = λ n. n;
  id_lt = λ x y. false;
  key_lt = λ x y. false;
}

-- The same site with one worker and one task left, whose predecessor is done.
abbrev last_task : Sample ℕ
last_task = record site {
  tasks =
      record (task "dig" []) { status = done; completed_at = some 0 }
      ∷ task "pour" ("dig" ∷ [])
      ∷ [];
  workers = worker "a" ∷ [];
}

poured : (run_sample micros last_task hour).task_finishes "pour" ≡ some hour
unfolding run_sample filter is_unfinished task_by_id find? initial_finish sorted ready_tasks
    is_ready_at task_reserved any readiness_at task_readiness effective_earliest_start latest_shift
    effective_material_ready_at confirmed_material predecessor_readiness mem
    active_transfer_for_worker calendar_capacity has_specialty has_worker_reservation
    normal_calendar_capacity overlap_hours overtime_calendar_capacity overtime_hours_of shift_date
    worker_can_do_task worker_has_project worker_shift_interval worker_slot_capacity slot_starts
    is_offered task_worker_options insert_sorted run_slot run_slots assign assign_all employ
    progressed with_crew total
poured = refl

run_sample-task_finishes_example :
    ((t : Task ℕ) × (task_by_id last_task.tasks "pour" ≡ some t) × Given micros last_task t hour)
    ⊎ ((t : Task ℕ) × Member t last_task.tasks
        × (t.id ≡ "pour")
        × (effective_earliest_start t last_task.prepared + hour ≤ hour)
        × All
            (λ p.
              (g : ℕ) × ((run_sample micros last_task hour).task_finishes p ≡ some g)
              × (g + hour ≤ hour))
            t.predecessor_ids)
run_sample-task_finishes_example = run_sample-task_finishes micros last_task hour "pour" hour poured

distinct_workers : NoRepeats (map (λ w. w.id) site.workers)
unfolding mem
distinct_workers = (refl, (refl, tt))

run_slot-NoRepeats_example :
    NoRepeats (roster (run_slot micros site (start micros site) 0).crews)
    × All (IsStaffed micros site 0) (run_slot micros site (start micros site) 0).crews
run_slot-NoRepeats_example =
    run_slot-NoRepeats micros site 0 (start micros site) distinct_workers
      (omega arith, (omega arith, tt))

abbrev finished_site : Sample ℕ
finished_site = record site {
  tasks = record (task "dig" []) { status = done; completed_at = some 7 } ∷ [];
}

dug : (start micros finished_site).task_finishes "dig" ≡ some 7
unfolding initial_finish task_by_id find?
dug = refl

no_transfer :
    active_transfer_for_worker site.prepared (worker "a").id (record { start = 0; end = hour })
    ≡ none
unfolding active_transfer_for_worker find?
no_transfer = refl
