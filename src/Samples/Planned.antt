-- ===== src/Samples/Planned.antt =====
-- Planning inputs of apps/api/src/app/domain with two tasks that wait for each other, and a schedule
-- of apps/api/src/app/workers/scheduler.py.
use intelliq.Simulation.Input.{open_task}
use intelliq.Jobs.Schedule.Laws.{IsTime, due_at-next_dispatch_local}
use intelliq.Jobs.Schedule.{
  Time, LocalTime, Calendar, Schedule, day, reading, before_publication, publication_time,
  dispatch_time, due_at, next_dispatch_local, checkpoint,
}
use intelliq.Simulation.Readiness.{task_by_id}
use intelliq.Simulation.Validation.{
  GraphError, edges_of, check_tasks, validate_task_graph, validate_task_graph-Walk,
  predecessor_cycle,
}
use intelliq.Graph.Fuel.{search-returns}
use intelliq.Graph.Paths.{Walk}
use intelliq.Graph.{search, out_of_fuel}
use intelliq.Domain.Status.{Project}
use intelliq.Domain.Readiness.Laws.{readiness_issues-IsReady}
use intelliq.Domain.Readiness.{Task, readiness_issues, IsReady}
use intelliq.Domain.Cycles.{graph_edges, has_cycle, has_cycle_iff}
use intelliq.Simulation.Input
use Prim.Native.Char.{nul}
use intelliq.Prelude.{
  string_eq, [], ℕ, zero, suc, ◌+◌, ◌/◌, ◌%◌, ◌≤◌, ◌<◌, String, ◌≡◌, refl, ap, subst, ◌≢◌, ◌↔◌, ◌⊎◌,
  inl, inr, true, false, Option, none, some, List, ◌∷◌, arith, ltb, if◌then◌else◌, Bool-cases,
  is_some, All, ◌==◌, ok, err,
}

abbrev dig : Task
dig = record {
  id = some "dig";
  project_id = some "p";
  remaining_person_hours =
      some (record { optimistic = true; most_likely = true; pessimistic = true });
  predecessor_ids = "pour" ∷ [];
}

abbrev circle : List Task
circle = dig ∷ record dig { id = some "pour"; predecessor_ids = "dig" ∷ [] } ∷ []

has_cycle_iff_example :
    ((has_cycle circle ≡ true) → (a : String) × Walk (graph_edges circle) a a)
    × ((a : String) → Walk (graph_edges circle) a a → has_cycle circle ≡ true)
has_cycle_iff_example = has_cycle_iff circle

abbrev site : List Project
site =
    record {
      id = some "p";
      name = some "Site";
      status = none;
      target_finish_at = some "2026-05-01";
    }
    ∷ []

readiness_issues-IsReady_example :
    (readiness_issues true site circle ≡ []) ↔ IsReady true site circle
readiness_issues-IsReady_example = readiness_issues-IsReady true site circle

abbrev loop_edges : String → List String
loop_edges id = "dig" ∷ "pour" ∷ []

search-returns_example : search loop_edges 3 ("dig" ∷ "pour" ∷ []) ≢ out_of_fuel
search-returns_example = search-returns loop_edges ("dig" ∷ "pour" ∷ []) (λ a b m. m)

abbrev step : String → String → Input.Task ℕ
step id predecessor = record {
  id = id;
  project_id = "p";
  status = open_task;
  predecessor_ids = predecessor ∷ [];
  required_specialty_id = none;
  min_crew = 1;
  max_crew = 1;
  earliest_start_at = 0;
  planned_start_at = none;
  material_ready_at = none;
  assigned_worker_ids = [];
  priority = 1;
  completed_at = none;
}

abbrev steps : List (Input.Task ℕ)
steps = step "dig" "pour" ∷ step "pour" "dig" ∷ []

validate_task_graph-Walk_example :
    ((validate_task_graph (λ x y. false) steps ≡ ok tt)
      × All (λ t. All (λ p. is_some (task_by_id steps p) ≡ true) t.predecessor_ids) steps
      × ((a : String) → Walk (edges_of steps) a a → ⊥))
    ⊎ ((validate_task_graph (λ x y. false) steps ≡ err predecessor_cycle)
        × (a : String) × Walk (edges_of steps) a a)
    ⊎ ((e : GraphError) × (check_tasks steps steps ≡ err e)
        × (validate_task_graph (λ x y. false) steps ≡ err e))
validate_task_graph-Walk_example = validate_task_graph-Walk (λ x y. false) steps

-- A calendar whose clock shows UTC, and which reads two texts.
abbrev pub read_time : String → Option Time
read_time text =
    if text == "06:00"
    then some (record { hour = 6; minute = 0 })
    else (if text == "00:05" then some (record { hour = 0; minute = 5 }) else none)

abbrev pub dated : ℕ → String
dated zero = ""
dated (suc n) = String.◌∷◌ nul (dated n)

abbrev pub utc : Calendar
utc = record {
  zone_info = λ name. true;
  astimezone = λ name now. record { date = now / day; microseconds = now % day };
  to_utc = λ name t. reading t;
  time_from_isoformat = read_time;
  isoformat = dated;
}

abbrev pub early : Schedule
early = record { timezone = none; analysis_time = some "00:05"; last_run_local_date = none }

some-eq : {a b : Time} → ◌≡◌ {A = Option Time} (some a) (some b) → a ≡ b
some-eq p = cc

read_time-IsTime : (text : String) (t : Time) → read_time text ≡ some t → IsTime t
read_time-IsTime text t h = elim (Bool-cases (text == "06:00")) [
  | inl p ↦ subst IsTime (some-eq (rw p at h)) (omega arith, omega arith)
  | inr p ↦ elim (Bool-cases (text == "00:05")) [
    | inl q ↦ subst IsTime (some-eq (rw q at (rw p at h))) (omega arith, omega arith)
    | inr q ↦ absurd (nothing (rw q at (rw p at h)))
  ]
]
  where
    nothing : none ≡ some t → ⊥
    nothing q = cc

dated-injective : (a b : ℕ) → dated a ≡ dated b → a ≡ b
dated-injective zero zero h = refl
dated-injective zero (suc b) h = cc
dated-injective (suc a) zero h = cc
dated-injective (suc a) (suc b) h = ap suc (dated-injective a b (tails h))
  where
    tails : {s t : String} → String.◌∷◌ nul s ≡ String.◌∷◌ nul t → s ≡ t
    tails p = cc

abbrev at : ℕ → ℕ → LocalTime
at date microseconds = record { date = date; microseconds = microseconds }

due_now : due_at utc early (at 2 60000000) ≡ some 2
unfolding due_at dispatch_time publication_time before_publication
due_now = refl

due_at-next_dispatch_local_example :
    (due_at utc (checkpoint utc early 2) (at 3 0) ≡ (
      if ltb (reading (at 3 0)) (reading (next_dispatch_local utc early (at 2 60000000)))
      then none
      else some 3))
    × (reading (at 2 60000000) < reading (next_dispatch_local utc early (at 2 60000000)))
    × (reading (next_dispatch_local utc early (at 2 60000000)) ≤ reading (at 2 60000000) + day)
due_at-next_dispatch_local_example =
    due_at-next_dispatch_local utc dated-injective early (at 2 60000000) (at 3 0) 2 due_now
      (omega arith) (omega arith) (omega arith) (omega arith)
