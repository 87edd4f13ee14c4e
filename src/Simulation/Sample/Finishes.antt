-- ===== src/Simulation/Sample/Finishes.antt =====
-- What the schedule of a sample says of the finishes of its tasks.
use intelliq.Simulation.Sample.Precedence.{Ready, Grown, run_slot-Grown}
use intelliq.Simulation.Sample.Slots.{run_slot, run_slots, run_sample}
use intelliq.Simulation.Sample.{Sample, Schedule, start, is_unfinished, initial_finish}
use intelliq.Simulation.Readiness.{effective_earliest_start, hour, task_by_id}
use intelliq.Simulation.Input.{Floats, Task, TaskStatus, done, canceled, open_task}
use intelliq.Prelude.{
  string_eq, nat_eq, option_eq, [], ℕ, ◌+◌, ◌≤◌, String, ◌≡◌, sym, ap, ◌∙◌, ◌⊎◌, inl, inr, true,
  Option, none, some, List, ◌∷◌, map, arith, Bool-cases, filter, mem, All, Member, mem-All, max,
  get_or, refl, Option-cases,
}
use intelliq.Execution.Readback.{is_empty}

status_cases : (status : TaskStatus) → (status ≡ done) ⊎ (status ≡ canceled) ⊎ (status ≡ open_task)
status_cases done = inl refl
status_cases canceled = inr (inl refl)
status_cases open_task = inr (inr refl)

module _ {N : Type 0} (f : Floats N) (sample : Sample N) where
  -- The finish was set by the loop: the task was not early, and every predecessor had finished an
  -- hour before.
  pub record Scheduled (finishes : String → Option ℕ) (id : String) (finish : ℕ) : Type 0 where
    pub task : Task N
    pub member : Member task sample.tasks
    pub same : task.id ≡ id
    pub due : effective_earliest_start task sample.prepared + hour ≤ finish
    pub after :
        (p : String)
        → mem p task.predecessor_ids ≡ true
        → (g : ℕ) × (finishes p ≡ some g) × (g + hour ≤ finish)

  -- Every finish is the initial one, or set by the loop.
  abbrev pub IsOrdered : Schedule N → Type 0
  IsOrdered s =
      (id : String) (finish : ℕ)
      → s.task_finishes id ≡ some finish
      → ((start f sample).task_finishes id ≡ some finish) ⊎ Scheduled s.task_finishes id finish

  same_finish : {x y : ℕ} → ◌≡◌ {A = Option ℕ} (some x) (some y) → x ≡ y
  same_finish h = cc

  kept_finish :
      (s : Schedule N) (slot : ℕ) (finishes : String → Option ℕ) (id : String) (g : ℕ)
      → Grown f sample s slot finishes
      → s.task_finishes id ≡ some g
      → finishes id ≡ some g
  kept_finish s slot finishes id g grown h = elim (grown id) [
    | inl same ↦ same ∙ h
    | inr (task, same, r, set) ↦ absurd (finished task same r)
  ]
    where
      both : {x : ℕ} → ◌≡◌ {A = Option ℕ} none (some x) → ⊥
      both p = cc

      finished : (task : Task N) → task.id ≡ id → Ready f sample s slot task → ⊥
      finished task same r = both (sym r.unfinished ∙ ap s.task_finishes same ∙ h)

  slot_end : (a slot finish : ℕ) → a ≤ slot → slot + hour ≡ finish → a + hour ≤ finish
  slot_end a slot finish h p = omega arith

  run_slot-IsOrdered :
      (s : Schedule N) (slot : ℕ) → IsOrdered s → IsOrdered (run_slot f sample s slot).schedule
  run_slot-IsOrdered s slot h id finish e =
      let grown = run_slot-Grown f sample s slot in
      let after' = (run_slot f sample s slot).schedule.task_finishes in
      elim (grown id) [
        | inl same ↦ elim (h id finish (sym same ∙ e)) [
          | inl first ↦ inl first
          | inr d ↦ inr (record {
            task = d.task;
            member = d.member;
            same = d.same;
            due = d.due;
            after = λ p m.
                let (g, found, early) = d.after p m in
                (g, kept_finish s slot after' p g grown found, early);
          })
        ]
        | inr (task, same, r, set) ↦
            let at_end = same_finish (sym set ∙ e) in
            inr (record {
              task = task;
              member = r.member;
              same = same;
              due = slot_end _ slot finish r.due at_end;
              after = λ p m.
                  let (g, found, early) = r.after p m in
                  (
                    g,
                    kept_finish s slot after' p g grown found,
                    slot_end g slot finish early at_end,
                  );
            })
      ]

  run_slots-IsOrdered :
      (slots : List ℕ) (s : Schedule N) → IsOrdered s → IsOrdered (run_slots f sample slots s)
  unfolding run_slots
  run_slots-IsOrdered [] s h = h
  run_slots-IsOrdered (slot ∷ slots) s h =
      elim (Bool-cases
        (is_empty (map (λ t. t.id) (filter (is_unfinished f sample s) sample.tasks)))) [
          | inl over ↦ rw (over, run_slots) h
          | inr more ↦
              rw (more, run_slots)
                (run_slots-IsOrdered slots (run_slot f sample s slot).schedule
                  (run_slot-IsOrdered s slot h))
        ]

  run_sample-IsOrdered : (horizon_end : ℕ) → IsOrdered (run_sample f sample horizon_end)
  unfolding run_sample
  run_sample-IsOrdered horizon_end = run_slots-IsOrdered _ (start f sample) (λ id finish e. inl e)

  -- A finish that was set before the first slot: a done task's own, or that of an open task whose
  -- effort is within the tolerance.
  abbrev pub Given : Task N → ℕ → Type 0
  Given task finish =
      ((task.status ≡ done) × (finish ≡ get_or task.completed_at sample.as_of))
      ⊎ ((task.status ≡ open_task)
          × (f.leb (sample.draws task.id) f.epsilon ≡ true)
          × (finish ≡ max (effective_earliest_start task sample.prepared) sample.as_of))

  initial_finish-Given :
      (task : Task N) (finish : ℕ) → initial_finish f sample task ≡ some finish → Given task finish
  unfolding initial_finish effective_earliest_start
  initial_finish-Given task finish h = elim (status_cases task.status) [
    | inl is_done ↦ inl (is_done, sym (same_finish (rw is_done at h)))
    | inr (inl is_canceled) ↦ absurd (nothing (rw is_canceled at h))
    | inr (inr is_open) ↦ elim (Bool-cases (f.leb (sample.draws task.id) f.epsilon)) [
      | inl small ↦ inr (is_open, small, sym (same_finish (rw small at (rw is_open at h))))
      | inr large ↦ absurd (nothing (rw large at (rw is_open at h)))
    ]
  ]
    where
      nothing : {x : ℕ} → ◌≡◌ {A = Option ℕ} none (some x) → ⊥
      nothing p = cc

  start-Given :
      (id : String) (finish : ℕ)
      → (start f sample).task_finishes id ≡ some finish
      → (task : Task N) × (task_by_id sample.tasks id ≡ some task) × Given task finish
  start-Given id finish h = elim (Option-cases (task_by_id sample.tasks id)) [
    | inl unknown ↦ absurd (nothing (rw unknown at h))
    | inr (task, found) ↦ (task, found, initial_finish-Given task finish (rw found at h))
  ]
    where
      nothing : {x : ℕ} → ◌≡◌ {A = Option ℕ} none (some x) → ⊥
      nothing p = cc

  -- A finish in the schedule of a sample is one of three: the completion of a done task; that of an
  -- open task whose effort is within the tolerance, which is the later of its earliest start and the
  -- beginning, whatever its predecessors do; or it is at least an hour after the task's earliest
  -- start, and each of the task's predecessors has a finish at least an hour before it.
  pub run_sample-task_finishes :
      (horizon_end : ℕ) (id : String) (finish : ℕ)
      → (run_sample f sample horizon_end).task_finishes id ≡ some finish
      → ((task : Task N) × (task_by_id sample.tasks id ≡ some task) × Given task finish)
        ⊎ ((task : Task N) × Member task sample.tasks
            × (task.id ≡ id)
            × (effective_earliest_start task sample.prepared + hour ≤ finish)
            × All
                (λ p.
                  (g : ℕ) × ((run_sample f sample horizon_end).task_finishes p ≡ some g)
                  × (g + hour ≤ finish))
                task.predecessor_ids)
  run_sample-task_finishes horizon_end id finish h =
      elim (run_sample-IsOrdered horizon_end id finish h) [
        | inl first ↦ inl (start-Given id finish first)
        | inr d ↦ inr (d.task, d.member, d.same, d.due, mem-All d.task.predecessor_ids d.after)
      ]

  run_slots-keeps :
      (slots : List ℕ) (s : Schedule N) (id : String) (g : ℕ)
      → s.task_finishes id ≡ some g
      → (run_slots f sample slots s).task_finishes id ≡ some g
  unfolding run_slots
  run_slots-keeps [] s id g h = h
  run_slots-keeps (slot ∷ slots) s id g h =
      elim (Bool-cases
        (is_empty (map (λ t. t.id) (filter (is_unfinished f sample s) sample.tasks)))) [
          | inl over ↦ rw (over, run_slots) h
          | inr more ↦
              rw (more, run_slots)
                (run_slots-keeps slots (run_slot f sample s slot).schedule id g
                  (kept_finish s slot _ id g (run_slot-Grown f sample s slot) h))
        ]

  -- The finish that a task has before the first slot, done or without effort, is the finish that
  -- the schedule reports.
  pub run_sample-start :
      (horizon_end : ℕ) (id : String) (g : ℕ)
      → (start f sample).task_finishes id ≡ some g
      → (run_sample f sample horizon_end).task_finishes id ≡ some g
  unfolding run_sample
  run_sample-start horizon_end id g h = run_slots-keeps _ (start f sample) id g h
