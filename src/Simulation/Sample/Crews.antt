-- ===== src/Simulation/Sample/Crews.antt =====
-- The crews that one slot of a sample employs.
use intelliq.Simulation.Sample.Precedence.{All-sorted}
use intelliq.Simulation.Sample.Rosters.{
  NoRepeats-filter, NoRepeats-take, NoRepeats-sorted, NoRepeats-append, length-take-ge,
}
use intelliq.Simulation.Sample.Slots.{
  understaffed, opened, total, employ, free_options, assign, assign_all, run_slot,
}
use intelliq.Simulation.Sample.{
  Sample, Schedule, Offer, Slot, offered_ids, slot_at, is_unfinished, is_ready_at, ready_tasks,
  is_offered, offer_of, task_worker_options,
}
use intelliq.Simulation.Input.{Floats, Task, Worker}
use intelliq.Prelude.{
  All-take, NoRepeats, string_eq, nat_eq, option_eq, [], ℕ, ◌≤◌, String, ◌≡◌, refl, sym, ap, subst,
  inl, inr, Bool, true, false, not, List, ◌∷◌, ◌++◌, map, arith, ltb, Bool-cases, length, take, All,
  length-take-le, All-map, All-filter, filter-holds, mem,
}

not_below : (a b : ℕ) → ltb a b ≡ false → b ≤ a
not_below a b h = ground arith

flipped : (b : Bool) → not b ≡ true → b ≡ false
flipped b h = ground arith

module _ {N : Type 0} where
  -- The workers of the crews.
  abbrev pub roster : List (Task N × List (Offer N)) → List String
  roster [] = []
  roster ((t, crew) ∷ crews) = offered_ids crew ++ roster crews

  All-free :
      (taken : List String) (os : List (Offer N))
      → All (λ o. not (mem o.worker.id taken) ≡ true) os
      → All (λ x. mem x taken ≡ false) (offered_ids os)
  All-free taken [] h = tt
  All-free taken (o ∷ os) h = (flipped _ h.0, All-free taken os h.1)

module _ {N : Type 0} (f : Floats N) (sample : Sample N) (slot : ℕ) where
  -- A crew of the task's size, of workers who may work on it.
  abbrev pub IsStaffed : Task N × List (Offer N) → Type 0
  IsStaffed c =
      (c.0.min_crew ≤ length c.1)
      × (length c.1 ≤ c.0.max_crew)
      × All (λ o. is_offered f sample slot c.0 o.worker ≡ true) c.1

  record Fair (st : Slot N) : Type 0 where
    taken : roster st.crews ≡ st.assigned_workers
    once : NoRepeats (roster st.crews)
    staffed : All IsStaffed st.crews

  options-ids :
      (task : Task N) (ws : List Worker)
      → offered_ids (map (offer_of f sample slot task) ws) ≡ map (λ w. w.id) ws
  options-ids task [] = refl
  options-ids task (w ∷ ws) = ap (λ (ids : List String). w.id ∷ ids) (options-ids task ws)

  options-once :
      (task : Task N)
      → NoRepeats (map (λ w. w.id) sample.workers)
      → NoRepeats (offered_ids (task_worker_options f sample slot task))
  unfolding task_worker_options
  options-once task h = subst NoRepeats (sym (options-ids task _)) (
      NoRepeats-filter (λ (w : Worker). w.id) (is_offered f sample slot task) _
        (NoRepeats-sorted (λ (w : Worker). w.id) _ sample.workers h))

  All-offer_of :
      (task : Task N) (ws : List Worker)
      → All (λ w. is_offered f sample slot task w ≡ true) ws
      → All
          (λ o. is_offered f sample slot task o.worker ≡ true)
          (map (offer_of f sample slot task) ws)
  All-offer_of task [] h = tt
  All-offer_of task (w ∷ ws) h = (h.0, All-offer_of task ws h.1)

  options-offered :
      (task : Task N)
      → All
          (λ o. is_offered f sample slot task o.worker ≡ true)
          (task_worker_options f sample slot task)
  unfolding task_worker_options
  options-offered task = All-offer_of task _ (filter-holds (is_offered f sample slot task) _)

  module _ (distinct_workers : NoRepeats (map (λ w. w.id) sample.workers)) where
    Fair-worked :
        (task : Task N) (st : Slot N) (s : Schedule N)
        → task.min_crew ≤ task.max_crew
        → task.min_crew ≤ length (free_options f sample slot task st)
        → Fair st
        → let crew = take task.max_crew (free_options f sample slot task st) in
          Fair (record {
            schedule = s;
            assigned_workers = offered_ids crew ++ st.assigned_workers;
            crews = (task, crew) ∷ st.crews;
          })
    Fair-worked task st s sizes enough fair =
        let options = task_worker_options f sample slot task in
        let is_free = λ (o : Offer N). not (mem o.worker.id st.assigned_workers) in
        let free = free_options f sample slot task st in
        let crew = take task.max_crew free in
        record {
          taken = ap (λ (ids : List String). offered_ids crew ++ ids) fair.taken;
          once =
              NoRepeats-append (offered_ids crew) (roster st.crews)
                (NoRepeats-take (λ (o : Offer N). o.worker.id) task.max_crew free
                  (NoRepeats-filter (λ (o : Offer N). o.worker.id) is_free options
                    (options-once task distinct_workers)))
                fair.once
                (subst (λ (ids : List String). All (λ x. mem x ids ≡ false) (offered_ids crew))
                  (sym fair.taken)
                  (All-free st.assigned_workers crew
                    (All-take _ task.max_crew free (filter-holds is_free options))));
          staffed = (
            (
              length-take-ge task.min_crew task.max_crew free sizes enough,
              length-take-le task.max_crew free,
              All-take _ task.max_crew free
                  (All-map (λ o h. h.1) free (All-filter _ is_free options (options-offered task))),
            ),
            fair.staffed,
          );
        }

    Fair-assign :
        (task : Task N) (st : Slot N)
        → task.min_crew ≤ task.max_crew
        → Fair st
        → Fair (assign f sample slot task st)
    unfolding assign employ
    Fair-assign task st sizes fair =
        let options = free_options f sample slot task st in
        let crew = take task.max_crew options in
        let workability = sample.workability task (slot_at f sample slot) in
        elim (Bool-cases (ltb (length options) task.min_crew)) [
          | inl few ↦ rw few (unchanged options)
          | inr enough ↦ rw enough (elim (Bool-cases (f.leb workability f.epsilon)) [
            | inl gate ↦
                rw gate (record { taken = fair.taken; once = fair.once; staffed = fair.staffed })
            | inr works ↦
                rw works
                  (elim (Bool-cases
                    (f.leb (f.times (total f sample f.nought crew) workability) f.epsilon)) [
                      | inl idle ↦ rw idle fair
                      | inr busy ↦
                          rw busy
                            (Fair-worked task st _ sizes (not_below _ task.min_crew enough) fair)
                    ])
          ])
        ]
      where
        unchanged : (os : List (Offer N)) → Fair (understaffed task os st)
        unchanged [] = fair
        unchanged (o ∷ os) = record { taken = fair.taken; once = fair.once; staffed = fair.staffed }

    Fair-assign_all :
        (ts : List (Task N)) (st : Slot N)
        → All (λ t. t.min_crew ≤ t.max_crew) ts
        → Fair st
        → Fair (assign_all f sample slot ts st)
    unfolding assign_all
    Fair-assign_all [] st sizes fair = fair
    Fair-assign_all (t ∷ ts) st sizes fair =
        Fair-assign_all ts (assign f sample slot t st) sizes.1 (Fair-assign t st sizes.0 fair)

    run_slot-Fair :
        (s : Schedule N)
        → All (λ t. t.min_crew ≤ t.max_crew) sample.tasks
        → Fair (run_slot f sample s slot)
    unfolding run_slot opened ready_tasks
    run_slot-Fair s sizes =
        Fair-assign_all _
          (record { schedule = opened f sample s slot; assigned_workers = []; crews = [] })
          (All-sorted f sample (λ (t : Task N). t.min_crew ≤ t.max_crew) _ _
            (All-map (λ t h. h.1) _
              (All-filter (λ (t : Task N). t.min_crew ≤ t.max_crew) (is_ready_at f sample s slot) _
                (All-map (λ t h. h.1) _
                  (All-filter (λ (t : Task N). t.min_crew ≤ t.max_crew) (is_unfinished f sample s)
                    sample.tasks sizes)))))
          (record { taken = refl; once = tt; staffed = tt })

  -- In every slot, whatever the schedule is by then: no worker is in two crews or twice in one, and
  -- every crew has between the task's smallest and largest number of workers, each of whom has
  -- capacity in the slot and may do the task, provided that worker ids differ and no task's smallest
  -- crew exceeds its largest.
  pub run_slot-NoRepeats :
      (s : Schedule N)
      → NoRepeats (map (λ w. w.id) sample.workers)
      → All (λ t. t.min_crew ≤ t.max_crew) sample.tasks
      → NoRepeats (roster (run_slot f sample s slot).crews)
        × All IsStaffed (run_slot f sample s slot).crews
  run_slot-NoRepeats s workers sizes =
      let fair = run_slot-Fair workers s sizes in (fair.once, fair.staffed)
