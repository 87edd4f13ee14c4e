-- ===== src/Simulation/Sample/Precedence.antt =====
-- The finishes that the loop sets, and the predecessors of the tasks that have them.
use intelliq.Simulation.Sample.Slots.{
  understaffed, opened, with_member, with_crew, total, progressed, employ, free_options, assign,
  assign_all, run_slot,
}
use intelliq.Simulation.Sample.{
  Sample, Schedule, Offer, Slot, insert_sorted, sorted, updated, slot_at, is_unfinished,
  readiness_at, is_ready_at, ready_tasks,
}
use intelliq.Simulation.Readiness.{
  is_ready, is_late, is_before, effective_earliest_start, task_by_id, is_canceled_task,
  predecessor_readiness, task_readiness, hour, is_closed, task_reserved,
}
use intelliq.Simulation.Input.{Floats, Task}
use intelliq.Prelude.{
  string_eq, nat_eq, option_eq, [], ℕ, ◌+◌, ◌≤◌, String, ◌≡◌, refl, sym, subst, ◌⊎◌, inl, inr, Bool,
  true, false, not, Option, none, some, List, ◌∷◌, arith, ltb, Bool-cases, and_true, is_some,
  length, take, All, tests_differ, ==_ne, eq-cases, mem, ◌&&◌, All-map, All-filter, Member,
  All-Member,
}

before_late : (a b : ℕ) → ltb a b ≡ false → b ≤ a
before_late a b h = ground arith

and_middle : (a b c : Bool) → (a && b && c) ≡ true → b ≡ true
and_middle a b c h = ground arith

in_time : (o : Option ℕ) (slot : ℕ) → is_late o slot ≡ false → (g : ℕ) × (o ≡ some g) × (g ≤ slot)
in_time none slot h = absurd (tests_differ h refl)
in_time (some g) slot h = (g, refl, before_late slot g h)

module _ {N : Type 0} where
  ready_predecessor :
      (tasks : List (Task N)) (finishes : String → Option ℕ) (slot : ℕ) (ps : List String)
      (p : String)
      → is_ready (predecessor_readiness tasks finishes slot ps) ≡ true
      → mem p ps ≡ true
      → is_late (finishes p) slot ≡ false
  unfolding predecessor_readiness mem
  ready_predecessor tasks finishes slot [] p h m = absurd (tests_differ refl m)
  ready_predecessor tasks finishes slot (q ∷ qs) p h m =
      elim (Bool-cases (is_canceled_task (task_by_id tasks q))) [
        | inl gone ↦ absurd (tests_differ refl (rw gone at h))
        | inr kept ↦ elim (Bool-cases (is_late (finishes q) slot)) [
          | inl late ↦ absurd (tests_differ refl (rw late at (rw kept at h)))
          | inr early ↦
              let h' = rw early at (rw kept at h) in
              elim (eq-cases p q) [
                | inl same ↦ rw same early
                | inr other ↦
                    ready_predecessor tasks finishes slot qs p h' (rw (==_ne p q other) at m)
              ]
        ]
      ]

  -- What readiness says of a task.
  ready_lem :
      (tasks : List (Task N)) (task : Task N) (finishes : String → Option ℕ)
      (slot earliest_start : ℕ) (material_at : Option ℕ)
      → is_ready (task_readiness tasks task finishes slot earliest_start material_at) ≡ true
      → (earliest_start ≤ slot)
        × ((p : String)
            → mem p task.predecessor_ids ≡ true
            → (g : ℕ) × (finishes p ≡ some g) × (g ≤ slot))
  unfolding task_readiness
  ready_lem tasks task finishes slot earliest_start material_at h =
      elim (Bool-cases (ltb slot earliest_start)) [
        | inl soon ↦ absurd (tests_differ refl (rw soon at h))
        | inr due ↦ elim (Bool-cases (is_before slot material_at)) [
          | inl soon ↦ absurd (tests_differ refl (rw soon at (rw due at h)))
          | inr there ↦ (
            before_late slot earliest_start due,
            λ p m. in_time (finishes p) slot (
                ready_predecessor tasks finishes slot task.predecessor_ids p
                  (rw there at (rw due at h)) m),
          )
        ]
      ]

module _ {N : Type 0} (f : Floats N) (sample : Sample N) where
  -- A task that the slot may work on: not finished, not early, and every predecessor finished.
  pub record Ready (s : Schedule N) (slot : ℕ) (task : Task N) : Type 0 where
    pub member : Member task sample.tasks
    pub unfinished : s.task_finishes task.id ≡ none
    pub due : effective_earliest_start task sample.prepared ≤ slot
    pub after :
        (p : String)
        → mem p task.predecessor_ids ≡ true
        → (g : ℕ) × (s.task_finishes p ≡ some g) × (g ≤ slot)

  not_some : (o : Option ℕ) → not (is_some o) ≡ true → o ≡ none
  not_some none h = refl
  not_some (some g) h = absurd (tests_differ refl h)

  Ready-both :
      (s : Schedule N) (slot : ℕ) (task : Task N)
      → Member task sample.tasks
      → is_unfinished f sample s task ≡ true
      → is_ready_at f sample s slot task ≡ true
      → Ready s slot task
  unfolding is_unfinished is_ready_at readiness_at
  Ready-both s slot task member unfinished is_due =
      let fresh =
        and_middle (not (is_closed task.status)) (not (is_some (s.task_finishes task.id))) _
          unfinished in
      let r =
        (and_true (not (task_reserved sample.reservations task (slot_at f sample slot))) _
          is_due).1 in
      let (due, after) = ready_lem sample.tasks task s.task_finishes slot _ _ r in
      record { member = member; unfinished = not_some _ fresh; due = due; after = after }

  pub ready_tasks-Ready :
      (s : Schedule N) (slot : ℕ) → All (Ready s slot) (ready_tasks f sample s slot)
  unfolding ready_tasks
  ready_tasks-Ready s slot =
      All-map (λ t h. Ready-both s slot t h.1.1 h.1.0 h.0) _
        (All-filter _ (is_ready_at f sample s slot) _
          (All-filter _ (is_unfinished f sample s) sample.tasks (All-Member sample.tasks)))

  All-insert_sorted :
      {A : Type 0} (P : A → Type 0) (lt : A → A → Bool) (x : A) (xs : List A)
      → P x
      → All P xs
      → All P (insert_sorted lt x xs)
  unfolding insert_sorted
  All-insert_sorted P lt x [] h hs = (h, tt)
  All-insert_sorted P lt x (y ∷ ys) h hs = elim (Bool-cases (lt y x)) [
    | inl p ↦ rw p (hs.0, All-insert_sorted P lt x ys h hs.1)
    | inr p ↦ rw p (h, hs)
  ]

  pub All-sorted :
      {A : Type 0} (P : A → Type 0) (lt : A → A → Bool) (xs : List A)
      → All P xs
      → All P (sorted lt xs)
  unfolding sorted
  All-sorted P lt [] h = tt
  All-sorted P lt (x ∷ xs) h = All-insert_sorted P lt x (sorted lt xs) h.0 (All-sorted P lt xs h.1)

  -- The finishes of a slot that began with `s`: unchanged, or set to the slot's end for a task
  -- that was ready.
  abbrev pub Grown : Schedule N → ℕ → (String → Option ℕ) → Type 0
  Grown s slot finishes =
      (id : String)
      → (finishes id ≡ s.task_finishes id)
        ⊎ ((task : Task N) × (task.id ≡ id)
            × Ready s slot task
            × (finishes id ≡ some (slot + hour)))

  with_crew-finishes :
      (slot : ℕ) (task : Task N) (w : N) (os : List (Offer N)) (s : Schedule N)
      → (with_crew f sample slot task w s os).task_finishes ≡ s.task_finishes
  unfolding with_crew
  with_crew-finishes slot task w [] s = refl
  with_crew-finishes slot task w (o ∷ os) s =
      with_crew-finishes slot task w os (with_member f sample slot task w s o)

  Grown-updated :
      (s : Schedule N) (slot : ℕ) (task : Task N) (finishes : String → Option ℕ)
      → Ready s slot task
      → Grown s slot finishes
      → Grown s slot (updated finishes task.id (some (slot + hour)))
  Grown-updated s slot task finishes r g id = elim (eq-cases task.id id) [
    | inl same ↦ inr (task, same, r, rw ((string_eq.beq_iff task.id id).1 same))
    | inr other ↦ rw (==_ne task.id id other) (g id)
  ]

  Grown-progressed :
      (s : Schedule N) (slot : ℕ) (task : Task N) (p : N) (x : Schedule N)
      → Ready s slot task
      → Grown s slot x.task_finishes
      → Grown s slot (progressed f sample slot task p x).task_finishes
  unfolding progressed
  Grown-progressed s slot task p x r g =
      elim (Bool-cases (f.leb (f.max f.nought (f.minus (x.remaining task.id) p)) f.epsilon)) [
        | inl over ↦ rw over (Grown-updated s slot task x.task_finishes r g)
        | inr more ↦ rw more g
      ]

  Grown-employ :
      (s : Schedule N) (slot : ℕ) (task : Task N) (crew : List (Offer N)) (st : Slot N)
      → Ready s slot task
      → Grown s slot st.schedule.task_finishes
      → Grown s slot (employ f sample slot task crew st).schedule.task_finishes
  unfolding employ
  Grown-employ s slot task crew st r g =
      let workability = sample.workability task (slot_at f sample slot) in
      let productive = f.times (total f sample f.nought crew) workability in
      elim (Bool-cases (f.leb workability f.epsilon)) [
        | inl none_left ↦ rw none_left g
        | inr works ↦ rw works (elim (Bool-cases (f.leb productive f.epsilon)) [
          | inl none_left ↦ rw none_left g
          | inr some_left ↦ rw some_left (
              Grown-progressed s slot task productive _ r (
                subst (Grown s slot)
                  (sym (with_crew-finishes slot task workability crew st.schedule)) g))
        ])
      ]

  Grown-assign :
      (s : Schedule N) (slot : ℕ) (task : Task N) (st : Slot N)
      → Ready s slot task
      → Grown s slot st.schedule.task_finishes
      → Grown s slot (assign f sample slot task st).schedule.task_finishes
  unfolding assign
  Grown-assign s slot task st r g =
      let options = free_options f sample slot task st in
      elim (Bool-cases (ltb (length options) task.min_crew)) [
        | inl few ↦ rw few (unchanged options)
        | inr enough ↦ rw enough (Grown-employ s slot task (take task.max_crew options) st r g)
      ]
    where
      unchanged :
          (os : List (Offer N)) → Grown s slot (understaffed task os st).schedule.task_finishes
      unchanged [] = g
      unchanged (o ∷ os) = g

  Grown-assign_all :
      (s : Schedule N) (slot : ℕ) (ts : List (Task N)) (st : Slot N)
      → All (Ready s slot) ts
      → Grown s slot st.schedule.task_finishes
      → Grown s slot (assign_all f sample slot ts st).schedule.task_finishes
  unfolding assign_all
  Grown-assign_all s slot [] st rs g = g
  Grown-assign_all s slot (t ∷ ts) st rs g =
      Grown-assign_all s slot ts (assign f sample slot t st) rs.1 (Grown-assign s slot t st rs.0 g)

  pub run_slot-Grown :
      (s : Schedule N) (slot : ℕ) → Grown s slot (run_slot f sample s slot).schedule.task_finishes
  unfolding run_slot opened
  run_slot-Grown s slot =
      Grown-assign_all s slot _ _ (All-sorted (Ready s slot) _ _ (ready_tasks-Ready s slot))
        (λ id. inl refl)
