-- ===== src/Jobs/Run/Keeps.antt =====
-- What every stage of a run keeps: the stored job is running, with the attempt that it counts.
use intelliq.Store.Rows.{Instant, Store}
use intelliq.Jobs.Run.{save, perform, perform_all, report}
use intelliq.Jobs.Stages.{
  Failure, Event, at_stage, State, Stage, raise_if, lift, resume, ◌then◌, reports, writes,
  is_running,
}
use intelliq.Jobs.Records.{JobStatus, is_terminal, Job, Work, IsStored, save_job-IsStored}
use intelliq.Prelude.{
  string_eq, [], ℕ, String, ◌≡◌, ◌∙◌, Bool, true, false, List, ◌∷◌, All, Result, ok, err, ap,
}

module _ {R : Type 0} (org id : String) where
  -- The pipeline's own writes keep the job's record.
  abbrev pub KeepsJob : Event R → Type 0
  KeepsJob (reports stage progress lost now) = Unit
  KeepsJob (writes f) =
      (s : Store (Work R)) (j : Job R) → IsStored s org id j → IsStored (f s) org id j

module _ {R : Type 0} (org id : String) (n : ℕ) where
  abbrev pub Runs : State R → Type 0
  Runs (s, j) =
      (j.attempts ≡ n)
      × (current : Job R) × IsStored s org id current
      × (current.attempts ≡ n)
      × (current.status ≡ JobStatus.running)

  -- The job that the worker holds is the stored one, and final.
  abbrev pub IsFinished : State R → Type 0
  IsFinished (s, j) = IsStored s org id j × (j.attempts ≡ n) × (is_terminal j.status ≡ true)

  -- How a stage leaves the job: as `Q` says if it ends normally, running after an exception.
  abbrev pub Leaves : {A : Type 0} → (State R → Type 0) → State R × Result Failure A → Type 0
  Leaves Q (st, ok a) = Q st
  Leaves Q (st, err e) = Runs st

  abbrev pub Keeps : {A : Type 0} → (State R → Type 0) → Stage R A → Type 0
  Keeps Q m = (st : State R) → Runs st → Leaves Q (m st)

  pub resume-Keeps :
      {A B : Type 0} (Q : State R → Type 0) (k : A → Stage R B)
      → ((a : A) → Keeps Q (k a))
      → (r : State R × Result Failure A) → Leaves Runs r
      → Leaves Q (resume k r)
  resume-Keeps Q k keeps (st, ok a) h = keeps a st h
  resume-Keeps Q k keeps (st, err e) h = h

  pub then-Keeps :
      {A B : Type 0} (Q : State R → Type 0) (m : Stage R A) (k : A → Stage R B)
      → Keeps Runs m
      → ((a : A) → Keeps Q (k a))
      → Keeps Q (m then k)
  then-Keeps Q m k first next st h = resume-Keeps Q k next (m st) (first st h)

  pub lift-Keeps : {A : Type 0} (r : Result Failure A) → Keeps Runs (lift r)
  lift-Keeps (ok a) st h = h
  lift-Keeps (err e) st h = h

  pub raise_if-Keeps : (lost : Bool) → Keeps Runs (raise_if lost)
  raise_if-Keeps true st h = h
  raise_if-Keeps false st h = h

  -- A save of the `try` block, whatever the job was before.
  pub save-IsStored :
      (change : Job R → Job R) (now : Instant) (s : Store (Work R)) (held current : Job R)
      → IsStored s org id current
      → (s' : Store (Work R)) × (save org id change now (s, held) ≡ ((s', change current), ok tt))
        × IsStored s' org id (change current)
  unfolding save
  save-IsStored change now s held current h =
      let (s', saved, stored) = save_job-IsStored s org id held current change now h in
      (s', rw saved, stored)

  -- A change that keeps the attempts and the status.
  pub save-Keeps :
      (change : Job R → Job R) (now : Instant)
      → ((j : Job R) → ((change j).attempts ≡ j.attempts) × ((change j).status ≡ j.status))
      → Keeps Runs (save org id change now)
  save-Keeps change now same (s, held) (counted, current, stored, attempts, status) =
      let (s', saved, stored') = save-IsStored change now s held current stored in
      let (a, t) = same current in
      rw saved (a ∙ attempts, change current, stored', a ∙ attempts, t ∙ status)

  -- A change to a final status.
  pub save-IsFinished :
      (change : Job R → Job R) (now : Instant)
      → ((j : Job R) → ((change j).attempts ≡ j.attempts) × (is_terminal (change j).status ≡ true))
      → Keeps IsFinished (save org id change now)
  save-IsFinished change now final (s, held) (counted, current, stored, attempts, status) =
      let (s', saved, stored') = save-IsStored change now s held current stored in
      let (a, t) = final current in rw saved (stored', a ∙ attempts, t)

  report-Keeps :
      (stage : String) (progress : ℕ) (now : Instant)
      → Keeps Runs (report org id stage progress now)
  unfolding report
  report-Keeps stage progress now (s, held) (counted, current, stored, attempts, status) =
      let (s', saved, stored') =
        save_job-IsStored s org id current current (at_stage stage progress) now stored in
      let now_running : is_running current.status ≡ true = ap is_running status in
      rw stored (
        rw (now_running, saved)
          (counted, at_stage stage progress current, stored', attempts, status))

  perform-Keeps : (e : Event R) → KeepsJob org id e → Keeps Runs (perform org id e)
  unfolding perform
  perform-Keeps (writes f) keeps (s, held) (counted, current, stored, attempts, status) =
      (counted, current, keeps s current stored, attempts, status)
  perform-Keeps (reports stage progress lost now) keeps st h =
      then-Keeps Runs (raise_if lost) (λ _. report org id stage progress now) (raise_if-Keeps lost)
        (λ _. report-Keeps stage progress now) st h

  pub perform_all-Keeps :
      (es : List (Event R)) → All (KeepsJob org id) es → Keeps Runs (perform_all org id es)
  unfolding perform_all
  perform_all-Keeps [] h = lift-Keeps (ok tt)
  perform_all-Keeps (e ∷ es) h =
      then-Keeps Runs (perform org id e) (λ _. perform_all org id es) (perform-Keeps e h.0)
        (λ _. perform_all-Keeps es h.1)
