-- ===== src/Jobs/Run/Settled.antt =====
-- How a delivery of a job that is not final leaves it.
use intelliq.Store.Sessions.{SessionRecord, get_session}
use intelliq.Store.Rows.{Store}
use intelliq.Jobs.Run.Keeps.{
  Runs, IsFinished, Keeps, then-Keeps, lift-Keeps, raise_if-Keeps, save-Keeps, save-IsFinished,
  KeepsJob, perform_all-Keeps, Leaves,
}
use intelliq.Jobs.Run.{
  Ending, save, perform_all, pipeline, reading_stage, complete, authorize, authenticate,
  open_session, after_save, returned_job, retry_or_fail, returned, retried, lease_retry,
  interrupted, raised, rejected_code, denied_status, finish, use_answer, save_reading, read,
  authenticated, use_session, handled,
}
use intelliq.Jobs.Stages.{
  Request, Delivery, terminal_status, job_request_body, at_stage, ended_by, as_failed, as_retrying,
  as_completed, State, raise_if, lift, Failure, nonempty, Stage, lease_lost, cancelled,
  authentication_failure, upstream_error, knowledge_error, http_error, other_error,
}
use intelliq.Jobs.Access.{User, require_job_access}
use intelliq.Jobs.Records.{
  JobStatus, is_terminal, Job, Work, max_job_attempts, save_job, IsStored, save_job-IsStored,
}
use intelliq.Prelude.{
  string_eq, ℕ, ◌^◌, ◌<◌, min, String, ◌≡◌, refl, ap, ◌∙◌, subst, inl, inr, true, Option, none,
  some, ltb, ltb→lt, Bool-cases, All, ◌==◌, Bool, false, Result, ok, err,
}

terminal_status-IsFinal : (o : Option String) → is_terminal (terminal_status o) ≡ true
terminal_status-IsFinal none = refl
terminal_status-IsFinal (some s) = elim (Bool-cases (s == "needs_inputs")) [
  | inl p ↦ rw p
  | inr p ↦ rw p
]

denied_status-IsFinal : (denied : Bool) → is_terminal (denied_status denied) ≡ true
denied_status-IsFinal true = refl
denied_status-IsFinal false = refl

module _ {P R : Type 0} (org id : String) (d : Delivery P R) where
  -- The pipelines leave the job's record to the worker.
  abbrev pub LeavesJob : Type 0
  LeavesJob =
      (user : Option User) (request : Request R)
      → All (KeepsJob org id) (d.run_analysis user request).0
        × All (KeepsJob org id) (d.run_knowledge_import user request).0

  pub pipeline-KeepsJob :
      LeavesJob
      → (j : Job R) (user : Option User) (request : Request R)
      → All (KeepsJob org id) (pipeline d j user request).0
  pipeline-KeepsJob leaves j user request = elim (Bool-cases (j.type == "knowledge_import")) [
    | inl p ↦ rw p (leaves user request).1
    | inr p ↦ rw p (leaves user request).0
  ]

module _ {R : Type 0} (org id : String) (n : ℕ) where
  -- What the stored job is for each ending: final and returned; or waiting for a retry, within the
  -- budget, with the delay that was raised; or still running, when the lease was lost or the job was
  -- cancelled.
  abbrev pub IsSettled : Store (Work R) × Ending R → Type 0
  IsSettled (s, returned o) = (j : Job R) × (o ≡ some j) × IsFinished org id n (s, j)
  IsSettled (s, retried defer) =
      (j : Job R) × IsStored s org id j
      × (j.attempts ≡ n)
      × (j.status ≡ JobStatus.retrying)
      × (n < max_job_attempts)
      × (defer ≡ min 60 (2 ^ n))
  IsSettled (s, lease_retry) =
      (j : Job R) × IsStored s org id j × (j.attempts ≡ n) × (j.status ≡ JobStatus.running)
  IsSettled (s, interrupted) =
      (j : Job R) × IsStored s org id j × (j.attempts ≡ n) × (j.status ≡ JobStatus.running)
  IsSettled (s, raised e) = ⊥

  module _ {P : Type 0} (d : Delivery P R) where
    abbrev pub Ends : Stage R Unit → Type 0
    Ends = Keeps org id n (IsFinished org id n)

    finish-Keeps : (result : Option String) → Ends (finish org id d result)
    unfolding finish
    finish-Keeps result =
        then-Keeps org id n (IsFinished org id n) (raise_if d.lost_after)
          (λ _. save org id (as_completed result) d.finished) (raise_if-Keeps org id n d.lost_after)
          (λ _.
            save-IsFinished org id n (as_completed result) d.finished
              (λ j. (refl, terminal_status-IsFinal result)))

    use_answer-Keeps : (answer : Result Failure (Option String)) → Ends (use_answer org id d answer)
    unfolding use_answer
    use_answer-Keeps answer =
        then-Keeps org id n (IsFinished org id n) (lift answer) (finish org id d)
          (lift-Keeps org id n answer) finish-Keeps

    complete-Keeps : LeavesJob org id d → (user : Option User) → Ends (complete org id d user)
    unfolding complete
    complete-Keeps leaves user st h =
        let request = job_request_body st.1 id in
        let run = pipeline d st.1 user request in
        then-Keeps org id n (IsFinished org id n) (perform_all org id run.0)
          (λ _. use_answer org id d run.1)
          (perform_all-Keeps org id n run.0 (pipeline-KeepsJob org id d leaves st.1 user request))
          (λ _. use_answer-Keeps run.1) st h

    save_reading-Keeps : Keeps org id n (Runs org id n) (save_reading org id d)
    unfolding save_reading
    save_reading-Keeps st h =
        save-Keeps org id n (at_stage (reading_stage st.1) 15) d.reading (λ j. (refl, refl)) st h

    read-Keeps : LeavesJob org id d → (user : Option User) → Ends (read org id d user)
    unfolding read
    read-Keeps leaves user =
        then-Keeps org id n (IsFinished org id n) (save_reading org id d)
          (λ _. complete org id d user) save_reading-Keeps (λ _. complete-Keeps leaves user)

    authorize-Keeps :
        LeavesJob org id d
        → (user : Option User) (o : Option String) → Ends (authorize org id d user o)
    unfolding authorize
    authorize-Keeps leaves user (some code) =
        save-IsFinished org id n (as_failed code) d.finished (λ j. (refl, refl))
    authorize-Keeps leaves user none =
        then-Keeps org id n (IsFinished org id n) (raise_if d.lost_before) (λ _. read org id d user)
          (raise_if-Keeps org id n d.lost_before) (λ _. read-Keeps leaves user)

    authenticated-Keeps :
        LeavesJob org id d → (user : Option User) → Ends (authenticated org id d user)
    unfolding authenticated
    authenticated-Keeps leaves user =
        then-Keeps org id n (IsFinished org id n)
          (save org id (at_stage "authorizing" 10) d.authorized)
          (λ _. authorize org id d user (require_job_access user org))
          (save-Keeps org id n (at_stage "authorizing" 10) d.authorized (λ j. (refl, refl)))
          (λ _. authorize-Keeps leaves user (require_job_access user org))

    authenticate-Keeps :
        LeavesJob org id d → (o : Option (SessionRecord P)) → Ends (authenticate org id d o)
    unfolding authenticate
    authenticate-Keeps leaves none =
        save-IsFinished org id n (ended_by JobStatus.expired "reauthentication_required") d.finished
          (λ j. (refl, refl))
    authenticate-Keeps leaves (some session) =
        then-Keeps org id n (IsFinished org id n) (lift (d.current session))
          (authenticated org id d) (lift-Keeps org id n (d.current session))
          (authenticated-Keeps leaves)

    open_session-Keeps :
        LeavesJob org id d
        → (o : Option String) → Keeps org id n (IsFinished org id n) (open_session org id d o)
    open_session-Keeps leaves none =
        save-IsFinished org id n (ended_by JobStatus.expired "reauthentication_required") d.finished
          (λ j. (refl, refl))
    open_session-Keeps leaves (some session_id) =
        authenticate-Keeps leaves (get_session d.sessions session_id)

    -- The save outside the `try` block, of a final status.
    after_save-IsSettled :
        (change : Job R → Job R)
        → ((j : Job R)
            → ((change j).attempts ≡ j.attempts) × (is_terminal (change j).status ≡ true))
        → (s : Store (Work R)) (held : Job R) → Runs org id n (s, held)
        → IsSettled (
            after_save org id d
              (returned_job org id d)
              s
              (save_job s org (id, held) change d.finished))
    after_save-IsSettled change final s held (counted, current, stored, attempts, status) =
        let (s', saved, stored') =
          save_job-IsStored s org id held current change d.finished stored in
        let (a, t) = final current in rw saved (change current, refl, (stored', a ∙ attempts, t))

    retry_or_fail-IsSettled :
        (s : Store (Work R)) (held : Job R) (code : String)
        → Runs org id n (s, held)
        → IsSettled (retry_or_fail org id d (s, held) code)
    unfolding retry_or_fail
    retry_or_fail-IsSettled s held code (counted, current, stored, attempts, status) =
        let (s', saved, stored') =
          save_job-IsStored s org id held current (as_retrying code) d.finished stored in
        elim (Bool-cases (ltb held.attempts max_job_attempts)) [
          | inl again ↦
              rw (again, saved)
                (
                  as_retrying code current,
                  stored',
                  attempts,
                  refl,
                  subst (λ m. m < max_job_attempts) counted (ltb→lt held.attempts 3 again),
                  ap (λ m. min 60 (2 ^ m)) counted,
                )
          | inr spent ↦ rw spent (
              after_save-IsSettled (as_failed code) (λ j. (refl, refl)) s held
                (counted, current, stored, attempts, status))
        ]

    pub use_session-Keeps : LeavesJob org id d → Ends (use_session org id d)
    unfolding use_session
    use_session-Keeps leaves st h = open_session-Keeps leaves (nonempty st.1.session_id) st h

    -- The `except` clauses.
    pub handled-IsSettled :
        (r : State R × Result Failure Unit)
        → Leaves org id n (IsFinished org id n) r
        → IsSettled (handled org id d r)
    unfolding handled
    handled-IsSettled ((s, j), ok tt) h = (j, refl, h)
    handled-IsSettled ((s, j), err lease_lost) (counted, current, stored, attempts, status) =
        (current, stored, attempts, status)
    handled-IsSettled ((s, j), err cancelled) (counted, current, stored, attempts, status) =
        (current, stored, attempts, status)
    handled-IsSettled ((s, j), err (authentication_failure denied code)) h =
        after_save-IsSettled (ended_by (denied_status denied) code)
          (λ j'. (refl, denied_status-IsFinal denied)) s j h
    handled-IsSettled ((s, j), err (upstream_error true)) h =
        after_save-IsSettled (ended_by JobStatus.expired "reauthentication_required")
          (λ j'. (refl, refl)) s j h
    handled-IsSettled ((s, j), err (upstream_error false)) h =
        retry_or_fail-IsSettled s j "upstream_unavailable" h
    handled-IsSettled ((s, j), err (knowledge_error code)) h =
        after_save-IsSettled (as_failed code) (λ j'. (refl, refl)) s j h
    handled-IsSettled ((s, j), err (http_error detail)) h =
        after_save-IsSettled (ended_by JobStatus.failed (rejected_code detail)) (λ j'. (refl, refl))
          s j h
    handled-IsSettled ((s, j), err other_error) h = retry_or_fail-IsSettled s j "analysis_failed" h
