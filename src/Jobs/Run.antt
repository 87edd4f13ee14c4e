-- ===== src/Jobs/Run.antt =====
-- `run_analysis_job` and `_retry_or_fail` of apps/api/src/app/workers/worker.py.
pub mod Keeps
pub mod Settled
pub mod Deliveries
pub mod Denied
use Prim.Native.String.{◌++◌ as push_str}
use intelliq.Store.Leases.{acquire_lease, release_lease}
use intelliq.Store.Sessions.{SessionRecord, get_session}
use intelliq.Store.Rows.{Instant, Store, StoreError}
use intelliq.Jobs.Stages.{
  HttpDetail, Failure, Event, Pipeline, Delivery, nonempty, job_request_body, as_running, at_stage,
  ended_by, as_failed, as_retrying, as_completed, State, Stage, ◌then◌, text, coded, lease_lost,
  cancelled, authentication_failure, upstream_error, knowledge_error, http_error, other_error,
  reports, writes, is_running, raise_if, lift, pipeline, reading_stage,
}
use intelliq.Jobs.Access.{User, require_job_access}
use intelliq.Jobs.Records.{
  JobStatus, is_terminal, Job, Work, max_job_attempts, get_job, save_job, failed, expired,
  completed, job,
}
use intelliq.Prelude.{
  string_eq, [], ℕ, suc, ◌^◌, min, String, Bool, Option, none, some, List, ◌∷◌, ltb, if◌then◌else◌,
  ◌==◌, Result, ok, err,
}

-- How one delivery ends: with the public job, by `raise Retry(defer=...)` (of the retry budget, or
-- of 5 seconds after a lost lease), by the CancelledError of a job that the queue cancelled, which no
-- clause catches, or by an exception of the store.
pub data Ending (R : Type 0) : Type 0 where
  returned : Option (Job R) → Ending R
  retried : ℕ → Ending R
  lease_retry interrupted : Ending R
  raised : StoreError → Ending R

-- `JOB_LEASE_SECONDS`
abbrev pub job_lease_seconds : ℕ
job_lease_seconds = 660

abbrev pub lease_name : String → String
lease_name job_id = push_str "analysis-job:" job_id

-- The code of the error that an HTTP exception leaves.
abbrev pub rejected_code : HttpDetail → String
rejected_code (text t) =
    if t == "simulation_time_limit" then "simulation_time_limit" else "analysis_rejected"
rejected_code (coded none) = "analysis_rejected"
rejected_code (coded (some code)) = code

-- `"expired" if exc.status_code in {401, 403} else "failed"`
abbrev pub denied_status : Bool → JobStatus
denied_status denied = if denied then expired else failed

module _ {R : Type 0} (org id : String) where
  abbrev pub saved_state :
      State R
      → Result StoreError (Store (Work R) × (String × Job R))
      → State R × Result Failure Unit
  saved_state st (ok (s, (i, j))) = ((s, j), ok tt)
  saved_state st (err e) = (st, err other_error)

  -- `job = save_job(store, organization_id, job, ...)` in the `try` block
  unfoldable pub save : (Job R → Job R) → Instant → Stage R Unit
  save change now (s, j) = saved_state (s, j) (save_job s org (id, j) change now)

  -- The last part of `report_phase`: the job that it read is saved, and the worker's own variable
  -- stays as it was.
  abbrev pub reported :
      State R
      → Result StoreError (Store (Work R) × (String × Job R))
      → State R × Result Failure Unit
  reported (s, j) (ok (s', saved)) = ((s', j), ok tt)
  reported st (err e) = (st, err other_error)

  abbrev pub report_current :
      String → ℕ → Instant → Result StoreError (Option (String × Job R)) → Stage R Unit
  report_current stage progress now (err e) st = (st, err other_error)
  report_current stage progress now (ok none) st = (st, err lease_lost)
  report_current stage progress now (ok (some current)) (s, j) =
      if is_running current.1.status
      then reported (s, j) (save_job s org current (at_stage stage progress) now)
      else ((s, j), err lease_lost)

  -- `report_phase`, after its look at the lease
  unfoldable pub report : String → ℕ → Instant → Stage R Unit
  report stage progress now (s, j) = report_current stage progress now (get_job s org id) (s, j)

  -- `report_phase`, or the pipeline's own writes
  unfoldable pub perform : Event R → Stage R Unit
  perform (writes f) st = ((f st.0, st.1), ok tt)
  perform (reports stage progress lost now) st =
      (raise_if lost then λ _. report stage progress now) st

  unfoldable pub perform_all : List (Event R) → Stage R Unit
  perform_all [] = lift (ok tt)
  perform_all (e ∷ es) = perform e then λ _. perform_all es

  module _ {P : Type 0} (d : Delivery P R) where
    -- After the pipeline: the lease is looked at once more, and the job is completed.
    unfoldable pub finish : Option String → Stage R Unit
    finish result = raise_if d.lost_after then λ _. save (as_completed result) d.finished

    unfoldable pub use_answer : Result Failure (Option String) → Stage R Unit
    use_answer answer = lift answer then finish

    -- The pipeline and the job's completion.
    unfoldable pub complete : Option User → Stage R Unit
    complete user st =
        let (events, answer) = pipeline d st.1 user (job_request_body st.1 id) in
        (perform_all events then λ _. use_answer answer) st

    unfoldable pub save_reading : Stage R Unit
    save_reading st = save (at_stage (reading_stage st.1) 15) d.reading st

    unfoldable pub read : Option User → Stage R Unit
    read user = save_reading then λ _. complete user

    unfoldable pub authorize : Option User → Option String → Stage R Unit
    authorize user (some code) = save (as_failed code) d.finished
    authorize user none = raise_if d.lost_before then λ _. read user

    unfoldable pub authenticated : Option User → Stage R Unit
    authenticated user = save (at_stage "authorizing" 10) d.authorized then λ _.
        authorize user (require_job_access user org)

    unfoldable pub authenticate : Option (SessionRecord P) → Stage R Unit
    authenticate none = save (ended_by expired "reauthentication_required") d.finished
    authenticate (some session) = lift (d.current session) then authenticated

    abbrev pub open_session : Option String → Stage R Unit
    open_session none = save (ended_by expired "reauthentication_required") d.finished
    open_session (some session_id) = authenticate (get_session d.sessions session_id)

    unfoldable pub use_session : Stage R Unit
    use_session st = open_session (nonempty st.1.session_id) st

    -- The `try` block, after the job was read again.
    unfoldable pub attempt : Stage R Unit
    attempt st = (save (as_running (suc st.1.attempts)) d.started then λ _. use_session) st

    -- A save outside the `try` block, and what follows it.
    abbrev pub after_save :
        (Job R → Ending R)
        → Store (Work R)
        → Result StoreError (Store (Work R) × (String × Job R))
        → Store (Work R) × Ending R
    after_save k s (ok (s', (i, j))) = (s', k j)
    after_save k s (err e) = (s, raised e)

    abbrev pub returned_job : Job R → Ending R
    returned_job j = returned (some j)

    -- `_retry_or_fail`
    unfoldable pub retry_or_fail : State R → String → Store (Work R) × Ending R
    retry_or_fail (s, j) code =
        if ltb j.attempts max_job_attempts
        then after_save (λ _. retried (min 60 (2 ^ j.attempts))) s
            (save_job s org (id, j) (as_retrying code) d.finished)
        else after_save returned_job s (save_job s org (id, j) (as_failed code) d.finished)

    -- The `except` clauses.
    unfoldable pub handled : State R × Result Failure Unit → Store (Work R) × Ending R
    handled ((s, j), ok tt) = (s, returned (some j))
    handled ((s, j), err lease_lost) = (s, lease_retry)
    handled ((s, j), err cancelled) = (s, interrupted)
    handled ((s, j), err (authentication_failure denied code)) =
        after_save returned_job s
          (save_job s org (id, j) (ended_by (denied_status denied) code) d.finished)
    handled ((s, j), err (upstream_error denied)) =
        if denied
        then after_save returned_job s
            (save_job s org (id, j) (ended_by expired "reauthentication_required") d.finished)
        else retry_or_fail (s, j) "upstream_unavailable"
    handled ((s, j), err (knowledge_error code)) =
        after_save returned_job s (save_job s org (id, j) (as_failed code) d.finished)
    handled ((s, j), err (http_error detail)) =
        after_save returned_job s
          (save_job s org (id, j) (ended_by failed (rejected_code detail)) d.finished)
    handled ((s, j), err other_error) = retry_or_fail (s, j) "analysis_failed"

    -- With the lease: the job is read again, and the `finally` clause releases the lease.
    abbrev pub claimed_run :
        Store (Work R) → Result StoreError (Option (String × Job R)) → Store (Work R) × Ending R
    claimed_run s (err e) = (s, raised e)
    claimed_run s (ok none) = (s, returned none)
    claimed_run s (ok (some (i, j))) =
        if is_terminal j.status then (s, returned (some j)) else handled (attempt (s, j))

    abbrev pub released : Store (Work R) × Ending R → Store (Work R) × Ending R
    released (s, ending) = (release_lease s org (lease_name id) d.token, ending)

    abbrev pub job_or : Job R → Result StoreError (Option (String × Job R)) → Ending R
    job_or j (err e) = raised e
    job_or j (ok none) = returned (some j)
    job_or j (ok (some (i, current))) = returned (some current)

    abbrev pub after_claim : Job R → Store (Work R) × Option String → Store (Work R) × Ending R
    after_claim j (s, none) = (s, job_or j (get_job s org id))
    after_claim j (s, some token) = released (claimed_run s (get_job s org id))

    abbrev pub first_read :
        Store (Work R) → Result StoreError (Option (String × Job R)) → Store (Work R) × Ending R
    first_read s (err e) = (s, raised e)
    first_read s (ok none) = (s, returned none)
    first_read s (ok (some (i, j))) =
        if is_terminal j.status
        then (s, returned (some j))
        else after_claim j (acquire_lease s org (lease_name id) job_lease_seconds d.claimed d.token)

    unfoldable pub run_analysis_job : Store (Work R) → Store (Work R) × Ending R
    run_analysis_job s = first_read s (get_job s org id)
