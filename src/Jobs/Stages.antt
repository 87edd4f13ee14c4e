-- ===== src/Jobs/Stages.antt =====
-- The stages of `run_analysis_job` of apps/api/src/app/workers/worker.py, from the claim of the
-- lease to the exception handlers. A stage takes the store and the job as the worker holds it, and
-- returns both with a value or an exception. What the worker calls beside the store (the
-- authentication service, the two pipelines), the clock, the new token and the moments at which the
-- lease renewal found the lease lost are the fields of a delivery.
use intelliq.Store.Sessions.{SessionRecord, SessionRow}
use intelliq.Store.Rows.{Instant, Store}
use intelliq.Jobs.Access.{User}
use intelliq.Jobs.Records.{JobStatus, JobError, Job, Work}
use intelliq.Prelude.{
  string_eq, ℕ, String, Bool, true, false, Option, none, some, List, if◌then◌else◌, ◌==◌, Result,
  ok, err,
}

-- `HTTPException.detail`: a text, or a dictionary with or without a code.
pub data HttpDetail : Type 0 where
  text : String → HttpDetail
  coded : Option String → HttpDetail

-- The exceptions of the body. An authentication failure and an upstream error say whether their
-- status code is 401 or 403. `cancelled` is the CancelledError that `_run_bounded` raises again when
-- the queue cancels the job, after its function has ended.
pub data Failure : Type 0 where
  lease_lost cancelled : Failure
  authentication_failure : (denied : Bool) (code : String) → Failure
  upstream_error : (denied : Bool) → Failure
  knowledge_error : (code : String) → Failure
  http_error : HttpDetail → Failure
  other_error : Failure

-- `_job_request_body`: the body with the retry identity.
pub record Request (R : Type 0) : Type 0 where
  pub body : R
  pub idempotency_key : Option String
  pub job_id : String

-- What a pipeline does to the store: a report of a phase, with the lease's state and the clock
-- at that moment, or writes of its own.
pub data Event (R : Type 0) : Type 0 where
  reports : (stage : String) (progress : ℕ) (lost : Bool) (now : Instant) → Event R
  writes : (Store (Work R) → Store (Work R)) → Event R

-- A pipeline's events, and the status in its result if it returns.
abbrev pub Pipeline : Type 0 → Type 0
Pipeline R = Option User → Request R → List (Event R) × Result Failure (Option String)

pub record Delivery (P R : Type 0) : Type 0 where
  pub token : String
  pub claimed : Instant
  pub started : Instant
  pub authorized : Instant
  pub reading : Instant
  pub finished : Instant
  pub lost_before : Bool
  pub lost_after : Bool
  pub sessions : List (SessionRow P)
  pub current : SessionRecord P → Result Failure (Option User)
  pub run_analysis : Pipeline R
  pub run_knowledge_import : Pipeline R

-- `isinstance(value, str) and value`
abbrev pub nonempty : Option String → Option String
nonempty none = none
nonempty (some s) = if s == "" then none else some s

abbrev pub job_error : String → Bool → Option JobError
job_error code again = some (record { code = code; retryable = again })

-- `terminal_status`
abbrev pub terminal_status : Option String → JobStatus
terminal_status none = JobStatus.completed
terminal_status (some s) =
    if s == "needs_inputs" then JobStatus.needs_inputs else JobStatus.completed

module _ {R : Type 0} where
  abbrev pub job_request_body : Job R → String → Request R
  job_request_body j job_id = record {
    body = j.request_body;
    idempotency_key = nonempty (some j.idempotency_key);
    job_id = job_id;
  }

  -- The changes that the calls of `save_job` make.
  abbrev pub as_running : ℕ → Job R → Job R
  as_running attempt j = record j {
    status = JobStatus.running;
    stage = "authenticating";
    progress = 5;
    attempts = attempt;
  }

  abbrev pub at_stage : String → ℕ → Job R → Job R
  at_stage stage progress j = record j { stage = stage; progress = progress }

  -- A final status with an error and the stage as it was.
  abbrev pub ended_by : JobStatus → String → Job R → Job R
  ended_by status code j = record j { status = status; error = job_error code false }

  abbrev pub as_failed : String → Job R → Job R
  as_failed code j = record j {
    status = JobStatus.failed;
    stage = "failed";
    error = job_error code false;
  }

  abbrev pub as_retrying : String → Job R → Job R
  as_retrying code j = record j {
    status = JobStatus.retrying;
    stage = "retrying";
    error = job_error code true;
  }

  abbrev pub as_completed : Option String → Job R → Job R
  as_completed result j = record j {
    status = terminal_status result;
    stage = "completed";
    progress = 100;
  }

-- `current.get("status") == "running"`
abbrev pub is_running : JobStatus → Bool
is_running JobStatus.running = true
is_running _ = false

abbrev pub pipeline : {P R : Type 0} → Delivery P R → Job R → Pipeline R
pipeline d j = if j.type == "knowledge_import" then d.run_knowledge_import else d.run_analysis

abbrev pub reading_stage : {R : Type 0} → Job R → String
reading_stage j = if j.type == "knowledge_import" then "reading_document" else "reading_timecue"

abbrev pub State : Type 0 → Type 0
State R = Store (Work R) × Job R

abbrev pub Stage : Type 0 → Type 0 → Type 0
Stage R A = State R → State R × Result Failure A

module _ {R : Type 0} where
  abbrev pub raise_if : Bool → Stage R Unit
  raise_if lost st = (st, if lost then err lease_lost else ok tt)

  abbrev pub lift : {A : Type 0} → Result Failure A → Stage R A
  lift r st = (st, r)

module _ {R A B : Type 0} where
  abbrev pub resume : (A → Stage R B) → State R × Result Failure A → State R × Result Failure B
  resume k (st, ok a) = k a st
  resume k (st, err e) = (st, err e)

  infixl 5 ◌then◌
  -- One statement of the `try` block after the other.
  abbrev pub ◌then◌ : Stage R A → (A → Stage R B) → Stage R B
  m then k = λ st. resume k (m st)
