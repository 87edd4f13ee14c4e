-- ===== src/Jobs/Enqueue.antt =====
-- `enqueue_analysis` of apps/api/src/app/workers/service.py. What `uuid4` draws and the clock's
-- reading are fields of the submission; its body went through `_safe_json`, and `requested_key` is
-- `safe_body.get("idempotencyKey")`. The answer keeps the session reference that `public_job` leaves
-- out.
pub mod Laws
pub mod Repeated
use intelliq.Store.Records.{Entry, save_records, list_records}
use intelliq.Store.Rows.{Instant, Payload, Store, StoreError}
use intelliq.Jobs.Stages.{nonempty, ◌then◌}
use intelliq.Jobs.Records.{
  JobStatus, Job, OutboxStatus, Outbox, Work, as_job, job_entry, queued, pending, dispatched, job,
  outbox,
}
use Prim.Native.String.{◌++◌ as push_str}
use intelliq.Prelude.{
  string_eq, [], String, Bool, false, ◌&&◌, Option, none, some, List, ◌∷◌, if◌then◌else◌, get_or,
  ◌==◌, Result, ◌>>=◌, ok,
}

pub record Submission (R : Type 0) : Type 0 where
  pub session_id : String
  pub safe_body : R
  pub requested_key : Option String
  pub job_type : String
  pub drawn_key : String
  pub job_id : String
  pub now : Instant

module _ {R : Type 0} where
  -- `str(safe_body.get("idempotencyKey") or uuid4())`
  abbrev pub submission_key : Submission R → String
  submission_key q = get_or (nonempty q.requested_key) q.drawn_key

  -- `prior.get("type") == job_type and prior.get("idempotencyKey") == idempotency_key`
  abbrev pub has_key : String → String → Job R → Bool
  has_key type key j = (j.type == type) && (j.idempotency_key == key)

  abbrev pub keyed : String → String → Option (String × Job R) → Option (String × Job R)
  keyed type key none = none
  keyed type key (some (id, j)) = if has_key type key j then some (id, j) else none

  abbrev pub or_else : Option (String × Job R) → Option (String × Job R) → Option (String × Job R)
  or_else none rest = rest
  or_else (some prior) rest = some prior

  -- The loop over the jobs that are stored.
  unfoldable pub find_prior : String → String → List (Payload (Work R)) → Option (String × Job R)
  find_prior type key [] = none
  find_prior type key (v ∷ vs) = or_else (keyed type key (as_job (some v))) (find_prior type key vs)

  abbrev pub new_job : Submission R → Job R
  new_job q = record {
    type = q.job_type;
    session_id = some q.session_id;
    request_body = q.safe_body;
    idempotency_key = submission_key q;
    status = JobStatus.queued;
    stage = "queued";
    progress = 0;
    attempts = 0;
    dispatched = false;
    error = none;
  }

  abbrev pub new_outbox : Submission R → Outbox
  new_outbox q = record {
    topic = q.job_type;
    job_id = q.job_id;
    status = OutboxStatus.pending;
    attempts = 0;
    next_attempt_at = q.now;
    error = none;
  }

  abbrev pub new_entries : Submission R → List (Entry (Work R))
  new_entries q =
      job_entry q.job_id (new_job q) q.now
      ∷ record {
        kind = "outbox";
        id = push_str "job:" q.job_id;
        payload = outbox (new_outbox q);
        now = q.now;
      }
      ∷ []

  -- What follows the search for a prior job.
  abbrev pub enqueue_new :
      Store (Work R)
      → String
      → Submission R
      → Option (String × Job R)
      → Result StoreError (Store (Work R) × (String × Job R))
  enqueue_new s org q (some prior) = ok (s, prior)
  enqueue_new s org q none =
      save_records s org (new_entries q) >>= λ saved. ok (saved.0, (q.job_id, new_job q))

  unfoldable pub enqueue_analysis :
      Store (Work R) → String → Submission R → Result StoreError (Store (Work R) × (String × Job R))
  unfolding find_prior
  enqueue_analysis s org q = list_records s org "job" >>= λ priors.
      enqueue_new s org q (find_prior q.job_type (submission_key q) priors)
