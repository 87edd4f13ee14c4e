-- ===== src/Jobs/Daily.antt =====
-- `dispatch_due_schedules` of apps/api/src/app/workers/scheduler.py for one organization, with
-- `enqueue_daily_analysis` of service.py. The schedule record is a document of the kind "schedule";
-- how a document is read as a schedule and written with a checkpoint is a parameter, as are the
-- request that a schedule has and the calendar. The read of the schedule comes before the lease and is
-- an argument; the transactions under the lease run with nothing between.
pub mod Once
pub mod Overlap
use intelliq.Jobs.Schedule.{Calendar, Schedule, due_local_date, checkpoint}
use intelliq.Jobs.Enqueue.{Submission, enqueue_analysis}
use intelliq.Store.Records.{Entry, get_record, save_record}
use intelliq.Store.Leases.{acquire_lease, release_lease}
use intelliq.Store.Rows.{Instant, Document, Payload, Store, StoreError, document}
use intelliq.Jobs.Stages.{nonempty, ◌then◌}
use intelliq.Jobs.Records.{Job, Work, job, outbox, other}
use Prim.Native.String.{◌++◌ as push_str}
use intelliq.Prelude.{
  string_eq, [], ℕ, String, Bool, Option, none, some, if◌then◌else◌, Result, ◌>>=◌, ok, err,
}

-- A schedule record: the keys that the dates depend on, and those that a dispatch reads. The times
-- that a checkpoint notes, and `lastError`, are left out.
pub record Daily (R : Type 0) : Type 0 where
  pub enabled : Bool
  pub dates : Schedule
  pub session_id : Option String
  pub request_body : R
  pub last_job_id : Option String

-- `SCHEDULE_LEASE_SECONDS`
abbrev pub schedule_lease_seconds : ℕ
schedule_lease_seconds = 300

-- What `json` makes of a schedule document, and back, and the daily request body.
pub record Codec (R : Type 0) : Type 0 where
  pub decode : R → Daily R
  pub encode : Daily R → R
  pub daily_body : R → String → R

-- The draws, the token and the clock of one dispatch.
pub record Dispatch : Type 0 where
  pub current : Instant
  pub token : String
  pub drawn_key : String
  pub job_id : String

module _ {R : Type 0} (c : Calendar) (codec : Codec R) where
  abbrev pub work_daily : Work R → Option (Daily R)
  work_daily (other r) = some (codec.decode r)
  work_daily (job j) = none
  work_daily (outbox o) = none

  abbrev pub as_daily : Option (Payload (Work R)) → Option (Daily R)
  as_daily (some (document d)) = work_daily d.body
  as_daily _ = none

  -- `store.get_record(organization_id, SCHEDULE_KIND, DAILY_SCHEDULE_ID)`
  unfoldable pub get_schedule : Store (Work R) → String → Result StoreError (Option (Daily R))
  get_schedule s org = get_record s org "schedule" "daily" >>= λ v. ok (as_daily v)

  abbrev pub schedule_entry : Daily R → Instant → Entry (Work R)
  schedule_entry x now = record {
    kind = "schedule";
    id = "daily";
    payload = other (codec.encode x);
    now = now;
  }

  -- The submission of `enqueue_daily_analysis`.
  abbrev pub daily_submission : String → Daily R → String → String → Dispatch → Submission R
  daily_submission org x session date d = record {
    session_id = session;
    safe_body = codec.daily_body x.request_body date;
    requested_key = some (push_str (push_str (push_str "daily:" org) ":") date);
    job_type = "analysis";
    drawn_key = d.drawn_key;
    job_id = d.job_id;
    now = d.current;
  }

  -- The checkpoint: without a job, which sets `lastError`, `lastJobId` stays.
  abbrev pub checkpointed : Daily R → ℕ → Option (String × Job R) → Daily R
  checkpointed x date none = record x { dates = checkpoint c x.dates date }
  checkpointed x date (some (id, j)) = record x {
    dates = checkpoint c x.dates date;
    last_job_id = some id;
  }

  abbrev pub Dispatched : Type 0
  Dispatched = Store (Work R) × Result StoreError (Option (String × Job R))

  module _ (org : String) (d : Dispatch) where
    abbrev pub answered :
        Store (Work R)
        → Option (String × Job R)
        → Result StoreError (Store (Work R) × Document (Work R))
        → Dispatched
    answered s j (ok saved) = (saved.0, ok j)
    answered s j (err e) = (s, err e)

    unfoldable pub save_checkpoint :
        Daily R → ℕ → Option (String × Job R) → Store (Work R) → Dispatched
    save_checkpoint x date j s =
        answered s j (save_record s org (schedule_entry (checkpointed x date j) d.current))

    abbrev pub after_enqueue :
        Daily R
        → ℕ
        → Store (Work R)
        → Result StoreError (Store (Work R) × (String × Job R))
        → Dispatched
    after_enqueue x date s (err e) = (s, err e)
    after_enqueue x date s (ok (s', j)) = save_checkpoint x date (some j) s'

    -- The `try` block; a schedule without a session gets no job.
    abbrev pub dispatch_daily : Daily R → ℕ → Option String → Store (Work R) → Dispatched
    dispatch_daily x date none s = save_checkpoint x date none s
    dispatch_daily x date (some session) s =
        after_enqueue x date s
          (enqueue_analysis s org (daily_submission org x session (c.isoformat date) d))

    abbrev pub daily_lease : ℕ → String
    daily_lease date = push_str "daily:" (c.isoformat date)

    abbrev pub with_lease : Daily R → ℕ → Store (Work R) × Option String → Dispatched
    with_lease x date (s, none) = (s, ok none)
    with_lease x date (s, some token) =
        let (s', answer) = dispatch_daily x date (nonempty x.session_id) s in
        (release_lease s' org (daily_lease date) d.token, answer)

    abbrev pub if_due : Daily R → Option ℕ → Store (Work R) → Dispatched
    if_due x none s = (s, ok none)
    if_due x (some date) s =
        with_lease x date
          (acquire_lease s org (daily_lease date) schedule_lease_seconds d.current d.token)

    abbrev pub if_enabled : Result StoreError (Option (Daily R)) → Store (Work R) → Dispatched
    if_enabled (err e) s = (s, err e)
    if_enabled (ok none) s = (s, ok none)
    if_enabled (ok (some x)) s =
        if x.enabled then if_due x (due_local_date c x.dates d.current) s else (s, ok none)

    -- One dispatch from the read of the schedule on, which another process may have overtaken: the
    -- store is the one that the claim of the lease finds, not the one that was read.
    unfoldable pub dispatch_due_schedule :
        Result StoreError (Option (Daily R)) → Store (Work R) → Dispatched
    dispatch_due_schedule read s = if_enabled read s
