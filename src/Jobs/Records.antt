-- ===== src/Jobs/Records.antt =====
-- The job and outbox records of apps/api/src/app/workers/service.py, and `save_job`, on the store's
-- workflow records. A job keeps the keys that the workers read or decide by; times, messages and
-- results are left out.
use intelliq.Store.Records.Laws.{get_record-save_record}
use intelliq.Store.Records.{
  record_key, Entry, loads, read_row, get_record, created_at, created_before, previous_created,
  save_entry, save_records, save_record, stamped, document_row,
}
use intelliq.Prelude.{
  string_eq, ℕ, String, ◌≡◌, refl, Bool, true, false, Option, none, some, ==_refl, Result, ◌>>=◌,
  >>=-eq-ok, ok, ap, ◌≢◌, ==_ne,
}
use intelliq.Prelude.Table
use intelliq.Store.Rows.{
  key_eq, Instant, Document, Payload, ExtensionRow, extension_key, Store, StoreError, document, Key,
}

pub data JobStatus : Type 0 where
  queued running retrying completed needs_inputs failed expired : JobStatus

-- `status in {"completed", "needs_inputs", "failed", "expired"}`
abbrev pub is_terminal : JobStatus → Bool
is_terminal queued = false
is_terminal running = false
is_terminal retrying = false
is_terminal _ = true

pub record JobError : Type 0 where
  pub code : String
  pub retryable : Bool

-- `R` is the type of request bodies.
pub record Job (R : Type 0) : Type 0 where
  pub type : String
  pub session_id : Option String
  pub request_body : R
  pub idempotency_key : String
  pub status : JobStatus
  pub stage : String
  pub progress : ℕ
  pub attempts : ℕ
  pub dispatched : Bool  -- dispatchStatus
  pub error : Option JobError

pub data OutboxStatus : Type 0 where
  pending retrying dispatched failed : OutboxStatus

pub record Outbox : Type 0 where
  pub topic : String
  pub job_id : String
  pub status : OutboxStatus
  pub attempts : ℕ
  pub next_attempt_at : Instant
  pub error : Option JobError

-- The documents of the kinds "job" and "outbox", and any other one.
pub data Work (R : Type 0) : Type 0 where
  job : Job R → Work R
  outbox : Outbox → Work R
  other : R → Work R

-- `MAX_JOB_ATTEMPTS`
abbrev pub max_job_attempts : ℕ
max_job_attempts = 3

module _ {R : Type 0} where
  -- A job as the workers hold it: its id and the rest.
  abbrev pub work_job : String → Work R → Option (String × Job R)
  work_job id (job j) = some (id, j)
  work_job id (outbox o) = none
  work_job id (other r) = none

  abbrev pub as_job : Option (Payload (Work R)) → Option (String × Job R)
  as_job (some (document d)) = work_job d.id d.body
  as_job _ = none

  -- `store.get_record(organization_id, "job", job_id)`
  unfoldable pub get_job :
      Store (Work R) → String → String → Result StoreError (Option (String × Job R))
  get_job s org id = get_record s org "job" id >>= λ value. ok (as_job value)

  abbrev pub job_entry : String → Job R → Instant → Entry (Work R)
  job_entry id j now = record { kind = "job"; id = id; payload = job j; now = now }

  abbrev pub base_of : Option (String × Job R) → Job R → Job R
  base_of none j = j
  base_of (some (id, current)) j = current

  -- `save_job`: the stored job's keys win over those of the job that was passed, and the changes
  -- over both.
  unfoldable pub save_job :
      Store (Work R)
      → String
      → String × Job R
      → (Job R → Job R)
      → Instant
      → Result StoreError (Store (Work R) × (String × Job R))
  save_job s org (id, j) change now = do
    current ← get_job s org id
    saved ← save_record s org (job_entry id (change (base_of current j)) now)
    ok (saved.0, (id, change (base_of current j)))

  -- The job that is stored under an id.
  abbrev pub IsStored : Store (Work R) → String → String → Job R → Type 0
  IsStored s org id j = get_job s org id ≡ ok (some (id, j))

  readable :
      (o : Option (ExtensionRow (Work R))) (now : Instant) {v : Option (Payload (Work R))}
      → read_row o ≡ ok v
      → (created : Instant) × (created_before o now ≡ ok created)
  readable none now h = (now, refl)
  readable (some row) now h =
      let (value, loaded, _) = >>=-eq-ok (loads row.payload_json) _ h in
      (created_at value now, rw loaded)

  -- A record that can be read can be saved, and then reads back.
  pub save_record-returns :
      (s : Store (Work R)) (org : String) (e : Entry (Work R)) {v : Option (Payload (Work R))}
      → get_record s org e.kind e.id ≡ ok v
      → (s' : Store (Work R)) × (d : Document (Work R)) × (save_record s org e ≡ ok (s', d))
  unfolding get_record save_record save_records save_entry previous_created
  save_record-returns s org e h =
      let (created, p) =
        readable (Table.get extension_key (record_key org e.kind e.id) s.workflow_records) e.now
          h in
      let d = stamped org e created in
      let row = document_row org e d in
      (record s { workflow_records = Table.put extension_key row s.workflow_records }, d, rw p)

  -- A change of a stored job succeeds, stores and returns the changed job, and leaves every record of
  -- another kind as it was.
  pub save_job-get_record :
      (s : Store (Work R)) (org id : String) (held j : Job R) (change : Job R → Job R)
      (now : Instant)
      → IsStored s org id j
      → (s' : Store (Work R)) × (save_job s org (id, held) change now ≡ ok (s', (id, change j)))
        × IsStored s' org id (change j)
        × ((k i : String) → "job" ≢ k → get_record s' org k i ≡ get_record s org k i)
  unfolding save_job get_job
  save_job-get_record s org id held j change now h =
      let (v, found, _) = >>=-eq-ok (get_record s org "job" id) _ h in
      let (s', d, saved) = save_record-returns s org (job_entry id (change j) now) found in
      let (same_id, _, _, body, reads) =
        get_record-save_record s org (job_entry id (change j) now) saved in
      (
        s',
        rw h (rw saved),
        rw (reads org "job" id, ==_refl (record_key org "job" id)) (rw (same_id, body)),
        λ k i other. rw (
          reads org k i,
          ==_ne (record_key org "job" id) (record_key org k i)
              (λ p. other (ap (λ (x : Key). x.kind) p)),
        ),
      )

  pub save_job-IsStored :
      (s : Store (Work R)) (org id : String) (held j : Job R) (change : Job R → Job R)
      (now : Instant)
      → IsStored s org id j
      → (s' : Store (Work R)) × (save_job s org (id, held) change now ≡ ok (s', (id, change j)))
        × IsStored s' org id (change j)
  save_job-IsStored s org id held j change now h =
      let (s', saved, stored, _) = save_job-get_record s org id held j change now h in
      (s', saved, stored)
