-- ===== src/Samples/Daily.antt =====
-- The daily schedule of a tenant of apps/api/src/app/workers, dispatched twice on one local date.
use intelliq.Jobs.Daily.Once.{dispatch_due_schedule-dispatch_due_schedule}
use intelliq.Jobs.Daily.Overlap.{jobs_of, Answers, dispatch_due_schedule-jobs}
use intelliq.Jobs.Daily.{
  Daily, schedule_lease_seconds, Codec, Dispatch, get_schedule, schedule_entry, daily_submission,
  save_checkpoint, daily_lease, dispatch_due_schedule,
}
use intelliq.Jobs.Schedule.{
  Schedule, before_publication, publication_time, dispatch_time, due_at, due_local_date,
}
use intelliq.Jobs.Enqueue.{find_prior, new_job, enqueue_analysis}
use intelliq.Store.Records.{
  get_record, stamped, document_row, previous_created, save_entry, save_records, save_record,
  insert_newest, newest_first, load_all, list_records,
}
use intelliq.Store.Leases.{lease_row, acquire_lease}
use intelliq.Jobs.Records.{Job, Work}
use intelliq.Prelude.Table
use intelliq.Prelude.{
  string_eq, [], ℕ, ◌+◌, ◌*◌, String, ◌≡◌, refl, Bool, true, false, Option, none, some, ◌∷◌, ◌++◌,
  filter, ok,
}
use intelliq.Store.Rows.{key_eq, Store, empty_store}
use intelliq.Samples.Planned.{utc, early}

-- Documents that are a schedule or blank.
data Doc : Type 0 where
  blank : Doc
  daily : Bool → Schedule → Option String → Doc → Option String → Doc

abbrev read_doc : Doc → Daily Doc
read_doc blank = record {
  enabled = false;
  dates = early;
  session_id = none;
  request_body = blank;
  last_job_id = none;
}
read_doc (daily on dates session body last) = record {
  enabled = on;
  dates = dates;
  session_id = session;
  request_body = body;
  last_job_id = last;
}

abbrev codec : Codec Doc
codec = record {
  decode = read_doc;
  encode = λ x. daily x.enabled x.dates x.session_id x.request_body x.last_job_id;
  daily_body = λ body date. body;
}

abbrev every_day : Daily Doc
every_day = read_doc (daily true early (some "s1") blank none)

abbrev scheduled : Store (Work Doc)
scheduled = record empty_store {
  workflow_records =
      document_row "a" (schedule_entry utc codec every_day 1)
        (stamped "a" (schedule_entry utc codec every_day 1) 1)
      ∷ [];
}

abbrev dispatch : ℕ → String → Dispatch
dispatch minutes id = record {
  current = 172800000000 + minutes * 60000000;
  token = "t";
  drawn_key = "d";
  job_id = id;
}

abbrev leased : Store (Work Doc)
leased = record scheduled {
  workflow_records =
      scheduled.workflow_records
      ++ (lease_row "a" (daily_lease utc codec "a" (dispatch 1 "j1") 2) "t"
            (dispatch 1 "j1").current
          ∷ []);
}

abbrev daily_job : String × Job Doc
daily_job = (
  "j1",
  new_job (daily_submission utc codec "a" every_day "s1" (utc.isoformat 2) (dispatch 1 "j1")),
)

scheduled-every_day : get_schedule utc codec scheduled "a" ≡ ok (some every_day)
unfolding get_schedule get_record Table.get
scheduled-every_day = refl

due : due_local_date utc early (dispatch 1 "j1").current ≡ some 2
unfolding due_local_date due_at dispatch_time publication_time before_publication
due = refl

claimed :
    acquire_lease scheduled "a"
      (daily_lease utc codec "a" (dispatch 1 "j1") 2)
      schedule_lease_seconds
      (dispatch 1 "j1").current
      "t"
    ≡ (leased, some "t")
unfolding acquire_lease Table.get Table.put
claimed = refl

-- What a dispatch that reads the schedule in the store leaves.
abbrev first_store : Store (Work Doc)
first_store =
    (dispatch_due_schedule utc codec "a" (dispatch 1 "j1") (get_schedule utc codec scheduled "a")
      scheduled).0

dispatched :
    dispatch_due_schedule utc codec "a"
      (dispatch 1 "j1")
      (get_schedule utc codec scheduled "a")
      scheduled
    ≡ (first_store, ok (some daily_job))
unfolding dispatch_due_schedule get_schedule get_record due_local_date due_at dispatch_time
    publication_time before_publication acquire_lease Table.get Table.put enqueue_analysis
    list_records newest_first insert_newest load_all filter find_prior save_records save_entry
    previous_created save_checkpoint save_record
dispatched = refl

dispatch_due_schedule-dispatch_due_schedule_example :
    dispatch_due_schedule utc codec "a"
      (dispatch 9 "j2")
      (get_schedule utc codec first_store "a")
      first_store
    ≡ (first_store, ok none)
dispatch_due_schedule-dispatch_due_schedule_example =
    dispatch_due_schedule-dispatch_due_schedule utc codec (λ x. refl) "a" (dispatch 1 "j1")
      (dispatch 9 "j2") scheduled leased first_store every_day 2 (some daily_job)
      scheduled-every_day refl due claimed dispatched refl

-- A dispatch that has read the schedule before the first one began.
abbrev second_store : Store (Work Doc)
second_store =
    (dispatch_due_schedule utc codec "a" (dispatch 1 "j1") (ok (some every_day)) scheduled).0

dispatched_again :
    dispatch_due_schedule utc codec "a" (dispatch 1 "j1") (ok (some every_day)) scheduled
    ≡ (second_store, ok (some daily_job))
unfolding dispatch_due_schedule get_record due_local_date due_at dispatch_time publication_time
    before_publication acquire_lease Table.get Table.put enqueue_analysis list_records newest_first
    insert_newest load_all filter find_prior save_records save_entry previous_created
    save_checkpoint save_record
dispatched_again = refl

due_later : due_local_date utc early (dispatch 9 "j2").current ≡ some 2
unfolding due_local_date due_at dispatch_time publication_time before_publication
due_later = refl

dispatch_due_schedule-jobs_example :
    (jobs_of utc codec "a"
        (dispatch_due_schedule utc codec "a" (dispatch 9 "j2") (ok (some every_day)) second_store).0
      ≡ jobs_of utc codec "a" second_store)
    × Answers utc codec "a" daily_job
        (dispatch_due_schedule utc codec "a" (dispatch 9 "j2") (ok (some every_day)) second_store).1
dispatch_due_schedule-jobs_example =
    dispatch_due_schedule-jobs utc codec "a" (dispatch 1 "j1") (dispatch 9 "j2") every_day every_day
      2 scheduled second_store second_store daily_job due dispatched_again refl due_later
