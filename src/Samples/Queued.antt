-- ===== src/Samples/Queued.antt =====
-- A queued job of apps/api/src/app/workers whose pipeline meets an upstream failure.

use intelliq.Store.Records.{get_record, previous_created, save_entry, save_records, save_record}
use intelliq.Store.Sessions.{SessionRecord, get_session}
use intelliq.Store.Leases.{lease_row, acquire_lease, release_lease}
use intelliq.Store.Rows.{key_eq, extension_key, Store, empty_store, document}
use intelliq.Jobs.Run.Denied.{with_pipelines, denied_job, run_analysis_job-IsDenied}
use intelliq.Jobs.Run.Deliveries.{
  Claims, run_analysis_job-IsSettled, IsUninterrupted, HasEnded, Delivered-HasEnded, none_yet,
}
use intelliq.Jobs.Run.Settled.{LeavesJob, IsSettled}
use intelliq.Jobs.Run.{
  lease_name, save, report, perform, perform_all, finish, use_answer, complete, save_reading, read,
  authorize, authenticated, authenticate, use_session, attempt, retry_or_fail, handled,
  run_analysis_job, returned,
}
use intelliq.Jobs.Access.{
  User, analysis_read_permissions, permissions_of, require_job_access, IsDenied,
}
use intelliq.Jobs.Stages.{Pipeline, Delivery, upstream_error, reports, writes}
use intelliq.Jobs.Records.{JobStatus, Job, Work, get_job, save_job, IsStored, job}
use intelliq.Prelude.Table
use intelliq.Prelude.{
  string_eq, [], ℕ, ◌≡◌, refl, true, false, Option, none, some, ◌∷◌, arith, all, mem, ok, err, inl,
  inr,
}

abbrev queued_job : Job ℕ
queued_job = record {
  type = "analysis";
  session_id = some "s1";
  request_body = 7;
  idempotency_key = "k1";
  status = JobStatus.queued;
  stage = "queued";
  progress = 0;
  attempts = 2;
  dispatched = false;
  error = none;
}

abbrev stored : Store (Work ℕ)
stored = record empty_store {
  workflow_records =
      record {
        organization_id = "a";
        kind = "job";
        id = "j1";
        payload_json = document (record {
          id = "j1";
          organization_id = "a";
          created_at = 1;
          updated_at = 1;
          body = job queued_job;
        });
        updated_at = 1;
      }
      ∷ [];
}

queued_job-IsStored : IsStored stored "a" "j1" queued_job
unfolding get_job get_record Table.get
queued_job-IsStored = refl

abbrev user : User
user = record {
  app_admin = false;
  organization_ids = "a" ∷ [];
  organization_permissions = ("a", analysis_read_permissions) ∷ [];
}

abbrev failing : Pipeline ℕ
failing who request =
    (reports "simulating" 40 false 4 ∷ writes (λ s. s) ∷ [], err (upstream_error false))

abbrev delivery : Option User → Delivery ℕ ℕ
delivery who = record {
  token = "t1";
  claimed = 2;
  started = 2;
  authorized = 3;
  reading = 3;
  finished = 5;
  lost_before = false;
  lost_after = false;
  sessions =
      record {
        id = "s1";
        user_id = "u1";
        email = "u@example.org";
        verified = 1;
        organizations_json = "a" ∷ [];
        permissions_json = 0;
        source_mode = "live";
        csrf_token = "c";
        created_at = 1;
      }
      ∷ [];
  current = λ session. ok who;
  run_analysis = failing;
  run_knowledge_import = failing;
}

abbrev delivered : Delivery ℕ ℕ
delivered = delivery (some user)

abbrev claimed_store : Store (Work ℕ)
claimed_store = record stored {
  workflow_records =
      Table.put extension_key (lease_row "a" (lease_name "j1") "t1" 2) stored.workflow_records;
}

delivery-Claims : (who : Option User) → Claims "a" "j1" (delivery who) stored claimed_store
unfolding acquire_lease Table.get Table.put
delivery-Claims who = refl

delivery-LeavesJob : (who : Option User) → LeavesJob "a" "j1" (delivery who)
delivery-LeavesJob who signed_in request = ((tt, (λ s j h. h, tt)), (tt, (λ s j h. h, tt)))

run_analysis_job-IsSettled_example :
    IsSettled "a" "j1" 3 (run_analysis_job "a" "j1" delivered stored)
run_analysis_job-IsSettled_example =
    run_analysis_job-IsSettled "a" "j1" delivered stored claimed_store queued_job
      queued_job-IsStored refl (delivery-Claims (some user)) (delivery-LeavesJob (some user))

keeps_lease : IsUninterrupted "a" "j1" delivered (run_analysis_job "a" "j1" delivered stored)
unfolding run_analysis_job acquire_lease Table.get Table.put Table.remove get_job get_record
    save_job save_record save_records save_entry previous_created attempt save use_session
    authenticate authenticated authorize require_job_access read save_reading complete perform_all
    perform report use_answer finish handled retry_or_fail release_lease get_session permissions_of
    mem all
keeps_lease = tt

Delivered-HasEnded_example : HasEnded "a" "j1" (run_analysis_job "a" "j1" delivered stored).0
Delivered-HasEnded_example =
    Delivered-HasEnded "a" "j1" queued_job delivered queued_job-IsStored none_yet
      (delivery-Claims (some user)) (delivery-LeavesJob (some user)) keeps_lease (omega arith)

abbrev session : SessionRecord ℕ
session = record {
  session_id = "s1";
  user_id = "u1";
  email = "u@example.org";
  verified = true;
  organization_ids = "a" ∷ [];
  permissions = 0;
  source_mode = "live";
  csrf_token = "c";
}

signed_in : get_session (delivery none).sessions "s1" ≡ some session
unfolding get_session Table.get
signed_in = refl

-- A member that lost one of the permissions.
abbrev restricted : User
restricted = record user { organization_permissions = ("a", "tasks.read" ∷ []) ∷ [] }

restricted-IsDenied : IsDenied (some restricted) "a" "missing_permissions"
unfolding permissions_of mem
restricted-IsDenied = inr (refl, refl, refl, inl refl)

run_analysis_job-IsDenied_example :
    (s : Store (Work ℕ)) × IsStored s "a" "j1"
      (denied_job "a" "j1" (delivery (some restricted)) "missing_permissions" queued_job)
    × ((p q : Pipeline ℕ)
        → run_analysis_job "a" "j1"
            (with_pipelines "a" "j1" (delivery (some restricted)) p q)
            stored
          ≡ (
            s,
            returned (
                some (
                  denied_job "a" "j1"
                    (delivery (some restricted))
                    "missing_permissions"
                    queued_job)),
          ))
run_analysis_job-IsDenied_example =
    run_analysis_job-IsDenied "a" "j1" (delivery (some restricted)) stored claimed_store queued_job
      "s1" "missing_permissions" session (some restricted) queued_job-IsStored refl
      (delivery-Claims (some restricted)) refl signed_in refl restricted-IsDenied
