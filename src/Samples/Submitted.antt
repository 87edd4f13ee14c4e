-- ===== src/Samples/Submitted.antt =====
-- A submission to an empty store, sent twice, and the relay of its outbox row, of
-- apps/api/src/app/workers.
use intelliq.Jobs.Relay.Laws.{IsKept, IsFound, IsRelayed, relay_row-IsRelayed}
use intelliq.Jobs.Relay.{outbox_lease_seconds, outbox_lease_name, relay_row}
use intelliq.Jobs.Enqueue.Repeated.{enqueue_analysis-enqueue_analysis}
use intelliq.Jobs.Enqueue.{Submission, find_prior, new_job, new_outbox, enqueue_analysis}
use intelliq.Store.Records.{
  Entry, get_record, stamped, document_row, previous_created, save_entry, save_records,
  insert_newest, newest_first, load_all, list_records,
}
use intelliq.Store.Leases.{lease_row, acquire_lease}
use intelliq.Jobs.Records.{Outbox, Work, get_job, job_entry, outbox}
use intelliq.Prelude.Table
use intelliq.Prelude.{
  string_eq, [], ℕ, String, ◌≡◌, refl, false, some, ◌∷◌, ◌++◌, filter, ok, inl, arith,
}
use intelliq.Store.Rows.{key_eq, Store, empty_store}

abbrev nothing : Store (Work ℕ)
nothing = empty_store

abbrev submission : String → String → Submission ℕ
submission id drawn = record {
  session_id = "s1";
  safe_body = 7;
  requested_key = some "k2";
  job_type = "analysis";
  drawn_key = drawn;
  job_id = id;
  now = 9;
}

abbrev outbox_of_j2 : Entry (Work ℕ)
outbox_of_j2 = record {
  kind = "outbox";
  id = "job:j2";
  payload = outbox (new_outbox (submission "j2" "d2"));
  now = 9;
}

abbrev enqueued : Store (Work ℕ)
enqueued = record nothing {
  workflow_records =
      (document_row "a" (job_entry "j2" (new_job (submission "j2" "d2")) 9)
          (stamped "a" (job_entry "j2" (new_job (submission "j2" "d2")) 9) 9)
        ∷ document_row "a" outbox_of_j2 (stamped "a" outbox_of_j2 9)
        ∷ []);
}

first_submission :
    enqueue_analysis nothing "a" (submission "j2" "d2")
    ≡ ok (enqueued, ("j2", new_job (submission "j2" "d2")))
unfolding enqueue_analysis list_records newest_first insert_newest load_all filter find_prior
    save_records save_entry previous_created Table.get Table.put
first_submission = refl

enqueue_analysis-enqueue_analysis_example :
    enqueue_analysis enqueued "a" (submission "j3" "d3")
    ≡ ok (enqueued, ("j2", new_job (submission "j2" "d2")))
enqueue_analysis-enqueue_analysis_example =
    enqueue_analysis-enqueue_analysis "a" nothing (submission "j2" "d2") (submission "j3" "d3")
      first_submission refl refl

abbrev waiting_outbox : Outbox
waiting_outbox = new_outbox (submission "j2" "d2")

waiting_outbox-IsKept : IsKept enqueued "a" "job:j2" waiting_outbox
unfolding get_record Table.get
waiting_outbox-IsKept = (stamped "a" outbox_of_j2 9, refl, refl)

second_job-IsFound : IsFound enqueued "a" "j2" (some (new_job (submission "j2" "d2")))
unfolding get_job get_record Table.get
second_job-IsFound = refl

abbrev leased_outbox : Store (Work ℕ)
leased_outbox = record enqueued {
  workflow_records =
      enqueued.workflow_records ++ (lease_row "a" (outbox_lease_name "job:j2") "t2" 20 ∷ []);
}

outbox_claimed :
    acquire_lease enqueued "a" (outbox_lease_name "job:j2") outbox_lease_seconds 20 "t2"
    ≡ (leased_outbox, some "t2")
unfolding acquire_lease Table.get Table.put
outbox_claimed = refl

relay_row-IsRelayed_example :
    IsRelayed "a" "job:j2" waiting_outbox
      (some (new_job (submission "j2" "d2")))
      20
      false
      (relay_row "a" "job:j2" waiting_outbox 20 false "t2" enqueued)
relay_row-IsRelayed_example =
    relay_row-IsRelayed enqueued leased_outbox "a" "job:j2" waiting_outbox
      (some (new_job (submission "j2" "d2"))) 20 false "t2" waiting_outbox-IsKept second_job-IsFound
      (inl refl) (omega arith) outbox_claimed
