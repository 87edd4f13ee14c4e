-- ===== src/Jobs/Relay.antt =====
-- `relay_outbox` of apps/api/src/app/workers/worker.py, for one row of one organization: whether it
-- is due, its lease, the hand-over to the queue and what is saved after it. Whether `enqueue_job`
-- returns, the token and the clock are arguments.
pub mod Laws
use intelliq.Store.Leases.{acquire_lease, release_lease}
use intelliq.Store.Records.{Entry, save_record}
use intelliq.Store.Rows.{Instant, timedelta, Store, StoreError}
use intelliq.Jobs.Records.{
  Job, OutboxStatus, Outbox, Work, get_job, save_job, retrying, failed, pending, dispatched, outbox,
}
use Prim.Native.String.{◌++◌ as push_str}
use intelliq.Prelude.{
  string_eq, [], ℕ, suc, ◌+◌, ◌^◌, min, String, Bool, true, false, not, ◌&&◌, ◌||◌, Option, none,
  some, ltb, if◌then◌else◌, ◌==◌, Result, ◌>>=◌, ok, err,
}

-- `OUTBOX_LEASE_SECONDS`
abbrev pub outbox_lease_seconds : ℕ
outbox_lease_seconds = 60

abbrev pub outbox_lease_name : String → String
outbox_lease_name id = push_str "outbox:" id

-- `outbox.get("status") in {"pending", "retrying"}`
abbrev pub is_waiting : OutboxStatus → Bool
is_waiting OutboxStatus.pending = true
is_waiting OutboxStatus.retrying = true
is_waiting _ = false

unfoldable pub is_due : Outbox → Instant → Bool
is_due o now = is_waiting o.status && not (ltb now o.next_attempt_at)

unfoldable pub is_supported : Outbox → Bool
is_supported o = (o.topic == "analysis" || o.topic == "knowledge_import") && not (o.job_id == "")

-- The seconds until the next attempt: `min(300, 2 ** min(attempts, 8))`
unfoldable pub delay : ℕ → ℕ
delay attempts = min 300 (2 ^ min attempts 8)

abbrev pub as_unsupported : Outbox → Outbox
as_unsupported o = record o {
  status = OutboxStatus.failed;
  error = some (record { code = "unsupported_outbox_topic"; retryable = false });
}

abbrev pub as_delayed : Instant → Outbox → Outbox
as_delayed now o = record o {
  status = OutboxStatus.retrying;
  attempts = suc o.attempts;
  next_attempt_at = now + timedelta (delay (suc o.attempts));
  error = some (record { code = "redis_dispatch_failed"; retryable = true });
}

abbrev pub as_dispatched : Outbox → Outbox
as_dispatched o = record o { status = OutboxStatus.dispatched; attempts = suc o.attempts }

-- A store with the number of rows that were handed over, or an exception.
abbrev pub Relayed : Type 0 → Type 0
Relayed R = Store (Work R) × Result StoreError ℕ

module _ {R : Type 0} where
  abbrev pub outbox_entry : String → Outbox → Instant → Entry (Work R)
  outbox_entry id o now = record { kind = "outbox"; id = id; payload = outbox o; now = now }

  -- `save_outbox`: the changes over the row as it was listed.
  unfoldable pub save_outbox :
      Store (Work R) → String → String → Outbox → Instant → Result StoreError (Store (Work R))
  save_outbox s org id o now = save_record s org (outbox_entry id o now) >>= λ saved. ok saved.0

  abbrev pub after_outbox :
      (Store (Work R) → Relayed R) → Store (Work R) → Result StoreError (Store (Work R)) → Relayed R
  after_outbox k s (ok s') = k s'
  after_outbox k s (err e) = (s, err e)

  abbrev pub counted :
      Store (Work R) → Result StoreError (Store (Work R) × (String × Job R)) → Relayed R
  counted s (ok saved) = (saved.0, ok 1)
  counted s (err e) = (s, err e)

  abbrev pub as_sent : Job R → Job R
  as_sent j = record j { dispatched = true }

  module _ (org id : String) (o : Outbox) (now : Instant) where
    abbrev pub mark_job : Store (Work R) → Result StoreError (Option (String × Job R)) → Relayed R
    mark_job s (err e) = (s, err e)
    mark_job s (ok none) = (s, ok 1)
    mark_job s (ok (some j)) = counted s (save_job s org j as_sent now)

    -- The `try` block under the lease.
    unfoldable pub hand_over : Bool → Store (Work R) → Relayed R
    hand_over sent s =
        if not (is_supported o)
        then after_outbox (λ s'. (s', ok 0)) s (save_outbox s org id (as_unsupported o) now)
        else (if sent
            then after_outbox (λ s'. mark_job s' (get_job s' org o.job_id)) s
                (save_outbox s org id (as_dispatched o) now)
            else after_outbox (λ s'. (s', ok 0)) s (save_outbox s org id (as_delayed now o) now))

    abbrev pub under_lease : Bool → String → Store (Work R) × Option String → Relayed R
    under_lease sent token (s, none) = (s, ok 0)
    under_lease sent token (s, some held) =
        let (s', answer) = hand_over sent s in
        (release_lease s' org (outbox_lease_name id) token, answer)

    unfoldable pub relay_row : Bool → String → Store (Work R) → Relayed R
    relay_row sent token s =
        if is_due o now
        then under_lease sent token
            (acquire_lease s org (outbox_lease_name id) outbox_lease_seconds now token)
        else (s, ok 0)
