-- ===== src/Jobs/Relay/Laws.antt =====
-- What a relay leaves of an outbox row.
use intelliq.Jobs.Run.Deliveries.{get_job-acquire_lease, get_job-release_lease}
use intelliq.Store.Leases.Exclusion.{acquire-other, release-other}
use intelliq.Store.Leases.{acquire_lease, release_lease}
use intelliq.Store.Records.Laws.{get_record-save_record}
use intelliq.Store.Records.{record_key, get_record, read_row}
use intelliq.Store.Rows.{Instant, Key, Document, Store, document, timedelta}
use intelliq.Jobs.Relay.{
  delay, outbox_entry, save_outbox, outbox_lease_seconds, outbox_lease_name, is_due, is_supported,
  as_unsupported, as_delayed, as_dispatched, Relayed, as_sent, mark_job, hand_over, relay_row,
}
use intelliq.Jobs.Records.{
  Job, OutboxStatus, Outbox, Work, get_job, save_record-returns, outbox, save_job-get_record,
}
use native.Mathlib.Nat.{pow-le-pow_right}
use intelliq.Prelude.{
  string_eq, ℕ, suc, ◌≤◌, String, ◌≡◌, refl, ap, some, arith, tests_differ, ==_iff, ==_refl, ==_ne,
  ok, ◌+◌, min, ◌∙◌, subst, Bool, true, false, Option, none, option_map, Bool-cases, ◌⊎◌, inl, inr,
  ◌≢◌, ◌↔◌,
}

-- The delay is at least two seconds and never more than 256: the limit of 300 is out of reach.
delay-bounds : (n : ℕ) → (2 ≤ delay (suc n)) × (delay (suc n) ≤ 256)
unfolding delay
delay-bounds n =
    let low = pow-le-pow_right {n = 2} (omega arith) {i = 1} {j = min (suc n) 8} (omega arith) in
    let high = pow-le-pow_right {n = 2} (omega arith) {i = min (suc n) 8} {j = 8} (omega arith) in
    (omega (arith, low), omega (arith, high))

-- A row names a job and a topic that the relay hands over.
abbrev pub IsSupported : Outbox → Type 0
IsSupported o = ((o.topic ≡ "analysis") ⊎ (o.topic ≡ "knowledge_import")) × (o.job_id ≢ "")

is_supported_iff : (o : Outbox) → (is_supported o ≡ true) ↔ IsSupported o
unfolding is_supported
is_supported_iff o =
    ground (arith, ==_iff o.topic "analysis", ==_iff o.topic "knowledge_import", ==_iff o.job_id "")

is_due-holds :
    (o : Outbox) (now : Instant)
    → (o.status ≡ OutboxStatus.pending) ⊎ (o.status ≡ OutboxStatus.retrying)
    → o.next_attempt_at ≤ now
    → is_due o now ≡ true
unfolding is_due
is_due-holds o now (inl p) due = rw p (ground arith)
is_due-holds o now (inr p) due = rw p (ground arith)

module _ {R : Type 0} where
  -- The outbox row that is stored under an id.
  abbrev pub IsKept : Store (Work R) → String → String → Outbox → Type 0
  IsKept s org id o =
      (d : Document (Work R)) × (get_record s org "outbox" id ≡ ok (some (document d)))
      × (d.body ≡ outbox o)

  save_outbox-IsKept :
      (s : Store (Work R)) (org id : String) (o o' : Outbox) (now : Instant)
      → IsKept s org id o
      → (s' : Store (Work R)) × (save_outbox s org id o' now ≡ ok s')
        × IsKept s' org id o'
        × ((j : String) → get_job s' org j ≡ get_job s org j)
  unfolding save_outbox get_job
  save_outbox-IsKept s org id o o' now (d, h, b) =
      let (s', d', saved) = save_record-returns s org (outbox_entry id o' now) h in
      let (same_id, _, _, body, reads) =
        get_record-save_record s org (outbox_entry id o' now) saved in
      (
        s',
        rw saved,
        (d', rw (reads org "outbox" id, ==_refl (record_key org "outbox" id)), body),
        λ j. rw (
          reads org "job" j,
          ==_ne (record_key org "outbox" id) (record_key org "job" j) (λ p.
              tests_differ refl
                ((==_iff {A = String} "outbox" "job").1 (ap (λ (k : Key). k.kind) p))),
        ),
      )

  release-IsKept :
      (s : Store (Work R)) (org id : String) (o : Outbox) (name token : String)
      → IsKept s org id o
      → IsKept (release_lease s org name token) org id o
  unfolding get_record
  release-IsKept s org id o name token (d, h, b) = (
    d,
    ap read_row (
          release-other s (record_key org "outbox" id) org name token (λ p.
            tests_differ refl
              ((==_iff {A = String} "lease" "outbox").1 (ap (λ (k : Key). k.kind) p))))
        ∙ h,
    b,
  )

  acquire-IsKept :
      (s : Store (Work R)) (org id : String) (o : Outbox) (name : String) (seconds : ℕ)
      (now : Instant) (token : String)
      → IsKept s org id o
      → IsKept (acquire_lease s org name seconds now token).0 org id o
  unfolding get_record
  acquire-IsKept s org id o name seconds now token (d, h, b) = (
    d,
    ap read_row (
          acquire-other s (record_key org "outbox" id) org name seconds now token (λ p.
            tests_differ refl
              ((==_iff {A = String} "lease" "outbox").1 (ap (λ (k : Key). k.kind) p))))
        ∙ h,
    b,
  )

  -- The job's record, if there is one, reads as this.
  abbrev pub IsFound : Store (Work R) → String → String → Option (Job R) → Type 0
  IsFound s org id found = get_job s org id ≡ ok (option_map (λ j. (id, j)) found)

  -- What the relay of a waiting row leaves if its topic is known, and the queue took the job or did
  -- not.
  abbrev pub IsHandedOver :
      String → String → Outbox → Option (Job R) → Instant → Bool → Relayed R → Type 0
  IsHandedOver org id o found now true (s, answer) =
      (answer ≡ ok 1)
      × IsKept s org id (record o { status = OutboxStatus.dispatched; attempts = suc o.attempts })
      × IsFound s org o.job_id (option_map (λ (j : Job R). record j { dispatched = true }) found)
  IsHandedOver org id o found now false (s, answer) =
      (answer ≡ ok 0)
      × ((next : Instant) × IsKept s org id (record o {
        status = OutboxStatus.retrying;
        attempts = suc o.attempts;
        next_attempt_at = next;
        error = some (record { code = "redis_dispatch_failed"; retryable = true });
      })
          × (now + timedelta 2 ≤ next)
          × (next ≤ now + timedelta 256))
      × IsFound s org o.job_id found

  -- What it leaves otherwise.
  abbrev pub IsRefused : String → String → Outbox → Option (Job R) → Relayed R → Type 0
  IsRefused org id o found (s, answer) =
      (answer ≡ ok 0)
      × IsKept s org id (record o {
        status = OutboxStatus.failed;
        error = some (record { code = "unsupported_outbox_topic"; retryable = false });
      })
      × IsFound s org o.job_id found

  abbrev pub IsRelayed :
      String → String → Outbox → Option (Job R) → Instant → Bool → Relayed R → Type 0
  IsRelayed org id o found now sent r =
      (IsSupported o × IsHandedOver org id o found now sent r)
      ⊎ ((¬ IsSupported o) × IsRefused org id o found r)

  save_outbox-IsFound :
      (s : Store (Work R)) (org id : String) (o o' : Outbox) (now : Instant)
      (found : Option (Job R))
      → IsKept s org id o
      → IsFound s org o.job_id found
      → (s' : Store (Work R)) × (save_outbox s org id o' now ≡ ok s')
        × IsKept s' org id o'
        × IsFound s' org o.job_id found
  save_outbox-IsFound s org id o o' now found kept h =
      let (s', saved, kept', jobs) = save_outbox-IsKept s org id o o' now kept in
      (s', saved, kept', jobs o.job_id ∙ h)

  marked :
      (s : Store (Work R)) (org id : String) (o o' : Outbox) (now : Instant)
      (found : Option (Job R))
      → IsKept s org id o'
      → IsFound s org o.job_id found
      → ((mark_job org id o now s (get_job s org o.job_id)).1 ≡ ok 1)
        × IsKept (mark_job org id o now s (get_job s org o.job_id)).0 org id o'
        × IsFound
            (mark_job org id o now s (get_job s org o.job_id)).0
            org
            o.job_id
            (option_map (λ (j : Job R). record j { dispatched = true }) found)
  marked s org id o o' now none kept h = rw h (refl, kept, h)
  marked s org id o o' now (some j) (d, k, b) h =
      let (s', saved, stored, others) = save_job-get_record s org o.job_id j j as_sent now h in
      rw h (
        rw saved (
          refl,
          (
            d,
            others "outbox" id (λ p. tests_differ refl ((==_iff {A = String} "job" "outbox").1 p))
                ∙ k,
            b,
          ),
          stored,
        ))

  hand_over-IsRelayed :
      (s : Store (Work R)) (org id : String) (o : Outbox) (found : Option (Job R)) (now : Instant)
      (sent : Bool)
      → IsKept s org id o
      → IsFound s org o.job_id found
      → IsRelayed org id o found now sent (hand_over org id o now sent s)
  unfolding hand_over
  hand_over-IsRelayed s org id o found now true kept h = elim (Bool-cases (is_supported o)) [
    | inl known ↦
        let (s₁, saved, kept₁, h₁) =
          save_outbox-IsFound s org id o (as_dispatched o) now found kept h in
        rw known (
          rw saved (
            inl (
              (is_supported_iff o).0 known,
              marked s₁ org id o (as_dispatched o) now found kept₁ h₁,
            )))
    | inr unknown ↦
        let (s₁, saved, kept₁, h₁) =
          save_outbox-IsFound s org id o (as_unsupported o) now found kept h in
        rw unknown (
          rw saved
            (inr (λ known. tests_differ unknown ((is_supported_iff o).1 known), (refl, kept₁, h₁))))
  ]
  hand_over-IsRelayed s org id o found now false kept h = elim (Bool-cases (is_supported o)) [
    | inl known ↦
        let (s₁, saved, kept₁, h₁) =
          save_outbox-IsFound s org id o (as_delayed now o) now found kept h in
        let (low, high) = delay-bounds o.attempts in
        rw known (
          rw saved (
            inl (
              (is_supported_iff o).0 known,
              (
                refl,
                (
                  now + timedelta (delay (suc o.attempts)),
                  kept₁,
                  omega (arith, low),
                  omega (arith, high),
                ),
                h₁,
              ),
            )))
    | inr unknown ↦
        let (s₁, saved, kept₁, h₁) =
          save_outbox-IsFound s org id o (as_unsupported o) now found kept h in
        rw unknown (
          rw saved
            (inr (λ known. tests_differ unknown ((is_supported_iff o).1 known), (refl, kept₁, h₁))))
  ]

  released-IsRelayed :
      (org id : String) (o : Outbox) (found : Option (Job R)) (now : Instant) (sent : Bool)
      (name token : String) (r : Relayed R)
      → IsRelayed org id o found now sent r
      → IsRelayed org id o found now sent (release_lease r.0 org name token, r.1)
  released-IsRelayed org id o found now true name token (s, answer) (inl (known, (one, kept, h))) =
      inl (
        known,
        (
          one,
          release-IsKept s org id _ name token kept,
          get_job-release_lease org o.job_id s name token ∙ h,
        ),
      )
  released-IsRelayed org id o found now false name token (s, answer)
        (inl (known, (nothing, (next, kept, a, b), h))) =
      inl (
        known,
        (
          nothing,
          (next, release-IsKept s org id _ name token kept, a, b),
          get_job-release_lease org o.job_id s name token ∙ h,
        ),
      )
  released-IsRelayed org id o found now sent name token (s, answer)
        (inr (unknown, (nothing, kept, h))) =
      inr (
        unknown,
        (
          nothing,
          release-IsKept s org id _ name token kept,
          get_job-release_lease org o.job_id s name token ∙ h,
        ),
      )

  -- A row that waits, whose time has come and whose lease is free, is handed over to the queue if it
  -- names a job and one of the two topics: if the queue takes the job, the row is stored as
  -- dispatched with one attempt more, the job is marked, if there is one, and the row counts;
  -- otherwise the row waits, with one attempt more, for two to 256 seconds, the job stays as it was,
  -- and nothing counts. Any other such row is stored as failed with its attempts as they were, the
  -- job stays as it was, and nothing counts. No exception is raised. The record of the job, if there
  -- is one, can be read.
  pub relay_row-IsRelayed :
      (s s' : Store (Work R)) (org id : String) (o : Outbox) (found : Option (Job R))
      (now : Instant) (sent : Bool) (token : String)
      → IsKept s org id o
      → IsFound s org o.job_id found
      → (o.status ≡ OutboxStatus.pending) ⊎ (o.status ≡ OutboxStatus.retrying)
      → o.next_attempt_at ≤ now
      → acquire_lease s org (outbox_lease_name id) outbox_lease_seconds now token ≡ (s', some token)
      → IsRelayed org id o found now sent (relay_row org id o now sent token s)
  unfolding relay_row
  relay_row-IsRelayed s s' org id o found now sent token kept h waits due claims =
      rw (is_due-holds o now waits due) (
        rw claims (
          released-IsRelayed org id o found now sent (outbox_lease_name id) token
            (hand_over org id o now sent s')
            (hand_over-IsRelayed s' org id o found now sent
              (subst (λ (r : Store (Work R) × Option String). IsKept r.0 org id o) claims
                (acquire-IsKept s org id o (outbox_lease_name id) outbox_lease_seconds now token
                  kept))
              (subst (λ (r : Store (Work R) × Option String). IsFound r.0 org o.job_id found) claims
                (get_job-acquire_lease org o.job_id s (outbox_lease_name id) token
                    outbox_lease_seconds now
                  ∙ h)))))
