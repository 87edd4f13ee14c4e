-- ===== src/Jobs/Run/Deliveries.antt =====
-- A job's deliveries, one after the other.
use intelliq.Store.Leases.Exclusion.{acquire-other, release-other}
use intelliq.Store.Leases.{lease_key, acquire_lease, release_lease}
use intelliq.Store.Records.{record_key, read_row, get_record}
use intelliq.Store.Rows.{Instant, Key, ExtensionRow, Store}
use intelliq.Jobs.Run.Settled.{LeavesJob, IsSettled, use_session-Keeps, handled-IsSettled}
use intelliq.Jobs.Run.Keeps.{IsFinished, Leaves, save-IsStored}
use intelliq.Jobs.Run.{
  Ending, job_lease_seconds, lease_name, attempt, handled, released, run_analysis_job, returned,
  retried, lease_retry, interrupted, raised,
}
use intelliq.Jobs.Stages.{Delivery, as_running}
use intelliq.Jobs.Records.{is_terminal, Job, Work, as_job, get_job, IsStored, max_job_attempts}
use intelliq.Prelude.{
  string_eq, ℕ, suc, String, ◌≡◌, refl, sym, ap, ◌∙◌, ◌≢◌, true, false, Option, some, tests_differ,
  ◌==◌, ==_iff, ◌>>=◌, ok, ◌+◌, ◌≤◌, subst, ◌⊎◌, inl, inr, arith, Bool-cases,
}

different : (◌==◌ {K = String} "lease" "job") ≡ false
different = refl

lease-other : (org id name : String) → lease_key org name ≢ record_key org "job" id
lease-other org id name p =
    tests_differ different ((==_iff {A = String} "lease" "job").1 (ap (λ (k : Key). k.kind) p))

module _ {R : Type 0} (org id : String) where
  pub get_job-acquire_lease :
      (s : Store (Work R)) (name token : String) (seconds : ℕ) (now : Instant)
      → get_job (acquire_lease s org name seconds now token).0 org id ≡ get_job s org id
  unfolding get_job get_record
  get_job-acquire_lease s name token seconds now =
      ap (λ (o : Option (ExtensionRow (Work R))). read_row o >>= λ value. ok (as_job value))
        (acquire-other s (record_key org "job" id) org name seconds now token
          (lease-other org id name))

  pub get_job-release_lease :
      (s : Store (Work R)) (name token : String)
      → get_job (release_lease s org name token) org id ≡ get_job s org id
  unfolding get_job get_record
  get_job-release_lease s name token =
      ap (λ (o : Option (ExtensionRow (Work R))). read_row o >>= λ value. ok (as_job value))
        (release-other s (record_key org "job" id) org name token (lease-other org id name))

  module _ {P : Type 0} (d : Delivery P R) where
    -- The delivery claims the job's lease.
    abbrev pub Claims : Store (Work R) → Store (Work R) → Type 0
    Claims s s' =
        acquire_lease s org (lease_name id) job_lease_seconds d.claimed d.token ≡ (s', some d.token)

    pub claimed_job :
        (s s' : Store (Work R)) (j : Job R)
        → Claims s s'
        → IsStored s org id j
        → IsStored s' org id j
    claimed_job s s' j claims stored =
        ap (λ (r : Store (Work R) × Option String). get_job r.0 org id) (sym claims)
        ∙ get_job-acquire_lease s (lease_name id) d.token job_lease_seconds d.claimed
        ∙ stored

    released-IsSettled :
        (n : ℕ) (r : Store (Work R) × Ending R)
        → IsSettled org id n r
        → IsSettled org id n (released org id d r)
    released-IsSettled n (s, returned o) (j, same, (stored, counted, final)) =
        (j, same, (get_job-release_lease s (lease_name id) d.token ∙ stored, counted, final))
    released-IsSettled n (s, retried defer) (j, stored, counted, waits, budget, delay) =
        (j, get_job-release_lease s (lease_name id) d.token ∙ stored, counted, waits, budget, delay)
    released-IsSettled n (s, lease_retry) (j, stored, counted, runs) =
        (j, get_job-release_lease s (lease_name id) d.token ∙ stored, counted, runs)
    released-IsSettled n (s, interrupted) (j, stored, counted, runs) =
        (j, get_job-release_lease s (lease_name id) d.token ∙ stored, counted, runs)
    released-IsSettled n (s, raised e) h = absurd h

    attempt-Leaves :
        LeavesJob org id d
        → (s : Store (Work R)) (j : Job R) → IsStored s org id j
        → Leaves org id
            (suc j.attempts)
            (IsFinished org id (suc j.attempts))
            (attempt org id d (s, j))
    unfolding attempt
    attempt-Leaves leaves s j stored =
        let n = suc j.attempts in
        let (s', saved, stored') = save-IsStored org id n (as_running n) d.started s j j stored in
        rw saved (
          use_session-Keeps org id n d leaves (s', as_running n j)
            (refl, as_running n j, stored', refl, refl))

    -- A delivery that claims the lease of a job that is not final counts one attempt, and then the
    -- job is final and returned, or waits for a retry within the budget of three attempts with the
    -- delay that is raised, or is left running, with the attempt counted, because the lease was lost
    -- or the queue cancelled the job. No error of the store leaves the worker. The pipelines leave
    -- the job's record to the worker.
    pub run_analysis_job-IsSettled :
        (s s' : Store (Work R)) (j : Job R)
        → IsStored s org id j
        → is_terminal j.status ≡ false
        → Claims s s'
        → LeavesJob org id d
        → IsSettled org id (suc j.attempts) (run_analysis_job org id d s)
    unfolding run_analysis_job
    run_analysis_job-IsSettled s s' j stored active claims leaves = rw stored (
        rw (active, claims)
          (rw (claimed_job s s' j claims stored) (
            rw active (
              released-IsSettled (suc j.attempts) (handled org id d (attempt org id d (s', j))) (
                handled-IsSettled org id (suc j.attempts) d (attempt org id d (s', j))
                  (attempt-Leaves leaves s' j (claimed_job s s' j claims stored)))))))

    -- A delivery of a final job changes nothing and returns the job.
    pub run_analysis_job-IsTerminal :
        (s : Store (Work R)) (j : Job R)
        → IsStored s org id j
        → is_terminal j.status ≡ true
        → run_analysis_job org id d s ≡ (s, returned (some j))
    unfolding run_analysis_job
    run_analysis_job-IsTerminal s j stored final = rw stored (rw final)

    -- The worker did not lose the lease, and the queue did not cancel the job.
    abbrev pub IsUninterrupted : Store (Work R) × Ending R → Type 0
    IsUninterrupted (s, lease_retry) = ⊥
    IsUninterrupted (s, interrupted) = ⊥
    IsUninterrupted (s, _) = Unit

  -- The stores that deliveries in a row lead to, each of which claims the lease. Any of them may lose
  -- it or be cancelled.
  pub data Delivered (P : Type 0) (s : Store (Work R)) : Store (Work R) → ℕ → Type 0 where
    none_yet : Delivered P s s 0
    once_more :
        {s₁ s₂ : Store (Work R)} {n : ℕ} (d : Delivery P R)
        → Delivered P s s₁ n
        → Claims d s₁ s₂
        → LeavesJob org id d
        → Delivered P s (run_analysis_job org id d s₁).0 (suc n)

  -- A job has come to an end, or counts so many attempts.
  abbrev pub IsCounted : ℕ → Store (Work R) → Type 0
  IsCounted n s =
      (j : Job R) × IsStored s org id j × ((is_terminal j.status ≡ true) ⊎ (j.attempts ≡ n))

  IsCounted-eq : (s : Store (Work R)) {m n : ℕ} → m ≡ n → IsCounted m s → IsCounted n s
  IsCounted-eq s p h = subst (λ n. IsCounted n s) p h

  settled-IsCounted :
      (n : ℕ) (r : Store (Work R) × Ending R) → IsSettled org id n r → IsCounted n r.0
  settled-IsCounted n (s, returned o) (j, same, (stored, counted, final)) = (j, stored, inl final)
  settled-IsCounted n (s, retried defer) (j, stored, counted, waits, budget, delay) =
      (j, stored, inr counted)
  settled-IsCounted n (s, lease_retry) (j, stored, counted, runs) = (j, stored, inr counted)
  settled-IsCounted n (s, interrupted) (j, stored, counted, runs) = (j, stored, inr counted)
  settled-IsCounted n (s, raised e) h = absurd h

  -- The job is stored with a final status.
  abbrev pub HasEnded : Store (Work R) → Type 0
  HasEnded s = (j : Job R) × IsStored s org id j × (is_terminal j.status ≡ true)

  module _ {P : Type 0} where
    -- What one more delivery leaves of a job that has ended or counts so many attempts.
    one_more :
        (n : ℕ) (d : Delivery P R) (s s' : Store (Work R))
        → Claims d s s'
        → LeavesJob org id d
        → IsCounted n s
        → HasEnded (run_analysis_job org id d s).0
          ⊎ IsSettled org id (suc n) (run_analysis_job org id d s)
    one_more n d s s' claims leaves (j, stored, now) = elim (Bool-cases (is_terminal j.status)) [
      | inl final ↦ inl (
        j,
        ap (λ (r : Store (Work R) × Ending R). get_job r.0 org id)
              (run_analysis_job-IsTerminal d s j stored final)
            ∙ stored,
        final,
      )
      | inr active ↦ inr (
          subst (λ m. IsSettled org id (suc m) (run_analysis_job org id d s)) (counted j now active)
            (run_analysis_job-IsSettled d s s' j stored active claims leaves))
    ]
      where
        counted :
            (j : Job R)
            → (is_terminal j.status ≡ true) ⊎ (j.attempts ≡ n)
            → is_terminal j.status ≡ false
            → j.attempts ≡ n
        counted j (inl final) active = absurd (tests_differ active final)
        counted j (inr same) active = same

    Delivered-IsCounted :
        {s s' : Store (Work R)} {n : ℕ} (a : ℕ)
        → Delivered P s s' n
        → IsCounted a s
        → IsCounted (n + a) s'
    Delivered-IsCounted {s} a none_yet h = IsCounted-eq s (omega arith) h
    Delivered-IsCounted a (once_more {s₁} {s₂} {n} d before claims leaves) h =
        elim (one_more (n + a) d s₁ s₂ claims leaves (Delivered-IsCounted a before h)) [
          | inl ended ↦ (ended.0, ended.1, inl ended.2)
          | inr settled ↦
              IsCounted-eq (run_analysis_job org id d s₁).0 (omega arith)
                (settled-IsCounted (suc (n + a)) (run_analysis_job org id d s₁) settled)
        ]

    uninterrupted :
        (n : ℕ) (d : Delivery P R) (r : Store (Work R) × Ending R)
        → max_job_attempts ≤ n
        → IsSettled org id n r
        → IsUninterrupted d r
        → HasEnded r.0
    uninterrupted n d (s, returned o) enough (j, same, (stored, counted, final)) kept =
        (j, stored, final)
    uninterrupted n d (s, retried defer) enough (j, stored, counted, waits, budget, delay) kept =
        absurd (omega (arith, enough, budget))
    uninterrupted n d (s, lease_retry) enough h kept = absurd kept
    uninterrupted n d (s, interrupted) enough h kept = absurd kept
    uninterrupted n d (s, raised e) enough h kept = absurd h

    -- A job comes to an end: after any deliveries that claim its lease, lost leases and cancelled
    -- jobs included, the next one that keeps the lease and is not cancelled leaves the job stored
    -- with a final status, if with it at least three attempts are counted. The pipelines leave the
    -- job's record to the worker.
    pub Delivered-HasEnded :
        {s s₁ s₂ : Store (Work R)} {n : ℕ} (j : Job R) (d : Delivery P R)
        → IsStored s org id j
        → Delivered P s s₁ n
        → Claims d s₁ s₂
        → LeavesJob org id d
        → IsUninterrupted d (run_analysis_job org id d s₁)
        → max_job_attempts ≤ suc (n + j.attempts)
        → HasEnded (run_analysis_job org id d s₁).0
    Delivered-HasEnded {s₁} {s₂} {n} j d stored deliveries claims leaves kept enough =
        let before = Delivered-IsCounted j.attempts deliveries (j, stored, inr refl) in
        elim (one_more (n + j.attempts) d s₁ s₂ claims leaves before) [
          | inl ended ↦ ended
          | inr settled ↦
              uninterrupted (suc (n + j.attempts)) d (run_analysis_job org id d s₁) enough settled
                kept
        ]
