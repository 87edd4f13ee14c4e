-- ===== src/Jobs/Daily/Overlap.antt =====
-- Two dispatches of one date in apps/api/src/app/workers/scheduler.py, of which the second may have
-- read the schedule before the first wrote its checkpoint.
use intelliq.Jobs.Stages.{nonempty}
use intelliq.Jobs.Daily.{
  Daily, schedule_lease_seconds, Codec, Dispatch, schedule_entry, daily_submission, checkpointed,
  save_checkpoint, dispatch_daily, daily_lease, dispatch_due_schedule, Dispatched, with_lease,
  if_due,
}
use intelliq.Jobs.Schedule.{Calendar, due_local_date}
use intelliq.Jobs.Enqueue.{submission_key, find_prior, enqueue_analysis}
use intelliq.Jobs.Enqueue.Repeated.{enqueue_analysis-find_prior, find_prior-enqueue_analysis}
use intelliq.Store.Records.Listings.{
  list_records-save_record, list_records-acquire_lease, list_records-release_lease,
}
use intelliq.Store.Records.{save_record, list_records}
use intelliq.Store.Leases.{acquire_lease}
use intelliq.Store.Rows.{Payload, Store, StoreError}
use intelliq.Jobs.Records.{Job, Work}
use Prim.Native.Char.{Char}
use Prim.Native.String.append
use Prim.Native.String.{◌++◌ as push_str}
use intelliq.Prelude.{
  string_eq, ℕ, String, ◌≡◌, refl, sym, ap, ◌∙◌, ◌⊎◌, inl, inr, false, Option, none, some, List,
  Result, Result-cases, ok, err, ==_ne, if-cases, ◌≢◌, ◌==◌,
}

cons_append : (a : Char) (s t : String) → push_str (String.◌∷◌ a s) t ≡ String.◌∷◌ a (push_str s t)
cons_append a s t = λ i. append.cons a s t i

-- A text that begins with a character is not empty, whatever is added to it.
longer : (a : Char) (s t u w : String) → push_str (push_str (push_str (String.◌∷◌ a s) t) u) w ≢ ""
longer a s t u w p = differ (
    sym (
      ap (λ x. push_str (push_str x u) w) (cons_append a s t)
      ∙ ap (λ x. push_str x w) (cons_append a (push_str s t) u)
      ∙ cons_append a (push_str (push_str s t) u) w)
    ∙ p)
  where
    differ : {b : Char} {x : String} → String.◌∷◌ b x ≡ "" → ⊥
    differ q = cc

module _ {R : Type 0} (c : Calendar) (codec : Codec R) (org : String) where
  -- `f"daily:{organization_id}:{local_date}"`
  abbrev pub daily_key : String → String
  daily_key date = push_str (push_str (push_str "daily:" org) ":") date

  daily_key-some : (date : String) → (daily_key date == "") ≡ false
  daily_key-some date = ==_ne (daily_key date) "" (longer "d" "aily:" org ":" date)

  submission_key-daily :
      (x : Daily R) (session date : String) (d : Dispatch)
      → submission_key (daily_submission c codec org x session date d) ≡ daily_key date
  submission_key-daily x session date d = rw (daily_key-some date) refl

  abbrev pub jobs_of : Store (Work R) → Result StoreError (List (Payload (Work R)))
  jobs_of s = list_records s org "job"

  -- The listing of the jobs has this job under the key of the date.
  abbrev pub HasJob : ℕ → String × Job R → Store (Work R) → Type 0
  HasJob date j s =
      (vs : List (Payload (Work R))) × (jobs_of s ≡ ok vs)
      × (find_prior "analysis" (daily_key (c.isoformat date)) vs ≡ some j)

  HasJob-eq :
      (date : ℕ) (j : String × Job R) (s t : Store (Work R))
      → jobs_of t ≡ jobs_of s
      → HasJob date j s
      → HasJob date j t
  HasJob-eq date j s t same (vs, listed, finds) = (vs, same ∙ listed, finds)

  -- What a dispatch answers that has no job but `j`.
  abbrev pub Answers : String × Job R → Result StoreError (Option (String × Job R)) → Type 0
  Answers j r = (r ≡ ok none) ⊎ (r ≡ ok (some j)) ⊎ ((e : StoreError) × (r ≡ err e))

  save_checkpoint-jobs :
      (d : Dispatch) (x : Daily R) (date : ℕ) (o : Option (String × Job R)) (s : Store (Work R))
      → (jobs_of (save_checkpoint c codec org d x date o s).0 ≡ jobs_of s)
        × (((save_checkpoint c codec org d x date o s).1 ≡ ok o)
            ⊎ ((e : StoreError) × ((save_checkpoint c codec org d x date o s).1 ≡ err e)))
  unfolding save_checkpoint
  save_checkpoint-jobs d x date o s =
      let e = schedule_entry c codec (checkpointed c codec x date o) d.current in
      elim (Result-cases (save_record s org e)) [
        | inl ((s', doc), saved) ↦
            rw saved (list_records-save_record org "job" s s' e doc org refl saved, inl refl)
        | inr (failure, p) ↦ rw p (refl, inr (failure, refl))
      ]

  other_answer :
      {a b : Option (String × Job R)} {r : Result StoreError (Option (String × Job R))}
      → (r ≡ ok a) ⊎ ((e : StoreError) × (r ≡ err e))
      → r ≡ ok b
      → a ≡ b
  other_answer (inl p) q = cc
  other_answer (inr (e, p)) q = cc

  nothing : {j : String × Job R} → ◌≡◌ {A = Option (String × Job R)} none (some j) → ⊥
  nothing p = cc

  -- The `try` block of a dispatch that answers a job leaves the job in the listing.
  dispatch_daily-HasJob :
      (d : Dispatch) (x : Daily R) (date : ℕ) (session : Option String) (s : Store (Work R))
      {j : String × Job R}
      → (dispatch_daily c codec org d x date session s).1 ≡ ok (some j)
      → HasJob date j (dispatch_daily c codec org d x date session s).0
  dispatch_daily-HasJob d x date none s h =
      absurd (nothing (other_answer (save_checkpoint-jobs d x date none s).1 h))
  dispatch_daily-HasJob d x date (some session) s {j} h =
      let a = daily_submission c codec org x session (c.isoformat date) d in
      elim (Result-cases (enqueue_analysis s org a)) [
        | inl ((s', j'), p) ↦
            let after = save_checkpoint-jobs d x date (some j') s' in
            let (vs, listed, finds) = enqueue_analysis-find_prior org s a p in
            let same = other_answer after.1 (rw p at h) in
            rw p (
              vs,
              after.0 ∙ listed,
              ap (λ k. find_prior "analysis" k vs)
                    (sym (submission_key-daily x session (c.isoformat date) d))
                  ∙ finds
                  ∙ same,
            )
        | inr (failure, p) ↦ absurd (differ (rw p at h))
      ]
    where
      differ :
          {failure : StoreError}
          → ◌≡◌ {A = Result StoreError (Option (String × Job R))} (err failure) (ok (some j))
          → ⊥
      differ q = cc

  -- The `try` block of a dispatch that finds the job of its date in the listing.
  HasJob-dispatch_daily :
      (d : Dispatch) (x : Daily R) (date : ℕ) (session : Option String) (s : Store (Work R))
      {j : String × Job R}
      → HasJob date j s
      → (jobs_of (dispatch_daily c codec org d x date session s).0 ≡ jobs_of s)
        × Answers j (dispatch_daily c codec org d x date session s).1
  HasJob-dispatch_daily d x date none s has =
      let after = save_checkpoint-jobs d x date none s in
      (after.0, elim after.1 [ inl p ↦ inl p | inr p ↦ inr (inr p) ])
  HasJob-dispatch_daily d x date (some session) s {j} (vs, listed, finds) =
      let a = daily_submission c codec org x session (c.isoformat date) d in
      let found = find_prior-enqueue_analysis org s a vs listed (
        ap (λ k. find_prior "analysis" k vs) (submission_key-daily x session (c.isoformat date) d)
        ∙ finds) in
      let after = save_checkpoint-jobs d x date (some j) s in
      rw found (after.0, elim after.1 [ inl p ↦ inr (inl p) | inr p ↦ inr (inr p) ])

  -- A dispatch that answers a job leaves it in the listing, and its date is the one that was due.
  dispatch_due_schedule-HasJob :
      (d : Dispatch) (x : Daily R) (date : ℕ) (s : Store (Work R)) {s' : Store (Work R)}
      {j : String × Job R}
      → due_local_date c x.dates d.current ≡ some date
      → dispatch_due_schedule c codec org d (ok (some x)) s ≡ (s', ok (some j))
      → HasJob date j s'
  unfolding dispatch_due_schedule
  dispatch_due_schedule-HasJob d x date s {s'} {j} due h =
      if-cases (λ r. r ≡ (s', ok (some j)) → HasJob date j s') x.enabled
        (if_due c codec org d x (due_local_date c x.dates d.current) s) (s, ok none)
        (λ on p.
          claimed
            (acquire_lease s org (daily_lease c codec org d date) schedule_lease_seconds d.current
              d.token)
            (ap (λ o. if_due c codec org d x o s) (sym due) ∙ p))
        (λ off p. absurd (silent (ap (λ (r : Dispatched c codec). r.1) p))) h
    where
      silent : ◌≡◌ {A = Result StoreError (Option (String × Job R))} (ok none) (ok (some j)) → ⊥
      silent p = cc

      claimed :
          (r : Store (Work R) × Option String)
          → with_lease c codec org d x date r ≡ (s', ok (some j))
          → HasJob date j s'
      claimed (t, none) p = absurd (silent (ap (λ (r : Dispatched c codec). r.1) p))
      claimed (t, some token) p =
          let ran = dispatch_daily c codec org d x date (nonempty x.session_id) t in
          HasJob-eq date j ran.0 s'
            (ap (λ (r : Dispatched c codec). jobs_of r.0) (sym p)
              ∙ list_records-release_lease org "job" ran.0 org (daily_lease c codec org d date)
                  d.token refl)
            (dispatch_daily-HasJob d x date (nonempty x.session_id) t
              (ap (λ (r : Dispatched c codec). r.1) p))

  -- If a dispatch answers a job, then another one of the same date, whatever schedule it has read,
  -- adds no job: it answers that job or none, or raises an error of the store, and the listing of the
  -- jobs stays as it is. Between the two, other processes may change all but that listing; the
  -- second one may have read the schedule before the first began.
  pub dispatch_due_schedule-jobs :
      (d e : Dispatch) (x y : Daily R) (date : ℕ) (s s' t : Store (Work R)) (j : String × Job R)
      → due_local_date c x.dates d.current ≡ some date
      → dispatch_due_schedule c codec org d (ok (some x)) s ≡ (s', ok (some j))
      → jobs_of t ≡ jobs_of s'
      → due_local_date c y.dates e.current ≡ some date
      → (jobs_of (dispatch_due_schedule c codec org e (ok (some y)) t).0 ≡ jobs_of t)
        × Answers j (dispatch_due_schedule c codec org e (ok (some y)) t).1
  unfolding dispatch_due_schedule
  dispatch_due_schedule-jobs d e x y date s s' t j first_due first same due =
      if-cases (λ r. (jobs_of r.0 ≡ jobs_of t) × Answers j r.1) y.enabled
        (if_due c codec org e y (due_local_date c y.dates e.current) t) (t, ok none)
        (λ on. rw due (
          claimed
            (acquire_lease t org (daily_lease c codec org e date) schedule_lease_seconds e.current
              e.token)
            (list_records-acquire_lease org "job" t org (daily_lease c codec org e date) e.token
              schedule_lease_seconds e.current refl)))
        (λ off. (refl, inl refl))
    where
      claimed :
          (r : Store (Work R) × Option String)
          → jobs_of r.0 ≡ jobs_of t
          → (jobs_of (with_lease c codec org e y date r).0 ≡ jobs_of t)
            × Answers j (with_lease c codec org e y date r).1
      claimed (u, none) kept = (kept, inl refl)
      claimed (u, some token) kept =
          let has =
            HasJob-eq date j s' u (kept ∙ same)
              (dispatch_due_schedule-HasJob d x date s first_due first) in
          let ran = dispatch_daily c codec org e y date (nonempty y.session_id) u in
          let (listing, answer) = HasJob-dispatch_daily e y date (nonempty y.session_id) u has in
          (
            list_records-release_lease org "job" ran.0 org (daily_lease c codec org e date) e.token
                  refl
                ∙ listing
                ∙ kept,
            answer,
          )
