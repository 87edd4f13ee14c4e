-- ===== src/Jobs/Daily/Once.antt =====
-- Two dispatches of one date in apps/api/src/app/workers/scheduler.py, one after the other.
use intelliq.Jobs.Stages.{nonempty, ◌then◌}
use intelliq.Jobs.Daily.{
  Daily, schedule_lease_seconds, Codec, Dispatch, as_daily, get_schedule, schedule_entry,
  daily_submission, checkpointed, save_checkpoint, dispatch_daily, daily_lease,
  dispatch_due_schedule, Dispatched, if_due,
}
use intelliq.Jobs.Schedule.Laws.{taken}
use intelliq.Jobs.Schedule.{
  Calendar, Schedule, schedule_timezone, due_at, due_local_date, checkpoint,
}
use intelliq.Jobs.Enqueue.{enqueue_analysis}
use intelliq.Store.Records.Laws.{get_record-save_record}
use intelliq.Store.Records.{record_key, read_row, get_record, save_record}
use intelliq.Store.Leases.Exclusion.{release-other}
use intelliq.Store.Leases.{acquire_lease, release_lease}
use intelliq.Store.Rows.{Instant, Key, ExtensionRow, Store, StoreError}
use intelliq.Jobs.Records.{Job, Work}
use intelliq.Prelude.{
  string_eq, ℕ, String, ◌≡◌, refl, sym, ap, ◌∙◌, inl, inr, true, Option, none, some, tests_differ,
  ==_iff, ==_refl, Result, ◌>>=◌, Result-cases, ok, err, Bool, false, if◌then◌else◌,
}

module _ {R : Type 0} (c : Calendar) (codec : Codec R)
    (encoded : (x : Daily R) → codec.decode (codec.encode x) ≡ x) (org : String) where
  save_checkpoint-get_schedule :
      (d : Dispatch) (x : Daily R) (date : ℕ) (j : Option (String × Job R)) (s : Store (Work R))
      {o : Option (String × Job R)}
      → (save_checkpoint c codec org d x date j s).1 ≡ ok o
      → get_schedule c codec (save_checkpoint c codec org d x date j s).0 org
        ≡ ok (some (checkpointed c codec x date j))
  unfolding save_checkpoint get_schedule
  save_checkpoint-get_schedule d x date j s {o} h =
      let e = schedule_entry c codec (checkpointed c codec x date j) d.current in
      elim (Result-cases (save_record s org e)) [
        | inl ((s', doc), saved) ↦
            let (_, _, _, body, reads) = get_record-save_record s org e saved in
            rw saved (
              rw (reads org "schedule" "daily", ==_refl (record_key org "schedule" "daily"))
                (rw (body, encoded (checkpointed c codec x date j))))
        | inr (failure, p) ↦ absurd (differ (rw p at h))
      ]
    where
      differ :
          {failure : StoreError}
          → ◌≡◌ {A = Result StoreError (Option (String × Job R))} (err failure) (ok o)
          → ⊥
      differ q = cc

  -- A dispatch that raises nothing has saved the checkpoint of its date.
  dispatch_daily-get_schedule :
      (d : Dispatch) (x : Daily R) (date : ℕ) (session : Option String) (s : Store (Work R))
      {o : Option (String × Job R)}
      → (dispatch_daily c codec org d x date session s).1 ≡ ok o
      → (x' : Daily R) × (get_schedule c codec (dispatch_daily c codec org d x date session s).0 org
          ≡ ok (some x'))
        × (x'.dates ≡ checkpoint c x.dates date)
        × (x'.enabled ≡ x.enabled)
  dispatch_daily-get_schedule d x date none s h =
      (checkpointed c codec x date none, save_checkpoint-get_schedule d x date none s h, refl, refl)
  dispatch_daily-get_schedule d x date (some session) s {o} h =
      elim (Result-cases
        (enqueue_analysis s org (daily_submission c codec org x session (c.isoformat date) d))) [
          | inl ((s', (id, j)), p) ↦ (
            checkpointed c codec x date (some (id, j)),
            rw p (save_checkpoint-get_schedule d x date (some (id, j)) s' (rw p at h)),
            refl,
            refl,
          )
          | inr (failure, p) ↦ absurd (differ (rw p at h))
        ]
    where
      differ :
          {failure : StoreError}
          → ◌≡◌ {A = Result StoreError (Option (String × Job R))} (err failure) (ok o)
          → ⊥
      differ q = cc

  release-get_schedule :
      (s : Store (Work R)) (name token : String)
      → get_schedule c codec (release_lease s org name token) org ≡ get_schedule c codec s org
  unfolding get_schedule get_record
  release-get_schedule s name token =
      ap (λ (o : Option (ExtensionRow (Work R))). read_row o >>= λ v. ok (as_daily c codec v))
        (release-other s (record_key org "schedule" "daily") org name token (λ p.
          tests_differ refl
            ((==_iff {A = String} "lease" "schedule").1 (ap (λ (k : Key). k.kind) p))))

  -- The date of the checkpoint is not due again.
  due_local_date-checkpoint :
      (x : Schedule) (first again : Instant) (date : ℕ)
      → due_local_date c x first ≡ some date
      → (c.astimezone (schedule_timezone c x) again).date
        ≡ (c.astimezone (schedule_timezone c x) first).date
      → due_local_date c (checkpoint c x date) again ≡ none
  unfolding due_local_date due_at
  due_local_date-checkpoint x first again date due same =
      let (today, _) = taken _ _ (c.astimezone (schedule_timezone c x) first).date due in
      rw (
        (==_iff (c.isoformat date)
            (c.isoformat (c.astimezone (schedule_timezone c x) again).date)).1
          (ap c.isoformat (sym (same ∙ today))))

  dispatch-claimed :
      (d : Dispatch) (s s₁ : Store (Work R)) (x : Daily R) (date : ℕ)
      → get_schedule c codec s org ≡ ok (some x)
      → x.enabled ≡ true
      → due_local_date c x.dates d.current ≡ some date
      → acquire_lease s org
          (daily_lease c codec org d date)
          schedule_lease_seconds
          d.current
          d.token
        ≡ (s₁, some d.token)
      → dispatch_due_schedule c codec org d (get_schedule c codec s org) s ≡ (
        release_lease
            (dispatch_daily c codec org d x date (nonempty x.session_id) s₁).0
            org
            (daily_lease c codec org d date)
            d.token,
        (dispatch_daily c codec org d x date (nonempty x.session_id) s₁).1,
      )
  unfolding dispatch_due_schedule
  dispatch-claimed d s s₁ x date stored enabled due claimed =
      rw stored (by_switch x.enabled enabled)
    where
      by_switch :
          (b : Bool)
          → b ≡ true
          → (if b
              then if_due c codec org d x (due_local_date c x.dates d.current) s
              else (s, ok none))
            ≡ (
              release_lease
                  (dispatch_daily c codec org d x date (nonempty x.session_id) s₁).0
                  org
                  (daily_lease c codec org d date)
                  d.token,
              (dispatch_daily c codec org d x date (nonempty x.session_id) s₁).1,
            )
      by_switch true on = rw (due, claimed)
      by_switch false on = absurd (tests_differ refl on)

  -- A dispatch that finds its schedule due, claims the lease of the date and raises nothing is not
  -- repeated by one on the same local date that reads the schedule in the store which it leaves: that
  -- one stores nothing and enqueues nothing.
  pub dispatch_due_schedule-dispatch_due_schedule :
      (d e : Dispatch) (s s₁ s' : Store (Work R)) (x : Daily R) (date : ℕ)
      (o : Option (String × Job R))
      → get_schedule c codec s org ≡ ok (some x)
      → x.enabled ≡ true
      → due_local_date c x.dates d.current ≡ some date
      → acquire_lease s org
          (daily_lease c codec org d date)
          schedule_lease_seconds
          d.current
          d.token
        ≡ (s₁, some d.token)
      → dispatch_due_schedule c codec org d (get_schedule c codec s org) s ≡ (s', ok o)
      → (c.astimezone (schedule_timezone c x.dates) e.current).date
        ≡ (c.astimezone (schedule_timezone c x.dates) d.current).date
      → dispatch_due_schedule c codec org e (get_schedule c codec s' org) s' ≡ (s', ok none)
  unfolding dispatch_due_schedule
  dispatch_due_schedule-dispatch_due_schedule d e s s₁ s' x date o stored enabled due claimed h
        same =
      let body = dispatch_daily c codec org d x date (nonempty x.session_id) s₁ in
      let ran = dispatch-claimed d s s₁ x date stored enabled due claimed in
      let (x', kept, dates, same_switch) =
        dispatch_daily-get_schedule d x date (nonempty x.session_id) s₁
          (ap (λ (r : Dispatched c codec). r.1) (sym ran ∙ h)) in
      let stored' =
        ap (λ (r : Dispatched c codec). get_schedule c codec r.0 org) (sym h ∙ ran)
        ∙ release-get_schedule body.0 (daily_lease c codec org d date) d.token
        ∙ kept in
      let not_due =
        ap (λ t. due_local_date c t e.current) dates
        ∙ due_local_date-checkpoint x.dates d.current e.current date due same in
      rw (stored', same_switch ∙ enabled, not_due)
