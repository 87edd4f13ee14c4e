-- ===== src/Jobs/Schedule/Laws.antt =====
-- When a schedule is due.
use intelliq.Jobs.Schedule.{
  Time, LocalTime, Calendar, Schedule, dispatch_minutes_before_publication, text_or, day, reading,
  before_publication, dispatch_time, due_at, next_dispatch_local, checkpoint, combine,
  publication_time, next_day,
}
use intelliq.Prelude.{
  nat_eq, string_eq, string_eq, ℕ, suc, ◌+◌, ◌-◌, ◌*◌, ◌≤◌, ◌<◌, String, ◌≡◌, inl, inr, none, some,
  arith, Option-cases, ltb, if◌then◌else◌, ◌∙◌, Bool, true, false, Option, leb, leb→le, eq-cases,
  sym, ap, ◌≢◌, lt→ltb, ==_iff, ==_ne,
}

-- A time of day.
abbrev pub IsTime : Time → Type 0
IsTime t = (t.hour < 24) × (t.minute < 60)

abbrev pub minutes : Time → ℕ
minutes t = t.hour * 60 + t.minute

-- The dispatch is a time of day, ten minutes before the publication, or at midnight when the
-- publication is earlier than that.
pub before_publication-IsTime :
    (t : Time)
    → IsTime t
    → IsTime (before_publication t)
      × (minutes (before_publication t) ≡ minutes t - dispatch_minutes_before_publication)
unfolding before_publication
before_publication-IsTime t (h, m) = ((omega (arith, h, m), omega arith), omega arith)

pub taken :
    (done late : Bool) (today : ℕ) {date : ℕ}
    → ◌≡◌ {A = Option ℕ} (if done then none else (if late then some today else none)) (some date)
    → (today ≡ date) × (late ≡ true)
taken true late today h = ground arith
taken false true today h = ground arith
taken false false today h = ground arith

-- A test and its negation, with the branches exchanged.
exchanged :
    {A : Type 0} (x y : A) (m n : ℕ) → (if leb m n then x else y) ≡ (if ltb n m then y else x)
exchanged x y m n = ground arith

module _ (c : Calendar) where
  -- The dispatch time of every schedule is a time of day, ten minutes before the publication, or
  -- midnight when the publication is earlier than that, whatever text the schedule has.
  pub dispatch_time-IsTime :
      ((text : String) (t : Time) → c.time_from_isoformat text ≡ some t → IsTime t)
      → (s : Schedule)
      → IsTime (dispatch_time c s)
        × (minutes (dispatch_time c s)
            ≡ minutes (publication_time c s) - dispatch_minutes_before_publication)
  unfolding dispatch_time publication_time
  dispatch_time-IsTime times s =
      before_publication-IsTime (publication_time c s)
        (elim (Option-cases (c.time_from_isoformat text)) [
          | inl p ↦ rw p (omega arith, omega arith)
          | inr (t, p) ↦ rw p (times text t p)
        ])
    where
      text : String
      text = text_or s.analysis_time "06:00"

  -- After the dispatch of a due date, and until the end of the following date, the schedule is due
  -- again exactly from its next dispatch on; the next dispatch is later than now, by one day of the
  -- clock at most.
  pub due_at-next_dispatch_local :
      ((a b : ℕ) → c.isoformat a ≡ c.isoformat b → a ≡ b)
      → (s : Schedule) (now later : LocalTime) (date : ℕ) → due_at c s now ≡ some date
      → now.microseconds < day
      → later.microseconds < day
      → reading now ≤ reading later
      → later.date ≤ suc date
      → (due_at c (checkpoint c s date) later ≡ (
          if ltb (reading later) (reading (next_dispatch_local c s now))
          then none
          else some later.date))
        × (reading now < reading (next_dispatch_local c s now))
        × (reading (next_dispatch_local c s now) ≤ reading now + day)
  unfolding due_at next_dispatch_local dispatch_time publication_time
  due_at-next_dispatch_local distinct_dates s now later date due a b after within =
      let (same, reached) = taken _ _ now.date due in
      let start = combine now.date (dispatch_time c s) in
      let passed = leb→le (reading start) (reading now) reached in
      rw reached (again same, omega (arith, a), omega (arith, passed))
    where
      tomorrow : LocalTime
      tomorrow = next_day (combine now.date (dispatch_time c s))

      follows : now.date ≡ date → later.date ≢ now.date → later.date ≡ suc now.date
      follows same p = omega (arith, same, p, a, b, after, within)

      again :
          now.date ≡ date
          → due_at c (checkpoint c s date) later ≡ (
              if ltb (reading later) (reading (next_day (combine now.date (dispatch_time c s))))
              then none
              else some later.date)
      again same = elim (eq-cases later.date now.date) [
        | inl p ↦ rw (
          (==_iff (c.isoformat date) (c.isoformat later.date)).1
              (ap c.isoformat (sym same ∙ sym p)),
          lt→ltb (reading later) (reading tomorrow) (omega (arith, p, b)),
        )
        | inr p ↦
            rw
              (==_ne (c.isoformat date) (c.isoformat later.date)
                (λ q. p (sym (distinct_dates date later.date q) ∙ sym same)))
              (exchanged (some later.date) none (reading (combine later.date (dispatch_time c s)))
                  (reading later)
                ∙ ap (λ m. if ltb (reading later) m then none else some later.date)
                    (omega (arith, follows same p)))
      ]
