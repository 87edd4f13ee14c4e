-- ===== src/Jobs/Schedule.antt =====
-- The due dates of apps/api/src/app/workers/scheduler.py: `due_local_date`, `next_dispatch_at` and
-- `_dispatch_time`. A local date is its ordinal number. What the time zones and the texts of the
-- standard library give is a parameter: the local time of an instant, the instant of a local time,
-- a time read from a text, and a date's text.
pub mod Laws
use intelliq.Store.Rows.{Instant}
use intelliq.Prelude.{
  string_eq, [], ℕ, suc, ◌+◌, ◌-◌, ◌*◌, ◌/◌, ◌%◌, String, Bool, Option, none, some, leb,
  if◌then◌else◌, get_or, ◌==◌,
}

-- `datetime.time` with hours and minutes.
pub record Time : Type 0 where
  pub hour : ℕ
  pub minute : ℕ

-- A date with the microseconds since its midnight, on the clock of one time zone. Two such values
-- with the same `tzinfo` compare by what the clock shows.
pub record LocalTime : Type 0 where
  pub date : ℕ
  pub microseconds : ℕ

pub record Calendar : Type 0 where
  pub zone_info : String → Bool  -- whether `ZoneInfo(name)` finds the zone
  pub astimezone : String → Instant → LocalTime
  pub to_utc : String → LocalTime → Instant
  pub time_from_isoformat : String → Option Time
  pub isoformat : ℕ → String

-- The keys of a schedule that the dates depend on.
pub record Schedule : Type 0 where
  pub timezone : Option String
  pub analysis_time : Option String
  pub last_run_local_date : Option String

-- `DISPATCH_MINUTES_BEFORE_PUBLICATION`
abbrev pub dispatch_minutes_before_publication : ℕ
dispatch_minutes_before_publication = 10

-- `time.fromisoformat(DEFAULT_ANALYSIS_TIME)`, which is "06:00"
abbrev pub default_time : Time
default_time = record { hour = 6; minute = 0 }

-- `value or default`, for a text
abbrev pub text_or : Option String → String → String
text_or none default = default
text_or (some s) default = if s == "" then default else s

abbrev pub day : ℕ
day = 86400000000

-- Where a local time stands on its clock.
abbrev pub reading : LocalTime → ℕ
reading t = t.date * day + t.microseconds

-- `datetime.combine(date, time, tzinfo=timezone)`
abbrev pub combine : ℕ → Time → LocalTime
combine date t = record { date = date; microseconds = (t.hour * 60 + t.minute) * 60000000 }

-- The arithmetic of `_dispatch_time`.
unfoldable pub before_publication : Time → Time
before_publication publication =
    let dispatch_minutes =
      (publication.hour * 60 + publication.minute) - dispatch_minutes_before_publication in
    record { hour = dispatch_minutes / 60; minute = dispatch_minutes % 60 }

-- `candidate + timedelta(days=1)`
abbrev pub next_day : LocalTime → LocalTime
next_day t = record t { date = suc t.date }

module _ (c : Calendar) where
  -- `publication`
  unfoldable pub publication_time : Schedule → Time
  publication_time s = get_or (c.time_from_isoformat (text_or s.analysis_time "06:00")) default_time

  -- `_dispatch_time`
  unfoldable pub dispatch_time : Schedule → Time
  dispatch_time s = before_publication (publication_time s)

  -- `_schedule_timezone`
  abbrev pub schedule_timezone : Schedule → String
  schedule_timezone s =
      let name = text_or s.timezone "Europe/Warsaw" in
      if c.zone_info name then name else "Europe/Warsaw"

  -- `due_local_date`, from the local time on
  unfoldable pub due_at : Schedule → LocalTime → Option ℕ
  due_at s local_now =
      if get_or s.last_run_local_date "" == c.isoformat local_now.date
      then none
      else (if leb (reading (combine local_now.date (dispatch_time s))) (reading local_now)
          then some local_now.date
          else none)

  unfoldable pub due_local_date : Schedule → Instant → Option ℕ
  due_local_date s now = due_at s (c.astimezone (schedule_timezone s) now)

  -- `next_dispatch_at` before its conversion to UTC
  unfoldable pub next_dispatch_local : Schedule → LocalTime → LocalTime
  next_dispatch_local s local_now =
      let candidate = combine local_now.date (dispatch_time s) in
      if leb (reading candidate) (reading local_now) then next_day candidate else candidate

  unfoldable pub next_dispatch_at : Schedule → Instant → Instant
  next_dispatch_at s now =
      let timezone = schedule_timezone s in
      c.to_utc timezone (next_dispatch_local s (c.astimezone timezone now))

-- `{**schedule, "lastRunLocalDate": local_date.isoformat()}`
abbrev pub checkpoint : Calendar → Schedule → ℕ → Schedule
checkpoint c s local_date = record s { last_run_local_date = some (c.isoformat local_date) }
