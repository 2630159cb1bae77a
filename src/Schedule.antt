-- ===== src/Schedule.antt =====
-- Schedules: backend/app/scan_schedule.py. A local time is its number of microseconds since the local
-- 1970-01-01 00:00, as Python compares the times of one zone. What the tables of a time zone and the
-- calendar of the `datetime` library give is a parameter.
pub mod Config
pub mod Fields
pub mod Stored
pub mod Occurrence
pub mod Catchup
pub mod Runs
pub mod Once
pub mod Later
pub mod Weekly
pub mod Downtime
use nuclei_dashboard.Base.{List, ℕ, ◌%◌, ◌*◌, ◌+◌, ◌/◌}
use nuclei_dashboard.Base.Text.{Text}
use nuclei_dashboard.Base.Moments.{Moment, days, minutes}

-- The values that each field of a cron expression allows.
pub record CronFields : Type 0 where
  pub minute_set : List ℕ
  pub hour_set : List ℕ
  pub day_set : List ℕ
  pub month_set : List ℕ
  pub weekday_set : List ℕ

-- A normalised schedule.
pub data Schedule : Type 0 where
  manual : Schedule
  legacy_interval : ℕ → Schedule
  daily : ℕ → ℕ → Schedule
  weekly : ℕ → ℕ → ℕ → Schedule
  monthly : ℕ → ℕ → ℕ → Schedule
  cron : Text → Schedule

-- A zone: `astimezone(zone)`, and the moment of a local time with `fold=0`.
pub record Zone : Type 0 where
  pub to_local : Moment → ℕ
  pub to_utc : ℕ → Moment

-- The calendar, on days since 1970-01-01: year, month and day of a day, the first day of a month, and
-- `monthrange(year, month)[1]`.
pub record Calendar : Type 0 where
  pub year_of : ℕ → ℕ
  pub month_of : ℕ → ℕ
  pub day_of : ℕ → ℕ
  pub first_day : ℕ → ℕ → ℕ
  pub monthrange : ℕ → ℕ → ℕ

-- `date.weekday()`: the first day was a Thursday.
unfoldable pub weekday : ℕ → ℕ
weekday day = (day + 3) % 7

-- The local day of a local time.
abbrev pub day_of_local : ℕ → ℕ
day_of_local local = local / days 1

-- A time of a day.
abbrev pub local_at : ℕ → ℕ → ℕ → ℕ
local_at day hour minute = days 1 * day + minutes (60 * hour + minute)

-- What `next_occurrence` does: nothing is next, or a `ScheduleError`, or a moment.
pub data Next : Type 0 where
  never : Next
  unable : Next
  at : Moment → Next
