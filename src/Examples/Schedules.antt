-- ===== src/Examples/Schedules.antt =====
-- Schedules, their occurrences and their runs.
use nuclei_dashboard.Base.{
  List, [], arith, false, none, refl, some, true, ℕ, ◌+◌, ◌<◌, ◌∷◌, ◌≡◌, ◌≤◌,
}
use nuclei_dashboard.Base.Text.{Text, codes}
use nuclei_dashboard.Base.Moments.{days, minutes}
use nuclei_dashboard.Schedule.{
  Calendar, CronFields, Zone, cron, daily, legacy_interval, local_at, weekday,
}
use nuclei_dashboard.Schedule.Config.{
  RawSchedule, absent_interval, cron_type, normalize_schedule_config, parse_cron, parse_cron_field,
}
use nuclei_dashboard.Schedule.Fields.{IsField, parse_cron_field-IsField}
use nuclei_dashboard.Schedule.Stored.{normalize_schedule_config-stored_form, stored_form}
use nuclei_dashboard.Schedule.Occurrence.{cron_matches, next_occurrence, next_weekly}
use nuclei_dashboard.Schedule.Config.{
  RawSchedule, absent_interval, cron_type, normalize_schedule_config, parse_cron, parse_cron_field,
}
use nuclei_dashboard.Schedule.Later.{next_occurrence-first}
use nuclei_dashboard.Schedule.Weekly.{next_weekly-returns}
use nuclei_dashboard.Schedule.Catchup.{next_future_after_catchup}
use nuclei_dashboard.Schedule.Downtime.{IsFuture, IsZone, next_future_after_catchup-ends}
use nuclei_dashboard.Schedule.Runs.{
  Scan, has_active_job, is_due_scan, new_run, queue_scheduled_run, queued_as,
}
use nuclei_dashboard.Schedule.Once.{IsOnce, queue_scheduled_run-IsOnce}

-- UTC, and a calendar whose every month has 31 days.
abbrev utc : Zone
utc = record { to_local = λ moment. moment; to_utc = λ local. local }

utc-IsZone : IsZone utc
utc-IsZone = record { offset = λ local. omega arith; again = λ local. omega arith }

abbrev plain : Calendar
plain = record {
  year_of = λ day. 1970;
  month_of = λ day. 1;
  day_of = λ day. day + 1;
  first_day = λ year month. 0;
  monthrange = λ year month. 31;
}

abbrev quarter_hours : List ℕ
quarter_hours = 0 ∷ 15 ∷ 30 ∷ 45 ∷ []

parse_cron_field-IsField_example : IsField 0 59 quarter_hours
unfolding parse_cron_field
parse_cron_field-IsField_example = parse_cron_field-IsField (codes "*/15") 0 59 quarter_hours refl

abbrev nightly : Text
nightly = codes "0 3 * * *"

abbrev nightly_request : RawSchedule
nightly_request = record {
  type = some cron_type;
  interval_minutes = absent_interval;
  hour = some 0;
  minute = some 0;
  week_day = none;
  day = none;
  expression = nightly;
}

nightly-is_accepted :
    normalize_schedule_config (some nightly_request) none true ≡ some (cron nightly)
unfolding normalize_schedule_config
nightly-is_accepted = refl

normalize_schedule_config-stored_form_example :
    normalize_schedule_config (some (stored_form (cron nightly))) none true ≡ none
normalize_schedule_config-stored_form_example =
    normalize_schedule_config-stored_form (some nightly_request) none true (cron nightly)
      nightly-is_accepted

next_weekly-returns_example :
    (day : ℕ) × (next_weekly (minutes 90) 3 1 0 ≡ some (local_at day 1 0))
    × (weekday day ≡ 3)
    × (minutes 90 < local_at day 1 0)
    × (local_at day 1 0 ≤ minutes 90 + days 7)
next_weekly-returns_example =
    next_weekly-returns (minutes 90) 3 1 0 (omega arith) (omega arith) (omega arith)

-- "0 * * * *"
abbrev hourly : Text
hourly = codes "0 * * * *"

next_occurrence-first_example :
    (fields : CronFields) × (found : ℕ) × (parse_cron hourly ≡ some fields)
    × (minutes 60 ≡ utc.to_utc (minutes found))
    × (utc.to_local (minutes 59) < minutes found)
    × (cron_matches plain fields found ≡ true)
    × ((k : ℕ)
        → utc.to_local (minutes 59) < minutes k
        → k < found
        → cron_matches plain fields k ≡ false)
unfolding next_occurrence
next_occurrence-first_example =
    next_occurrence-first plain utc hourly (minutes 59) (minutes 60) refl

next_future_after_catchup-ends_example :
    IsFuture (days 30) (next_future_after_catchup plain utc (daily 3 0) (days 30) (days 1))
next_future_after_catchup-ends_example =
    next_future_after_catchup-ends plain utc (daily 3 0) (days 30) (days 1) utc-IsZone tt

abbrev scan_two : Scan
scan_two = record {
  id = 2;
  is_enabled = true;
  archived_at = none;
  needs_review = false;
  next_run_at = some (minutes 60);
  last_scheduled_at = none;
}

abbrev scan_after : Scan
scan_after = record scan_two {
  next_run_at = some (minutes 70);
  last_scheduled_at = some (minutes 65);
}

by_ten_minutes :
    queue_scheduled_run plain utc true (minutes 65) (some (legacy_interval 10)) scan_two []
    ≡ queued_as scan_after (new_run 2 (minutes 60) ∷ []) true
unfolding queue_scheduled_run next_future_after_catchup next_occurrence
by_ten_minutes = refl

queue_scheduled_run-IsOnce_example :
    (is_due_scan (minutes 65) scan_after ≡ false) × IsOnce (new_run 2 (minutes 60) ∷ []) × (1 ≤ 1)
unfolding has_active_job
queue_scheduled_run-IsOnce_example =
    queue_scheduled_run-IsOnce plain utc utc-IsZone true (minutes 65) (legacy_interval 10) scan_two
      scan_after [] (new_run 2 (minutes 60) ∷ []) true (omega arith) (λ id due. omega arith)
      by_ten_minutes refl
