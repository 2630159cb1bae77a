-- ===== src/Schedule/Runs.antt =====
-- Queueing what is due: `due_scans` and `queue_scheduled_run` of backend/app/jobs.py. What the validation
-- of a definition gives, and whether a run can be created from it, are arguments; an error leaves the
-- rows as they were, since `tick_schedules` rolls back.
use nuclei_dashboard.Base.{
  Bool, List, Option, [], any, false, if◌then◌else◌, is_some, is_value, leb, none, not, some, true,
  ℕ, ◌&&◌, ◌++◌, ◌==◌, ◌∷◌,
}
use nuclei_dashboard.Base.Moments.{Moment}
use nuclei_dashboard.Schedule.{Calendar, Schedule, Zone, at, manual, never, unable}
use nuclei_dashboard.Schedule.Catchup.{Caught, caught, next_future_after_catchup, out_of_fuel}

pub record Scan : Type 0 where
  pub id : ℕ
  pub is_enabled : Bool
  pub archived_at : Option Moment
  pub needs_review : Bool
  pub next_run_at : Option Moment
  pub last_scheduled_at : Option Moment

abbrev pub is_manual : Schedule → Bool
is_manual manual = true
is_manual _ = false

-- A run of the table, and whether it is active.
pub record ScheduledRun : Type 0 where
  pub scan_id : ℕ
  pub scheduled_for : Option Moment
  pub is_active : Bool

-- The filter of `due_scans`
unfoldable pub is_due_scan : Moment → Scan → Bool
is_due_scan now scan =
    (scan.is_enabled && not (is_some scan.archived_at))
    && (not scan.needs_review
        && elim scan.next_run_at [ none ↦ false | some moment ↦ leb moment now ])

-- `has_active_job`
unfoldable pub has_active_job : ℕ → List ScheduledRun → Bool
has_active_job scan_id runs = any (λ run. run.scan_id == scan_id && run.is_active) runs

abbrev pub is_run_for : ℕ → Moment → ScheduledRun → Bool
is_run_for scan_id due run = run.scan_id == scan_id && is_value run.scheduled_for due

-- How it ends: with an error, or with the rows and whether a run was queued.
pub data Queued : Type 0 where
  failed_to_queue : Queued
  queued_as : Scan → List ScheduledRun → Bool → Queued

-- `scan.next_run_at = next_future_after_catchup(…)`
abbrev pub with_next : Caught → Scan → List ScheduledRun → Bool → Queued
with_next out_of_fuel scan runs made = failed_to_queue
with_next (caught unable) scan runs made = failed_to_queue
with_next (caught never) scan runs made = queued_as (record scan { next_run_at = none }) runs made
with_next (caught (at moment)) scan runs made =
    queued_as (record scan { next_run_at = some moment }) runs made

abbrev pub new_run : ℕ → Moment → ScheduledRun
new_run scan_id due = record { scan_id = scan_id; scheduled_for = some due; is_active = true }

module _ (calendar : Calendar) (zone : Zone) (can_create : Bool) where
  -- Behind the checks, with the moment that is due.
  unfoldable pub queue_due : Moment → Schedule → Moment → Scan → List ScheduledRun → Queued
  unfolding next_future_after_catchup
  queue_due now schedule due scan runs =
      let ahead = next_future_after_catchup calendar zone schedule now due in
      if any (is_run_for scan.id due) runs
      then with_next ahead scan runs false
      else if not can_create
      then failed_to_queue
      else with_next ahead (record scan { last_scheduled_at = some now })
          (runs ++ new_run scan.id due ∷ []) true

  -- The branches by the schedule and the moment that is due.
  unfoldable pub queue_validated :
      Moment → Schedule → Option Moment → Scan → List ScheduledRun → Queued
  unfolding queue_due
  queue_validated now schedule due scan runs =
      if is_manual schedule
      then queued_as (record scan { next_run_at = none }) runs false
      else elim due [
        | none ↦ queued_as scan runs false
        | some moment ↦ queue_due now schedule moment scan runs
      ]

  -- `queue_scheduled_run`
  unfoldable pub queue_scheduled_run : Moment → Option Schedule → Scan → List ScheduledRun → Queued
  unfolding has_active_job queue_validated
  queue_scheduled_run now validated scan runs =
      if has_active_job scan.id runs then queued_as scan runs false else elim validated [
        | none ↦ failed_to_queue
        | some schedule ↦ queue_validated now schedule scan.next_run_at scan runs
      ]
