-- ===== src/Job/Control.antt =====
-- The cancel and deadline view of a run: backend/app/job_control.py.
use nuclei_dashboard.Base.{
  Bool, Option, String, false, if◌then◌else◌, is_some, leb, max, none, not, some, true, ℕ, ◌&&◌,
  ◌+◌, ◌==◌,
}
use nuclei_dashboard.Base.Moments.{Moment, minutes, seconds}
use nuclei_dashboard.Base.Text.{is_truthy}
use nuclei_dashboard.Job.{ScanJob, Status, cancelled, failed, is_running}

-- `int(value or default)`
abbrev value_or : Option ℕ → ℕ → ℕ
value_or none default = default
value_or (some n) default = if n == 0 then default else n

-- From the setting `job_timeout_minutes`.
unfoldable pub job_timeout_minutes : Option ℕ → ℕ
job_timeout_minutes setting = max 30 (value_or setting 180)

unfoldable pub deadline_for_start : Option ℕ → Moment → Moment
unfolding job_timeout_minutes
deadline_for_start setting now = now + minutes (job_timeout_minutes setting)

-- From the setting `scanner_cancel_grace_seconds`.
unfoldable pub cancel_grace : ℕ → ℕ
cancel_grace setting = seconds (max 15 setting)

unfoldable job_is_cancelled_or_failed : ScanJob → Bool
job_is_cancelled_or_failed job = elim job.status [ cancelled ↦ true | failed ↦ true | _ ↦ false ]

-- `value is not None and value <= moment`
abbrev pub is_due : Option Moment → Moment → Bool
is_due none moment = false
is_due (some value) moment = leb value moment

unfoldable pub job_cancel_requested : Moment → ScanJob → Bool
job_cancel_requested now job =
    if is_some job.cancel_requested_at
    then true
    else if not (is_running job.status)
    then true
    else is_due job.deadline_at now

pub record ControlPayload : Type 0 where
  pub job_id : ℕ
  pub status : Status
  pub cancel_requested : Bool
  pub deadline_at : Option Moment

unfoldable job_control_payload : Moment → ScanJob → ControlPayload
unfolding job_cancel_requested
job_control_payload now job = record {
  job_id = job.id;
  status = job.status;
  cancel_requested = job_cancel_requested now job;
  deadline_at = job.deadline_at;
}

-- `field if field is not None else value`
abbrev pub or_set {ℓ} : {A : Type ℓ} → Option A → A → Option A
or_set none value = some value
or_set (some old) value = some old

-- `reason and not job.error`
abbrev pub keep_error : Option String → Option String → Option String
keep_error error reason = if is_truthy reason && not (is_truthy error) then reason else error

unfoldable pub mark_cancel_requested : Moment → Option String → ScanJob → ScanJob × Bool
mark_cancel_requested now reason job =
    if is_running job.status
    then (
      record job {
        cancel_requested_at = or_set job.cancel_requested_at now;
        deadline_at = or_set job.deadline_at now;
        error = keep_error job.error reason;
      },
      true,
    )
    else (job, false)
