-- ===== src/Job/Expiry.antt =====
-- The scheduler's passes over runs: `expire_waiting_jobs` and `expire_stuck_jobs` of
-- backend/app/scheduler.py, and `mark_job_missed` of backend/app/scan_dispatch.py.
pub mod Stuck
use nuclei_dashboard.Base.{
  Bool, List, Option, String, [], false, if◌then◌else◌, is_some, leb, ltb, none, not, some, true, ℕ,
  ◌&&◌, ◌+◌, ◌||◌, ◌∷◌,
}
use nuclei_dashboard.Base.Moments.{Moment, minutes}
use nuclei_dashboard.Base.Text.{is_truthy}
use nuclei_dashboard.Job.{
  DomainEvent, ScanJob, Status, emit_domain_event, is_running, missed,
  scan_missed_unavailable_agent, waiting_for_agent,
}
use nuclei_dashboard.Job.Control.{cancel_grace, is_due, job_timeout_minutes, mark_cancel_requested}
use nuclei_dashboard.Job.Transitions.{Held, transition_job_to_cancelled}

unfoldable pub mark_job_missed : Moment → String → ScanJob → ScanJob
mark_job_missed now detail job = record job {
  status = missed;
  error = some detail;
  finished_at = some now;
}

abbrev is_waiting : Status → Bool
is_waiting waiting_for_agent = true
is_waiting _ = false

-- The query of `expire_waiting_jobs`.
unfoldable pub is_wait_over : Moment → ScanJob → Bool
is_wait_over now job = is_waiting job.status && is_due job.wait_expires_at now

-- The loop of `expire_waiting_jobs` over the table and the stored events.
unfoldable expire_waiting_jobs :
    Moment → List ScanJob × List DomainEvent → List ScanJob × List DomainEvent
unfolding is_wait_over mark_job_missed
expire_waiting_jobs now ([], events) = ([], events)
expire_waiting_jobs now (job ∷ jobs, events) =
    let over = is_wait_over now job in
    let job' =
      if over
      then mark_job_missed now "No healthy eligible agent before wait expiry" job
      else job in
    let events' =
      if over then emit_domain_event (scan_missed_unavailable_agent job.id) events else events in
    let (jobs', last) = expire_waiting_jobs now (jobs, events') in (job' ∷ jobs', last)

-- `started_at < now - timeout`, with the timeout on the other side.
abbrev started_before : Option Moment → ℕ → Moment → Bool
started_before none timeout now = false
started_before (some started) timeout now = ltb (started + timeout) now

-- The query of `expire_stuck_jobs`.
unfoldable pub is_stuck : Option ℕ → Moment → ScanJob → Bool
is_stuck timeout now job =
    is_running job.status
    && (is_due job.deadline_at now
        || (not (is_some job.deadline_at)
            && started_before job.started_at (minutes (job_timeout_minutes timeout)) now))

-- `job.error or …`; the text of the alternative counts the minutes.
abbrev stuck_reason : String → Option String → String
stuck_reason timed_out error = elim error [
  | none ↦ timed_out
  | some text ↦ if is_truthy (some text) then text else timed_out
]

-- One round of the loop of `expire_stuck_jobs`, over a run that its query selects.
unfoldable pub expire_stuck_job : ℕ → String → Moment → Held → Held
unfolding mark_cancel_requested transition_job_to_cancelled
expire_stuck_job grace timed_out now (job, events) =
    let reason = stuck_reason timed_out job.error in
    elim job.cancel_requested_at [
      | none ↦ ((mark_cancel_requested now (some reason) job).0, events)
      | some requested ↦
          if leb (requested + cancel_grace grace) now
          then (transition_job_to_cancelled now reason false (job, events)).0
          else (job, events)
    ]

unfoldable expire_stuck_jobs :
    Option ℕ
    → ℕ
    → String
    → Moment
    → List ScanJob × List DomainEvent
    → List ScanJob × List DomainEvent
expire_stuck_jobs timeout grace timed_out now ([], events) = ([], events)
expire_stuck_jobs timeout grace timed_out now (job ∷ jobs, events) =
    let (job', events') =
      if is_stuck timeout now job
      then expire_stuck_job grace timed_out now (job, events)
      else (job, events) in
    let (jobs', last) = expire_stuck_jobs timeout grace timed_out now (jobs, events') in
    (job' ∷ jobs', last)
