-- ===== src/Job/Transitions.antt =====
-- The transitions of a run to a final status: backend/app/jobs.py.
use nuclei_dashboard.Base.{
  Bool, List, String, false, if◌then◌else◌, is_some, none, not, some, true, ◌&&◌,
}
use nuclei_dashboard.Base.Moments.{Moment}
use nuclei_dashboard.Job.{
  DomainEvent, ScanJob, Status, cancelled, emit_domain_event, failed, is_active, is_terminal,
  scan_failed,
}
use nuclei_dashboard.Job.Control.{keep_error, or_set}

-- A run, and the stored events.
abbrev pub Held : Type 0
Held = ScanJob × List DomainEvent

abbrev clear_claim_if : Bool → ScanJob → ScanJob
clear_claim_if true job = record job { claimed_agent_id = none; claimed_by = none }
clear_claim_if false job = job

abbrev pub is_failed : Status → Bool
is_failed failed = true
is_failed _ = false

abbrev pub is_cancelled : Status → Bool
is_cancelled cancelled = true
is_cancelled _ = false

-- Whether the run was moved to `failed` is the second result.
unfoldable pub transition_job_to_failed : Moment → String → Bool → Held → Held × Bool
transition_job_to_failed now detail clear_claim (job, events) =
    if is_failed job.status
    then ((job, events), false)
    else if is_cancelled job.status
    then ((record job { error = keep_error job.error (some detail) }, events), false)
    else (
      (
        clear_claim_if clear_claim
            (record job { status = failed; error = some detail; finished_at = some now }),
        emit_domain_event (scan_failed job.id) events,
      ),
      true,
    )

unfoldable pub transition_job_to_cancelled : Moment → String → Bool → Held → Held × Bool
transition_job_to_cancelled now detail clear_claim (job, events) =
    if is_terminal job.status
    then (
      (
        if is_cancelled job.status
            then record job { error = keep_error job.error (some detail) }
            else job,
        events,
      ),
      false,
    )
    else (
      (
        clear_claim_if clear_claim (record job {
          status = cancelled;
          error = some detail;
          finished_at = some now;
          cancel_requested_at = or_set job.cancel_requested_at now;
        }),
        emit_domain_event (scan_failed job.id) events,
      ),
      true,
    )

unfoldable pub fail_job : Moment → String → Held → Held
unfolding transition_job_to_failed
fail_job now detail held = (transition_job_to_failed now detail false held).0

-- The error of a queued run that was made before snapshots were.
abbrev legacy_requeue_error : String
legacy_requeue_error =
    "Pre-1D job has no immutable execution snapshot and must be requeued after Phase 1D upgrade"

-- One round of the loop of `fail_pending_legacy_pre_1d_jobs`, for a run that its query selects.
unfoldable pub fail_pending_legacy_job : Moment → Held → Held
unfolding transition_job_to_failed
fail_pending_legacy_job now held =
    let (job, events) = (transition_job_to_failed now legacy_requeue_error true held).0 in
    (record job { finished_at = some now }, events)

-- The query of `fail_pending_legacy_pre_1d_jobs`.
unfoldable pub is_pending_legacy : ScanJob → Bool
is_pending_legacy job = not (is_some job.execution_snapshot) && is_active job.status
