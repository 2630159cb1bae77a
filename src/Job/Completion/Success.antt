-- ===== src/Job/Completion/Success.antt =====
-- When a run may end as `done`.
use nuclei_dashboard.Job.Transitions.{transition_job_to_cancelled, transition_job_to_failed}
use nuclei_dashboard.Base.{
  Bool, Bool-cases, List, Option, String, arith, false, if◌then◌else◌, inl, inr, is_some, none,
  refl, some, true, ◌≡◌,
}
use nuclei_dashboard.Base.Moments.{Moment}
use nuclei_dashboard.Job.{
  DomainEvent, ScanJob, cancelled, done, emit_domain_event, failed, running, scan_failed,
}
use nuclei_dashboard.Job.Control.{is_due, job_cancel_requested, or_set}
use nuclei_dashboard.Job.Completion.{
  complete_job, complete_scan_run, error_detail, is_cancel_completion, is_claimed_by, ok,
  require_owned_run_for_persist,
}

module _ {F : Type 0} (finalize : ScanJob → F → Option F) (checks : ScanJob → Bool) where
  -- A run is `done` after a report only if it was reported as a success by its owner while it was
  -- running, with a snapshot, with no cancellation requested and before its deadline, and the
  -- findings were finalised.
  pub complete_job-done :
      (now : Moment) (worker : String) (success : Bool) (error : Option String) (job job' : ScanJob)
      (events events' : List DomainEvent) (findings findings' : F)
      → complete_job finalize checks now worker success error (job, events) findings
        ≡ ok ((job', events'), findings')
      → job'.status ≡ done
      → (success ≡ true)
        × (job.status ≡ running)
        × (is_claimed_by worker job ≡ true)
        × (job.cancel_requested_at ≡ none)
        × (is_due job.deadline_at now ≡ false)
        × (is_some job.execution_snapshot ≡ true)
        × (finalize (record job { finished_at = some now }) findings ≡ some findings')
  unfolding complete_job complete_scan_run require_owned_run_for_persist job_cancel_requested
  complete_job-done now worker false error job job' events events' findings findings' h d =
      ground arith
  complete_job-done now worker true error job job' events events' findings findings' h d =
      ground arith

  -- A success reported by the owner of a run that is running, has a snapshot, is not cancelled and not
  -- past its deadline, ends the run as `done` if the checks and the findings' finalisation allow it.
  pub complete_job_ok :
      (now : Moment) (worker : String) (error : Option String) (job : ScanJob)
      (events : List DomainEvent) (findings findings' : F)
      → job.status ≡ running
      → is_claimed_by worker job ≡ true
      → job.cancel_requested_at ≡ none
      → is_due job.deadline_at now ≡ false
      → is_some job.execution_snapshot ≡ true
      → checks job ≡ true
      → finalize (record job { finished_at = some now }) findings ≡ some findings'
      → complete_job finalize checks now worker true error (job, events) findings
        ≡ ok (
          (record job { status = done; error = error; finished_at = some now }, events),
          findings',
        )
  unfolding complete_job complete_scan_run require_owned_run_for_persist job_cancel_requested
  complete_job_ok now worker error job events findings findings' r o c d s k f = ground arith

  -- A failure reported by the owner of a running run that has a snapshot always ends the run: as
  -- `cancelled` if a cancellation was requested or the report is worded as one, else as `failed`, and
  -- in both cases with the event of a failed scan.
  pub complete_job_failure :
      (now : Moment) (worker : String) (error : Option String) (job : ScanJob)
      (events : List DomainEvent) (findings : F)
      → job.status ≡ running
      → is_claimed_by worker job ≡ true
      → is_some job.execution_snapshot ≡ true
      → checks job ≡ true
      → (job' : ScanJob) × (complete_job finalize checks now worker false error
            (job, events)
            findings
          ≡ ok ((job', emit_domain_event (scan_failed job.id) events), findings))
        × (job'.status
            ≡ (if is_cancel_completion job (error_detail error) then cancelled else failed))
        × (job'.finished_at ≡ some now)
  unfolding complete_job complete_scan_run require_owned_run_for_persist transition_job_to_cancelled
      transition_job_to_failed
  complete_job_failure now worker error job events findings r o s k =
      elim (Bool-cases (is_cancel_completion job (error_detail error))) [
        | inl c ↦ (
          record job {
            status = cancelled;
            error = some (error_detail error);
            finished_at = some now;
            cancel_requested_at = or_set job.cancel_requested_at now;
          },
          ground arith,
          rw c,
          refl,
        )
        | inr f ↦ (
          record job { status = failed; error = some (error_detail error); finished_at = some now },
          ground arith,
          rw f,
          refl,
        )
      ]
