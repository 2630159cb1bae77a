-- ===== src/Job/Steps/Invariant.antt =====
-- What holds of a run's row throughout its life.
use nuclei_dashboard.Base.{Bool, List, Option, String, arith, false, is_some, true, ◌≡◌}
use nuclei_dashboard.Base.Moments.{Moment}
use nuclei_dashboard.Job.{DomainEvent, ScanJob, is_running, is_terminal}
use nuclei_dashboard.Job.Transitions.{
  fail_job, fail_pending_legacy_job, is_cancelled, is_pending_legacy,
}
use nuclei_dashboard.Job.Claims.{
  agent_claimable, central_claimable, claimed_by_agent, claimed_by_central,
}
use nuclei_dashboard.Job.Completion.{
  complete_job, complete_scan_run, ok, require_owned_run_for_persist,
}
use nuclei_dashboard.Job.Expiry.{expire_stuck_job, is_stuck, is_wait_over, mark_job_missed}
use nuclei_dashboard.Job.Steps.{
  Reach, Step, claim_by_agent, claim_by_central, complete, expire, fail, fail_legacy, here, miss,
  next,
}

-- The fields that a status fixes.
pub record IsWellFormed (job : ScanJob) : Type 0 where
  pub running_owned : is_running job.status ≡ true → is_some job.claimed_by ≡ true
  pub running_started : is_running job.status ≡ true → is_some job.started_at ≡ true
  pub running_limited : is_running job.status ≡ true → is_some job.deadline_at ≡ true
  pub finished_iff : is_some job.finished_at ≡ is_terminal job.status
  pub cancelled_requested : is_cancelled job.status ≡ true → is_some job.cancel_requested_at ≡ true

complete-IsWellFormed :
    {F : Type 0} (finalize : ScanJob → F → Option F) (checks : ScanJob → Bool) (now : Moment)
    (worker : String) (success : Bool) (error : Option String) (job job' : ScanJob)
    (events events' : List DomainEvent) (findings findings' : F)
    → complete_job finalize checks now worker success error (job, events) findings
      ≡ ok ((job', events'), findings')
    → IsWellFormed job
    → IsWellFormed job'
unfolding complete_job complete_scan_run require_owned_run_for_persist
complete-IsWellFormed finalize checks now worker false error job job' events events' f f' h w =
    ground arith
complete-IsWellFormed finalize checks now worker true error job job' events events' f f' h w =
    ground arith

-- Every step keeps the row well formed.
Step-IsWellFormed : {job job' : ScanJob} → Step job job' → IsWellFormed job → IsWellFormed job'
unfolding claimed_by_agent claimed_by_central fail_job fail_pending_legacy_job mark_job_missed
    expire_stuck_job agent_claimable central_claimable is_pending_legacy is_wait_over is_stuck
Step-IsWellFormed (claim_by_agent timeout now agent free e) w = ground arith
Step-IsWellFormed (claim_by_central timeout now free e) w = ground arith
Step-IsWellFormed (fail now detail events active e) w = ground arith
Step-IsWellFormed (fail_legacy now events pending e) w = ground arith
Step-IsWellFormed (miss now detail over e) w = ground arith
Step-IsWellFormed (expire timeout grace timed_out now events stuck e) w = ground arith
Step-IsWellFormed (complete finalize checks now worker success error es es' f f' e) w =
    complete-IsWellFormed finalize checks now worker success error _ _ es es' f f' e w

-- From a well-formed row on, the row is well formed after any steps: a running run has an owner, a
-- start and a deadline, the moment of its end is set exactly if its status is final, and a cancelled
-- run has the moment at which its cancellation was requested.
pub Reach-IsWellFormed :
    {job job' : ScanJob} → Reach job job' → IsWellFormed job → IsWellFormed job'
Reach-IsWellFormed here w = w
Reach-IsWellFormed (next r step) w = Step-IsWellFormed step (Reach-IsWellFormed r w)
