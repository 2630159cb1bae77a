-- ===== src/Job/Steps/Diagram.antt =====
-- The status diagram of a run, and its owner while it runs.
use nuclei_dashboard.Base.{Bool, List, Option, String, arith, false, true, ◌≡◌}
use nuclei_dashboard.Base.Moments.{Moment}
use nuclei_dashboard.Job.{
  DomainEvent, ScanJob, Status, cancelled, done, failed, missed, queued, running, waiting_for_agent,
}
use nuclei_dashboard.Job.Transitions.{fail_job, fail_pending_legacy_job, is_pending_legacy}
use nuclei_dashboard.Job.Claims.{
  agent_claimable, central_claimable, claimed_by_agent, claimed_by_central,
}
use nuclei_dashboard.Job.Completion.{
  complete_job, complete_scan_run, ok, require_owned_run_for_persist,
}
use nuclei_dashboard.Job.Expiry.{expire_stuck_job, is_stuck, is_wait_over, mark_job_missed}
use nuclei_dashboard.Job.Steps.{
  Step, claim_by_agent, claim_by_central, complete, expire, fail, fail_legacy, miss,
}

-- The edges of the diagram, with each status's own.
abbrev pub may_become : Status → Status → Bool
may_become queued queued = true
may_become queued running = true
may_become queued failed = true
may_become waiting_for_agent waiting_for_agent = true
may_become waiting_for_agent running = true
may_become waiting_for_agent failed = true
may_become waiting_for_agent missed = true
may_become running running = true
may_become running done = true
may_become running failed = true
may_become running cancelled = true
may_become done done = true
may_become failed failed = true
may_become cancelled cancelled = true
may_become missed missed = true
may_become _ _ = false

-- The owner of a run that runs before and after.
abbrev KeepsOwner : ScanJob → ScanJob → Type 0
KeepsOwner job job' =
    job.status ≡ running
    → job'.status ≡ running
    → (job'.claimed_by ≡ job.claimed_by) × (job'.claimed_agent_id ≡ job.claimed_agent_id)

complete-may_become :
    {F : Type 0} (finalize : ScanJob → F → Option F) (checks : ScanJob → Bool) (now : Moment)
    (worker : String) (success : Bool) (error : Option String) (job job' : ScanJob)
    (events events' : List DomainEvent) (findings findings' : F)
    → complete_job finalize checks now worker success error (job, events) findings
      ≡ ok ((job', events'), findings')
    → (may_become job.status job'.status ≡ true) × KeepsOwner job job'
unfolding complete_job complete_scan_run require_owned_run_for_persist
complete-may_become finalize checks now worker false error job job' events events' f f' h =
    (ground arith, λ r r'. ground arith)
complete-may_become finalize checks now worker true error job job' events events' f f' h =
    (ground arith, λ r r'. ground arith)

-- Every step follows an edge of the status diagram, and a step after which a running run still runs
-- leaves its owner as it was.
pub Step-may_become :
    {job job' : ScanJob}
    → Step job job'
    → (may_become job.status job'.status ≡ true)
      × (job.status ≡ running
          → job'.status ≡ running
          → (job'.claimed_by ≡ job.claimed_by) × (job'.claimed_agent_id ≡ job.claimed_agent_id))
unfolding claimed_by_agent claimed_by_central fail_job fail_pending_legacy_job mark_job_missed
    expire_stuck_job agent_claimable central_claimable is_pending_legacy is_wait_over is_stuck
Step-may_become (claim_by_agent timeout now agent free e) = (ground arith, λ r r'. ground arith)
Step-may_become (claim_by_central timeout now free e) = (ground arith, λ r r'. ground arith)
Step-may_become (fail now detail events active e) = (ground arith, λ r r'. ground arith)
Step-may_become (fail_legacy now events pending e) = (ground arith, λ r r'. ground arith)
Step-may_become (miss now detail over e) = (ground arith, λ r r'. ground arith)
Step-may_become (expire timeout grace timed_out now events stuck e) =
    (ground arith, λ r r'. ground arith)
Step-may_become (complete finalize checks now worker success error es es' f f' e) =
    complete-may_become finalize checks now worker success error _ _ es es' f f' e
