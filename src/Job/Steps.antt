-- ===== src/Job/Steps.antt =====
-- The life of a run as a step relation: what workers, Agents and the scheduler do to its row, one
-- operation after another. Operations that overlap are Job.Steps.Overlap's.
pub mod Diagram
pub mod Invariant
pub mod Overlap
pub mod Table
use nuclei_dashboard.Base.{Bool, List, Option, String, true, ℕ, ◌≡◌}
use nuclei_dashboard.Base.Moments.{Moment}
use nuclei_dashboard.Job.{DomainEvent, ScanJob, is_active}
use nuclei_dashboard.Job.Transitions.{fail_job, fail_pending_legacy_job, is_pending_legacy}
use nuclei_dashboard.Job.Claims.{
  agent_claimable, central_claimable, claimed_by_agent, claimed_by_central,
}
use nuclei_dashboard.Job.Completion.{complete_job, ok}
use nuclei_dashboard.Job.Expiry.{expire_stuck_job, is_stuck, is_wait_over, mark_job_missed}
use nuclei_dashboard.Dispatch.{Agent, ok}

-- The callers' guards are the premises: `fail_job` is called for runs that are queued, wait or run;
-- the scheduler's steps for runs that its queries select.
pub data Step (job : ScanJob) (job' : ScanJob) : Type 1 where
  claim_by_agent :
      (timeout : Option ℕ) (now : Moment) (agent : Agent)
      → agent_claimable job.id job ≡ true
      → job' ≡ claimed_by_agent timeout now agent job
      → Step job job'
  claim_by_central :
      (timeout : Option ℕ) (now : Moment)
      → central_claimable job.id job ≡ true
      → job' ≡ claimed_by_central timeout now job
      → Step job job'
  fail :
      (now : Moment) (detail : String) (events : List DomainEvent)
      → is_active job.status ≡ true
      → job' ≡ (fail_job now detail (job, events)).0
      → Step job job'
  fail_legacy :
      (now : Moment) (events : List DomainEvent)
      → is_pending_legacy job ≡ true
      → job' ≡ (fail_pending_legacy_job now (job, events)).0
      → Step job job'
  miss :
      (now : Moment) (detail : String)
      → is_wait_over now job ≡ true
      → job' ≡ mark_job_missed now detail job
      → Step job job'
  expire :
      (timeout : Option ℕ) (grace : ℕ) (timed_out : String) (now : Moment)
      (events : List DomainEvent)
      → is_stuck timeout now job ≡ true
      → job' ≡ (expire_stuck_job grace timed_out now (job, events)).0
      → Step job job'
  complete :
      {F : Type 0} (finalize : ScanJob → F → Option F) (checks : ScanJob → Bool) (now : Moment)
      (worker : String) (success : Bool) (error : Option String) (events events' : List DomainEvent)
      (findings findings' : F)
      → complete_job finalize checks now worker success error (job, events) findings
        ≡ ok ((job', events'), findings')
      → Step job job'

pub data Reach (job : ScanJob) : ScanJob → Type 1 where
  here : Reach job job
  next : {mid last : ScanJob} → Reach job mid → Step mid last → Reach job last
