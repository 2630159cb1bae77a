-- ===== src/Job/Claims/Once.antt =====
-- What a claim by an Agent needs, and what it leaves.
use nuclei_dashboard.Base.{
  List, Option, [], any, arith, count_if, false, find, some, true, update_where, ℕ, ◌∷◌, ◌≡◌, ◌≢◌,
  ◌≤◌,
}
use nuclei_dashboard.Base.Moments.{Moment}
use nuclei_dashboard.Job.{ScanJob, running}
use nuclei_dashboard.Job.Claims.{
  agent_claimable, claim_job_for_agent, claimed, claimed_by_agent, has_id,
}
use nuclei_dashboard.Dispatch.{Agent}

-- What a claim by an Agent writes.
pub record IsClaimedBy (agent : Agent) (job : ScanJob) : Type 0 where
  pub is_started : job.status ≡ running
  pub by_agent : job.claimed_agent_id ≡ some agent.id
  pub by_uuid : job.claimed_by ≡ some agent.uuid

module _ (timeout : Option ℕ) (now : Moment) (job_id : ℕ) (agent : Agent) where
  abbrev pub after : List ScanJob → List ScanJob
  after jobs = update_where (agent_claimable job_id) (claimed_by_agent timeout now agent) jobs

  pub any-claimable-has_id :
      (jobs : List ScanJob)
      → any (agent_claimable job_id) jobs ≡ true
      → 1 ≤ count_if (has_id job_id) jobs
  unfolding agent_claimable
  any-claimable-has_id [] h = cc
  any-claimable-has_id (job ∷ jobs) h = ground (arith, any-claimable-has_id jobs)

  pub find-claimed :
      (jobs : List ScanJob) (job : ScanJob)
      → count_if (has_id job_id) jobs ≤ 1
      → any (agent_claimable job_id) jobs ≡ true
      → find (has_id job_id) (after jobs) ≡ some job
      → IsClaimedBy agent job
  unfolding agent_claimable claimed_by_agent
  find-claimed [] job unique h found = cc
  find-claimed (row ∷ jobs) job unique h found =
      ground (arith, find-claimed jobs job, any-claimable-has_id jobs)

  pub claim_inversion :
      (agents : List Agent) (jobs jobs' : List ScanJob) (job : ScanJob)
      → claim_job_for_agent timeout now job_id agent agents jobs ≡ (jobs', claimed job)
      → (any (agent_claimable job_id) jobs ≡ true)
        × (jobs' ≡ after jobs)
        × (find (has_id job_id) (after jobs) ≡ some job)
  unfolding claim_job_for_agent
  claim_inversion agents jobs jobs' job success = ground arith

  pub refused_unclaimable :
      (agents : List Agent) (jobs : List ScanJob) (again : ScanJob)
      → any (agent_claimable job_id) jobs ≡ false
      → (claim_job_for_agent timeout now job_id agent agents jobs).1 ≢ claimed again
  unfolding claim_job_for_agent
  refused_unclaimable agents jobs again h = ground arith
