-- ===== src/Job/Claims.antt =====
-- Claiming a run: backend/app/scan_dispatch.py. The table `scan_jobs` is a list of rows; the row lock
-- on the Agent makes a claim one step.
pub mod Exclusive
pub mod Once
use nuclei_dashboard.Base.{
  Bool, List, Option, String, any, find, if◌then◌else◌, is_some, is_value, none, not, some,
  update_where, ℕ, ◌&&◌, ◌==◌,
}
use nuclei_dashboard.Base.Moments.{Moment}
use nuclei_dashboard.Job.{ScanJob, is_queued, is_running, is_unclaimed_status, running}
use nuclei_dashboard.Job.Control.{deadline_for_start}
use nuclei_dashboard.Dispatch.{Agent}

abbrev central_worker : String
central_worker = "central"

-- The worker's name on the row, and no other's.
abbrev is_unclaimed : ScanJob → Bool
is_unclaimed job = not (is_some job.claimed_agent_id) && not (is_some job.claimed_by)

abbrev pub has_id : ℕ → ScanJob → Bool
has_id id job = job.id == id

-- The WHERE clauses of the two claims.
unfoldable pub central_claimable : ℕ → ScanJob → Bool
central_claimable job_id job = has_id job_id job && is_queued job.status && is_unclaimed job

unfoldable pub agent_claimable : ℕ → ScanJob → Bool
agent_claimable job_id job = has_id job_id job && is_unclaimed_status job.status && is_unclaimed job

-- The values that the two claims write.
unfoldable pub claimed_by_central : Option ℕ → Moment → ScanJob → ScanJob
claimed_by_central timeout now job = record job {
  status = running;
  claimed_by = some central_worker;
  started_at = some now;
  deadline_at = some (deadline_for_start timeout now);
}

unfoldable pub claimed_by_agent : Option ℕ → Moment → Agent → ScanJob → ScanJob
claimed_by_agent timeout now agent job = record job {
  status = running;
  claimed_agent_id = some agent.id;
  claimed_by = some agent.uuid;
  started_at = some now;
  deadline_at = some (deadline_for_start timeout now);
}

-- The table after the statement, and the claimed row if the statement returned its id.
unfoldable pub atomic_claim_central_job :
    Option ℕ → Moment → ℕ → List ScanJob → List ScanJob × Option ScanJob
unfolding central_claimable claimed_by_central
atomic_claim_central_job timeout now job_id jobs =
    let updated = update_where (central_claimable job_id) (claimed_by_central timeout now) jobs in
    if any (central_claimable job_id) jobs
    then (updated, find (has_id job_id) updated)
    else (updated, none)

unfoldable pub atomic_claim_job :
    Option ℕ → Moment → ℕ → Agent → List ScanJob → List ScanJob × Option ScanJob
unfolding agent_claimable claimed_by_agent
atomic_claim_job timeout now job_id agent jobs =
    let updated = update_where (agent_claimable job_id) (claimed_by_agent timeout now agent) jobs in
    if any (agent_claimable job_id) jobs
    then (updated, find (has_id job_id) updated)
    else (updated, none)

-- A run that the Agent of this id is running.
abbrev pub runs_on : ℕ → ScanJob → Bool
runs_on agent_id job = is_value job.claimed_agent_id agent_id && is_running job.status

unfoldable pub agent_has_running_job : Agent → List ScanJob → Bool
agent_has_running_job agent jobs = any (runs_on agent.id) jobs

pub data ClaimError : Type 0 where
  agent_not_found agent_busy already_claimed : ClaimError

pub data ClaimResult : Type 0 where
  claimed : ScanJob → ClaimResult
  refused : ClaimError → ClaimResult

abbrev pub claim_outcome : List ScanJob × Option ScanJob → List ScanJob × ClaimResult
claim_outcome (jobs, none) = (jobs, refused already_claimed)
claim_outcome (jobs, some job) = (jobs, claimed job)

-- `lock_agent_row` raises where no Agent has the id.
unfoldable pub claim_job_for_agent :
    Option ℕ → Moment → ℕ → Agent → List Agent → List ScanJob → List ScanJob × ClaimResult
unfolding agent_has_running_job atomic_claim_job
claim_job_for_agent timeout now job_id agent agents jobs =
    if not (any (λ row. row.id == agent.id) agents)
    then (jobs, refused agent_not_found)
    else if agent_has_running_job agent jobs
    then (jobs, refused agent_busy)
    else claim_outcome (atomic_claim_job timeout now job_id agent jobs)
