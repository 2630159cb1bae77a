-- ===== src/Job/Claims/Exclusive.antt =====
-- No Agent runs two runs, and no run is claimed twice.
use native.Mathlib.Nat.{le_trans}
use nuclei_dashboard.Base.{
  ==_iff, Bool-cases, List, Option, any, arith, count_if, count_if-update_where,
  count_if-update_where_le, count_if_mono, count_if_of_any, false, inl, inr, none, refl, some, true,
  update_where, ℕ, ◌==◌, ◌≡◌, ◌≤◌,
}
use nuclei_dashboard.Base.Moments.{Moment}
use nuclei_dashboard.Job.{ScanJob}
use nuclei_dashboard.Job.Claims.{
  agent_claimable, agent_has_running_job, atomic_claim_job, claim_job_for_agent, claim_outcome,
  claimed_by_agent, has_id, runs_on,
}
use nuclei_dashboard.Dispatch.{Agent}

-- The table's primary key, and the rule of one running run for an Agent.
pub record IsExclusive (jobs : List ScanJob) : Type 0 where
  pub unique_ids : (id : ℕ) → count_if (has_id id) jobs ≤ 1
  pub one_running : (agent_id : ℕ) → count_if (runs_on agent_id) jobs ≤ 1

table-claim_outcome : (r : List ScanJob × Option ScanJob) → (claim_outcome r).0 ≡ r.0
table-claim_outcome (jobs, none) = refl
table-claim_outcome (jobs, some job) = refl

module _ (timeout : Option ℕ) (now : Moment) (job_id : ℕ) where
  claimable_has_id : (job : ScanJob) → agent_claimable job_id job ≡ true → has_id job_id job ≡ true
  unfolding agent_claimable
  claimable_has_id job h = ground arith

  one_claimable :
      (jobs : List ScanJob) → IsExclusive jobs → count_if (agent_claimable job_id) jobs ≤ 1
  one_claimable jobs h =
      le_trans (count_if_mono (agent_claimable job_id) (has_id job_id) claimable_has_id jobs)
        (h.unique_ids job_id)

  module _ (agent : Agent) where
    updated : List ScanJob → List ScanJob
    updated jobs = update_where (agent_claimable job_id) (claimed_by_agent timeout now agent) jobs

    table-atomic_claim_job :
        (jobs : List ScanJob) → (atomic_claim_job timeout now job_id agent jobs).0 ≡ updated jobs
    unfolding atomic_claim_job updated
    table-atomic_claim_job jobs = ground arith

    updated-ids :
        (id : ℕ) (jobs : List ScanJob)
        → count_if (has_id id) (updated jobs) ≤ count_if (has_id id) jobs
    unfolding updated claimed_by_agent
    updated-ids id jobs =
        count_if-update_where_le (has_id id) (agent_claimable job_id)
          (claimed_by_agent timeout now agent) (λ job claim same. same) jobs

    updated-others :
        (id : ℕ) (jobs : List ScanJob)
        → (agent.id == id) ≡ false
        → count_if (runs_on id) (updated jobs) ≤ count_if (runs_on id) jobs
    unfolding updated claimed_by_agent
    updated-others id jobs other =
        count_if-update_where_le (runs_on id) (agent_claimable job_id)
          (claimed_by_agent timeout now agent) (λ job claim same. ground arith) jobs

    updated-own :
        (jobs : List ScanJob)
        → IsExclusive jobs
        → agent_has_running_job agent jobs ≡ false
        → count_if (runs_on agent.id) (updated jobs) ≤ 1
    unfolding updated agent_has_running_job
    updated-own jobs h idle = omega (
      arith,
      count_if-update_where (runs_on agent.id) (agent_claimable job_id)
          (claimed_by_agent timeout now agent) jobs,
      count_if_of_any (runs_on agent.id) jobs idle,
      one_claimable jobs h,
    )

    updated-IsExclusive :
        (jobs : List ScanJob)
        → IsExclusive jobs
        → agent_has_running_job agent jobs ≡ false
        → IsExclusive (updated jobs)
    updated-IsExclusive jobs h idle = record {
      unique_ids = λ id. le_trans (updated-ids id jobs) (h.unique_ids id);
      one_running = λ id. elim (Bool-cases (agent.id == id)) [
        | inl same ↦ rw (← (==_iff agent.id id).0 same) (updated-own jobs h idle)
        | inr other ↦ le_trans (updated-others id jobs other) (h.one_running id)
      ];
    }

    -- Whichever way a claim ends, no Agent has two running runs after it if none had before.
    pub claim_job_for_agent-IsExclusive :
        (agents : List Agent) (jobs : List ScanJob)
        → IsExclusive jobs
        → IsExclusive (claim_job_for_agent timeout now job_id agent agents jobs).0
    unfolding claim_job_for_agent updated
    claim_job_for_agent-IsExclusive agents jobs h =
        elim (Bool-cases (any (λ row. row.id == agent.id) agents)) [
          | inr unknown ↦ rw unknown h
          | inl known ↦ elim (Bool-cases (agent_has_running_job agent jobs)) [
            | inl busy ↦ rw (known, busy) h
            | inr idle ↦
                rw
                  (
                    known,
                    idle,
                    table-claim_outcome (atomic_claim_job timeout now job_id agent jobs),
                  )
                  (rw table-atomic_claim_job (updated-IsExclusive jobs h idle))
          ]
        ]
