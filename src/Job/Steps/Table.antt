-- ===== src/Job/Steps/Table.antt =====
-- The table of runs through claims by anybody, new runs and steps at single rows.
use nuclei_dashboard.Base.{
  Bool, Bool-cases, List, Option, [], any, any-append, arith, count_if, false, inl, inr, refl,
  subst, sym, true, update_where, ℕ, ◌&&◌, ◌++◌, ◌∷◌, ◌≡◌, ◌≢◌, ◌≤◌,
}
use nuclei_dashboard.Base.Moments.{Moment}
use nuclei_dashboard.Job.{ScanJob, is_unclaimed_status}
use nuclei_dashboard.Job.Claims.{
  agent_claimable, atomic_claim_central_job, atomic_claim_job, central_claimable,
  claim_job_for_agent, claimed, claimed_by_agent, claimed_by_central, has_id,
}
use nuclei_dashboard.Job.Claims.Exclusive.{IsExclusive}
use nuclei_dashboard.Job.Claims.Once.{
  IsClaimedBy, after, any-claimable-has_id, claim_inversion, find-claimed, refused_unclaimable,
}
use nuclei_dashboard.Job.Steps.Overlap.{OverlapStep, OverlapStep-id, OverlapStep-taken}
use nuclei_dashboard.Dispatch.{Agent}

pub data TableStep (jobs : List ScanJob) (jobs' : List ScanJob) : Type 1 where
  agent_claims :
      (timeout : Option ℕ) (now : Moment) (id : ℕ) (agent : Agent) (agents : List Agent)
      → jobs' ≡ (claim_job_for_agent timeout now id agent agents jobs).0
      → TableStep jobs jobs'
  central_claims :
      (timeout : Option ℕ) (now : Moment) (id : ℕ)
      → jobs' ≡ (atomic_claim_central_job timeout now id jobs).0
      → TableStep jobs jobs'
  inserts :
      (job : ScanJob)
      → any (has_id job.id) jobs ≡ false
      → jobs' ≡ jobs ++ job ∷ []
      → TableStep jobs jobs'
  row_changes :
      (front back : List ScanJob) (job job' : ScanJob)
      → OverlapStep job job'
      → jobs ≡ front ++ job ∷ back
      → jobs' ≡ front ++ job' ∷ back
      → TableStep jobs jobs'

pub data TableTrace (jobs : List ScanJob) : List ScanJob → Type 1 where
  unchanged : TableTrace jobs jobs
  then_table :
      {mid last : List ScanJob} → TableTrace jobs mid → TableStep mid last → TableTrace jobs last

module _ (job_id : ℕ) where
  -- The run stands in the table among those that wait to be claimed.
  abbrev waits : ScanJob → Bool
  waits job = has_id job_id job && is_unclaimed_status job.status

  -- The run is known, and is none that waits to be claimed.
  record IsTaken (jobs : List ScanJob) : Type 0 where
    is_known : any (has_id job_id) jobs ≡ true
    none_waits : any waits jobs ≡ false

  waits-other : (jobs : List ScanJob) → count_if (has_id job_id) jobs ≡ 0 → any waits jobs ≡ false
  waits-other [] h = refl
  waits-other (job ∷ jobs) h = ground (arith, waits-other jobs)

  none_claimable_of :
      (jobs : List ScanJob) → any waits jobs ≡ false → any (agent_claimable job_id) jobs ≡ false
  unfolding agent_claimable
  none_claimable_of [] h = refl
  none_claimable_of (job ∷ jobs) h = ground (arith, none_claimable_of jobs)

  -- A change that keeps ids and leaves no row waiting.
  update-IsTaken :
      (test : ScanJob → Bool) (change : ScanJob → ScanJob)
      → ((job : ScanJob) → (change job).id ≡ job.id)
      → ((job : ScanJob) → is_unclaimed_status (change job).status ≡ false)
      → (jobs : List ScanJob)
      → ((any (has_id job_id) jobs ≡ true)
          → any (has_id job_id) (update_where test change jobs) ≡ true)
        × ((any waits jobs ≡ false) → any waits (update_where test change jobs) ≡ false)
  update-IsTaken test change ids starts [] = (λ h. h, λ h. h)
  update-IsTaken test change ids starts (job ∷ jobs) =
      let same = ids job in
      let taken = starts job in
      let (known, waiting) = update-IsTaken test change ids starts jobs in
      (λ h. ground (arith, known), λ h. ground (arith, waiting))

  agent-IsTaken :
      (timeout : Option ℕ) (now : Moment) (id : ℕ) (agent : Agent) (agents : List Agent)
      (jobs : List ScanJob)
      → IsTaken jobs
      → IsTaken (claim_job_for_agent timeout now id agent agents jobs).0
  unfolding claim_job_for_agent atomic_claim_job claimed_by_agent
  agent-IsTaken timeout now id agent agents jobs h =
      let known = h.is_known in
      let waiting = h.none_waits in
      let (a, b) =
        update-IsTaken (agent_claimable id) (claimed_by_agent timeout now agent) (λ job. refl)
          (λ job. refl) jobs in
      record { is_known = ground (arith, a); none_waits = ground (arith, b) }

  central-IsTaken :
      (timeout : Option ℕ) (now : Moment) (id : ℕ) (jobs : List ScanJob)
      → IsTaken jobs
      → IsTaken (atomic_claim_central_job timeout now id jobs).0
  unfolding atomic_claim_central_job claimed_by_central
  central-IsTaken timeout now id jobs h =
      let known = h.is_known in
      let waiting = h.none_waits in
      let (a, b) =
        update-IsTaken (central_claimable id) (claimed_by_central timeout now) (λ job. refl)
          (λ job. refl) jobs in
      record { is_known = ground (arith, a); none_waits = ground (arith, b) }

  known-no_other :
      (jobs : List ScanJob) (job : ScanJob)
      → any (has_id job_id) jobs ≡ true
      → any (has_id job.id) jobs ≡ false
      → has_id job_id job ≡ false
  known-no_other [] job known fresh = ground arith
  known-no_other (row ∷ jobs) job known fresh = ground (arith, known-no_other jobs job)

  insert-IsTaken :
      (jobs : List ScanJob) (job : ScanJob)
      → any (has_id job.id) jobs ≡ false
      → IsTaken jobs
      → IsTaken (jobs ++ job ∷ [])
  insert-IsTaken jobs job fresh h =
      let other = known-no_other jobs job h.is_known fresh in
      let known = h.is_known in
      let waiting = h.none_waits in
      let a = any-append (has_id job_id) jobs (job ∷ []) in
      let b = any-append waits jobs (job ∷ []) in
      record { is_known = ground arith; none_waits = ground arith }

  row-IsTaken :
      (front back : List ScanJob) (job job' : ScanJob)
      → OverlapStep job job'
      → IsTaken (front ++ job ∷ back)
      → IsTaken (front ++ job' ∷ back)
  row-IsTaken front back job job' step h =
      let known = h.is_known in
      let waiting = h.none_waits in
      let a = any-append (has_id job_id) front (job ∷ back) in
      let b = any-append waits front (job ∷ back) in
      let c = any-append (has_id job_id) front (job' ∷ back) in
      let d = any-append waits front (job' ∷ back) in
      let same = OverlapStep-id step in
      let taken = OverlapStep-taken step in
      record { is_known = ground arith; none_waits = ground (arith, taken) }

  TableStep-IsTaken :
      {jobs jobs' : List ScanJob} → TableStep jobs jobs' → IsTaken jobs → IsTaken jobs'
  TableStep-IsTaken {jobs} (agent_claims timeout now id agent agents e) h =
      subst IsTaken (sym e) (agent-IsTaken timeout now id agent agents jobs h)
  TableStep-IsTaken {jobs} (central_claims timeout now id e) h =
      subst IsTaken (sym e) (central-IsTaken timeout now id jobs h)
  TableStep-IsTaken {jobs} (inserts job fresh e) h =
      subst IsTaken (sym e) (insert-IsTaken jobs job fresh h)
  TableStep-IsTaken (row_changes front back job job' step e e') h =
      subst IsTaken (sym e') (row-IsTaken front back job job' step (subst IsTaken e h))

  TableTrace-IsTaken :
      {jobs jobs' : List ScanJob} → TableTrace jobs jobs' → IsTaken jobs → IsTaken jobs'
  TableTrace-IsTaken unchanged h = h
  TableTrace-IsTaken (then_table trace step) h = TableStep-IsTaken step (TableTrace-IsTaken trace h)

  claimed-IsTaken :
      (timeout : Option ℕ) (now : Moment) (agent : Agent) (jobs : List ScanJob)
      → count_if (has_id job_id) jobs ≤ 1
      → any (agent_claimable job_id) jobs ≡ true
      → IsTaken (after timeout now job_id agent jobs)
  unfolding agent_claimable claimed_by_agent
  claimed-IsTaken timeout now agent [] unique h = ground arith
  claimed-IsTaken timeout now agent (job ∷ jobs) unique h =
      elim (Bool-cases (agent_claimable job_id job)) [
        | inl here ↦
            (let (a, b) =
                update-IsTaken (agent_claimable job_id) (claimed_by_agent timeout now agent)
                  (λ row. refl) (λ row. refl) jobs in
              let rest = waits-other jobs in
              record { is_known = ground (arith, a); none_waits = ground (arith, b, rest) })
        | inr there ↦
            (let e : any (agent_claimable job_id) jobs ≡ true = ground arith in
              let one = any-claimable-has_id timeout now job_id agent jobs e in
              let fewer : count_if (has_id job_id) jobs ≤ 1 = ground arith in
              let ih = claimed-IsTaken timeout now agent jobs fewer e in
              let known = ih.is_known in
              let waiting = ih.none_waits in
              record { is_known = ground arith; none_waits = ground arith })
      ]

-- A claim that succeeds hands out the run as the Agent's own, running, and from then on no Agent, this
-- one or another, gets a claim of the same run: whatever claims, by Agents or the central worker, new
-- runs and steps at single rows, which may overlap, come in between.
pub claim_job_for_agent_once :
    (timeout timeout' : Option ℕ) (now now' : Moment) (job_id : ℕ) (agent other : Agent)
    (agents others : List Agent) (jobs jobs' later : List ScanJob) (job again : ScanJob)
    → IsExclusive jobs
    → claim_job_for_agent timeout now job_id agent agents jobs ≡ (jobs', claimed job)
    → TableTrace jobs' later
    → IsClaimedBy agent job
      × ((claim_job_for_agent timeout' now' job_id other others later).1 ≢ claimed again)
claim_job_for_agent_once timeout timeout' now now' job_id agent other agents others jobs jobs' later
      job again h success trace =
    let (claimable, table, found) =
      claim_inversion timeout now job_id agent agents jobs jobs' job success in
    let unique = h.unique_ids job_id in
    let first =
      subst (IsTaken job_id) (sym table)
        (claimed-IsTaken job_id timeout now agent jobs unique claimable) in
    let last = TableTrace-IsTaken job_id trace first in
    (
      find-claimed timeout now job_id agent jobs job unique claimable found,
      refused_unclaimable timeout' now' job_id other others later again
          (none_claimable_of job_id later last.none_waits),
    )
