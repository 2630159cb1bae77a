-- ===== src/Job/Steps/Overlap.antt =====
-- Operations that overlap. A claim is one UPDATE whose condition is tested on the row that it changes.
-- Every other operation reads the row, decides, and writes the columns that it changed when it
-- commits; as it holds no lock on the row, others may have committed in between.
use nuclei_dashboard.Base.{
  Bool, Bool-cases, List, Option, String, arith, false, inl, inr, subst, sym, true, ◌≡◌, ◌≢◌, ◌⊎◌,
}
use nuclei_dashboard.Base.Moments.{Moment}
use nuclei_dashboard.Job.{DomainEvent, ScanJob, is_terminal, is_unclaimed_status}
use nuclei_dashboard.Job.Transitions.{fail_job, fail_pending_legacy_job, is_pending_legacy}
use nuclei_dashboard.Job.Claims.{
  agent_claimable, central_claimable, claimed_by_agent, claimed_by_central,
}
use nuclei_dashboard.Job.Completion.{
  complete_job, complete_scan_run, ok, require_owned_run_for_persist,
}
use nuclei_dashboard.Job.Expiry.{expire_stuck_job, is_stuck, is_wait_over, mark_job_missed}
use nuclei_dashboard.Job.Steps.{
  Step, claim_by_agent, claim_by_central, complete, expire, fail, fail_legacy, miss,
}

-- A column is written if it changed between what was read and what was decided, and is kept otherwise.
abbrev IsColumn {ℓ} : {A : Type ℓ} → A → A → A → A → Type ℓ
IsColumn seen written current after =
    ((written ≡ seen) × (after ≡ current)) ⊎ ((written ≢ seen) × (after ≡ written))

-- What is stored once an operation that read `seen` and left `written` commits over `current`. Columns
-- that no such operation writes are left open.
pub record IsCommit (seen written current after : ScanJob) : Type 0 where
  pub same_row : (seen.id ≡ current.id) × (after.id ≡ current.id)
  pub status : IsColumn seen.status written.status current.status after.status
  pub claimed_by : IsColumn seen.claimed_by written.claimed_by current.claimed_by after.claimed_by
  pub claimed_agent_id :
      IsColumn seen.claimed_agent_id written.claimed_agent_id current.claimed_agent_id
        after.claimed_agent_id
  pub error : IsColumn seen.error written.error current.error after.error
  pub finished_at :
      IsColumn seen.finished_at written.finished_at current.finished_at after.finished_at
  pub cancel_requested_at :
      IsColumn seen.cancel_requested_at written.cancel_requested_at current.cancel_requested_at
        after.cancel_requested_at

abbrev pub is_claim : {seen written : ScanJob} → Step seen written → Bool
is_claim (claim_by_agent timeout now agent free e) = true
is_claim (claim_by_central timeout now free e) = true
is_claim _ = false

pub data OverlapStep (current : ScanJob) (after : ScanJob) : Type 1 where
  claims : (step : Step current after) → is_claim step ≡ true → OverlapStep current after
  commits :
      (seen written : ScanJob) (step : Step seen written)
      → is_claim step ≡ false
      → IsCommit seen written current after
      → OverlapStep current after

pub data OverlapReach (job : ScanJob) : ScanJob → Type 1 where
  start : OverlapReach job job
  then_overlaps :
      {mid last : ScanJob} → OverlapReach job mid → OverlapStep mid last → OverlapReach job last

complete-writes :
    {F : Type 0} (finalize : ScanJob → F → Option F) (checks : ScanJob → Bool) (now : Moment)
    (worker : String) (success : Bool) (error : Option String) (job job' : ScanJob)
    (events events' : List DomainEvent) (findings findings' : F)
    → complete_job finalize checks now worker success error (job, events) findings
      ≡ ok ((job', events'), findings')
    → is_terminal job'.status ≡ false
    → job'.status ≡ job.status
unfolding complete_job complete_scan_run require_owned_run_for_persist
complete-writes finalize checks now worker false error job job' events events' f f' h live =
    ground arith
complete-writes finalize checks now worker true error job job' events events' f f' h live =
    ground arith

-- An operation that is no claim writes a final status, or none.
Step-writes :
    {seen written : ScanJob} (step : Step seen written)
    → is_claim step ≡ false
    → is_terminal written.status ≡ false
    → written.status ≡ seen.status
unfolding fail_job fail_pending_legacy_job mark_job_missed expire_stuck_job is_pending_legacy
    is_wait_over is_stuck
Step-writes (claim_by_agent timeout now agent free e) other live = ground arith
Step-writes (claim_by_central timeout now free e) other live = ground arith
Step-writes (fail now detail events active e) other live = ground arith
Step-writes (fail_legacy now events pending e) other live = ground arith
Step-writes (miss now detail over e) other live = ground arith
Step-writes (expire timeout grace timed_out now events stuck e) other live = ground arith
Step-writes (complete finalize checks now worker success error es es' f f' e) other live =
    complete-writes finalize checks now worker success error _ _ es es' f f' e live

-- The status that a commit leaves is the row's, or final.
commit-status :
    {seen written current after : ScanJob} (step : Step seen written)
    → is_claim step ≡ false
    → IsCommit seen written current after
    → (after.status ≡ current.status) ⊎ (is_terminal after.status ≡ true)
commit-status {seen} {written} {current} {after} step other commit = elim commit.status [
  | inl kept ↦ inl kept.1
  | inr changed ↦ elim (Bool-cases (is_terminal written.status)) [
    | inl final ↦ inr (subst (λ s. is_terminal s ≡ true) (sym changed.1) final)
    | inr live ↦ elim (changed.0 (Step-writes step other live)) [ ]
  ]
]

claim-of_final :
    {job job' : ScanJob} (step : Step job job')
    → is_claim step ≡ true
    → is_terminal job.status ≡ true
    → is_terminal job'.status ≡ true
unfolding agent_claimable central_claimable
claim-of_final (claim_by_agent timeout now agent free e) claim final = ground arith
claim-of_final (claim_by_central timeout now free e) claim final = ground arith
claim-of_final (fail now detail events active e) claim final = ground arith
claim-of_final (fail_legacy now events pending e) claim final = ground arith
claim-of_final (miss now detail over e) claim final = ground arith
claim-of_final (expire timeout grace timed_out now events stuck e) claim final = ground arith
claim-of_final (complete finalize checks now worker success error es es' f f' e) claim final =
    ground arith

OverlapStep-final :
    {job job' : ScanJob}
    → OverlapStep job job'
    → is_terminal job.status ≡ true
    → is_terminal job'.status ≡ true
OverlapStep-final (claims step claim) final = claim-of_final step claim final
OverlapStep-final (commits seen written step other commit) final =
    elim (commit-status step other commit) [
      | inl same ↦ subst (λ s. is_terminal s ≡ true) (sym same) final
      | inr over ↦ over
    ]

-- However operations overlap, whatever each of them had read of the row, a run that is done, failed,
-- cancelled or missed never waits or runs again: its status is final from then on. It may still change
-- to another final one, as a commit that read the row before does not see the final status.
pub OverlapReach-final :
    {job job' : ScanJob}
    → OverlapReach job job'
    → is_terminal job.status ≡ true
    → is_terminal job'.status ≡ true
OverlapReach-final start final = final
OverlapReach-final (then_overlaps reach step) final =
    OverlapStep-final step (OverlapReach-final reach final)

claim-starts :
    {job job' : ScanJob} (step : Step job job')
    → is_claim step ≡ true
    → is_unclaimed_status job'.status ≡ false
unfolding claimed_by_agent claimed_by_central
claim-starts (claim_by_agent timeout now agent free e) claim = ground arith
claim-starts (claim_by_central timeout now free e) claim = ground arith
claim-starts (fail now detail events active e) claim = ground arith
claim-starts (fail_legacy now events pending e) claim = ground arith
claim-starts (miss now detail over e) claim = ground arith
claim-starts (expire timeout grace timed_out now events stuck e) claim = ground arith
claim-starts (complete finalize checks now worker success error es es' f f' e) claim = ground arith

-- No step puts a run back among those that wait to be claimed.
pub OverlapStep-taken :
    {job job' : ScanJob}
    → OverlapStep job job'
    → is_unclaimed_status job.status ≡ false
    → is_unclaimed_status job'.status ≡ false
OverlapStep-taken (claims step claim) taken = claim-starts step claim
OverlapStep-taken (commits seen written step other commit) taken =
    elim (commit-status step other commit) [
      | inl same ↦ subst (λ s. is_unclaimed_status s ≡ false) (sym same) taken
      | inr over ↦ ground arith
    ]

pub OverlapStep-id : {job job' : ScanJob} → OverlapStep job job' → job'.id ≡ job.id
unfolding claimed_by_agent claimed_by_central
OverlapStep-id (claims (claim_by_agent timeout now agent free e) claim) = ground arith
OverlapStep-id (claims (claim_by_central timeout now free e) claim) = ground arith
OverlapStep-id (claims (fail now detail events active e) claim) = ground arith
OverlapStep-id (claims (fail_legacy now events pending e) claim) = ground arith
OverlapStep-id (claims (miss now detail over e) claim) = ground arith
OverlapStep-id (claims (expire timeout grace timed_out now events stuck e) claim) = ground arith
OverlapStep-id (claims (complete finalize checks now worker success error es es' f f' e) claim) =
    ground arith
OverlapStep-id (commits seen written step other commit) = commit.same_row.1
