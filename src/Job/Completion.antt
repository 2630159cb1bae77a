-- ===== src/Job/Completion.antt =====
-- How a worker's report ends a run: backend/app/scan_execution.py, `complete_scan_run` of
-- backend/app/finding_lifecycle.py and `complete_job` of backend/app/routers/scanner_api.py. A row
-- is what `_owned` reads, without a lock, and what is then written; Job.Steps.Overlap is about what others
-- commit in between.
pub mod Success
use nuclei_dashboard.Base.{
  Bool, List, Option, String, false, if◌then◌else◌, is_some, map, none, not, some, str_eq, true,
  ◌||◌,
}
use nuclei_dashboard.Base.Moments.{Moment}
use nuclei_dashboard.Base.Text.{codes, is_in, is_truthy, lower_code}
use nuclei_dashboard.Job.{DomainEvent, ScanJob, Scope, done, is_running}
use nuclei_dashboard.Job.Control.{job_cancel_requested}
use nuclei_dashboard.Job.Transitions.{
  Held, is_cancelled, is_failed, transition_job_to_cancelled, transition_job_to_failed,
}

-- The details of `ExecutionBlocked` and `FindingLifecycleError`.
pub data Blocked : Type 0 where
  not_found not_active cancelled_or_expired no_scope no_snapshot not_finalized : Blocked

pub data Result {ℓ} (A : Type ℓ) : Type ℓ where
  ok : A → Result A
  err : Blocked → Result A

infixl 5 ◌>>=◌
abbrev ◌>>=◌ {ℓ κ} : {A : Type ℓ} {B : Type κ} → Result A → (A → Result B) → Result B
ok a >>= f = f a
err e >>= f = err e

unfoldable run_scope : ScanJob → Result Scope
run_scope job = elim job.execution_snapshot [
  | none ↦ err no_scope
  | some snapshot ↦ elim snapshot.scope [ none ↦ err no_scope | some scope ↦ ok scope ]
]

-- `job.claimed_by == claimed_by`
abbrev pub is_claimed_by : String → ScanJob → Bool
is_claimed_by worker job = elim job.claimed_by [ none ↦ false | some name ↦ str_eq name worker ]

unfoldable require_active_phase1d_run : String → ScanJob → Result ScanJob
require_active_phase1d_run worker job =
    if not (is_claimed_by worker job)
    then err not_found
    else if not (is_running job.status)
    then err not_active
    else if not (is_some job.execution_snapshot)
    then err not_active
    else ok job

unfoldable pub require_owned_run_for_persist : Moment → String → Bool → ScanJob → Result ScanJob
require_owned_run_for_persist now worker completing_ok job =
    if not (is_claimed_by worker job)
    then err not_found
    else if not (is_some job.execution_snapshot)
    then err not_active
    else if completing_ok
    then if not (is_running job.status) || job_cancel_requested now job
      then err cancelled_or_expired
      else ok job
    else if is_running job.status
    then ok job
    else if is_cancelled job.status || is_failed job.status
    then ok job
    else err not_active

-- Whether the text that a worker reports is that of a cancelled or expired run.
unfoldable pub is_cancel_text : String → Bool
is_cancel_text error =
    let text = map lower_code (codes error) in
    is_in (codes "scan cancelled") text
    || is_in (codes "scan deadline exceeded") text
    || is_in (codes "timed out after") text

unfoldable pub is_cancel_completion : ScanJob → String → Bool
unfolding is_cancel_text
is_cancel_completion job error = is_some job.cancel_requested_at || is_cancel_text error

-- `error or "scan failed"`
abbrev pub error_detail : Option String → String
error_detail error = elim error [
  | none ↦ "scan failed"
  | some text ↦ if is_truthy (some text) then text else "scan failed"
]

abbrev set_finished : Moment → Held → Held
set_finished now (job, events) = (record job { finished_at = some now }, events)

-- `F` is the state of the findings, and `finalize` is `finalize_run_lifecycle`, none if it raises.
module _ {F : Type 0} (finalize : ScanJob → F → Option F) where
  abbrev finish_ok : Moment → Option String → ScanJob → List DomainEvent → F → Result (Held × F)
  finish_ok now error job events findings =
      let finished = record job { finished_at = some now } in
      elim (finalize finished findings) [
        | none ↦ err not_finalized
        | some findings' ↦
            ok ((record finished { status = done; error = error }, events), findings')
      ]

  unfoldable pub complete_scan_run : Moment → Bool → Option String → Held → F → Result (Held × F)
  unfolding transition_job_to_cancelled transition_job_to_failed
  complete_scan_run now false error (job, events) findings =
      let detail = error_detail error in
      let moved =
        if is_cancel_completion job detail
        then (transition_job_to_cancelled now detail false (job, events)).0
        else (transition_job_to_failed now detail false (job, events)).0 in
      ok (set_finished now moved, findings)
  complete_scan_run now true error (job, events) findings =
      if is_some job.cancel_requested_at || is_cancelled job.status
      then err cancelled_or_expired
      else if not (is_some job.execution_snapshot)
      then err no_snapshot
      else finish_ok now error job events findings

  -- `checks` are the declarations of raw evidence and of tool versions, which may refuse the report.
  -- An error rolls the transaction back: nothing of it is kept.
  unfoldable pub complete_job :
      (ScanJob → Bool) → Moment → String → Bool → Option String → Held → F → Result (Held × F)
  complete_job checks now worker success error (job, events) findings =
      require_owned_run_for_persist now worker success job >>= λ owned.
      if checks owned
      then complete_scan_run now success error (owned, events) findings
      else err not_finalized
