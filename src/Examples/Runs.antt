-- ===== src/Examples/Runs.antt =====
-- Runs, their claims and their ends.
use nuclei_dashboard.Job.Transitions.{fail_job, transition_job_to_failed}
use nuclei_dashboard.Job.Claims.Exclusive.{IsExclusive, claim_job_for_agent-IsExclusive}
use nuclei_dashboard.Job.Claims.Once.{IsClaimedBy}
use nuclei_dashboard.Job.Completion.Success.{complete_job-done}
use nuclei_dashboard.Job.Expiry.Stuck.{stuck_pass, stuck_run_is_cancelled}
use nuclei_dashboard.Job.Steps.Invariant.{IsWellFormed, Reach-IsWellFormed}
use nuclei_dashboard.Job.Steps.Overlap.{
  OverlapReach-final, OverlapStep, commits, start, then_overlaps,
}
use nuclei_dashboard.Job.Steps.Table.{
  TableStep, claim_job_for_agent_once, row_changes, then_table, unchanged,
}
use nuclei_dashboard.Job.Transitions.{fail_job, transition_job_to_failed}
use nuclei_dashboard.Base.{
  Bool, Option, [], arith, false, inl, inr, is_some, none, refl, some, true, ℕ, ◌+◌, ◌∷◌, ◌≡◌, ◌≢◌,
}
use nuclei_dashboard.Job.{
  ScanJob, Snapshot, any_available, cancelled, done, failed, is_terminal, lan, queued, running,
}
use nuclei_dashboard.Job.Control.{
  cancel_grace, deadline_for_start, is_due, job_cancel_requested, job_timeout_minutes,
}
use nuclei_dashboard.Job.Claims.{
  agent_claimable, agent_has_running_job, atomic_claim_job, claim_job_for_agent, claimed,
  claimed_by_agent,
}
use nuclei_dashboard.Job.Completion.{
  complete_job, complete_scan_run, is_claimed_by, require_owned_run_for_persist,
}
use nuclei_dashboard.Job.Steps.{Step, claim_by_agent, fail, here, next}
use nuclei_dashboard.Dispatch.{Agent, approved}

abbrev worker_agent : Agent
worker_agent = record {
  id = 7;
  uuid = "u";
  tenant_id = 1;
  site_id = some 1;
  status = approved;
  last_heartbeat = some 0;
}

abbrev second_agent : Agent
second_agent = record worker_agent { id = 8; uuid = "v" }

abbrev a_snapshot : Snapshot
a_snapshot = record {
  scope = some lan;
  dispatch = record {
    eligible_agent_ids = 7 ∷ [];
    mode = any_available;
    preferred_agent_id = none;
    grace_seconds = none;
  };
  created_at = some 0;
}

abbrev queued_run : ScanJob
queued_run = record {
  id = 1;
  scan_id = 1;
  tenant_id = 1;
  status = queued;
  claimed_by = none;
  claimed_agent_id = none;
  error = none;
  started_at = none;
  finished_at = none;
  wait_expires_at = none;
  deadline_at = none;
  cancel_requested_at = none;
  scheduled_for = none;
  execution_snapshot = some a_snapshot;
}

abbrev running_run : ScanJob
running_run = record queued_run {
  status = running;
  claimed_by = some "u";
  claimed_agent_id = some 7;
  started_at = some 0;
  deadline_at = some 1000;
}

queued_run-IsExclusive : IsExclusive (queued_run ∷ [])
queued_run-IsExclusive = record {
  unique_ids = λ id. ground arith;
  one_running = λ agent_id. ground arith;
}

claim_job_for_agent-IsExclusive_example :
    IsExclusive (claim_job_for_agent none 5 1 worker_agent (worker_agent ∷ []) (queued_run ∷ [])).0
claim_job_for_agent-IsExclusive_example =
    claim_job_for_agent-IsExclusive none 5 1 worker_agent (worker_agent ∷ []) (queued_run ∷ [])
      queued_run-IsExclusive

abbrev claimed_run : ScanJob
unfolding claimed_by_agent deadline_for_start job_timeout_minutes
claimed_run = claimed_by_agent none 5 worker_agent queued_run

-- A finalisation that always succeeds, over findings that are counted.
abbrev counts_one : ScanJob → ℕ → Option ℕ
counts_one job n = some (n + 1)

abbrev no_checks : ScanJob → Bool
no_checks job = true

abbrev done_run : ScanJob
done_run = record running_run { status = done; finished_at = some 10 }

complete_job-done_example :
    (true ≡ true)
    × (running_run.status ≡ running)
    × (is_claimed_by "u" running_run ≡ true)
    × (running_run.cancel_requested_at ≡ none)
    × (is_due running_run.deadline_at 10 ≡ false)
    × (is_some running_run.execution_snapshot ≡ true)
    × (counts_one (record running_run { finished_at = some 10 }) 0 ≡ some 1)
unfolding complete_job complete_scan_run require_owned_run_for_persist job_cancel_requested
complete_job-done_example =
    complete_job-done counts_one no_checks 10 "u" true none running_run done_run [] [] 0 1 refl refl

stuck_run_is_cancelled_example :
    (stuck_pass none 0 "timed out" 20000000
      (stuck_pass none 0 "timed out" 2000 (running_run, []))).0.status
    ≡ cancelled
unfolding cancel_grace
stuck_run_is_cancelled_example =
    stuck_run_is_cancelled none 0 2000 20000000 1000 "timed out" running_run [] refl refl
      (omega arith) (inl refl) (omega arith)

abbrev a_claim : Step queued_run claimed_run
unfolding agent_claimable claimed_by_agent deadline_for_start job_timeout_minutes
a_claim = claim_by_agent none 5 worker_agent refl refl

queued_run-IsWellFormed : IsWellFormed queued_run
queued_run-IsWellFormed = record {
  running_owned = λ h. ground arith;
  running_started = λ h. ground arith;
  running_limited = λ h. ground arith;
  finished_iff = refl;
  cancelled_requested = λ h. ground arith;
}

Reach-IsWellFormed_example : IsWellFormed claimed_run
Reach-IsWellFormed_example = Reach-IsWellFormed (next here a_claim) queued_run-IsWellFormed

abbrev failed_run : ScanJob
failed_run = record running_run { status = failed; error = some "e"; finished_at = some 8 }

-- A worker that had read the running run fails it after another one has committed that it is done.
abbrev done_before : ScanJob
done_before = record running_run { status = done; finished_at = some 10 }

a_late_commit : OverlapStep done_before failed_run
unfolding fail_job transition_job_to_failed
a_late_commit = commits running_run failed_run (fail 8 "e" [] refl refl) refl (record {
  same_row = (refl, refl);
  status = inr (λ e. ground arith, refl);
  claimed_by = inl (refl, refl);
  claimed_agent_id = inl (refl, refl);
  error = inr (λ e. ground arith, refl);
  finished_at = inr (λ e. ground arith, refl);
  cancel_requested_at = inl (refl, refl);
})

OverlapReach-final_example : is_terminal failed_run.status ≡ true
OverlapReach-final_example = OverlapReach-final (then_overlaps start a_late_commit) refl

-- The claimed run fails before the Agent claims again.
abbrev failed_claim : ScanJob
failed_claim = record claimed_run { status = failed; error = some "e"; finished_at = some 8 }

failing : TableStep (claimed_run ∷ []) (failed_claim ∷ [])
unfolding fail_job transition_job_to_failed claimed_by_agent claimed_run
failing =
    row_changes [] [] claimed_run failed_claim
      (commits claimed_run failed_claim (fail 8 "e" [] refl refl) refl (record {
        same_row = (refl, refl);
        status = inr (λ e. ground arith, refl);
        claimed_by = inl (refl, refl);
        claimed_agent_id = inl (refl, refl);
        error = inr (λ e. ground arith, refl);
        finished_at = inr (λ e. ground arith, refl);
        cancel_requested_at = inl (refl, refl);
      }))
      refl refl

-- The claim of another Agent, after the failure.
claim_job_for_agent_once_example :
    IsClaimedBy worker_agent claimed_run
    × ((claim_job_for_agent none 9 1 second_agent (second_agent ∷ []) (failed_claim ∷ [])).1
        ≢ claimed queued_run)
unfolding claim_job_for_agent claimed_by_agent deadline_for_start job_timeout_minutes
    agent_claimable atomic_claim_job agent_has_running_job claimed_run
claim_job_for_agent_once_example =
    claim_job_for_agent_once none none 5 9 1 worker_agent second_agent (worker_agent ∷ [])
      (second_agent ∷ []) (queued_run ∷ []) (claimed_run ∷ []) (failed_claim ∷ []) claimed_run
      queued_run queued_run-IsExclusive refl (then_table unchanged failing)
