-- ===== src/Finding.antt =====
-- The technical lifecycle of findings: backend/app/finding_lifecycle.py. A finding is opened by its
-- first detection, resolved by consecutive clean runs and reopened by a later detection; history,
-- evaluations and events are stored once for each key. The index that a run keeps over its rows
-- answers as the tables do, so the queries stand for both.
pub mod Trace
pub mod Rerun
use nuclei_dashboard.Base.{
  Bool, List, Option, [], any, contains, false, if◌then◌else◌, is_some, ltb, none, not, some, true,
  ℕ, ◌&&◌, ◌++◌, ◌+◌, ◌==◌, ◌||◌, ◌∷◌,
}
use nuclei_dashboard.Base.Moments.{Moment}
use nuclei_dashboard.Job.{ScanJob}

pub data TechnicalState : Type 0 where
  opened resolved : TechnicalState

pub data TreatmentState : Type 0 where
  unaddressed mitigated accepted_risk false_positive : TreatmentState

pub record AssetFinding : Type 0 where
  pub id : ℕ
  pub tenant_id : ℕ
  pub asset_id : ℕ
  pub vulnerability_id : ℕ
  pub technical_state : TechnicalState
  pub treatment_state : TreatmentState
  pub first_seen : Moment
  pub last_seen : Moment
  pub resolved_at : Option Moment
  pub consecutive_clean_scans : ℕ
  pub reopened_count : ℕ
  pub updated_at : Moment

-- What happened to a finding, which with the finding and the run is the idempotence key of the row
-- in the history, and of the event that goes with it.
pub data Transition : Type 0 where
  was_opened was_resolved was_reopened : Transition

pub record Entry : Type 0 where
  pub transition : Transition
  pub asset_finding_id : ℕ
  pub scan_job_id : ℕ

pub data Outcome : Type 0 where
  detected clean : Outcome

pub record Evaluation : Type 0 where
  pub asset_finding_id : ℕ
  pub scan_job_id : ℕ
  pub outcome : Outcome

-- The rows beside the findings.
pub record Logs : Type 0 where
  pub history : List Entry
  pub events : List Entry
  pub evaluations : List Evaluation

infix 50 ◌same_transition◌
abbrev ◌same_transition◌ : Transition → Transition → Bool
was_opened same_transition was_opened = true
was_resolved same_transition was_resolved = true
was_reopened same_transition was_reopened = true
_ same_transition _ = false

infix 50 ◌same_entry◌
abbrev ◌same_entry◌ : Entry → Entry → Bool
a same_entry b =
    a.transition same_transition b.transition
    && a.asset_finding_id == b.asset_finding_id
    && a.scan_job_id == b.scan_job_id

abbrev is_stored : Entry → List Entry → Bool
is_stored entry entries = any (λ stored. stored same_entry entry) entries

abbrev store_once : Entry → List Entry → List Entry
store_once entry entries = if is_stored entry entries then entries else entries ++ entry ∷ []

-- A row of the history with the event that follows it: the event of an opening or a reopening is
-- emitted whether or not the row was there, that of a resolution only behind a new row.
unfoldable pub append_history : Entry → Logs → Logs
append_history entry logs = record logs { history = store_once entry logs.history }

unfoldable pub emit_lifecycle_event : Entry → Logs → Logs
emit_lifecycle_event entry logs = record logs { events = store_once entry logs.events }

pub record Asset : Type 0 where
  pub id : ℕ
  pub tenant_id : ℕ

pub data Detection : Type 0 where
  touched : AssetFinding → Logs → Bool → Detection
  cross_tenant : Detection

abbrev entry_for : Transition → AssetFinding → ScanJob → Entry
entry_for transition finding job = record {
  transition = transition;
  asset_finding_id = finding.id;
  scan_job_id = job.id;
}

-- The row that a first detection inserts, under the id that the database gives it.
unfoldable new_finding : ℕ → Asset → ℕ → ScanJob → Moment → AssetFinding
new_finding id asset vulnerability_id job detected_at = record {
  id = id;
  tenant_id = job.tenant_id;
  asset_id = asset.id;
  vulnerability_id = vulnerability_id;
  technical_state = opened;
  treatment_state = unaddressed;
  first_seen = detected_at;
  last_seen = detected_at;
  resolved_at = none;
  consecutive_clean_scans = 0;
  reopened_count = 0;
  updated_at = detected_at;
}

abbrev pub is_resolved : TechnicalState → Bool
is_resolved resolved = true
is_resolved opened = false

-- What a detection does to a finding that exists.
unfoldable seen_again : ScanJob → Moment → AssetFinding → Logs → Detection
unfolding append_history emit_lifecycle_event
seen_again job detected_at finding logs =
    let seen = record finding {
      last_seen = detected_at;
      consecutive_clean_scans = 0;
      updated_at = detected_at;
    } in
    let entry = entry_for was_reopened finding job in
    if is_resolved finding.technical_state
    then touched
        (record seen {
          technical_state = opened;
          resolved_at = none;
          reopened_count = finding.reopened_count + 1;
        })
        (emit_lifecycle_event entry (append_history entry logs)) true
    else touched seen logs false

-- `existing` is the finding of the Asset and the vulnerability, if there is one; the Boolean result is
-- whether it was created or reopened.
unfoldable pub apply_detection :
    ℕ → Asset → ℕ → ScanJob → Moment → Option AssetFinding → Logs → Detection
unfolding new_finding seen_again
apply_detection id asset vulnerability_id job detected_at existing logs =
    if not (asset.tenant_id == job.tenant_id) then cross_tenant else elim existing [
      | none ↦
          (let finding = new_finding id asset vulnerability_id job detected_at in
            let entry = entry_for was_opened finding job in
            touched finding (emit_lifecycle_event entry (append_history entry logs)) true)
      | some finding ↦
          if not (finding.tenant_id == job.tenant_id) || not (finding.asset_id == asset.id)
          then cross_tenant
          else seen_again job detected_at finding logs
    ]

-- `_record_evaluation`: whether a row was inserted is the second result.
abbrev pub is_evaluation_of : ℕ → ℕ → Evaluation → Bool
is_evaluation_of finding_id job_id row =
    row.asset_finding_id == finding_id && row.scan_job_id == job_id

abbrev pub is_evaluated : AssetFinding → ScanJob → Logs → Bool
is_evaluated finding job logs = any (is_evaluation_of finding.id job.id) logs.evaluations

unfoldable record_evaluation : AssetFinding → ScanJob → Outcome → Logs → Logs × Bool
record_evaluation finding job outcome logs =
    let row : Evaluation = record {
      asset_finding_id = finding.id;
      scan_job_id = job.id;
      outcome = outcome;
    } in
    if is_evaluated finding job logs
    then (logs, false)
    else (record logs { evaluations = logs.evaluations ++ row ∷ [] }, true)

-- `_resolve_if_threshold_reached`
unfoldable resolve_if_threshold_reached :
    ScanJob → Moment → ℕ → AssetFinding → Logs → AssetFinding × Logs
unfolding append_history emit_lifecycle_event
resolve_if_threshold_reached job occurred_at threshold finding logs =
    let entry = entry_for was_resolved finding job in
    let stored = append_history entry logs in
    if is_resolved finding.technical_state || ltb finding.consecutive_clean_scans threshold
    then (finding, logs)
    else (
      record finding {
        technical_state = resolved;
        resolved_at = some occurred_at;
        updated_at = occurred_at;
      },
      if is_stored entry logs.history then stored else emit_lifecycle_event entry stored,
    )

-- One round of the loop of `finalize_run_lifecycle`, for a candidate that was detected or not.
abbrev pub set_clean : ℕ → Moment → AssetFinding → AssetFinding
set_clean n occurred_at finding = record finding {
  consecutive_clean_scans = n;
  updated_at = occurred_at;
}

unfoldable pub finalize_detected : ScanJob → Moment → AssetFinding → Logs → AssetFinding × Logs
unfolding record_evaluation
finalize_detected job occurred_at finding logs =
    let (logs', created) = record_evaluation finding job detected logs in
    (if created then set_clean 0 occurred_at finding else finding, logs')

unfoldable pub finalize_clean : ScanJob → Moment → ℕ → AssetFinding → Logs → AssetFinding × Logs
unfolding record_evaluation resolve_if_threshold_reached
finalize_clean job occurred_at threshold finding logs =
    let (logs', created) = record_evaluation finding job clean logs in
    let counted = set_clean (finding.consecutive_clean_scans + 1) occurred_at finding in
    if created
    then resolve_if_threshold_reached job occurred_at threshold counted logs'
    else (finding, logs')

-- What the run says about a finding, as the queries of `finalize_run_lifecycle` find it: the ids of
-- the findings that it detected, those of the Assets that it observed, which findings it could have
-- detected, and the number of clean runs that the policies ask for.
pub record RunView : Type 0 where
  pub detected_ids : List ℕ
  pub observed_ids : List ℕ
  pub is_applicable : AssetFinding → Bool
  pub threshold : AssetFinding → ℕ

unfoldable pub is_candidate : RunView → ScanJob → AssetFinding → Bool
is_candidate view job finding =
    finding.tenant_id == job.tenant_id
    && (contains view.detected_ids finding.id || contains view.observed_ids finding.asset_id)

unfoldable pub finalize_finding :
    RunView → ScanJob → Moment → AssetFinding → Logs → AssetFinding × Logs
unfolding is_candidate finalize_detected finalize_clean
finalize_finding view job occurred_at finding logs =
    if not (is_candidate view job finding)
    then (finding, logs)
    else if contains view.detected_ids finding.id
    then finalize_detected job occurred_at finding logs
    else if not (view.is_applicable finding)
    then (finding, logs)
    else finalize_clean job occurred_at (view.threshold finding) finding logs

-- The loop over the findings of the table.
unfoldable pub finalize_all :
    RunView → ScanJob → Moment → List AssetFinding → Logs → List AssetFinding × Logs
unfolding finalize_finding
finalize_all view job occurred_at [] logs = ([], logs)
finalize_all view job occurred_at (finding ∷ findings) logs =
    let (finding', logs') = finalize_finding view job occurred_at finding logs in
    let (findings', last) = finalize_all view job occurred_at findings logs' in
    (finding' ∷ findings', last)

-- `finalize_run_lifecycle`: none where it raises. `fallback` is the setting that
-- `resolution_threshold` reads and checks.
unfoldable finalize_run_lifecycle :
    RunView → ℕ → Moment → ScanJob → List AssetFinding × Logs → Option (List AssetFinding × Logs)
unfolding finalize_all
finalize_run_lifecycle view fallback now job (findings, logs) =
    let occurred_at : Moment = elim job.finished_at [ none ↦ now | some finished ↦ finished ] in
    if not (is_some job.execution_snapshot)
    then none
    else if fallback == 0
    then none
    else some (finalize_all view job occurred_at findings logs)
