-- ===== src/Finding/Trace.antt =====
-- A finding through a sequence of runs.
pub mod Steps
pub mod Resolution
use nuclei_dashboard.Base.{
  All, List, Option, [], if◌then◌else◌, is_some, leb, none, some, ℕ, ◌+◌, ◌<◌, ◌∷◌, ◌≡◌, ◌≤◌,
}
use nuclei_dashboard.Base.Moments.{Moment}
use nuclei_dashboard.Job.{ScanJob}
use nuclei_dashboard.Finding.{
  Asset, AssetFinding, Logs, apply_detection, cross_tenant, finalize_clean, finalize_detected,
  is_resolved, touched,
}

-- What a run says about one finding: it was detected, it was looked for and not found, or the run
-- could not have detected it.
pub data Verdict : Type 0 where
  seen not_seen not_applicable : Verdict

-- A run of the finding's tenant: when it detected the finding, if it did, when it was finalised, and
-- the number of clean runs that the policies asked for at that moment.
pub record Run : Type 0 where
  pub job : ScanJob
  pub detected_at : Moment
  pub at : Moment
  pub threshold : ℕ
  pub verdict : Verdict

-- A detection of a finding that exists, as the ingest of evidence makes it during the run.
abbrev pub detect : Run → AssetFinding → Logs → AssetFinding × Logs
detect run finding logs =
    let asset : Asset = record { id = finding.asset_id; tenant_id = finding.tenant_id } in
    elim (apply_detection 0 asset finding.vulnerability_id run.job run.detected_at (some finding)
      logs) [ touched finding' logs' changed ↦ (finding', logs') | cross_tenant ↦ (finding, logs) ]

-- The run ingests its evidence and is then finalised.
abbrev pub live_verdict : Verdict → Run → AssetFinding × Logs → AssetFinding × Logs
live_verdict seen run (finding, logs) =
    let (finding', logs') = detect run finding logs in
    finalize_detected run.job run.at finding' logs'
live_verdict not_seen run (finding, logs) = finalize_clean run.job run.at run.threshold finding logs
live_verdict not_applicable run (finding, logs) = (finding, logs)

abbrev pub live_run : Run → AssetFinding × Logs → AssetFinding × Logs
live_run run = live_verdict run.verdict run

unfoldable pub live : List Run → AssetFinding × Logs → AssetFinding × Logs
live [] held = held
live (run ∷ runs) held = live runs (live_run run held)

-- The specification: the clean runs since the last detection, since when the finding counts as
-- resolved, and how often it was found again after that. It knows nothing of states or rows.
pub record Course : Type 0 where
  pub clean_since : ℕ
  pub resolved_since : Option Moment
  pub reopenings : ℕ

-- A clean run resolves what is not resolved, at its own moment, if with it there are as many clean
-- runs as it asks for.
abbrev pub resolved_by : Run → ℕ → Option Moment → Option Moment
resolved_by run clean_runs none = if leb run.threshold clean_runs then some run.at else none
resolved_by run clean_runs (some moment) = some moment

abbrev pub next_course : Verdict → Run → Course → Course
next_course seen run course = record {
  clean_since = 0;
  resolved_since = none;
  reopenings = course.reopenings + (if is_some course.resolved_since then 1 else 0);
}
next_course not_seen run course = record {
  clean_since = course.clean_since + 1;
  resolved_since = resolved_by run (course.clean_since + 1) course.resolved_since;
  reopenings = course.reopenings;
}
next_course not_applicable run course = course

abbrev pub course_of_runs : Course → List Run → Course
course_of_runs course [] = course
course_of_runs course (run ∷ runs) = course_of_runs (next_course run.verdict run course) runs

-- The runs of the finding's tenant, one after the other: their ids ascend.
abbrev pub IsAscending : ℕ → ℕ → List Run → Type 0
IsAscending tenant_id n [] = Unit
IsAscending tenant_id n (run ∷ runs) =
    (n ≤ run.job.id) × (run.job.tenant_id ≡ tenant_id) × IsAscending tenant_id (run.job.id + 1) runs

-- What the finding's row says.
abbrev pub course_of : AssetFinding → Course
course_of finding = record {
  clean_since = finding.consecutive_clean_scans;
  resolved_since = finding.resolved_at;
  reopenings = finding.reopened_count;
}

-- The finding has a stamp exactly if it is resolved, and no run from `next` on has been evaluated.
pub record IsKept (tenant_id next : ℕ) (held : AssetFinding × Logs) : Type 0 where
  pub state : is_resolved held.0.technical_state ≡ is_some held.0.resolved_at
  pub own : held.0.tenant_id ≡ tenant_id
  pub evaluated : All (λ row. row.scan_job_id < next) held.1.evaluations
