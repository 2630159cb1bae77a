-- ===== src/Examples/Vulnerabilities.antt =====
-- Priorities and lives of findings.
use nuclei_dashboard.Finding.Rerun.{finalize_all_twice}
use nuclei_dashboard.Finding.Trace.Resolution.{live-clean_since}
use nuclei_dashboard.Priority.Floors.{
  at_least, calculate_asset_finding_priority-band, is_known_exploited, is_severe,
}
use nuclei_dashboard.Priority.Score.{factor_sum-score}
use nuclei_dashboard.Base.{List, [], arith, is_some, leb, none, refl, some, true, ℕ, ◌||◌, ◌∷◌, ◌≡◌}
use nuclei_dashboard.Job.{ScanJob, done}
use nuclei_dashboard.Finding.{
  AssetFinding, Logs, RunView, finalize_all, is_resolved, opened, unaddressed,
}
use nuclei_dashboard.Finding.Trace.{Run, course_of, course_of_runs, live, not_seen, seen}
use nuclei_dashboard.Priority.{
  PriorityInput, calculate_asset_finding_priority, critical, critical_asset, factor_sum, high, low,
}

abbrev a_payload : PriorityInput
a_payload = record {
  cvss_base_score = some 98;
  detector_severity = low;
  epss_percentile = some 99000000000;
  kev = some true;
  asset_criticality = critical_asset;
  proven_wan_exposure = true;
  has_cui_tag = true;
  first_seen = some 0;
  now = 1000000;
}

factor_sum-score_example :
    factor_sum (calculate_asset_finding_priority a_payload).factors
    ≡ (calculate_asset_finding_priority a_payload).score
factor_sum-score_example = factor_sum-score a_payload

calculate_asset_finding_priority-band_example :
    (at_least 1 (calculate_asset_finding_priority a_payload).priority
      ≡ (is_known_exploited a_payload || leb 75 (calculate_asset_finding_priority a_payload).score))
    × (at_least 2 (calculate_asset_finding_priority a_payload).priority ≡ (
        is_known_exploited a_payload
        || leb 50 (calculate_asset_finding_priority a_payload).score
        || is_severe 90 critical a_payload))
    × (at_least 3 (calculate_asset_finding_priority a_payload).priority ≡ (
        is_known_exploited a_payload
        || leb 25 (calculate_asset_finding_priority a_payload).score
        || is_severe 90 critical a_payload
        || is_severe 70 high a_payload))
calculate_asset_finding_priority-band_example = calculate_asset_finding_priority-band a_payload

abbrev run_job : ℕ → ScanJob
run_job id = record {
  id = id;
  scan_id = 1;
  tenant_id = 1;
  status = done;
  claimed_by = none;
  claimed_agent_id = none;
  error = none;
  started_at = none;
  finished_at = none;
  wait_expires_at = none;
  deadline_at = none;
  cancel_requested_at = none;
  scheduled_for = none;
  execution_snapshot = none;
}

abbrev a_finding : AssetFinding
a_finding = record {
  id = 3;
  tenant_id = 1;
  asset_id = 4;
  vulnerability_id = 5;
  technical_state = opened;
  treatment_state = unaddressed;
  first_seen = 0;
  last_seen = 0;
  resolved_at = none;
  consecutive_clean_scans = 0;
  reopened_count = 0;
  updated_at = 0;
}

abbrev no_logs : Logs
no_logs = record { history = []; events = []; evaluations = [] }

-- The third run asks for one clean run only.
abbrev three_runs : List Run
three_runs =
    record { job = run_job 10; detected_at = 90; at = 100; threshold = 2; verdict = seen }
    ∷ record { job = run_job 11; detected_at = 0; at = 200; threshold = 2; verdict = not_seen }
    ∷ record { job = run_job 12; detected_at = 0; at = 300; threshold = 1; verdict = not_seen }
    ∷ []

resolved_by_the_third : (course_of_runs (course_of a_finding) three_runs).resolved_since ≡ some 300
resolved_by_the_third = refl

live-clean_since_example :
    let finding' = (live three_runs (a_finding, no_logs)).0 in
    let course = course_of_runs (course_of a_finding) three_runs in
    (finding'.consecutive_clean_scans ≡ course.clean_since)
    × (is_resolved finding'.technical_state ≡ is_some course.resolved_since)
    × (finding'.resolved_at ≡ course.resolved_since)
    × (finding'.reopened_count ≡ course.reopenings)
live-clean_since_example =
    live-clean_since 1 10 three_runs a_finding no_logs
      (omega arith, refl, (omega arith, refl, (omega arith, refl, tt)))
      (record { state = refl; own = refl; evaluated = tt })

abbrev a_view : RunView
a_view = record {
  detected_ids = [];
  observed_ids = 4 ∷ [];
  is_applicable = λ finding. true;
  threshold = λ finding. 2;
}

finalize_all_twice_example :
    finalize_all a_view
      (run_job 10)
      200
      (finalize_all a_view (run_job 10) 100 (a_finding ∷ []) no_logs).0
      (finalize_all a_view (run_job 10) 100 (a_finding ∷ []) no_logs).1
    ≡ finalize_all a_view (run_job 10) 100 (a_finding ∷ []) no_logs
finalize_all_twice_example = finalize_all_twice a_view (run_job 10) 100 200 (a_finding ∷ []) no_logs
