-- ===== src/Finding/Trace/Steps.antt =====
-- What one run does to a finding.
use nuclei_dashboard.Base.{
  All, Bool-cases, List, Option, [], any, arith, false, if◌then◌else◌, inl, inr, is_some, none,
  refl, some, subst, sym, ℕ, ◌++◌, ◌+◌, ◌<◌, ◌∙◌, ◌∷◌, ◌≡◌, ◌≤◌,
}
use nuclei_dashboard.Base.Moments.{Moment}
use nuclei_dashboard.Job.{ScanJob}
use nuclei_dashboard.Finding.{
  AssetFinding, Evaluation, Logs, Outcome, apply_detection, clean, detected, finalize_clean,
  finalize_detected, is_evaluated, is_evaluation_of, is_resolved, set_clean,
}
use nuclei_dashboard.Finding.Trace.{
  Course, IsKept, Run, Verdict, course_of, detect, live_verdict, next_course, not_applicable,
  not_seen, resolved_by, seen,
}

not_evaluated :
    (finding_id job_id next : ℕ) (rows : List Evaluation)
    → next ≤ job_id
    → All (λ row. row.scan_job_id < next) rows
    → any (is_evaluation_of finding_id job_id) rows ≡ false
not_evaluated finding_id job_id next [] h below = refl
not_evaluated finding_id job_id next (row ∷ rows) h below =
    ground (arith, below.0, not_evaluated finding_id job_id next rows h below.1)

-- The evaluations after one more, of the run itself.
below_next :
    (next : ℕ) (row : Evaluation) (rows : List Evaluation)
    → next ≤ row.scan_job_id
    → All (λ r. r.scan_job_id < next) rows
    → All (λ r. r.scan_job_id < row.scan_job_id + 1) (rows ++ row ∷ [])
below_next next row [] h below = (omega arith, tt)
below_next next row (first ∷ rows) h below = (omega arith, below_next next row rows h below.1)

below_same :
    (next later : ℕ) (rows : List Evaluation)
    → next ≤ later
    → All (λ r. r.scan_job_id < next) rows
    → All (λ r. r.scan_job_id < later) rows
below_same next later [] h below = tt
below_same next later (first ∷ rows) h below = (omega arith, below_same next later rows h below.1)

record IsSeen (run : Run) (finding finding' : AssetFinding) : Type 0 where
  id_kept : finding'.id ≡ finding.id
  tenant_kept : finding'.tenant_id ≡ finding.tenant_id
  is_open : is_resolved finding'.technical_state ≡ false
  unstamped : is_some finding'.resolved_at ≡ false
  reopened :
      finding'.reopened_count
      ≡ finding.reopened_count + (if is_some finding.resolved_at then 1 else 0)

detect-IsSeen :
    (run : Run) (finding : AssetFinding) (logs : Logs)
    → finding.tenant_id ≡ run.job.tenant_id
    → is_resolved finding.technical_state ≡ is_some finding.resolved_at
    → IsSeen run finding (detect run finding logs).0
      × ((detect run finding logs).1.evaluations ≡ logs.evaluations)
unfolding apply_detection
detect-IsSeen run finding logs same kept = elim (Bool-cases (is_resolved finding.technical_state)) [
  | inl r ↦ ground arith
  | inr o ↦ ground arith
]

abbrev evaluation_of : AssetFinding → ScanJob → Outcome → Evaluation
evaluation_of finding job outcome = record {
  asset_finding_id = finding.id;
  scan_job_id = job.id;
  outcome = outcome;
}

finalize_detected_lem :
    (job : ScanJob) (at : Moment) (finding : AssetFinding) (logs : Logs)
    → is_evaluated finding job logs ≡ false
    → ((finalize_detected job at finding logs).0 ≡ set_clean 0 at finding)
      × ((finalize_detected job at finding logs).1.evaluations
          ≡ logs.evaluations ++ evaluation_of finding job detected ∷ [])
unfolding finalize_detected
finalize_detected_lem job at finding logs fresh = ground arith

record IsCleanRun (run : Run) (finding finding' : AssetFinding) : Type 0 where
  tenant_kept : finding'.tenant_id ≡ finding.tenant_id
  counted : finding'.consecutive_clean_scans ≡ finding.consecutive_clean_scans + 1
  state : is_resolved finding'.technical_state ≡ is_some finding'.resolved_at
  stamped :
      finding'.resolved_at
      ≡ resolved_by run (finding.consecutive_clean_scans + 1) finding.resolved_at
  reopened : finding'.reopened_count ≡ finding.reopened_count

finalize_clean-IsCleanRun :
    (run : Run) (finding : AssetFinding) (logs : Logs)
    → is_evaluated finding run.job logs ≡ false
    → is_resolved finding.technical_state ≡ is_some finding.resolved_at
    → IsCleanRun run finding (finalize_clean run.job run.at run.threshold finding logs).0
      × ((finalize_clean run.job run.at run.threshold finding logs).1.evaluations
          ≡ logs.evaluations ++ evaluation_of finding run.job clean ∷ [])
unfolding finalize_clean
finalize_clean-IsCleanRun run finding logs fresh kept =
    elim (Bool-cases (is_resolved finding.technical_state)) [
      | inl r ↦ ground arith
      | inr o ↦ ground arith
    ]

unstamped_none : (o : Option Moment) → is_some o ≡ false → o ≡ none
unstamped_none none h = refl
unstamped_none (some moment) h = ground arith

course_eq :
    {c d : Course}
    → c.clean_since ≡ d.clean_since
    → c.resolved_since ≡ d.resolved_since
    → c.reopenings ≡ d.reopenings
    → c ≡ d
course_eq p q r = cc

live_seen :
    (tenant_id next : ℕ) (run : Run) (finding : AssetFinding) (logs : Logs)
    → next ≤ run.job.id
    → run.job.tenant_id ≡ tenant_id
    → IsKept tenant_id next (finding, logs)
    → IsKept tenant_id (run.job.id + 1) (live_verdict seen run (finding, logs))
      × (course_of (live_verdict seen run (finding, logs)).0
          ≡ next_course seen run (course_of finding))
live_seen tenant_id next run finding logs h same a =
    let (finding', logs') = detect run finding logs in
    let (s, rows) = detect-IsSeen run finding logs (a.own ∙ sym same) a.state in
    let fresh =
      not_evaluated finding'.id run.job.id next logs'.evaluations h
        (subst (All (λ row. row.scan_job_id < next)) (sym rows) a.evaluated) in
    let (result, added) = finalize_detected_lem run.job run.at finding' logs' fresh in
    let unset = unstamped_none finding'.resolved_at s.unstamped in
    (
      record {
        state = ground arith;
        own = ground arith;
        evaluated =
            rw (added, rows)
              (below_next next (evaluation_of finding' run.job detected) logs.evaluations h
                a.evaluated);
      },
      course_eq (ground arith) (ground arith) (ground arith),
    )

live_not_seen :
    (tenant_id next : ℕ) (run : Run) (finding : AssetFinding) (logs : Logs)
    → next ≤ run.job.id
    → IsKept tenant_id next (finding, logs)
    → IsKept tenant_id (run.job.id + 1) (live_verdict not_seen run (finding, logs))
      × (course_of (live_verdict not_seen run (finding, logs)).0
          ≡ next_course not_seen run (course_of finding))
live_not_seen tenant_id next run finding logs h a =
    let fresh = not_evaluated finding.id run.job.id next logs.evaluations h a.evaluated in
    let (c, added) = finalize_clean-IsCleanRun run finding logs fresh a.state in
    (
      record {
        state = c.state;
        own = c.tenant_kept ∙ a.own;
        evaluated =
            rw added (
              below_next next (evaluation_of finding run.job clean) logs.evaluations h a.evaluated);
      },
      course_eq c.counted c.stamped c.reopened,
    )

pub live_verdict-IsKept :
    (tenant_id next : ℕ) (verdict : Verdict) (run : Run) (finding : AssetFinding) (logs : Logs)
    → next ≤ run.job.id
    → run.job.tenant_id ≡ tenant_id
    → IsKept tenant_id next (finding, logs)
    → let held = live_verdict verdict run (finding, logs) in
      IsKept tenant_id (run.job.id + 1) held
      × (course_of held.0 ≡ next_course verdict run (course_of finding))
live_verdict-IsKept tenant_id next seen run finding logs h same a =
    live_seen tenant_id next run finding logs h same a
live_verdict-IsKept tenant_id next not_seen run finding logs h same a =
    live_not_seen tenant_id next run finding logs h a
live_verdict-IsKept tenant_id next not_applicable run finding logs h same a = (
  record {
    state = a.state;
    own = a.own;
    evaluated = below_same next (run.job.id + 1) logs.evaluations (omega arith) a.evaluated;
  },
  refl,
)
