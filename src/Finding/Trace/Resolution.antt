-- ===== src/Finding/Trace/Resolution.antt =====
-- A finding is resolved exactly by the clean runs since its last detection.
use nuclei_dashboard.Base.{List, [], ap, is_some, refl, ℕ, ◌+◌, ◌∙◌, ◌∷◌, ◌≡◌}
use nuclei_dashboard.Finding.{AssetFinding, Logs, is_resolved}
use nuclei_dashboard.Finding.Trace.{
  IsAscending, IsKept, Run, course_of, course_of_runs, live, live_run,
}
use nuclei_dashboard.Finding.Trace.Steps.{live_verdict-IsKept}

live-course :
    (tenant_id next : ℕ) (runs : List Run) (finding : AssetFinding) (logs : Logs)
    → IsAscending tenant_id next runs
    → IsKept tenant_id next (finding, logs)
    → (course_of (live runs (finding, logs)).0 ≡ course_of_runs (course_of finding) runs)
      × (is_resolved (live runs (finding, logs)).0.technical_state
          ≡ is_some (live runs (finding, logs)).0.resolved_at)
unfolding live
live-course tenant_id next [] finding logs asc a = (refl, a.state)
live-course tenant_id next (run ∷ runs) finding logs asc a =
    let (finding', logs') = live_run run (finding, logs) in
    let (kept, step) =
      live_verdict-IsKept tenant_id next run.verdict run finding logs asc.0 asc.1 a in
    let (course, state) = live-course tenant_id (run.job.id + 1) runs finding' logs' asc.2 kept in
    (course ∙ ap (λ c. course_of_runs c runs) step, state)

-- Through runs of the finding's tenant with ascending ids, none of them evaluated before, in each of
-- which the finding is seen, not seen or out of reach, whatever number of clean runs each asks for: if
-- the finding had a stamp of its resolution exactly when it was resolved, its counter is the number of
-- clean runs since the last detection, it is resolved, and stamped with the very moment, exactly since
-- the first of these that brought as many as it asked for, and it was reopened once for each detection
-- of it while it was resolved.
pub live-clean_since :
    (tenant_id next : ℕ) (runs : List Run) (finding : AssetFinding) (logs : Logs)
    → IsAscending tenant_id next runs
    → IsKept tenant_id next (finding, logs)
    → let finding' = (live runs (finding, logs)).0 in
      let course = course_of_runs (course_of finding) runs in
      (finding'.consecutive_clean_scans ≡ course.clean_since)
      × (is_resolved finding'.technical_state ≡ is_some course.resolved_since)
      × (finding'.resolved_at ≡ course.resolved_since)
      × (finding'.reopened_count ≡ course.reopenings)
live-clean_since tenant_id next runs finding logs asc a =
    let (course, state) = live-course tenant_id next runs finding logs asc a in
    let stamp = ap (λ c. c.resolved_since) course in
    (ap (λ c. c.clean_since) course, state ∙ ap is_some stamp, stamp, ap (λ c. c.reopenings) course)
