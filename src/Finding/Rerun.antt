-- ===== src/Finding/Rerun.antt =====
-- Finalising a run again changes nothing.
use nuclei_dashboard.Base.{
  All, List, [], any, any-append, arith, contains, false, inl, inr, refl, true, ℕ, ◌++◌, ◌||◌, ◌∙◌,
  ◌∷◌, ◌≡◌, ◌⊎◌,
}
use nuclei_dashboard.Base.Moments.{Moment}
use nuclei_dashboard.Job.{ScanJob}
use nuclei_dashboard.Finding.{
  AssetFinding, Evaluation, Logs, RunView, append_history, clean, detected, emit_lifecycle_event,
  finalize_all, finalize_finding, is_candidate, is_evaluated, is_evaluation_of,
}

-- What a finalisation leaves alone: a finding that is no candidate, one that the run has evaluated,
-- and one that the run could not have detected.
abbrev IsSettled : RunView → ScanJob → Logs → AssetFinding → Type 0
IsSettled view job logs finding =
    (is_candidate view job finding ≡ false)
    ⊎ ((is_evaluated finding job logs ≡ true)
        ⊎ ((contains view.detected_ids finding.id ≡ false) × (view.is_applicable finding ≡ false)))

finalize_finding-settled :
    (view : RunView) (job : ScanJob) (at : Moment) (finding : AssetFinding) (logs : Logs)
    → IsSettled view job logs finding
    → finalize_finding view job at finding logs ≡ (finding, logs)
unfolding finalize_finding
finalize_finding-settled view job at finding logs (inl other) = rw other
finalize_finding-settled view job at finding logs (inr (inl evaluated)) = ground arith
finalize_finding-settled view job at finding logs (inr (inr away)) = ground arith

any-snoc :
    (finding_id job_id : ℕ) (rows : List Evaluation) (row : Evaluation)
    → any (is_evaluation_of finding_id job_id) (rows ++ row ∷ [])
      ≡ (any (is_evaluation_of finding_id job_id) rows || is_evaluation_of finding_id job_id row)
any-snoc finding_id job_id rows row =
    any-append (is_evaluation_of finding_id job_id) rows (row ∷ []) ∙ ground arith

-- An evaluation that is stored stays stored.
is_evaluated-finalize :
    (view : RunView) (job : ScanJob) (at : Moment) (finding other : AssetFinding) (logs : Logs)
    → is_evaluated other job logs ≡ true
    → is_evaluated other job (finalize_finding view job at finding logs).1 ≡ true
unfolding finalize_finding append_history emit_lifecycle_event
is_evaluated-finalize view job at finding other logs h =
    let clean_row : Evaluation = record {
      asset_finding_id = finding.id;
      scan_job_id = job.id;
      outcome = clean;
    } in
    let seen_row : Evaluation = record {
      asset_finding_id = finding.id;
      scan_job_id = job.id;
      outcome = detected;
    } in
    let c = any-snoc other.id job.id logs.evaluations clean_row in
    let d = any-snoc other.id job.id logs.evaluations seen_row in ground arith

is_evaluated-new :
    (view : RunView) (job : ScanJob) (at : Moment) (finding : AssetFinding) (logs : Logs)
    → is_candidate view job finding ≡ true
    → (contains view.detected_ids finding.id || view.is_applicable finding) ≡ true
    → is_evaluated finding job (finalize_finding view job at finding logs).1 ≡ true
unfolding finalize_finding append_history emit_lifecycle_event
is_evaluated-new view job at finding logs candidate applies =
    let clean_row : Evaluation = record {
      asset_finding_id = finding.id;
      scan_job_id = job.id;
      outcome = clean;
    } in
    let seen_row : Evaluation = record {
      asset_finding_id = finding.id;
      scan_job_id = job.id;
      outcome = detected;
    } in
    let c = any-snoc finding.id job.id logs.evaluations clean_row in
    let d = any-snoc finding.id job.id logs.evaluations seen_row in ground arith

-- One round leaves its own finding settled.
finalize_finding-IsSettled :
    (view : RunView) (job : ScanJob) (at : Moment) (finding : AssetFinding) (logs : Logs)
    → IsSettled view job
        (finalize_finding view job at finding logs).1
        (finalize_finding view job at finding logs).0
unfolding finalize_finding append_history emit_lifecycle_event
finalize_finding-IsSettled view job at finding logs =
    let evaluated = is_evaluated-new view job at finding logs in ground arith

-- What is settled stays settled as the loop goes on over other findings.
finalize_all-evaluated :
    (view : RunView) (job : ScanJob) (at : Moment) (findings : List AssetFinding)
    (other : AssetFinding) (logs : Logs)
    → is_evaluated other job logs ≡ true
    → is_evaluated other job (finalize_all view job at findings logs).1 ≡ true
unfolding finalize_all
finalize_all-evaluated view job at [] other logs h = h
finalize_all-evaluated view job at (finding ∷ findings) other logs h =
    finalize_all-evaluated view job at findings other (finalize_finding view job at finding logs).1
      (is_evaluated-finalize view job at finding other logs h)

finalize_all-keeps :
    (view : RunView) (job : ScanJob) (at : Moment) (findings : List AssetFinding)
    (other : AssetFinding) (logs : Logs)
    → IsSettled view job logs other
    → IsSettled view job (finalize_all view job at findings logs).1 other
finalize_all-keeps view job at findings other logs (inl other_run) = inl other_run
finalize_all-keeps view job at findings other logs (inr (inl evaluated)) =
    inr (inl (finalize_all-evaluated view job at findings other logs evaluated))
finalize_all-keeps view job at findings other logs (inr (inr away)) = inr (inr away)

finalize_all-IsSettled :
    (view : RunView) (job : ScanJob) (at : Moment) (findings : List AssetFinding) (logs : Logs)
    → All
        (IsSettled view job (finalize_all view job at findings logs).1)
        (finalize_all view job at findings logs).0
unfolding finalize_all
finalize_all-IsSettled view job at [] logs = tt
finalize_all-IsSettled view job at (finding ∷ findings) logs =
    let logs' = (finalize_finding view job at finding logs).1 in
    let finding' = (finalize_finding view job at finding logs).0 in
    (
      finalize_all-keeps view job at findings finding' logs'
          (finalize_finding-IsSettled view job at finding logs),
      finalize_all-IsSettled view job at findings logs',
    )

finalize_all-settled :
    (view : RunView) (job : ScanJob) (at : Moment) (findings : List AssetFinding) (logs : Logs)
    → All (IsSettled view job logs) findings
    → finalize_all view job at findings logs ≡ (findings, logs)
unfolding finalize_all
finalize_all-settled view job at [] logs h = refl
finalize_all-settled view job at (finding ∷ findings) logs (h, hs) =
    rw (finalize_finding-settled view job at finding logs h) rw
      (finalize_all-settled view job at findings logs hs)

-- Finalising a run again, at whatever later moment and with whatever the first pass left, changes no
-- finding and stores no row: a retried completion counts no clean run twice.
pub finalize_all_twice :
    (view : RunView) (job : ScanJob) (at later : Moment) (findings : List AssetFinding)
    (logs : Logs)
    → finalize_all view job later
        (finalize_all view job at findings logs).0
        (finalize_all view job at findings logs).1
      ≡ finalize_all view job at findings logs
finalize_all_twice view job at later findings logs =
    let once = finalize_all view job at findings logs in
    finalize_all-settled view job later once.0 once.1
      (finalize_all-IsSettled view job at findings logs)
