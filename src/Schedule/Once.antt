-- ===== src/Schedule/Once.antt =====
-- A moment that is due gets one run, and a downtime one run in all.
use nuclei_dashboard.Base.{
  Bool, Bool-cases, List, Option-cases, [], any, arith, count_if, count_if-append, count_if_of_any,
  false, inl, inr, length, length-append, some, subst, sym, true, ℕ, ◌++◌, ◌+◌, ◌∷◌, ◌≡◌, ◌≤◌,
}
use nuclei_dashboard.Base.Moments.{Moment}
use nuclei_dashboard.Schedule.{Calendar, Schedule, Zone, at, never, unable}
use nuclei_dashboard.Schedule.Catchup.{Caught, caught, next_future_after_catchup, out_of_fuel}
use nuclei_dashboard.Schedule.Runs.{
  Scan, ScheduledRun, has_active_job, is_due_scan, is_manual, is_run_for, new_run, queue_due,
  queue_scheduled_run, queue_validated, queued_as, with_next,
}
use nuclei_dashboard.Schedule.Downtime.{
  IsFuture, IsPositive, IsZone, next_future_after_catchup-ends,
}

-- No moment has two runs of a scan.
abbrev pub IsOnce : List ScheduledRun → Type 0
IsOnce runs = (id : ℕ) (due : Moment) → count_if (is_run_for id due) runs ≤ 1

with_next-scan :
    (now : Moment) (ahead : Caught) (scan after : Scan) (runs left : List ScheduledRun)
    (made flag : Bool)
    → IsFuture now ahead
    → with_next ahead scan runs made ≡ queued_as after left flag
    → (is_due_scan now after ≡ false) × (left ≡ runs)
unfolding is_due_scan
with_next-scan now out_of_fuel scan after runs left made flag future e = ground arith
with_next-scan now (caught unable) scan after runs left made flag future e = ground arith
with_next-scan now (caught never) scan after runs left made flag future e =
    (ground arith, ground arith)
with_next-scan now (caught (at moment)) scan after runs left made flag future e =
    (ground arith, ground arith)

new_run-AtMostOnce :
    (id : ℕ) (due : Moment) (runs : List ScheduledRun)
    → any (is_run_for id due) runs ≡ false
    → IsOnce runs
    → IsOnce (runs ++ new_run id due ∷ [])
new_run-AtMostOnce id due runs fresh h i d =
    let a = count_if-append (is_run_for i d) runs (new_run id due ∷ []) in
    let b = h i d in
    let z = count_if_of_any (is_run_for id due) runs fresh in
    elim (Bool-cases (is_run_for i d (new_run id due))) [
      | inl same ↦
          (let e : id ≡ i = ground arith in
            let f : due ≡ d = ground arith in
            let z' : count_if (is_run_for i d) runs ≡ 0 =
              subst (λ k. count_if (is_run_for k d) runs ≡ 0) e
                (subst (λ k. count_if (is_run_for id k) runs ≡ 0) f z) in
            ground arith)
      | inr other ↦ ground arith
    ]

module _ (calendar : Calendar) (zone : Zone) (z : IsZone zone) (can_create : Bool)
    (now : Moment) where
  queue_due-IsOnce :
      (schedule : Schedule) (due : Moment) (scan after : Scan) (runs left : List ScheduledRun)
      (flag : Bool)
      → IsPositive schedule
      → IsOnce runs
      → queue_due calendar zone can_create now schedule due scan runs ≡ queued_as after left flag
      → (is_due_scan now after ≡ false) × IsOnce left × (length left ≤ length runs + 1)
  unfolding queue_due
  queue_due-IsOnce schedule due scan after runs left flag positive once e =
      let ahead = next_future_after_catchup calendar zone schedule now due in
      let future = next_future_after_catchup-ends calendar zone schedule now due z positive in
      elim (Bool-cases (any (is_run_for scan.id due) runs)) [
        | inl there ↦
            (let w =
                with_next-scan now ahead scan after runs left false flag future (ground arith) in
              let same = w.1 in (w.0, subst IsOnce (sym same) once, ground arith))
        | inr fresh ↦
            (let stamped = record scan { last_scheduled_at = some now } in
              let more = runs ++ new_run scan.id due ∷ [] in
              let w =
                with_next-scan now ahead stamped after more left true flag future (ground arith) in
              let same = w.1 in
              let l = length-append runs (new_run scan.id due ∷ []) in
              (
                w.0,
                subst IsOnce (sym same) (new_run-AtMostOnce scan.id due runs fresh once),
                ground arith,
              ))
      ]

  -- A run of the schedule at a scan: none is due any more, unless an active run is waited for, and at
  -- most one run is added, so a downtime makes one catch-up run, and no moment has two runs. The
  -- schedule is one that the validation accepts, and no moment had two runs before.
  pub queue_scheduled_run-IsOnce :
      (schedule : Schedule) (scan after : Scan) (runs left : List ScheduledRun) (flag : Bool)
      → IsPositive schedule
      → IsOnce runs
      → queue_scheduled_run calendar zone can_create now (some schedule) scan runs
        ≡ queued_as after left flag
      → has_active_job scan.id runs ≡ false
      → (is_due_scan now after ≡ false) × IsOnce left × (length left ≤ length runs + 1)
  unfolding queue_scheduled_run queue_validated is_due_scan
  queue_scheduled_run-IsOnce schedule scan after runs left flag positive once e idle =
      elim (Bool-cases (is_manual schedule)) [
        | inl by_hand ↦
            (let same : runs ≡ left = ground arith in
              (ground arith, subst IsOnce same once, ground arith))
        | inr timed ↦ (elim (Option-cases scan.next_run_at) [
          | inl nothing_due ↦
              (let same : runs ≡ left = ground arith in
                (ground arith, subst IsOnce same once, ground arith))
          | inr due ↦
              (let d = due.1 in
                let q =
                  queue_due-IsOnce schedule due.0 scan after runs left flag positive once
                    (ground arith) in
                (q.0, q.1, q.2))
        ])
      ]
