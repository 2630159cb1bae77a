-- ===== src/Job/Expiry/Stuck.antt =====
-- A stuck run does not stay running.
use nuclei_dashboard.Base.{
  Bool-cases, List, Option, Option-cases, String, arith, if◌then◌else◌, inl, inr, leb, none, some,
  true, ℕ, ◌+◌, ◌≡◌, ◌≤◌, ◌⊎◌,
}
use nuclei_dashboard.Base.Moments.{Moment}
use nuclei_dashboard.Job.{DomainEvent, ScanJob, cancelled, running}
use nuclei_dashboard.Job.Control.{cancel_grace, is_due}
use nuclei_dashboard.Job.Transitions.{Held}
use nuclei_dashboard.Job.Expiry.{expire_stuck_job, is_stuck}

-- The pass of the scheduler over one run.
abbrev pub stuck_pass : Option ℕ → ℕ → String → Moment → Held → Held
stuck_pass timeout grace timed_out now (job, events) =
    if is_stuck timeout now job
    then expire_stuck_job grace timed_out now (job, events)
    else (job, events)

-- A first pass over a run past its deadline, whose cancellation was not requested later than now:
-- the run is cancelled, or runs on with the request made.
first_pass :
    (timeout : Option ℕ) (grace now deadline : ℕ) (timed_out : String) (job : ScanJob)
    (events : List DomainEvent)
    → job.status ≡ running
    → job.deadline_at ≡ some deadline
    → deadline ≤ now
    → (job.cancel_requested_at ≡ none) ⊎ (is_due job.cancel_requested_at now ≡ true)
    → let job' = (stuck_pass timeout grace timed_out now (job, events)).0 in
      (job'.status ≡ cancelled)
      ⊎ ((requested : ℕ) × (job'.status ≡ running)
          × (job'.deadline_at ≡ some deadline)
          × (job'.cancel_requested_at ≡ some requested)
          × (requested ≤ now))
unfolding is_stuck expire_stuck_job
first_pass timeout grace now deadline timed_out job events r d late (inl c) =
    inr (now, ground arith, ground arith, ground arith, omega arith)
first_pass timeout grace now deadline timed_out job events r d late (inr c) =
    elim (Option-cases job.cancel_requested_at) [
      | inl e ↦ ground arith
      | inr (requested, e) ↦ elim (Bool-cases (leb (requested + cancel_grace grace) now)) [
        | inl over ↦ inl (ground arith)
        | inr early ↦ inr (requested, ground arith, ground arith, ground arith, ground arith)
      ]
    ]

second_pass :
    (timeout : Option ℕ) (grace now deadline requested : ℕ) (timed_out : String) (job : ScanJob)
    (events : List DomainEvent)
    → job.status ≡ running
    → job.deadline_at ≡ some deadline
    → deadline ≤ now
    → job.cancel_requested_at ≡ some requested
    → requested + cancel_grace grace ≤ now
    → (stuck_pass timeout grace timed_out now (job, events)).0.status ≡ cancelled
unfolding is_stuck expire_stuck_job
second_pass timeout grace now deadline requested timed_out job events r d late c wait = ground arith

cancelled_stays :
    (timeout : Option ℕ) (grace now : ℕ) (timed_out : String) (held : Held)
    → held.0.status ≡ cancelled
    → (stuck_pass timeout grace timed_out now held).0.status ≡ cancelled
unfolding is_stuck
cancelled_stays timeout grace now timed_out held c = ground arith

-- A run past its deadline is cancelled by two passes of the scheduler that lie at least the grace
-- apart, whether its cancellation was requested before the first pass or not.
pub stuck_run_is_cancelled :
    (timeout : Option ℕ) (grace first second deadline : ℕ) (timed_out : String) (job : ScanJob)
    (events : List DomainEvent)
    → job.status ≡ running
    → job.deadline_at ≡ some deadline
    → deadline ≤ first
    → (job.cancel_requested_at ≡ none) ⊎ (is_due job.cancel_requested_at first ≡ true)
    → first + cancel_grace grace ≤ second
    → (stuck_pass timeout grace timed_out second
        (stuck_pass timeout grace timed_out first (job, events))).0.status
      ≡ cancelled
stuck_run_is_cancelled timeout grace first second deadline timed_out job events r d late c wait =
    let (job', events') = stuck_pass timeout grace timed_out first (job, events) in
    elim (first_pass timeout grace first deadline timed_out job events r d late c) [
      | inl ended ↦ cancelled_stays timeout grace second timed_out (job', events') ended
      | inr (requested, r', d', c', early) ↦
          second_pass timeout grace second deadline requested timed_out job' events' r' d'
            (omega arith) c' (omega arith)
    ]
