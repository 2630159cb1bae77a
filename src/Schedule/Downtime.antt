-- ===== src/Schedule/Downtime.antt =====
-- The catch-up ends, behind the present.
use nuclei_dashboard.Schedule.Config.{parse_cron}
use nuclei_dashboard.Schedule.Later.{
  next_clock-later, next_cron-first, next_monthly-later, next_weekly-later,
}
use nuclei_dashboard.Schedule.Occurrence.{
  cron_occurrence, minute_start, next_clock, next_cron, next_monthly, next_occurrence, next_weekly,
  occurs,
}
use nuclei_dashboard.Base.{
  Bool-cases, Option, arith, false, inl, inr, leb, none, refl, some, subst, suc, sym, true, zero, ℕ,
  ◌+◌, ◌<◌, ◌≡◌, ◌≢◌, ◌≤◌, ◌⊎◌,
}
use nuclei_dashboard.Base.Moments.{Moment, days, minutes}
use nuclei_dashboard.Schedule.{
  Calendar, CronFields, Next, Schedule, Zone, at, cron, daily, legacy_interval, manual, monthly,
  never, unable, weekly,
}
use nuclei_dashboard.Schedule.Catchup.{
  Caught, catchup_loop, caught, enough_fuel, next_future_after_catchup, out_of_fuel,
}

-- What is documented of a zone: its offset is less than a day, and the moment of a local time is at that
-- local time again, or later where a change of the clock leaves the time out.
pub record IsZone (zone : Zone) : Type 0 where
  pub offset : (local : ℕ) → local ≤ zone.to_utc local + days 1
  pub again : (local : ℕ) → local ≤ zone.to_local (zone.to_utc local)

-- A mark that grows with every occurrence, and that is at most a day ahead of the moment.
abbrev Advances : (Moment → Next) → (ℕ → Moment → Type 0) → Type 0
Advances next Marked =
    ((mark : ℕ) (moment then_at : Moment)
      → Marked mark moment
      → next moment ≡ at then_at
      → (more : ℕ) × (mark < more) × Marked more then_at)
    × ((mark : ℕ) (moment : Moment) → Marked mark moment → mark ≤ moment + days 1)

-- The end of a catch-up: nothing is next, the occurrence cannot be computed, or it lies in the future.
abbrev pub IsFuture : Moment → Caught → Type 0
IsFuture now out_of_fuel = ⊥
IsFuture now (caught never) = Unit
IsFuture now (caught unable) = Unit
IsFuture now (caught (at moment)) = now < moment

Next-cases : (n : Next) → (n ≡ never) ⊎ ((n ≡ unable) ⊎ ((t : Moment) × (n ≡ at t)))
Next-cases never = inl refl
Next-cases unable = inr (inl refl)
Next-cases (at t) = inr (inr (t, refl))

catchup_past :
    (fuel : ℕ) (next : Moment → Next) (now moment : Moment)
    → leb moment now ≡ true
    → catchup_loop (suc fuel) next now (at moment) ≡ catchup_loop fuel next now (next moment)
unfolding catchup_loop
catchup_past fuel next now moment past = ground arith

catchup_over :
    (fuel : ℕ) (next : Moment → Next) (now moment : Moment)
    → leb moment now ≡ false
    → catchup_loop (suc fuel) next now (at moment) ≡ caught (at moment)
unfolding catchup_loop
catchup_over fuel next now moment later = ground arith

catchup_loop-ends :
    (next : Moment → Next) (Marked : ℕ → Moment → Type 0)
    → Advances next Marked
    → (fuel : ℕ) (now moment : Moment) (mark : ℕ) → Marked mark moment
    → now + days 1 < mark + fuel
    → IsFuture now (catchup_loop fuel next now (at moment))
unfolding catchup_loop
catchup_loop-ends next Marked grows zero now moment mark here enough =
    let b = grows.1 mark moment here in
    let future : now < moment = omega (arith, b, enough) in
    let l : leb moment now ≡ false = ground arith in rw l future
catchup_loop-ends next Marked grows (suc fuel) now moment mark here enough =
    elim (Bool-cases (leb moment now)) [
      | inl past ↦
          subst (IsFuture now) (sym (catchup_past fuel next now moment past))
            (elim (Next-cases (next moment)) [
              | inl ended ↦ subst (λ n. IsFuture now (catchup_loop fuel next now n)) (sym ended) tt
              | inr (inl failed) ↦
                  subst (λ n. IsFuture now (catchup_loop fuel next now n)) (sym failed) tt
              | inr (inr later) ↦
                  (let more = grows.0 mark moment later.0 here later.1 in
                    let m = more.1 in
                    subst (λ n. IsFuture now (catchup_loop fuel next now n)) (sym later.1)
                      (catchup_loop-ends next Marked grows fuel now later.0 more.0 more.2
                        (omega (arith, m, enough))))
            ])
      | inr later ↦
          subst (IsFuture now) (sym (catchup_over fuel next now moment later)) (ground arith)
    ]

-- The mark of a moment: the local time that it was computed from, no later than its own local time and
-- at most a day ahead of it.
abbrev IsLocal : Zone → ℕ → Moment → Type 0
IsLocal zone mark moment = (mark ≤ zone.to_local moment) × (mark ≤ moment + days 1)

occurs-later :
    (zone : Zone) (o : Option ℕ) (after : ℕ) (then_at : Moment)
    → IsZone zone
    → ((local : ℕ) → o ≡ some local → after < local)
    → occurs zone o ≡ at then_at
    → (more : ℕ) × (after < more) × IsLocal zone more then_at
occurs-later zone none after then_at z later h = ground arith
occurs-later zone (some local) after then_at z later h =
    let e : zone.to_utc local ≡ then_at = ground arith in
    (local, later local refl, subst (IsLocal zone local) e (z.again local, z.offset local))

minute_start-later :
    (o : Option ℕ) (after local : ℕ)
    → ((found : ℕ) → o ≡ some found → after < minutes found)
    → minute_start o ≡ some local
    → after < local
minute_start-later none after local later h = ground arith
minute_start-later (some found) after local later h =
    let l = later found refl in
    let e : minutes found ≡ local = ground arith in subst (λ x. after < x) e l

cron_occurrence-later :
    (calendar : Calendar) (zone : Zone) (o : Option CronFields) (local : ℕ) (then_at : Moment)
    → IsZone zone
    → cron_occurrence calendar zone o local ≡ at then_at
    → (more : ℕ) × (local < more) × IsLocal zone more then_at
unfolding cron_occurrence
cron_occurrence-later calendar zone none local then_at z h = ground arith
cron_occurrence-later calendar zone (some fields) local then_at z h =
    occurs-later zone (minute_start (next_cron calendar local fields)) local then_at z
      (λ l e.
        minute_start-later (next_cron calendar local fields) local l
          (λ found f. (next_cron-first calendar local fields found f).0) e)
      h

-- Every schedule of the clock advances in local time.
next_occurrence-later :
    (calendar : Calendar) (zone : Zone) (schedule : Schedule)
    → IsZone zone
    → ((n : ℕ) → schedule ≢ legacy_interval n)
    → (moment then_at : Moment) → next_occurrence calendar zone schedule moment ≡ at then_at
    → (more : ℕ) × (zone.to_local moment < more) × IsLocal zone more then_at
unfolding next_occurrence
next_occurrence-later calendar zone manual z clock moment then_at h = ground arith
next_occurrence-later calendar zone (legacy_interval n) z clock moment then_at h =
    elim (clock n refl) [ ]
next_occurrence-later calendar zone (daily hour minute) z clock moment then_at h =
    let local = zone.to_local moment in
    occurs-later zone (some (next_clock local hour minute)) local then_at z
      (λ l e. subst (λ x. local < x) (ground arith) (next_clock-later local hour minute)) h
next_occurrence-later calendar zone (weekly target hour minute) z clock moment then_at h =
    let local = zone.to_local moment in
    occurs-later zone (next_weekly local target hour minute) local then_at z
      (λ l e. next_weekly-later local target hour minute l e) h
next_occurrence-later calendar zone (monthly day hour minute) z clock moment then_at h =
    let local = zone.to_local moment in
    occurs-later zone (next_monthly calendar local day hour minute) local then_at z
      (λ l e. next_monthly-later calendar local day hour minute l e) h
next_occurrence-later calendar zone (cron expression) z clock moment then_at h =
    cron_occurrence-later calendar zone (parse_cron expression) (zone.to_local moment) then_at z h

-- The marks of a schedule: the moment itself for an interval, the local time for any other.
clock_advances :
    (calendar : Calendar) (zone : Zone) (schedule : Schedule)
    → IsZone zone
    → ((n : ℕ) → schedule ≢ legacy_interval n)
    → Advances (next_occurrence calendar zone schedule) (IsLocal zone)
clock_advances calendar zone schedule z clock = (
  λ mark moment then_at here e.
      (let later = next_occurrence-later calendar zone schedule z clock moment then_at e in
        let a = later.1 in let b = here.0 in (later.0, omega (arith, a, b), later.2)),
  λ mark moment here. here.1,
)

interval_advances :
    (calendar : Calendar) (zone : Zone) (n : ℕ)
    → 0 < n
    → Advances (next_occurrence calendar zone (legacy_interval n)) (λ mark moment. mark ≡ moment)
unfolding next_occurrence
interval_advances calendar zone n positive = (
  λ mark moment then_at here e. (moment + minutes n, omega (arith, here, positive), ground arith),
  λ mark moment here. omega (arith, here),
)

-- A schedule that `normalize_schedule_config` accepts: an interval is not 0.
abbrev pub IsPositive : Schedule → Type 0
IsPositive (legacy_interval n) = 0 < n
IsPositive _ = Unit

catchup-ends :
    (next : Moment → Next) (Marked : ℕ → Moment → Type 0) (now due : Moment) (mark : ℕ)
    → Advances next Marked
    → Marked mark due
    → IsFuture now (catchup_loop (enough_fuel now) next now (next due))
unfolding catchup_loop
catchup-ends next Marked now due mark grows here = elim (Next-cases (next due)) [
  | inl ended ↦ subst (λ n. IsFuture now (catchup_loop (enough_fuel now) next now n)) (sym ended) tt
  | inr (inl failed) ↦
      subst (λ n. IsFuture now (catchup_loop (enough_fuel now) next now n)) (sym failed) tt
  | inr (inr later) ↦
      (let more = grows.0 mark due later.0 here later.1 in
        let m = more.1 in
        subst (λ n. IsFuture now (catchup_loop (enough_fuel now) next now n)) (sym later.1)
          (catchup_loop-ends next Marked grows (enough_fuel now) now later.0 more.0 more.2
            (omega (arith, m))))
]

-- The catch-up of any schedule ends, whatever the length of the downtime: with nothing, with an
-- occurrence that cannot be computed, or with an occurrence in the future.
pub next_future_after_catchup-ends :
    (calendar : Calendar) (zone : Zone) (schedule : Schedule) (now due : Moment)
    → IsZone zone
    → IsPositive schedule
    → IsFuture now (next_future_after_catchup calendar zone schedule now due)
unfolding next_future_after_catchup
next_future_after_catchup-ends calendar zone (legacy_interval n) now due z positive =
    catchup-ends (next_occurrence calendar zone (legacy_interval n)) (λ mark moment. mark ≡ moment)
      now due due (interval_advances calendar zone n positive) refl
next_future_after_catchup-ends calendar zone manual now due z positive =
    catchup-ends (next_occurrence calendar zone manual) (IsLocal zone) now due 0
      (clock_advances calendar zone manual z (λ n e. ground arith)) (omega arith, omega arith)
next_future_after_catchup-ends calendar zone (daily hour minute) now due z positive =
    catchup-ends (next_occurrence calendar zone (daily hour minute)) (IsLocal zone) now due 0
      (clock_advances calendar zone (daily hour minute) z (λ n e. ground arith))
      (omega arith, omega arith)
next_future_after_catchup-ends calendar zone (weekly target hour minute) now due z positive =
    catchup-ends (next_occurrence calendar zone (weekly target hour minute)) (IsLocal zone) now due
      0 (clock_advances calendar zone (weekly target hour minute) z (λ n e. ground arith))
      (omega arith, omega arith)
next_future_after_catchup-ends calendar zone (monthly day hour minute) now due z positive =
    catchup-ends (next_occurrence calendar zone (monthly day hour minute)) (IsLocal zone) now due 0
      (clock_advances calendar zone (monthly day hour minute) z (λ n e. ground arith))
      (omega arith, omega arith)
next_future_after_catchup-ends calendar zone (cron expression) now due z positive =
    catchup-ends (next_occurrence calendar zone (cron expression)) (IsLocal zone) now due 0
      (clock_advances calendar zone (cron expression) z (λ n e. ground arith))
      (omega arith, omega arith)
