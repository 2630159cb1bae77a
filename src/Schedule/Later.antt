-- ===== src/Schedule/Later.antt =====
-- Every occurrence is later than the moment that it is computed for, in local time.
use nuclei_dashboard.Base.{
  Bool-cases, Option, Option-cases, arith, false, inl, inr, some, subst, suc, true, zero, ℕ, ◌+◌,
  ◌/◌, ◌<◌, ◌==◌, ◌≡◌, ◌≤◌,
}
use nuclei_dashboard.Base.Text.{Text}
use nuclei_dashboard.Base.Moments.{Moment, minutes}
use nuclei_dashboard.Schedule.{Calendar, CronFields, Zone, at, cron, day_of_local}
use nuclei_dashboard.Schedule.Config.{parse_cron}
use nuclei_dashboard.Schedule.Occurrence.{
  cron_loop, cron_matches, cron_occurrence, days_ahead, monthly_loop, next_clock, next_cron,
  next_monthly, next_occurrence, next_probe, next_weekly, weekly_loop, weekly_probe,
}

pub next_clock-later : (after hour minute : ℕ) → after < next_clock after hour minute
unfolding next_clock
next_clock-later after hour minute = ground arith

weekly_probe-later :
    (after target hour minute day local : ℕ) (rest : Option ℕ)
    → (rest ≡ some local → after < local)
    → weekly_probe after target hour minute day rest ≡ some local
    → after < local
unfolding weekly_probe
weekly_probe-later after target hour minute day local rest behind h = ground (arith, behind)

weekly_loop-later :
    (rounds after target hour minute day local : ℕ)
    → weekly_loop rounds after target hour minute day ≡ some local
    → after < local
unfolding weekly_loop
weekly_loop-later zero after target hour minute day local h = ground arith
weekly_loop-later (suc rounds) after target hour minute day local h =
    weekly_probe-later after target hour minute day local
      (weekly_loop rounds after target hour minute (next_probe target day))
      (weekly_loop-later rounds after target hour minute (next_probe target day) local) h

pub next_weekly-later :
    (after target hour minute local : ℕ)
    → next_weekly after target hour minute ≡ some local
    → after < local
unfolding next_weekly
next_weekly-later after target hour minute local h =
    let today = day_of_local after in
    weekly_probe-later after target hour minute (today + days_ahead target today) local
      (weekly_loop 13 after target hour minute (next_probe target today))
      (weekly_loop-later 13 after target hour minute (next_probe target today) local) h

module _ (calendar : Calendar) where
  monthly_loop-later :
      (rounds after day hour minute year month local : ℕ)
      → monthly_loop calendar rounds after day hour minute year month ≡ some local
      → after < local
  unfolding monthly_loop
  monthly_loop-later zero after day hour minute year month local h = ground arith
  monthly_loop-later (suc rounds) after day hour minute year month local h =
      let a = monthly_loop-later rounds after day hour minute (year + 1) 1 local in
      let b = monthly_loop-later rounds after day hour minute year (month + 1) local in
      ground (arith, a, b)

  pub next_monthly-later :
      (after day hour minute local : ℕ)
      → next_monthly calendar after day hour minute ≡ some local
      → after < local
  unfolding next_monthly
  next_monthly-later after day hour minute local h =
      monthly_loop-later 36 after day hour minute (calendar.year_of (day_of_local after))
        (calendar.month_of (day_of_local after)) local h

  -- The first minute that matches, from one on.
  cron_loop-first :
      (rounds : ℕ) (fields : CronFields) (m found : ℕ)
      → cron_loop calendar rounds fields m ≡ some found
      → (m ≤ found)
        × (cron_matches calendar fields found ≡ true)
        × ((k : ℕ) → m ≤ k → k < found → cron_matches calendar fields k ≡ false)
  unfolding cron_loop
  cron_loop-first zero fields m found h = ground arith
  cron_loop-first (suc rounds) fields m found h =
      elim (Bool-cases (cron_matches calendar fields m)) [
        | inl here ↦
            (let e : m ≡ found = ground arith in
              (
                omega (arith, e),
                subst (λ k. cron_matches calendar fields k ≡ true) e here,
                λ k lo hi. ground arith,
              ))
        | inr later ↦
            (let ih = cron_loop-first rounds fields (m + 1) found (ground arith) in
              let a = ih.0 in
              (
                omega (arith, a),
                ih.1,
                λ k lo hi. (elim (Bool-cases (k == m)) [
                  | inl same ↦
                      (let e : m ≡ k = ground arith in
                        subst (λ i. cron_matches calendar fields i ≡ false) e later)
                  | inr other ↦ ih.2 k (ground arith) hi
                ]),
              ))
      ]

  -- The local minute that a cron schedule names is the first one after a local time at which its fields
  -- match.
  pub next_cron-first :
      (after : ℕ) (fields : CronFields) (found : ℕ)
      → next_cron calendar after fields ≡ some found
      → (after < minutes found)
        × (cron_matches calendar fields found ≡ true)
        × ((k : ℕ) → after < minutes k → k < found → cron_matches calendar fields k ≡ false)
  unfolding next_cron
  next_cron-first after fields found h =
      let first = cron_loop-first 527040 fields (after / minutes 1 + 1) found h in
      let a = first.0 in (ground arith, first.1, λ k lo hi. first.2 k (ground arith) hi)

  -- The occurrence of a cron schedule, where there is one, is what the zone makes of a local minute, and
  -- in local time, as the zone's clock shows it, that minute is the first one after the moment at which
  -- the fields match. Nothing is said of the order of the two moments in UTC.
  pub next_occurrence-first :
      (zone : Zone) (expression : Text) (after occurrence : Moment)
      → next_occurrence calendar zone (cron expression) after ≡ at occurrence
      → (fields : CronFields) × (found : ℕ) × (parse_cron expression ≡ some fields)
        × (occurrence ≡ zone.to_utc (minutes found))
        × (zone.to_local after < minutes found)
        × (cron_matches calendar fields found ≡ true)
        × ((k : ℕ)
            → zone.to_local after < minutes k
            → k < found
            → cron_matches calendar fields k ≡ false)
  unfolding next_occurrence cron_occurrence
  next_occurrence-first zone expression after occurrence h =
      elim (Option-cases (parse_cron expression)) [
        | inl refused ↦ ground arith
        | inr parsed ↦
            (let f = parsed.1 in
              elim (Option-cases (next_cron calendar (zone.to_local after) parsed.0)) [
                | inl nothing ↦ ground arith
                | inr minute ↦
                    (let m = minute.1 in
                      let e : at (zone.to_utc (minutes minute.0)) ≡ at occurrence = ground arith in
                      let same : occurrence ≡ zone.to_utc (minutes minute.0) = ground arith in
                      let first = next_cron-first (zone.to_local after) parsed.0 minute.0 m in
                      (parsed.0, minute.0, f, same, first.0, first.1, first.2))
              ])
      ]
