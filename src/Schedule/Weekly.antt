-- ===== src/Schedule/Weekly.antt =====
-- A weekly schedule always has its occurrence within a week.
use nuclei_dashboard.Base.{
  Bool-cases, Option, ap, arith, inl, inr, ltb, refl, some, subst, suc, ℕ, ◌+◌, ◌<◌, ◌∙◌, ◌≡◌, ◌≤◌,
}
use nuclei_dashboard.Base.Moments.{days}
use nuclei_dashboard.Schedule.{day_of_local, local_at, weekday}
use nuclei_dashboard.Schedule.Occurrence.{
  days_ahead, next_probe, next_weekly, weekly_loop, weekly_probe,
}

days_ahead-weekday :
    (target day : ℕ)
    → target < 7
    → (weekday (day + days_ahead target day) ≡ target) × (days_ahead target day < 7)
unfolding days_ahead weekday
days_ahead-weekday target day h = (omega (arith, h), omega arith)

-- A week after the weekday itself.
next_probe-week :
    (target day : ℕ) → target < 7 → days_ahead target day ≡ 0 → next_probe target day ≡ day + 7
unfolding next_probe days_ahead weekday
next_probe-week target day h z = omega (arith, h, z)

weekly_probe-hit :
    (after target hour minute day : ℕ) (rest : Option ℕ)
    → after < local_at day hour minute
    → weekday day ≡ target
    → weekly_probe after target hour minute day rest ≡ some (local_at day hour minute)
unfolding weekly_probe
weekly_probe-hit after target hour minute day rest late on = ground arith

weekly_probe-miss :
    (after target hour minute day : ℕ) (rest : Option ℕ)
    → local_at day hour minute ≤ after
    → weekly_probe after target hour minute day rest ≡ rest
unfolding weekly_probe
weekly_probe-miss after target hour minute day rest early = ground arith

a_week_on : (day target : ℕ) → weekday day ≡ target → weekday (day + 7) ≡ target
unfolding weekday
a_week_on day target h = omega (arith, h)

weekly_loop-step :
    (rounds after target hour minute day : ℕ)
    → weekly_loop (suc rounds) after target hour minute day
      ≡ weekly_probe after target hour minute day
          (weekly_loop rounds after target hour minute (next_probe target day))
unfolding weekly_loop
weekly_loop-step rounds after target hour minute day = refl

-- The occurrence of a weekly schedule always exists: it is on its weekday, at its clock, later than
-- the moment and at most seven days after it, in local time.
pub next_weekly-returns :
    (after target hour minute : ℕ)
    → target < 7
    → hour < 24
    → minute < 60
    → (day : ℕ) × (next_weekly after target hour minute ≡ some (local_at day hour minute))
      × (weekday day ≡ target)
      × (after < local_at day hour minute)
      × (local_at day hour minute ≤ after + days 7)
unfolding next_weekly
next_weekly-returns after target hour minute t h m =
    let today = day_of_local after in
    let ahead = days_ahead target today in
    let first = days_ahead-weekday target today t in
    let on = first.0 in
    let near = first.1 in
    elim (Bool-cases (ltb after (local_at (today + ahead) hour minute))) [
      | inl late ↦
          (let l : after < local_at (today + ahead) hour minute = ground arith in
            (
              today + ahead,
              weekly_probe-hit after target hour minute (today + ahead)
                  (weekly_loop 13 after target hour minute (next_probe target today)) l on,
              on,
              l,
              omega (arith, near, h, m),
            ))
      | inr early ↦
          (let e : local_at (today + ahead) hour minute ≤ after = ground arith in
            let z : ahead ≡ 0 = omega (arith, e) in
            let on' : weekday today ≡ target =
              subst (λ d. weekday d ≡ target) (omega (arith, z)) on in
            let p = next_probe-week target today t z in
            let q : weekday (today + 7) ≡ target = a_week_on today target on' in
            let late : after < local_at (today + 7) hour minute = omega arith in
            let behind = weekly_loop 12 after target hour minute (next_probe target (today + 7)) in
            let hit = weekly_probe-hit after target hour minute (today + 7) behind late q in
            (
              today + 7,
              weekly_probe-miss after target hour minute (today + ahead)
                    (weekly_loop 13 after target hour minute (next_probe target today)) e
                  ∙ ap (weekly_loop 13 after target hour minute) p
                  ∙ weekly_loop-step 12 after target hour minute (today + 7)
                  ∙ hit,
              q,
              late,
              omega (arith, e, z, h, m),
            ))
    ]
