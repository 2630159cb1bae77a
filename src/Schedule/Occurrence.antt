-- ===== src/Schedule/Occurrence.antt =====
-- The occurrence after a moment: `next_occurrence` and its helpers. A `datetime` of a valid day always
-- exists, so `_aware_local` gives a time for every day and clock.
use nuclei_dashboard.Base.{
  Bool, Option, contains, false, if◌then◌else◌, leb, ltb, min, none, some, suc, true, zero, ℕ, ◌%◌,
  ◌&&◌, ◌+◌, ◌-◌, ◌/◌, ◌==◌,
}
use nuclei_dashboard.Base.Moments.{Moment, minutes}
use nuclei_dashboard.Schedule.Config.{parse_cron}
use nuclei_dashboard.Schedule.{
  Calendar, CronFields, Next, Schedule, Zone, at, cron, daily, day_of_local, legacy_interval,
  local_at, manual, monthly, never, unable, weekday, weekly,
}

-- `_next_clock`
unfoldable pub next_clock : ℕ → ℕ → ℕ → ℕ
next_clock after hour minute =
    let candidate = local_at (day_of_local after) hour minute in
    if leb candidate after then local_at (day_of_local after + 1) hour minute else candidate

-- `(target - day.weekday()) % 7`
unfoldable pub days_ahead : ℕ → ℕ → ℕ
unfolding weekday
days_ahead target day = (target + 7 - weekday day) % 7

-- The next probe of `_next_weekly`: a day on, and from there to the weekday.
unfoldable pub next_probe : ℕ → ℕ → ℕ
unfolding days_ahead
next_probe target day = day + 1 + days_ahead target (day + 1)

-- One round of `_next_weekly`: the day's candidate, or what the rounds behind give.
unfoldable pub weekly_probe : ℕ → ℕ → ℕ → ℕ → ℕ → Option ℕ → Option ℕ
unfolding weekday
weekly_probe after target hour minute day rest =
    let candidate = local_at day hour minute in
    if ltb after candidate && weekday day == target then some candidate else rest

-- The loop of `_next_weekly`, from a probed day.
unfoldable pub weekly_loop : ℕ → ℕ → ℕ → ℕ → ℕ → ℕ → Option ℕ
unfolding next_probe weekly_probe
weekly_loop zero after target hour minute day = none
weekly_loop (suc rounds) after target hour minute day =
    weekly_probe after target hour minute day
      (weekly_loop rounds after target hour minute (next_probe target day))

-- `_next_weekly`; the first of its 14 rounds probes from the day of `after` itself.
unfoldable pub next_weekly : ℕ → ℕ → ℕ → ℕ → Option ℕ
unfolding weekly_loop weekly_probe days_ahead
next_weekly after target hour minute =
    let today = day_of_local after in
    weekly_probe after target hour minute (today + days_ahead target today)
      (weekly_loop 13 after target hour minute (next_probe target today))

module _ (calendar : Calendar) where
  -- The loop of `_next_monthly`.
  unfoldable pub monthly_loop : ℕ → ℕ → ℕ → ℕ → ℕ → ℕ → ℕ → Option ℕ
  monthly_loop zero after day hour minute year month = none
  monthly_loop (suc rounds) after day hour minute year month =
      let use_day = min day (calendar.monthrange year month) in
      let candidate = local_at (calendar.first_day year month + (use_day - 1)) hour minute in
      elim (ltb after candidate) [
        | true ↦ some candidate
        | false ↦ elim (month == 12) [
          | true ↦ monthly_loop rounds after day hour minute (year + 1) 1
          | false ↦ monthly_loop rounds after day hour minute year (month + 1)
        ]
      ]

  -- `_next_monthly`
  unfoldable pub next_monthly : ℕ → ℕ → ℕ → ℕ → Option ℕ
  unfolding monthly_loop
  next_monthly after day hour minute =
      monthly_loop 36 after day hour minute (calendar.year_of (day_of_local after))
        (calendar.month_of (day_of_local after))

  -- Whether a local minute, counted from the epoch, matches the fields.
  unfoldable pub cron_matches : CronFields → ℕ → Bool
  unfolding weekday
  cron_matches fields m =
      let day = m / 1440 in
      contains fields.month_set (calendar.month_of day)
      && (contains fields.day_set (calendar.day_of day)
          && (contains fields.hour_set (m % 1440 / 60)
              && (contains fields.minute_set (m % 60)
                  && contains fields.weekday_set (weekday day))))

  -- The loop of `_next_cron`, over the minutes from one on.
  unfoldable pub cron_loop : ℕ → CronFields → ℕ → Option ℕ
  unfolding cron_matches
  cron_loop zero fields m = none
  cron_loop (suc rounds) fields m = elim (cron_matches fields m) [
    | true ↦ some m
    | false ↦ cron_loop rounds fields (m + 1)
  ]

  -- `_next_cron`, as the minute; each minute that is probed is later than `after`.
  unfoldable pub next_cron : ℕ → CronFields → Option ℕ
  unfolding cron_loop
  next_cron after fields = cron_loop 527040 fields (after / minutes 1 + 1)

-- `candidate.astimezone(timezone.utc)`, or the error behind a loop.
abbrev pub occurs : Zone → Option ℕ → Next
occurs zone none = unable
occurs zone (some local) = at (zone.to_utc local)

abbrev pub minute_start : Option ℕ → Option ℕ
minute_start none = none
minute_start (some m) = some (minutes m)

-- The branch of a cron expression, once it is parsed.
unfoldable pub cron_occurrence : Calendar → Zone → Option CronFields → ℕ → Next
unfolding next_cron
cron_occurrence calendar zone none local = unable
cron_occurrence calendar zone (some fields) local =
    occurs zone (minute_start (next_cron calendar local fields))

-- `next_occurrence`
unfoldable pub next_occurrence : Calendar → Zone → Schedule → Moment → Next
unfolding next_clock next_weekly next_monthly parse_cron cron_occurrence
next_occurrence calendar zone manual after = never
next_occurrence calendar zone (legacy_interval n) after = at (after + minutes n)
next_occurrence calendar zone (daily hour minute) after =
    at (zone.to_utc (next_clock (zone.to_local after) hour minute))
next_occurrence calendar zone (weekly target hour minute) after =
    occurs zone (next_weekly (zone.to_local after) target hour minute)
next_occurrence calendar zone (monthly day hour minute) after =
    occurs zone (next_monthly calendar (zone.to_local after) day hour minute)
next_occurrence calendar zone (cron expression) after =
    cron_occurrence calendar zone (parse_cron expression) (zone.to_local after)
