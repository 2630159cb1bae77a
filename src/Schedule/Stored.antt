-- ===== src/Schedule/Stored.antt =====
-- A schedule that was stored, and is normalised again in front of every run.
use nuclei_dashboard.Base.{
  Bool, Bool-cases, Option, Option-cases, [], arith, inl, inr, is_some, ltb, none, refl, some,
  subst, true, ℕ, ◌<◌, ◌≡◌, ◌≤◌,
}
use nuclei_dashboard.Base.Text.{strip}
use nuclei_dashboard.Schedule.{Schedule, cron, daily, legacy_interval, manual, monthly, weekly}
use nuclei_dashboard.Schedule.Config.{
  RawSchedule, ScheduleType, absent_interval, clock_schedule, clocked, cron_type, daily_type,
  given_interval, int_field, interval_schedule, legacy_interval_type, manual_type, minutes_sent,
  monthly_type, normalize_schedule_config, or_zero, parse_cron, typed_schedule, weekly_type,
}

-- What `normalize_schedule_config` promises of its result.
abbrev IsNormal : Schedule → Type 0
IsNormal manual = Unit
IsNormal (legacy_interval n) = 0 < n
IsNormal (daily hour minute) = (hour ≤ 23) × (minute ≤ 59)
IsNormal (weekly target hour minute) = (target ≤ 6) × (hour ≤ 23) × (minute ≤ 59)
IsNormal (monthly day hour minute) = (1 ≤ day) × (day ≤ 31) × (hour ≤ 23) × (minute ≤ 59)
IsNormal (cron expression) = is_some (parse_cron expression) ≡ true

abbrev no_keys : ScheduleType → RawSchedule
no_keys type = record {
  type = some type;
  interval_minutes = absent_interval;
  hour = none;
  minute = none;
  week_day = none;
  day = none;
  expression = [];
}

-- The dictionary that is stored for a schedule: the keys that `normalize_schedule_config` returns.
unfoldable pub stored_form : Schedule → RawSchedule
stored_form manual = no_keys manual_type
stored_form (legacy_interval n) = record (no_keys legacy_interval_type) {
  interval_minutes = minutes_sent n;
}
stored_form (daily hour minute) = record (no_keys daily_type) {
  hour = some hour;
  minute = some minute;
}
stored_form (weekly target hour minute) = record (no_keys weekly_type) {
  week_day = some target;
  hour = some hour;
  minute = some minute;
}
stored_form (monthly day hour minute) = record (no_keys monthly_type) {
  day = some day;
  hour = some hour;
  minute = some minute;
}
stored_form (cron expression) = record (no_keys cron_type) { expression = expression }

-- Every kind of schedule but cron is read back.
abbrev read_back : Schedule → Option Schedule
read_back (cron expression) = none
read_back schedule = some schedule

int_field_within : (o : Option ℕ) (lo hi n : ℕ) → int_field o lo hi ≡ some n → (lo ≤ n) × (n ≤ hi)
unfolding int_field
int_field_within none lo hi n h = ground arith
int_field_within (some m) lo hi n h = (ground arith, ground arith)

cron-IsNormal :
    (raw : RawSchedule) (schedule : Schedule)
    → (elim (parse_cron (strip raw.expression)) as (λ x. Option Schedule) [
      | none ↦ none
      | some fields ↦ some (cron (strip raw.expression))
    ])
      ≡ some schedule
    → IsNormal schedule
cron-IsNormal raw schedule e = elim (Option-cases (parse_cron (strip raw.expression))) [
  | inl refused ↦ ground arith
  | inr parsed ↦
      (let f = parsed.1 in
        let g : cron (strip raw.expression) ≡ schedule = ground arith in
        let s : is_some (parse_cron (strip raw.expression)) ≡ true = ground arith in
        subst IsNormal g s)
]

clock_schedule-IsNormal :
    (raw : RawSchedule) (type : ScheduleType) (hour minute : ℕ) (schedule : Schedule)
    → hour ≤ 23
    → minute ≤ 59
    → clock_schedule raw type hour minute ≡ some schedule
    → IsNormal schedule
unfolding clock_schedule
clock_schedule-IsNormal raw daily_type hour minute schedule h m e =
    let f : daily hour minute ≡ schedule = ground arith in subst IsNormal f (h, m)
clock_schedule-IsNormal raw weekly_type hour minute schedule h m e =
    elim (Option-cases (int_field raw.week_day 0 6)) [
      | inl refused ↦ ground arith
      | inr w ↦
          (let f = w.1 in
            let g : weekly w.0 hour minute ≡ schedule = ground arith in
            let b = int_field_within raw.week_day 0 6 w.0 f in subst IsNormal g (b.1, h, m))
    ]
clock_schedule-IsNormal raw monthly_type hour minute schedule h m e =
    elim (Option-cases (int_field raw.day 1 31)) [
      | inl refused ↦ ground arith
      | inr d ↦
          (let f = d.1 in
            let g : monthly d.0 hour minute ≡ schedule = ground arith in
            let b = int_field_within raw.day 1 31 d.0 f in subst IsNormal g (b.0, b.1, h, m))
    ]
clock_schedule-IsNormal raw manual_type hour minute schedule h m e = cron-IsNormal raw schedule e
clock_schedule-IsNormal raw legacy_interval_type hour minute schedule h m e =
    cron-IsNormal raw schedule e
clock_schedule-IsNormal raw cron_type hour minute schedule h m e = cron-IsNormal raw schedule e

clocked-IsNormal :
    (raw : RawSchedule) (type : ScheduleType) (schedule : Schedule)
    → clocked raw type ≡ some schedule
    → IsNormal schedule
unfolding clocked
clocked-IsNormal raw type schedule e = elim (Option-cases (int_field raw.hour 0 23)) [
  | inl refused ↦ ground arith
  | inr hour ↦
      (let h = hour.1 in
        elim (Option-cases (int_field raw.minute 0 59)) [
          | inl refused ↦ ground arith
          | inr minute ↦
              (let m = minute.1 in
                clock_schedule-IsNormal raw type hour.0 minute.0 schedule
                  (int_field_within raw.hour 0 23 hour.0 h).1
                  (int_field_within raw.minute 0 59 minute.0 m).1 (ground arith))
        ])
]

interval-IsNormal :
    (n : ℕ) (schedule : Schedule)
    → 0 < n
    → some (legacy_interval n) ≡ some schedule
    → IsNormal schedule
interval-IsNormal n schedule p e =
    let f : legacy_interval n ≡ schedule = ground arith in subst IsNormal f p

manual-IsNormal : (schedule : Schedule) → some manual ≡ some schedule → IsNormal schedule
manual-IsNormal schedule e = let f : manual ≡ schedule = ground arith in subst IsNormal f tt

interval_schedule-IsNormal :
    (n : ℕ) (legacy : Bool) (schedule : Schedule)
    → interval_schedule n legacy ≡ some schedule
    → IsNormal schedule
unfolding interval_schedule
interval_schedule-IsNormal n legacy schedule e =
    interval-IsNormal n schedule (ground arith) (ground arith)

typed_schedule-IsNormal :
    (raw : RawSchedule) (interval : Option ℕ) (legacy : Bool) (type : Option ScheduleType)
    (schedule : Schedule)
    → typed_schedule raw interval legacy type ≡ some schedule
    → IsNormal schedule
unfolding typed_schedule
typed_schedule-IsNormal raw interval legacy none schedule e = ground arith
typed_schedule-IsNormal raw interval legacy (some legacy_interval_type) schedule e =
    interval_schedule-IsNormal (given_interval raw interval) legacy schedule e
typed_schedule-IsNormal raw interval legacy (some manual_type) schedule e =
    manual-IsNormal schedule e
typed_schedule-IsNormal raw interval legacy (some daily_type) schedule e =
    clocked-IsNormal raw daily_type schedule e
typed_schedule-IsNormal raw interval legacy (some weekly_type) schedule e =
    clocked-IsNormal raw weekly_type schedule e
typed_schedule-IsNormal raw interval legacy (some monthly_type) schedule e =
    clocked-IsNormal raw monthly_type schedule e
typed_schedule-IsNormal raw interval legacy (some cron_type) schedule e =
    clocked-IsNormal raw cron_type schedule e

-- A schedule that is accepted is normal: an interval is not 0, a clock, a weekday and a day of the month
-- are within their limits, and an expression can be parsed.
pub normalize_schedule_config-IsNormal :
    (raw : Option RawSchedule) (interval : Option ℕ) (legacy : Bool) (schedule : Schedule)
    → normalize_schedule_config raw interval legacy ≡ some schedule
    → IsNormal schedule
unfolding normalize_schedule_config
normalize_schedule_config-IsNormal none interval legacy schedule e =
    elim (Bool-cases (ltb 0 (or_zero interval))) [
      | inl positive ↦ interval-IsNormal (or_zero interval) schedule (ground arith) (ground arith)
      | inr zero_minutes ↦ manual-IsNormal schedule (ground arith)
    ]
normalize_schedule_config-IsNormal (some raw) interval legacy schedule e =
    typed_schedule-IsNormal raw interval legacy raw.type schedule e

read_again :
    (schedule : Schedule)
    → IsNormal schedule
    → normalize_schedule_config (some (stored_form schedule)) none true ≡ read_back schedule
unfolding normalize_schedule_config clocked clock_schedule interval_schedule int_field stored_form
read_again manual h = refl
read_again (legacy_interval n) h = ground arith
read_again (daily hour minute) h = let a = h.0 in let b = h.1 in ground arith
read_again (weekly target hour minute) h = let a = h.0 in let b = h.1 in let c = h.2 in ground arith
read_again (monthly day hour minute) h =
    let a = h.0 in let b = h.1 in let c = h.2 in let d = h.3 in ground arith
read_again (cron expression) h = refl

-- Every schedule that is accepted is read back from what is stored of it when it is validated for a
-- run, except cron: what is stored of a cron expression is refused.
pub normalize_schedule_config-stored_form :
    (raw : Option RawSchedule) (interval : Option ℕ) (legacy : Bool) (schedule : Schedule)
    → normalize_schedule_config raw interval legacy ≡ some schedule
    → normalize_schedule_config (some (stored_form schedule)) none true ≡ read_back schedule
normalize_schedule_config-stored_form raw interval legacy schedule e =
    read_again schedule (normalize_schedule_config-IsNormal raw interval legacy schedule e)
