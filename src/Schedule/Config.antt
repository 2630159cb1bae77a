-- ===== src/Schedule/Config.antt =====
-- Reading a schedule: `normalize_schedule_config`, `_int_field`, `parse_cron` and `_parse_cron_field`. A
-- refused one, a `ScheduleError`, is `none`. The set of a field's values is a list.
use nuclei_dashboard.Base.{
  Bool, List, Option, [], false, if◌then◌else◌, leb, ltb, none, not, some, suc, true, zero, ℕ, ◌++◌,
  ◌+◌, ◌-◌, ◌/◌, ◌||◌, ◌∷◌,
}
use nuclei_dashboard.Base.Text.{
  Text, cut, is_digits, is_empty, number_of, one_of, split_on, split_words, strip,
}
use nuclei_dashboard.Schedule.{
  CronFields, Schedule, cron, daily, legacy_interval, manual, monthly, weekly,
}

-- `range(start, …, step)`, by its number of values.
unfoldable pub range_values : ℕ → ℕ → ℕ → List ℕ
range_values zero start step = []
range_values (suc count) start step = start ∷ range_values count (start + step) step

-- Base and step of a chunk.
unfoldable pub chunk_step : Text → Option (Text × ℕ)
chunk_step chunk = elim (cut b'/' chunk) [
  | none ↦ some (chunk, 1)
  | some parts ↦
      if not (is_digits parts.1) || leb (number_of parts.1) 0
      then none
      else some (parts.0, number_of parts.1)
]

-- Start and end of a base.
unfoldable pub base_range : Text → ℕ → ℕ → Option (ℕ × ℕ)
base_range base lo hi =
    if one_of ("*" ∷ "?" ∷ []) base then some (lo, hi) else elim (cut b'-' base) [
      | some parts ↦
          if not (is_digits parts.0) || not (is_digits parts.1)
          then none
          else some (number_of parts.0, number_of parts.1)
      | none ↦ if is_digits base then some (number_of base, number_of base) else none
    ]

-- `range(start, end + 1, step)` within the limits of the field.
unfoldable pub checked_range : ℕ → ℕ → ℕ × ℕ → ℕ → Option (List ℕ)
unfolding range_values
checked_range lo hi (start, end) step =
    if ltb start lo || (ltb hi end || ltb end start)
    then none
    else some (range_values ((end - start) / step + 1) start step)

-- One chunk of a field.
unfoldable pub parse_chunk : ℕ → ℕ → Text → Option (List ℕ)
unfolding chunk_step base_range checked_range
parse_chunk lo hi chunk = if is_empty chunk then none else elim (chunk_step chunk) [
  | none ↦ none
  | some stepped ↦ elim (base_range stepped.0 lo hi) [
    | none ↦ none
    | some limits ↦ checked_range lo hi limits stepped.1
  ]
]

unfoldable pub parse_chunks : ℕ → ℕ → List Text → Option (List ℕ)
unfolding parse_chunk
parse_chunks lo hi [] = some []
parse_chunks lo hi (chunk ∷ chunks) = elim (parse_chunk lo hi chunk) [
  | none ↦ none
  | some values ↦ elim (parse_chunks lo hi chunks) [
    | none ↦ none
    | some more ↦ some (values ++ more)
  ]
]

abbrev pub has_none : List ℕ → Bool
has_none [] = true
has_none (n ∷ ns) = false

-- `_parse_cron_field`
unfoldable pub parse_cron_field : Text → ℕ → ℕ → Option (List ℕ)
unfolding parse_chunks
parse_cron_field field lo hi =
    let chunks = split_on b',' field in
    elim (parse_chunks lo hi (chunks.0 ∷ chunks.1)) [
      | none ↦ none
      | some values ↦ if has_none values then none else some values
    ]

-- The fields, in the order of `_CRON_RANGES`.
unfoldable parse_fields : Text → Text → Text → Text → Text → Option CronFields
unfolding parse_cron_field
parse_fields minute hour day month week = elim (parse_cron_field minute 0 59) [
  | none ↦ none
  | some minute_set ↦ elim (parse_cron_field hour 0 23) [
    | none ↦ none
    | some hour_set ↦ elim (parse_cron_field day 1 31) [
      | none ↦ none
      | some day_set ↦ elim (parse_cron_field month 1 12) [
        | none ↦ none
        | some month_set ↦ elim (parse_cron_field week 0 6) [
          | none ↦ none
          | some weekday_set ↦ some (record {
            minute_set = minute_set;
            hour_set = hour_set;
            day_set = day_set;
            month_set = month_set;
            weekday_set = weekday_set;
          })
        ]
      ]
    ]
  ]
]

abbrev five : List Text → Option CronFields
five (a ∷ b ∷ c ∷ d ∷ e ∷ []) = parse_fields a b c d e
five _ = none

-- `parse_cron`
unfoldable pub parse_cron : Text → Option CronFields
unfolding parse_fields
parse_cron expression = five (split_words expression)

pub data ScheduleType : Type 0 where
  manual_type legacy_interval_type daily_type weekly_type monthly_type cron_type : ScheduleType

-- The number of minutes of a legacy interval, as it is sent.
pub data RawInterval : Type 0 where
  absent_interval negative_interval : RawInterval
  minutes_sent : ℕ → RawInterval

-- The dictionary of a request. A type that is absent is manual, and `none` is one that is not known; a
-- field of a clock or a date that is no natural number is `none`, and out of any range.
pub record RawSchedule : Type 0 where
  pub type : Option ScheduleType
  pub interval_minutes : RawInterval
  pub hour : Option ℕ
  pub minute : Option ℕ
  pub week_day : Option ℕ
  pub day : Option ℕ
  pub expression : Text

-- `_int_field`
unfoldable pub int_field : Option ℕ → ℕ → ℕ → Option ℕ
int_field none minimum maximum = none
int_field (some n) minimum maximum = if ltb n minimum || ltb maximum n then none else some n

abbrev pub or_zero : Option ℕ → ℕ
or_zero none = 0
or_zero (some n) = n

-- The types that have a clock.
unfoldable pub clock_schedule : RawSchedule → ScheduleType → ℕ → ℕ → Option Schedule
unfolding int_field parse_cron
clock_schedule raw type hour minute = elim type [
  | daily_type ↦ some (daily hour minute)
  | weekly_type ↦ elim (int_field raw.week_day 0 6) [
    | none ↦ none
    | some w ↦ some (weekly w hour minute)
  ]
  | monthly_type ↦ elim (int_field raw.day 1 31) [
    | none ↦ none
    | some d ↦ some (monthly d hour minute)
  ]
  | _ ↦ elim (parse_cron (strip raw.expression)) [
    | none ↦ none
    | some fields ↦ some (cron (strip raw.expression))
  ]
]

-- The types behind legacy intervals and manual runs.
unfoldable pub clocked : RawSchedule → ScheduleType → Option Schedule
unfolding clock_schedule
clocked raw type = elim (int_field raw.hour 0 23) [
  | none ↦ none
  | some hour ↦ elim (int_field raw.minute 0 59) [
    | none ↦ none
    | some minute ↦ clock_schedule raw type hour minute
  ]
]

-- The branch of a legacy interval.
unfoldable pub interval_schedule : ℕ → Bool → Option Schedule
interval_schedule n allow_legacy =
    if not allow_legacy then none else if leb n 0 then none else some (legacy_interval n)

-- `int(data.get("interval_minutes") or interval_minutes or 0)`; 0 stands for every number that is not
-- positive, which are refused alike.
abbrev pub given_interval : RawSchedule → Option ℕ → ℕ
given_interval raw interval_minutes = elim raw.interval_minutes [
  | absent_interval ↦ or_zero interval_minutes
  | negative_interval ↦ 0
  | minutes_sent n ↦ if ltb 0 n then n else or_zero interval_minutes
]

-- What a dictionary is normalised to, by its type.
unfoldable pub typed_schedule :
    RawSchedule → Option ℕ → Bool → Option ScheduleType → Option Schedule
unfolding clocked interval_schedule
typed_schedule raw interval_minutes allow_legacy none = none
typed_schedule raw interval_minutes allow_legacy (some legacy_interval_type) =
    interval_schedule (given_interval raw interval_minutes) allow_legacy
typed_schedule raw interval_minutes allow_legacy (some manual_type) = some manual
typed_schedule raw interval_minutes allow_legacy (some daily_type) = clocked raw daily_type
typed_schedule raw interval_minutes allow_legacy (some weekly_type) = clocked raw weekly_type
typed_schedule raw interval_minutes allow_legacy (some monthly_type) = clocked raw monthly_type
typed_schedule raw interval_minutes allow_legacy (some cron_type) = clocked raw cron_type

-- `normalize_schedule_config`; a request that is absent or empty is `none`.
unfoldable pub normalize_schedule_config : Option RawSchedule → Option ℕ → Bool → Option Schedule
unfolding typed_schedule
normalize_schedule_config none interval_minutes allow_legacy =
    if ltb 0 (or_zero interval_minutes)
    then if not allow_legacy then none else some (legacy_interval (or_zero interval_minutes))
    else some manual
normalize_schedule_config (some raw) interval_minutes allow_legacy =
    typed_schedule raw interval_minutes allow_legacy raw.type
