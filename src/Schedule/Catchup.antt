-- ===== src/Schedule/Catchup.antt =====
-- The catch-up of a schedule after a downtime: `next_future_after_catchup`.
use nuclei_dashboard.Base.{false, if◌then◌else◌, leb, suc, true, zero, ℕ, ◌+◌}
use nuclei_dashboard.Base.Moments.{Moment, days}
use nuclei_dashboard.Schedule.{Calendar, Next, Schedule, Zone, at, never, unable}
use nuclei_dashboard.Schedule.Occurrence.{next_occurrence}

-- How the loop ends: it does not within its fuel, or with what comes next.
pub data Caught : Type 0 where
  out_of_fuel : Caught
  caught : Next → Caught

-- `while nxt is not None and nxt <= now: nxt = next_occurrence(…, after=nxt)`
unfoldable pub catchup_loop : ℕ → (Moment → Next) → Moment → Next → Caught
catchup_loop fuel next now never = caught never
catchup_loop fuel next now unable = caught unable
catchup_loop zero next now (at moment) = if leb moment now then out_of_fuel else caught (at moment)
catchup_loop (suc fuel) next now (at moment) = elim (leb moment now) [
  | true ↦ catchup_loop fuel next now (next moment)
  | false ↦ caught (at moment)
]

-- The rounds that are enough: one for each microsecond up to a day behind `now`.
abbrev pub enough_fuel : Moment → ℕ
enough_fuel now = now + days 1 + 1

unfoldable pub next_future_after_catchup : Calendar → Zone → Schedule → Moment → Moment → Caught
unfolding catchup_loop
next_future_after_catchup calendar zone schedule now due =
    let next = next_occurrence calendar zone schedule in
    catchup_loop (enough_fuel now) next now (next due)
