-- ===== src/Base/Moments.antt =====
-- Moments and spans of time. Every `datetime` of the program is an instant of UTC (a value that
-- the database hands back without its zone is read as UTC), so an instant is its number of
-- microseconds since the epoch, and a `timedelta` is a number of microseconds.
use Prim.Native.Nat.{ℕ, ◌*◌}

abbrev pub Moment : Type 0
Moment = ℕ

-- timedelta(seconds=n)
abbrev pub seconds : ℕ → ℕ
seconds n = n * 1000000

-- timedelta(minutes=n)
abbrev pub minutes : ℕ → ℕ
minutes n = n * 60000000

-- timedelta(days=n)
abbrev pub days : ℕ → ℕ
days n = n * 86400000000
