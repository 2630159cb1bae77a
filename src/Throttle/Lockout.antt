-- ===== src/Throttle/Lockout.antt =====
-- The limit within a window, and the lockout that follows it.
use text.Mathlib.TextPositions.{eq_refl}
use nuclei_dashboard.Base.{
  All, List, String, [], arith, false, if◌then◌else◌, some, suc, true, ℕ, ◌-◌, ◌<◌, ◌∷◌, ◌≡◌, ◌≢◌,
  ◌≤◌,
}
use nuclei_dashboard.Base.Moments.{Moment}
use nuclei_dashboard.Throttle.{
  AuthThrottle, Limit, Settings, Table, attempt, is_locked, lock_of, login_user, put,
  record_attempt, record_login_failure, record_login_success, reset_window, window_of,
}

-- The attempts of one subject, at the moments of a list: how many of them return.
abbrev pub attempts : Limit → List Moment → AuthThrottle → ℕ
attempts config [] row = 0
attempts config (now ∷ nows) row =
    let rest = attempts config nows (record_attempt config now row).0 in
    if (record_attempt config now row).1 then suc rest else rest

-- Every moment lies in the window that the row has opened.
abbrev AreInWindow : Limit → Moment → List Moment → Type 0
AreInWindow config started nows = All (λ now. (now - started) ≤ window_of config) nows

-- Within one window, no more attempts return than the limit leaves.
pub attempts-limit :
    (config : Limit) (started : Moment) (nows : List Moment) (row : AuthThrottle)
    → row.window_started_at ≡ some started
    → AreInWindow config started nows
    → attempts config nows row ≤ config.limit - row.attempt_count
unfolding record_attempt reset_window
attempts-limit config started [] row h within = omega arith
attempts-limit config started (now ∷ nows) row h (first, within) =
    let next = (record_attempt config now row).0 in
    let stays : next.window_started_at ≡ some started = ground arith in
    let ih = attempts-limit config started nows next stays within in ground arith

-- The attempt that goes over the limit is refused, and so is every attempt until the lockout is over;
-- the refused ones change nothing.
pub record_attempt-lockout :
    (config : Limit) (now later : Moment) (row : AuthThrottle)
    → config.lockout_seconds ≢ 0
    → is_locked now row ≡ false
    → config.limit ≤ (reset_window now (window_of config) row).attempt_count
    → later < lock_of config now
    → ((record_attempt config now row).1 ≡ false)
      × (record_attempt config later (record_attempt config now row).0
          ≡ ((record_attempt config now row).0, false))
unfolding record_attempt is_locked
record_attempt-lockout config now later row set unlocked full soon = ground arith

-- A successful login frees the user: the next failures up to the limit return, and no login of the
-- user is refused for its own failures right after.
pub record_login_success-frees :
    (settings : Settings) (now later at : Moment) (name : String) (table : Table)
    → (is_locked later (record_login_success now name table login_user name) ≡ false)
      × ((record_login_failure settings at name (record_login_success now name table)).1 ≡ true)
unfolding record_login_success record_login_failure attempt record_attempt is_locked put
    reset_window
record_login_success-frees settings now later at name table =
    let same = eq_refl name in ground arith
