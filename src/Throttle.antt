-- ===== src/Throttle.antt =====
-- Rate limits and lockouts of logins and of Agent challenges: backend/app/auth_throttle.py. A row that
-- is missing is inserted as `untried` before it is read, so the table is a function; the subjects
-- are the texts that `strip` and `lower` leave, with "unknown" for an empty one. A request that
-- raises 429 gives false beside the table that it commits.
pub mod Lockout
use nuclei_dashboard.Base.{
  Bool, Option, String, false, if◌then◌else◌, ltb, max, none, not, some, str_eq, true, ℕ, ◌&&◌, ◌+◌,
  ◌-◌, ◌==◌,
}
use nuclei_dashboard.Base.Moments.{Moment, seconds}

pub data ThrottleScope : Type 0 where
  login_user login_ip agent_challenge agent_challenge_ip : ThrottleScope

pub record AuthThrottle : Type 0 where
  pub attempt_count : ℕ
  pub window_started_at : Option Moment
  pub locked_until : Option Moment
  pub last_attempt_at : Option Moment

abbrev untried : AuthThrottle
untried = record {
  attempt_count = 0;
  window_started_at = none;
  locked_until = none;
  last_attempt_at = none;
}

unfoldable pub reset_window : Moment → ℕ → AuthThrottle → AuthThrottle
reset_window now window row =
    let fresh = record row {
      attempt_count = 0;
      window_started_at = some now;
      locked_until = none;
    } in
    elim row.window_started_at [
      | none ↦ fresh
      | some started ↦ if ltb window (now - started) then fresh else row
    ]

-- Whether `_raise_if_locked` raises.
unfoldable pub is_locked : Moment → AuthThrottle → Bool
is_locked now row = elim row.locked_until [ none ↦ false | some locked ↦ ltb now locked ]

-- What a caller of `_record_attempt` fixes. A lockout of no seconds is none.
pub record Limit : Type 0 where
  pub limit : ℕ
  pub window_seconds : ℕ
  pub lockout_seconds : ℕ

abbrev pub window_of : Limit → ℕ
window_of config = seconds (max 1 config.window_seconds)

abbrev pub lock_of : Limit → Moment → Moment
lock_of config now = now + seconds (max 1 config.lockout_seconds)

-- `_record_attempt` with `increment`, which every caller passes: the row, and whether it returns.
unfoldable pub record_attempt : Limit → Moment → AuthThrottle → AuthThrottle × Bool
unfolding reset_window is_locked
record_attempt config now row =
    let fresh = reset_window now (window_of config) row in
    let counted = record fresh {
      attempt_count = fresh.attempt_count + 1;
      last_attempt_at = some now;
    } in
    let blocked = ltb config.limit counted.attempt_count in
    if is_locked now row
    then (row, false)
    else if blocked && not (config.lockout_seconds == 0)
    then (record counted { locked_until = some (lock_of config now) }, false)
    else (counted, not blocked)

abbrev pub Table : Type 0
Table = ThrottleScope → String → AuthThrottle

infix 50 ◌same_scope◌
abbrev ◌same_scope◌ : ThrottleScope → ThrottleScope → Bool
login_user same_scope login_user = true
login_ip same_scope login_ip = true
agent_challenge same_scope agent_challenge = true
agent_challenge_ip same_scope agent_challenge_ip = true
_ same_scope _ = false

unfoldable pub put : ThrottleScope → String → AuthThrottle → Table → Table
put scope subject row table scope' subject' =
    if scope same_scope scope' && str_eq subject subject' then row else table scope' subject'

unfoldable pub attempt : Limit → Moment → ThrottleScope → String → Table → Table × Bool
unfolding record_attempt put
attempt config now scope subject table =
    let (row, returned) = record_attempt config now (table scope subject) in
    (put scope subject row table, returned)

pub record Settings : Type 0 where
  pub login_ip_limit : ℕ
  pub login_ip_window_seconds : ℕ
  pub login_failure_limit : ℕ
  pub login_failure_window_seconds : ℕ
  pub login_lockout_seconds : ℕ
  pub agent_challenge_ip_limit : ℕ
  pub agent_challenge_limit : ℕ
  pub agent_challenge_window_seconds : ℕ

abbrev login_ip_config : Settings → Limit
login_ip_config settings = record {
  limit = max 1 settings.login_ip_limit;
  window_seconds = settings.login_ip_window_seconds;
  lockout_seconds = settings.login_lockout_seconds;
}

abbrev login_failure_config : Settings → Limit
login_failure_config settings = record {
  limit = max 1 settings.login_failure_limit;
  window_seconds = settings.login_failure_window_seconds;
  lockout_seconds = settings.login_lockout_seconds;
}

abbrev challenge_config : Settings → ℕ → Limit
challenge_config settings limit = record {
  limit = max 1 limit;
  window_seconds = settings.agent_challenge_window_seconds;
  lockout_seconds = settings.login_lockout_seconds;
}

-- `now` is read again, as `later`, for the check on the user.
unfoldable assert_login_allowed :
    Settings → Moment → Moment → String → String → Table → Table × Bool
unfolding attempt is_locked
assert_login_allowed settings now later name ip table =
    let (table', returned) = attempt (login_ip_config settings) now login_ip ip table in
    if not returned
    then (table', false)
    else (table', not (is_locked later (table' login_user name)))

unfoldable pub record_login_failure : Settings → Moment → String → Table → Table × Bool
unfolding attempt
record_login_failure settings now name table =
    attempt (login_failure_config settings) now login_user name table

unfoldable pub record_login_success : Moment → String → Table → Table
unfolding put
record_login_success now name table =
    let row = record (table login_user name) {
      attempt_count = 0;
      locked_until = none;
      window_started_at = some now;
      last_attempt_at = some now;
    } in
    put login_user name row table

unfoldable assert_challenge_allowed :
    Settings → Moment → Moment → String → String → Table → Table × Bool
unfolding attempt
assert_challenge_allowed settings now later uuid ip table =
    let (table', returned) =
      attempt (challenge_config settings settings.agent_challenge_ip_limit) now agent_challenge_ip
        ip table in
    if not returned
    then (table', false)
    else attempt (challenge_config settings settings.agent_challenge_limit) later agent_challenge
        uuid table'
