-- ===== src/Examples/Staff.antt =====
-- Logins, challenges, grants and the stages of a scan.
use nuclei_dashboard.Access.Grants.{replace_viewer_grants-access}
use nuclei_dashboard.Access.Visibility.{tenant_scope_clause-can_access_tenant}
use nuclei_dashboard.Challenge.Single.{
  and_later, as_it_was, consume_challenge-once, consumes, creates,
}
use nuclei_dashboard.Stages.Ports.{IsConsistent, normalize_stage_config-IsConsistent}
use nuclei_dashboard.Throttle.Lockout.{attempts, attempts-limit, record_attempt-lockout}
use nuclei_dashboard.Base.{
  List, [], arith, contains, false, none, refl, some, true, ℕ, ◌-◌, ◌∷◌, ◌≡◌, ◌≢◌, ◌≤◌,
}
use nuclei_dashboard.Access.{
  Grant, Tables, User, can_access_tenant, clear_viewer_grants, replace_viewer_grants,
  tenant_scope_clause, viewer_role,
}
use nuclei_dashboard.Throttle.{
  AuthThrottle, Limit, Settings, Table, is_locked, record_attempt, reset_window,
}
use nuclei_dashboard.Challenge.{
  AgentChallenge, consume_challenge, create_challenge, prune_expired_challenges,
}
use nuclei_dashboard.Base.Text.{codes}
use nuclei_dashboard.Stages.{
  StageConfig, check_stages, custom, detected_hosts, normalize_stage_config, parse_port_number,
  parse_tokens, range, range_of, stripped_or, validate_port_token,
}

abbrev a_viewer : User
a_viewer = record {
  id = 1;
  role = viewer_role;
  is_active = true;
  viewer_all_tenants = false;
  viewer_expires_at = none;
}

abbrev a_grant : Grant
a_grant = record { user_id = 1; tenant_id = 8 }

abbrev some_tables : Tables
some_tables = record { tenants = 9 ∷ 8 ∷ []; grants = a_grant ∷ [] }

tenant_scope_clause-can_access_tenant_example :
    tenant_scope_clause some_tables a_viewer false (some 8)
    ≡ can_access_tenant some_tables a_viewer (some 8)
tenant_scope_clause-can_access_tenant_example =
    tenant_scope_clause-can_access_tenant some_tables a_viewer (some 8) (λ t e. ground arith)

abbrev granted_nine : Tables
granted_nine = record some_tables { grants = record { user_id = 1; tenant_id = 9 } ∷ [] }

replace_viewer_grants-access_example :
    (can_access_tenant granted_nine a_viewer (some 8) ≡ contains (9 ∷ 9 ∷ []) 8)
    × ((other : User)
        → other.id ≢ a_viewer.id
        → can_access_tenant granted_nine other (some 8)
          ≡ can_access_tenant some_tables other (some 8))
unfolding replace_viewer_grants clear_viewer_grants
replace_viewer_grants-access_example =
    replace_viewer_grants-access a_viewer (9 ∷ 9 ∷ []) some_tables granted_nine (9 ∷ []) 8 refl refl
      refl

abbrev two_each_minute : Limit
two_each_minute = record { limit = 2; window_seconds = 60; lockout_seconds = 30 }

abbrev one_attempt : AuthThrottle
one_attempt = record {
  attempt_count = 1;
  window_started_at = some 0;
  locked_until = none;
  last_attempt_at = some 0;
}

attempts-limit_example :
    attempts two_each_minute (1 ∷ 2 ∷ 3 ∷ []) one_attempt
    ≤ two_each_minute.limit - one_attempt.attempt_count
attempts-limit_example =
    attempts-limit two_each_minute 0 (1 ∷ 2 ∷ 3 ∷ []) one_attempt refl
      (omega arith, (omega arith, (omega arith, tt)))

abbrev full_row : AuthThrottle
full_row = record one_attempt { attempt_count = 2 }

record_attempt-lockout_example :
    ((record_attempt two_each_minute 5 full_row).1 ≡ false)
    × (record_attempt two_each_minute 9 (record_attempt two_each_minute 5 full_row).0
        ≡ ((record_attempt two_each_minute 5 full_row).0, false))
unfolding is_locked reset_window
record_attempt-lockout_example =
    record_attempt-lockout two_each_minute 5 9 full_row (λ e. ground arith) refl (omega arith)
      (omega arith)

abbrev some_settings : Settings
some_settings = record {
  login_ip_limit = 20;
  login_ip_window_seconds = 60;
  login_failure_limit = 5;
  login_failure_window_seconds = 900;
  login_lockout_seconds = 900;
  agent_challenge_ip_limit = 60;
  agent_challenge_limit = 30;
  agent_challenge_window_seconds = 60;
}

abbrev locked_table : Table
locked_table scope subject = record full_row { locked_until = some 1000 }

abbrev a_challenge : AgentChallenge
a_challenge = record { id = 1; agent_id = 2; nonce = 3; expires_at = 100; consumed_at = none }

abbrev used_challenge : AgentChallenge
used_challenge = record a_challenge { consumed_at = some 10 }

-- Another Agent's challenge is created and consumed in between.
abbrev table_later : List AgentChallenge
unfolding create_challenge consume_challenge prune_expired_challenges
table_later = (consume_challenge 18 4 5 (create_challenge 2 5 11 12 60 4 (used_challenge ∷ []))).0

consume_challenge-once_example : (consume_challenge 20 2 3 table_later).1 ≡ none
unfolding consume_challenge create_challenge prune_expired_challenges
consume_challenge-once_example =
    consume_challenge-once 10 20 2 3 (a_challenge ∷ []) table_later used_challenge (omega arith)
      refl
      (and_later (and_later as_it_was (creates 2 5 11 12 60 4 (omega arith) refl))
        (consumes 18 4 5 refl))

-- "22-80"
abbrev a_range : List ℕ
a_range = 50 ∷ 50 ∷ 45 ∷ 56 ∷ 48 ∷ []

abbrev custom_stages : StageConfig
custom_stages = record {
  discovery = true;
  port_mode = custom;
  port_scope = detected_hosts;
  custom_ports = [];
  fingerprint = true;
  vulnerability = true;
  nuclei_severities = codes " high ";
  nuclei_tags = [];
}

abbrev stored_stages : StageConfig
stored_stages = record custom_stages {
  custom_ports = range 22 80 ∷ [];
  nuclei_severities = codes "high";
}

normalize_stage_config-IsConsistent_example : IsConsistent stored_stages
unfolding normalize_stage_config parse_tokens validate_port_token parse_port_number range_of
    check_stages stripped_or
normalize_stage_config-IsConsistent_example =
    normalize_stage_config-IsConsistent custom_stages stored_stages (a_range ∷ []) refl
