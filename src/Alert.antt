-- ===== src/Alert.antt =====
-- Alerts and their deliveries: backend/app/alert_engine.py. The rows hold what routing and delivering
-- read and write; the texts of an alert and the explanations are left out.
pub mod Queue
pub mod Delivery
pub mod Routing
pub mod Routes
pub mod Counts
pub mod Routed
pub mod Attempts
pub mod Passes
use nuclei_dashboard.Base.{
  Bool, Option, false, if◌then◌else◌, is_some, ltb, none, not, some, true, ℕ, ◌&&◌, ◌==◌, ◌||◌,
}
use nuclei_dashboard.Base.Text.{Text, codes, is_empty, same_text, strip}
use nuclei_dashboard.Base.Moments.{Moment}
use nuclei_dashboard.Policy.{
  ActionName, ActionValue, dashboard_action, email_action, flag_value, int_value, pos,
  severity_action, suppress_for_minutes_action, text_value, webhook_action, webhook_value,
}
use nuclei_dashboard.Policy.Resolver.{Winners}
use nuclei_dashboard.Policy.Conditions.{same_flag, same_id}

-- The event of a domain that may be announced.
pub record Event : Type 0 where
  pub id : ℕ
  pub event_type : Text
  pub tenant_id : Option ℕ
  pub occurred_at : Moment
  pub asset_finding_id : Option ℕ
  pub asset_id : Option ℕ
  pub agent_id : Option ℕ
  pub scan_job_id : Option ℕ
  pub treatment_id : Option ℕ
  pub policy_rule_id : Option ℕ
  pub wan_target_id : Option ℕ

pub data SubjectKind : Type 0 where
  asset_finding_subject asset_subject agent_subject scan_job_subject : SubjectKind
  treatment_subject policy_subject wan_target_subject event_subject : SubjectKind

-- `if event.key:` for an id
abbrev is_id : Option ℕ → Bool
is_id none = false
is_id (some n) = ltb 0 n

abbrev id_or_zero : Option ℕ → ℕ
id_or_zero none = 0
id_or_zero (some n) = n

unfoldable logical_subject : Event → SubjectKind × ℕ
logical_subject event =
    if is_id event.asset_finding_id
    then (asset_finding_subject, id_or_zero event.asset_finding_id)
    else if is_id event.asset_id
    then (asset_subject, id_or_zero event.asset_id)
    else if is_id event.agent_id
    then (agent_subject, id_or_zero event.agent_id)
    else if is_id event.scan_job_id
    then (scan_job_subject, id_or_zero event.scan_job_id)
    else if is_id event.treatment_id
    then (treatment_subject, id_or_zero event.treatment_id)
    else if is_id event.policy_rule_id
    then (policy_subject, id_or_zero event.policy_rule_id)
    else if is_id event.wan_target_id
    then (wan_target_subject, id_or_zero event.wan_target_id)
    else (event_subject, event.id)

-- What a policy decides for an event. An e-mail mode that is absent is "off" here.
pub record AlertActions : Type 0 where
  pub dashboard : Bool
  pub email : Text
  pub webhook : Option Text
  pub suppress_for_minutes : ℕ

-- `system_default_alert_actions`
unfoldable system_default_alert_actions : Text → ActionName → Option ActionValue
system_default_alert_actions event_type action =
    let default : Text → Text → Option ActionValue = λ severity email. elim action [
      | severity_action ↦ some (text_value severity)
      | dashboard_action ↦ some (flag_value true)
      | email_action ↦ some (text_value email)
      | webhook_action ↦ some (webhook_value false none)
      | suppress_for_minutes_action ↦ some (int_value (pos 0))
      | _ ↦ none
    ] in
    if same_text event_type (codes "new_asset")
    then default (codes "high") (codes "staff")
    else if same_text event_type (codes "agent_identity_mismatch")
    then default (codes "critical") (codes "admins")
    else none

-- `effective` of an evaluation for the category of alerts.
unfoldable pub effective_alerting : Winners → Text → ActionName → Option ActionValue
unfolding system_default_alert_actions
effective_alerting winners event_type action = elim (winners action) [
  | some winner ↦ some winner.value
  | none ↦ system_default_alert_actions event_type action
]

-- `webhook_url_from_action`
unfoldable webhook_url_from_action : Option ActionValue → Option Text
webhook_url_from_action (some (webhook_value true (some url))) =
    if is_empty (strip url) then none else some (strip url)
webhook_url_from_action _ = none

abbrev flag_from : Option ActionValue → Bool
flag_from (some (flag_value flag)) = flag
flag_from _ = false

abbrev email_from : Option ActionValue → Text
email_from (some (text_value mode)) = mode
email_from _ = codes "off"

abbrev minutes_from : Option ActionValue → ℕ
minutes_from (some (int_value (pos n))) = n
minutes_from _ = 0

-- What the router reads of the effective actions, which were validated.
unfoldable pub read_actions : (ActionName → Option ActionValue) → AlertActions
unfolding webhook_url_from_action
read_actions effective = record {
  dashboard = flag_from (effective dashboard_action);
  email = email_from (effective email_action);
  webhook = webhook_url_from_action (effective webhook_action);
  suppress_for_minutes = minutes_from (effective suppress_for_minutes_action);
}

unfoldable pub notification_enabled : AlertActions → Bool
notification_enabled actions =
    actions.dashboard || (not (same_text actions.email (codes "off")) || is_some actions.webhook)

-- `dedupe_key_for`, its parts before they are joined by colons; `route_identity` is the last three.
pub record DedupeKey : Type 0 where
  pub tenant_id : Option ℕ
  pub event_type : Text
  pub kind : SubjectKind
  pub subject_id : ℕ
  pub email : Text
  pub dashboard : Bool
  pub webhook : Option Text

unfoldable pub dedupe_key_for : Event → AlertActions → DedupeKey
unfolding logical_subject
dedupe_key_for event actions = record {
  tenant_id = event.tenant_id;
  event_type = event.event_type;
  kind = (logical_subject event).0;
  subject_id = (logical_subject event).1;
  email = actions.email;
  dashboard = actions.dashboard;
  webhook = actions.webhook;
}

abbrev kind_index : SubjectKind → ℕ
kind_index asset_finding_subject = 0
kind_index asset_subject = 1
kind_index agent_subject = 2
kind_index scan_job_subject = 3
kind_index treatment_subject = 4
kind_index policy_subject = 5
kind_index wan_target_subject = 6
kind_index event_subject = 7

abbrev same_webhook : Option Text → Option Text → Bool
same_webhook none none = true
same_webhook none (some b) = false
same_webhook (some a) none = false
same_webhook (some a) (some b) = same_text a b

-- `a == b` on keys
unfoldable pub same_key : DedupeKey → DedupeKey → Bool
unfolding same_id
same_key a b =
    same_id a.tenant_id b.tenant_id
    && (same_text a.event_type b.event_type
        && (kind_index a.kind == kind_index b.kind
            && (a.subject_id == b.subject_id
                && (same_text a.email b.email
                    && (same_flag a.dashboard b.dashboard && same_webhook a.webhook b.webhook)))))
