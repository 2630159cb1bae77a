-- ===== src/Policy.antt =====
-- The rules of policies: backend/app/policy.py. A rule's conditions and actions are JSON values; the
-- dictionary of the actions is the list of its items.
pub mod Conditions
pub mod Validation
pub mod Actions
pub mod Resolver
pub mod Cleaning
pub mod Edits
pub mod Precedence
pub mod Best
pub mod Scopes
pub mod Thresholds
pub mod Revisions
pub mod Traces
use nuclei_dashboard.Base.{Bool, List, Option, false, ltb, true, ℕ, ◌==◌}
use nuclei_dashboard.Base.Text.{Text}
use nuclei_dashboard.Base.Moments.{Moment}

-- Python's integers, where they may be negative: `negsuc n` is -(n + 1).
pub data ℤ : Type 0 where
  pos negsuc : ℕ → ℤ

unfoldable pub less : ℤ → ℤ → Bool
less (pos a) (pos b) = ltb a b
less (pos a) (negsuc b) = false
less (negsuc a) (pos b) = true
less (negsuc a) (negsuc b) = ltb b a

pub data Category : Type 0 where
  asset_handling asset_inactivity finding_lifecycle alerting : Category

pub data ScopeType : Type 0 where
  global_scope tenant_scope site_scope network_scope : ScopeType

pub data ConditionField : Type 0 where
  hostname_field tag_field criticality_field is_expected_field observed_port_field : ConditionField
  severity_field priority_field has_cve_field event_type_field classification_field : ConditionField
  disposition_field treatment_state_field source_field : ConditionField

pub data Operator : Type 0 where
  equals glob has lacks : Operator

-- A JSON value; an object is a webhook's, with its url.
pub data ActionValue : Type 0 where
  null_value : ActionValue
  flag_value : Bool → ActionValue
  int_value : ℤ → ActionValue
  text_value : Text → ActionValue
  webhook_value : Bool → Option Text → ActionValue

pub record Condition : Type 0 where
  pub field : ConditionField
  pub op : Operator
  pub value : ActionValue

pub data ActionName : Type 0 where
  classification_action disposition_action inactive_after_days_action : ActionName
  resolution_clean_scans_action severity_action dashboard_action email_action : ActionName
  webhook_action suppress_for_minutes_action : ActionName

pub record PolicyRule : Type 0 where
  pub id : ℕ
  pub name : Text
  pub category : Category
  pub scope_type : ScopeType
  pub tenant_id : Option ℕ
  pub site_id : Option ℕ
  pub network_id : Option ℕ
  pub priority : ℤ
  pub conditions : List Condition
  pub actions : List (ActionName × ActionValue)
  pub enabled : Bool
  pub revision : ℕ
  pub archived_at : Option Moment

-- What a rule is evaluated for.
pub record PolicyEvaluationContext : Type 0 where
  pub tenant_id : Option ℕ
  pub site_id : Option ℕ
  pub network_id : Option ℕ
  pub hostname : Text
  pub tags : List Text
  pub criticality : Text
  pub is_expected : Bool
  pub observed_ports : List ℕ
  pub severity : Option Text
  pub priority : Option Text
  pub has_cve : Option Bool
  pub current_classification : Text
  pub current_disposition : Text
  pub inference_classification : Option Text
  pub event_type : Option Text
  pub source : Option Text
  pub treatment_state : Option Text

-- A 400 and a 403.
pub data PolicyError : Type 0 where
  invalid forbidden : PolicyError

pub data Result {ℓ} (A : Type ℓ) : Type ℓ where
  ok : A → Result A
  policy_error : PolicyError → Result A

-- `SCOPE_RANK`
unfoldable pub scope_rank : ScopeType → ℕ
scope_rank network_scope = 4
scope_rank site_scope = 3
scope_rank tenant_scope = 2
scope_rank global_scope = 1

-- The dictionary's index of an action.
unfoldable pub action_index : ActionName → ℕ
action_index classification_action = 0
action_index disposition_action = 1
action_index inactive_after_days_action = 2
action_index resolution_clean_scans_action = 3
action_index severity_action = 4
action_index dashboard_action = 5
action_index email_action = 6
action_index webhook_action = 7
action_index suppress_for_minutes_action = 8

-- `key == other` on the names of actions
unfoldable pub same_action : ActionName → ActionName → Bool
unfolding action_index
same_action a b = action_index a == action_index b
