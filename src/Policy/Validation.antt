-- ===== src/Policy/Validation.antt =====
-- The checks of a rule's conditions, actions and scope. A key of a dictionary that names no field, no
-- operator or no action is `none`; what a check refuses is `none`, a 400. `urlparse` is the function
-- of Python's library; of its result the scheme, the place and the credentials are read.
use nuclei_dashboard.Base.{
  Bool, List, Option, String, [], any, false, if◌then◌else◌, leb, length, ltb, none, not, some,
  true, ℕ, ◌&&◌, ◌||◌, ◌∷◌,
}
use nuclei_dashboard.Base.Text.{
  Text, codes, is_empty, join_words, lower, one_of, same_text, split_words, strip,
}
use nuclei_dashboard.Policy.{
  ActionValue, Category, Condition, ConditionField, Operator, alerting, asset_handling,
  asset_inactivity, classification_field, criticality_field, disposition_field, equals,
  event_type_field, finding_lifecycle, flag_value, glob, has, has_cve_field, hostname_field,
  int_value, is_expected_field, lacks, negsuc, null_value, observed_port_field, pos, priority_field,
  severity_field, source_field, tag_field, text_value, treatment_state_field, webhook_value,
}

pub record RawCondition : Type 0 where
  pub extra : Bool
  pub field : Option ConditionField
  pub op : Option Operator
  pub value : ActionValue

pub record ParsedUrl : Type 0 where
  pub scheme : Text
  pub netloc : Text
  pub username : Option Text
  pub password : Option Text

abbrev pub device_classes : List String
device_classes =
    "Unknown" ∷ "Desktop" ∷ "Laptop" ∷ "Server" ∷ "Server Management" ∷ "Virtual Server"
    ∷ "Virtual Host" ∷ "Switch" ∷ "Router / Firewall" ∷ "Print Server (non server)" ∷ "Access Point"
    ∷ "IoT Device" ∷ "UPS" ∷ "Other" ∷ []

abbrev pub dispositions : List String
dispositions = "unreviewed" ∷ "approved" ∷ "unauthorized" ∷ "ignored" ∷ []

abbrev criticalities : List String
criticalities = "low" ∷ "normal" ∷ "high" ∷ "critical" ∷ []

abbrev pub alert_severities : List String
alert_severities = "info" ∷ "low" ∷ "medium" ∷ "high" ∷ "critical" ∷ []

abbrev pub email_modes : List String
email_modes = "off" ∷ "staff" ∷ "admins" ∷ []

abbrev finding_severities : List String
finding_severities = "critical" ∷ "high" ∷ "medium" ∷ "low" ∷ "info" ∷ "unknown" ∷ []

abbrev priorities : List String
priorities = "p1" ∷ "p2" ∷ "p3" ∷ "p4" ∷ []

abbrev treatment_states : List String
treatment_states =
    "unaddressed" ∷ "mitigated" ∷ "accepted_risk" ∷ "false_positive" ∷ "pending_review" ∷ "active"
    ∷ "expired" ∷ "revoked" ∷ "superseded" ∷ []

abbrev domain_event_types : List String
domain_event_types =
    "new_asset" ∷ "asset_became_inactive" ∷ "previously_inactive_asset_returned"
    ∷ "scan_missed_unavailable_agent" ∷ "new_finding" ∷ "vulnerability_resolved"
    ∷ "vulnerability_reopened" ∷ "asset_disposition_changed" ∷ "treatment_created"
    ∷ "treatment_expired" ∷ "scan_failed" ∷ "agent_identity_mismatch" ∷ "wan_target_changed"
    ∷ "policy_changed" ∷ []

-- `_as_bool`
unfoldable pub as_bool : ActionValue → Option Bool
as_bool (flag_value flag) = some flag
as_bool (text_value text) =
    if same_text (lower text) (codes "true")
    then some true
    else if same_text (lower text) (codes "false")
    then some false
    else none
as_bool null_value = none
as_bool (int_value n) = none
as_bool (webhook_value enabled url) = none

-- `_as_int` and a check of the bounds, neither of them negative.
unfoldable pub int_within : ℕ → ℕ → ActionValue → Option ActionValue
int_within lo hi (int_value (pos n)) =
    if ltb n lo || ltb hi n then none else some (int_value (pos n))
int_within lo hi (int_value (negsuc n)) = none
int_within lo hi (flag_value flag) = none
int_within lo hi (text_value text) = none
int_within lo hi null_value = none
int_within lo hi (webhook_value enabled url) = none

abbrev pub text_where : (Text → Bool) → (Text → Text) → ActionValue → Option ActionValue
text_where test change (text_value text) =
    if test text then some (text_value (change text)) else none
text_where test change (flag_value flag) = none
text_where test change (int_value n) = none
text_where test change null_value = none
text_where test change (webhook_value enabled url) = none

abbrev pub flag_of : Option Bool → Option ActionValue
flag_of none = none
flag_of (some flag) = some (flag_value flag)

-- `CONDITION_FIELDS_ASSET`
unfoldable is_asset_field : ConditionField → Bool
is_asset_field field = elim field [
  | hostname_field ↦ true
  | tag_field ↦ true
  | criticality_field ↦ true
  | is_expected_field ↦ true
  | observed_port_field ↦ true
  | _ ↦ false
]

-- `CONDITION_FIELDS_FINDING`
unfoldable is_finding_field : ConditionField → Bool
is_finding_field field = elim field [
  | severity_field ↦ true
  | priority_field ↦ true
  | has_cve_field ↦ true
  | _ ↦ false
]

-- `CONDITION_FIELDS_ALERTING`
unfoldable is_alerting_field : ConditionField → Bool
is_alerting_field field = elim field [
  | hostname_field ↦ false
  | observed_port_field ↦ false
  | _ ↦ true
]

-- `allowed_fields` of `_normalize_condition`
unfoldable is_field_allowed : Category → ConditionField → Bool
unfolding is_asset_field is_finding_field is_alerting_field
is_field_allowed category field = elim category [
  | asset_handling ↦ is_asset_field field
  | asset_inactivity ↦ is_asset_field field
  | finding_lifecycle ↦ is_asset_field field || is_finding_field field
  | alerting ↦ is_alerting_field field
]

-- `OPERATORS`
unfoldable is_op_allowed : ConditionField → Operator → Bool
is_op_allowed field op = elim field [
  | hostname_field ↦ elim op [ equals ↦ true | glob ↦ true | _ ↦ false ]
  | tag_field ↦ elim op [ has ↦ true | lacks ↦ true | _ ↦ false ]
  | _ ↦ elim op [ equals ↦ true | _ ↦ false ]
]

-- `str(value)` where the result may name a priority: only a text's may.
unfoldable condition_value : ConditionField → ActionValue → Option ActionValue
unfolding as_bool int_within
condition_value field value =
    let given = λ (text : Text). not (is_empty (strip text)) in
    let same = λ (text : Text). text in
    elim field [
      | hostname_field ↦ text_where given strip value
      | tag_field ↦ text_where given (λ text. join_words (split_words (strip text))) value
      | criticality_field ↦ text_where (one_of criticalities) same value
      | is_expected_field ↦ flag_of (as_bool value)
      | observed_port_field ↦ int_within 1 65535 value
      | severity_field ↦
          text_where (λ text. one_of finding_severities (lower (strip text)))
            (λ text. lower (strip text)) value
      | priority_field ↦
          text_where (λ text. one_of priorities (lower (strip text))) (λ text. lower (strip text))
            value
      | has_cve_field ↦ flag_of (as_bool value)
      | event_type_field ↦ text_where (one_of domain_event_types) same value
      | classification_field ↦ text_where (one_of device_classes) same value
      | disposition_field ↦ text_where (one_of dispositions) same value
      | treatment_state_field ↦ text_where (one_of treatment_states) same value
      | source_field ↦ text_where (λ text. given text && leb (length text) 40) strip value
    ]

-- `_normalize_condition`
unfoldable normalize_condition : Category → RawCondition → Option Condition
unfolding is_field_allowed is_op_allowed condition_value
normalize_condition category raw = if raw.extra then none else elim raw.field [
  | none ↦ none
  | some field ↦ if not (is_field_allowed category field) then none else elim raw.op [
    | none ↦ none
    | some op ↦
        if not (is_op_allowed field op) then none else elim (condition_value field raw.value) [
          | none ↦ none
          | some value ↦ some (record { field = field; op = op; value = value })
        ]
  ]
]

unfoldable normalize_conditions : Category → List RawCondition → Option (List Condition)
unfolding normalize_condition
normalize_conditions category [] = some []
normalize_conditions category (raw ∷ raws) = elim (normalize_condition category raw) [
  | none ↦ none
  | some condition ↦ elim (normalize_conditions category raws) [
    | none ↦ none
    | some conditions ↦ some (condition ∷ conditions)
  ]
]

abbrev is_event_condition : Condition → Bool
is_event_condition condition = elim condition.field [ event_type_field ↦ true | _ ↦ false ]

abbrev is_alerting : Category → Bool
is_alerting category = elim category [ alerting ↦ true | _ ↦ false ]

-- `validate_conditions`; a value that is None gives no conditions, whatever the category.
unfoldable pub validate_conditions : Category → Option (List RawCondition) → Option (List Condition)
unfolding normalize_conditions
validate_conditions category none = some []
validate_conditions category (some raws) = elim (normalize_conditions category raws) [
  | none ↦ none
  | some conditions ↦
      if is_alerting category && not (any is_event_condition conditions)
      then none
      else some conditions
]
