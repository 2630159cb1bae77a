-- ===== src/Policy/Cleaning.antt =====
-- What a request says of a rule, and `normalize_rule_payload` of backend/app/policy.py. A scope that
-- names what is not there (a 404) counts as invalid here.
use nuclei_dashboard.Base.{
  Bool, List, Option, any, if◌then◌else◌, none, not, some, true, ℕ, ◌&&◌, ◌==◌,
}
use nuclei_dashboard.Base.Text.{Text, is_empty, join_words, same_text, split_words}
use nuclei_dashboard.Policy.{
  ActionName, ActionValue, Category, Condition, ScopeType, tag_field, text_value, ℤ,
}
use nuclei_dashboard.Policy.Conditions.{normalize_tag_name}
use nuclei_dashboard.Policy.Validation.{ParsedUrl, RawCondition, validate_conditions}
use nuclei_dashboard.Policy.Actions.{Places, PolicyScope, are_scope_objects, validate_actions}

pub record Payload : Type 0 where
  pub name : Text
  pub category : Category
  pub scope : PolicyScope
  pub priority : ℤ
  pub conditions : Option (List RawCondition)
  pub other_action : Bool
  pub actions : List (ActionName × ActionValue)

-- `changes`: a key that is absent is `none`.
pub record Changes : Type 0 where
  pub name : Option Text
  pub category : Option Category
  pub scope_type : Option ScopeType
  pub tenant_id : Option (Option ℕ)
  pub site_id : Option (Option ℕ)
  pub network_id : Option (Option ℕ)
  pub priority : Option ℤ
  pub conditions : Option (Option (List RawCondition))
  pub actions : Option (Bool × List (ActionName × ActionValue))
  pub enabled : Option Bool

-- The tables and the library that a payload is checked against.
pub record Checks : Type 0 where
  pub urlparse : Text → ParsedUrl
  pub places : Places
  pub tags : List (ℕ × Text)

abbrev is_tag_known : List (ℕ × Text) → ℕ → Condition → Bool
is_tag_known tags tenant_id condition = elim condition.field [
  | tag_field ↦ elim condition.value [
    | text_value text ↦ any (λ t. t.0 == tenant_id && same_text t.1 (normalize_tag_name text)) tags
    | _ ↦ true
  ]
  | _ ↦ true
]

-- `_validate_tag_exists`: whether it returns.
unfoldable are_tags_known : List (ℕ × Text) → Option ℕ → List Condition → Bool
are_tags_known tags none conditions = true
are_tags_known tags (some tenant_id) conditions =
    not (any (λ condition. not (is_tag_known tags tenant_id condition)) conditions)

-- What `normalize_rule_payload` gives.
pub record Cleaned : Type 0 where
  pub name : Text
  pub category : Category
  pub scope : PolicyScope
  pub priority : ℤ
  pub conditions : List Condition
  pub actions : List (ActionName × ActionValue)

unfoldable pub normalize_rule_payload : Checks → Payload → Option Cleaned
unfolding are_scope_objects validate_conditions validate_actions are_tags_known
normalize_rule_payload checks payload =
    let name = join_words (split_words payload.name) in
    if is_empty name
    then none
    else if not (are_scope_objects checks.places payload.scope)
    then none
    else elim (validate_conditions payload.category payload.conditions) [
      | none ↦ none
      | some conditions ↦
          elim (validate_actions checks.urlparse payload.category payload.other_action
            payload.actions) [
              | none ↦ none
              | some actions ↦
                  if not (are_tags_known checks.tags payload.scope.tenant_id conditions)
                  then none
                  else some (record {
                    name = name;
                    category = payload.category;
                    scope = payload.scope;
                    priority = payload.priority;
                    conditions = conditions;
                    actions = actions;
                  })
            ]
    ]
