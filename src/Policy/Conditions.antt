-- ===== src/Policy/Conditions.antt =====
-- Whether a rule is in scope and its conditions match: `_scope_applies` and `_match_condition`.
-- `fnmatch` is the function of Python's library. A stored condition was validated, so its value has
-- the type of its field; a value of any other type does not match here.
use nuclei_dashboard.Base.{
  Bool, List, Option, [], any, contains, false, if◌then◌else◌, is_some, none, not, some, true, ℕ,
  ◌&&◌, ◌==◌, ◌∷◌,
}
use nuclei_dashboard.Base.Text.{
  Text, codes, drop_trailing, is_empty, join_words, lower, same_text, split_words, starts_with,
  strip,
}
use nuclei_dashboard.Policy.{
  Condition, ConditionField, Operator, PolicyEvaluationContext, PolicyRule, classification_field,
  criticality_field, disposition_field, equals, event_type_field, flag_value, global_scope, has,
  has_cve_field, hostname_field, int_value, is_expected_field, network_scope, observed_port_field,
  pos, priority_field, severity_field, site_scope, source_field, tag_field, tenant_scope,
  text_value, treatment_state_field,
}

-- `text[2:]`
abbrev drop_two : Text → Text
drop_two [] = []
drop_two (a ∷ []) = []
drop_two (a ∷ b ∷ rest) = rest

-- `normalize_hostname` of backend/app/classify.py
unfoldable normalize_hostname : Text → Text
normalize_hostname value =
    let name = lower (drop_trailing (λ c. c == b'.') (strip value)) in
    elim (starts_with (codes "*.") name) [ true ↦ drop_two name | false ↦ name ]

-- `normalize_tag_name` of backend/app/assets.py
unfoldable pub normalize_tag_name : Text → Text
normalize_tag_name value = lower (join_words (split_words (strip value)))

-- `a == b` for optional numbers
unfoldable pub same_id : Option ℕ → Option ℕ → Bool
same_id none none = true
same_id none (some b) = false
same_id (some a) none = false
same_id (some a) (some b) = a == b

-- `text or ""`
abbrev text_or_empty : Option Text → Text
text_or_empty none = []
text_or_empty (some text) = text

-- `current == value` for an optional text
unfoldable is_text : Option Text → Text → Bool
is_text none value = false
is_text (some text) value = same_text text value

-- `bool(flag)` for an optional flag
abbrev flag_or_false : Option Bool → Bool
flag_or_false none = false
flag_or_false (some flag) = flag

abbrev pub same_flag : Bool → Bool → Bool
same_flag a b = if a then b else not b

-- `_scope_applies`, without its reason
unfoldable pub scope_applies : PolicyRule → PolicyEvaluationContext → Bool
unfolding same_id
scope_applies rule context = elim rule.scope_type [
  | global_scope ↦ true
  | tenant_scope ↦ is_some context.tenant_id && same_id context.tenant_id rule.tenant_id
  | site_scope ↦
      is_some context.site_id
      && (same_id context.site_id rule.site_id && same_id context.tenant_id rule.tenant_id)
  | network_scope ↦
      is_some context.network_id
      && (same_id context.network_id rule.network_id
          && (same_id context.site_id rule.site_id && same_id context.tenant_id rule.tenant_id))
]

module _ (fnmatch : Text → Text → Bool) where
  -- The branch of a hostname.
  unfoldable match_hostname : Operator → Text → Text → Bool
  unfolding normalize_hostname
  match_hostname op value hostname =
      if is_empty (normalize_hostname hostname) then false else elim op [
        | equals ↦ same_text (normalize_hostname hostname) (normalize_hostname (lower value))
        | _ ↦ fnmatch (normalize_hostname hostname) (lower value)
      ]

  -- The branch of a tag.
  unfoldable match_tag : Operator → Text → List Text → Bool
  unfolding normalize_tag_name
  match_tag op value tags =
      let has_tag = any (same_text (normalize_tag_name value)) tags in
      elim op [ has ↦ has_tag | _ ↦ not has_tag ]

  -- The fields that are compared with a text.
  unfoldable match_text : ConditionField → Operator → Text → PolicyEvaluationContext → Bool
  unfolding match_hostname match_tag is_text
  match_text field op value context = elim field [
    | hostname_field ↦ match_hostname op value context.hostname
    | tag_field ↦ match_tag op value context.tags
    | criticality_field ↦ same_text context.criticality value
    | severity_field ↦ same_text (lower (text_or_empty context.severity)) value
    | priority_field ↦ same_text (lower (text_or_empty context.priority)) value
    | event_type_field ↦ is_text context.event_type value
    | classification_field ↦ same_text context.current_classification value
    | disposition_field ↦ same_text context.current_disposition value
    | treatment_state_field ↦ is_text context.treatment_state value
    | source_field ↦ is_text context.source value
    | _ ↦ false
  ]

  -- `_match_condition`, its flag `matched`
  unfoldable match_condition : Condition → PolicyEvaluationContext → Bool
  unfolding match_text
  match_condition condition context = elim condition.value [
    | text_value text ↦ match_text condition.field condition.op text context
    | flag_value flag ↦ elim condition.field [
      | is_expected_field ↦ same_flag context.is_expected flag
      | has_cve_field ↦ same_flag (flag_or_false context.has_cve) flag
      | _ ↦ false
    ]
    | int_value (pos n) ↦ elim condition.field [
      | observed_port_field ↦ contains context.observed_ports n
      | _ ↦ false
    ]
    | _ ↦ false
  ]

  -- `all(item.matched for item in explanations)`
  unfoldable pub all_match : List Condition → PolicyEvaluationContext → Bool
  unfolding match_condition
  all_match [] context = true
  all_match (condition ∷ conditions) context =
      match_condition condition context && all_match conditions context
