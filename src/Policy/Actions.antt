-- ===== src/Policy/Actions.antt =====
-- The checks of a rule's actions, and of the scope that it names: `validate_actions`,
-- `validate_webhook_action`, `validate_webhook_url`, `validate_scope_shape` and
-- `validate_scope_objects`. `urlparse` is the function of Python's library.
use nuclei_dashboard.Base.{
  Bool, List, Option, [], any, contains, false, if◌then◌else◌, is_some, is_value, none, not, some,
  true, ℕ, ◌&&◌, ◌||◌, ◌∷◌,
}
use nuclei_dashboard.Base.Text.{Text, is_empty, one_of, strip}
use nuclei_dashboard.Policy.{
  ActionName, ActionValue, Category, ScopeType, alerting, asset_handling, asset_inactivity,
  classification_action, dashboard_action, disposition_action, email_action, finding_lifecycle,
  flag_value, global_scope, inactive_after_days_action, int_value, network_scope, null_value,
  resolution_clean_scans_action, severity_action, site_scope, suppress_for_minutes_action,
  tenant_scope, text_value, webhook_action, webhook_value,
}
use nuclei_dashboard.Policy.Precedence.{lookup}
use nuclei_dashboard.Policy.Validation.{
  ParsedUrl, alert_severities, as_bool, device_classes, dispositions, email_modes, flag_of,
  int_within, text_where,
}

-- `ACTIONS_BY_CATEGORY`
unfoldable is_action_allowed : Category → ActionName → Bool
is_action_allowed category action = elim category [
  | asset_handling ↦ elim action [
    | classification_action ↦ true
    | disposition_action ↦ true
    | _ ↦ false
  ]
  | asset_inactivity ↦ elim action [ inactive_after_days_action ↦ true | _ ↦ false ]
  | finding_lifecycle ↦ elim action [ resolution_clean_scans_action ↦ true | _ ↦ false ]
  | alerting ↦ elim action [
    | severity_action ↦ true
    | dashboard_action ↦ true
    | email_action ↦ true
    | webhook_action ↦ true
    | suppress_for_minutes_action ↦ true
    | _ ↦ false
  ]
]

-- The keys in the order in which they are checked.
abbrev pub action_names : List ActionName
action_names =
    classification_action ∷ disposition_action ∷ inactive_after_days_action
    ∷ resolution_clean_scans_action ∷ severity_action ∷ dashboard_action ∷ email_action
    ∷ webhook_action ∷ suppress_for_minutes_action ∷ []

-- `bool(text)` for a text that may be None
abbrev is_filled : Option Text → Bool
is_filled none = false
is_filled (some text) = not (is_empty text)

module _ (urlparse : Text → ParsedUrl) where
  unfoldable validate_webhook_url : Text → Option Text
  validate_webhook_url url =
      let parsed = urlparse url in
      if not (one_of ("http" ∷ "https" ∷ []) parsed.scheme)
      then none
      else if is_empty parsed.netloc
      then none
      else if is_filled parsed.username || is_filled parsed.password
      then none
      else if contains url 32
      then none
      else some url

  -- `validate_webhook_action`, of an object whose flag has been read by `_as_bool`.
  unfoldable validate_webhook_action : ActionValue → Option ActionValue
  unfolding validate_webhook_url
  validate_webhook_action (webhook_value false url) = some (webhook_value false none)
  validate_webhook_action (webhook_value true none) = none
  validate_webhook_action (webhook_value true (some url)) =
      if is_empty (strip url) then none else elim (validate_webhook_url (strip url)) [
        | none ↦ none
        | some checked ↦ some (webhook_value true (some checked))
      ]
  validate_webhook_action null_value = none
  validate_webhook_action (flag_value flag) = none
  validate_webhook_action (int_value n) = none
  validate_webhook_action (text_value text) = none

  -- The value that is kept for a key.
  unfoldable pub action_value : ActionName → ActionValue → Option ActionValue
  unfolding as_bool int_within validate_webhook_action
  action_value action value = elim action [
    | classification_action ↦ text_where (one_of device_classes) (λ text. text) value
    | disposition_action ↦ text_where (one_of dispositions) (λ text. text) value
    | inactive_after_days_action ↦ int_within 1 3650 value
    | resolution_clean_scans_action ↦ int_within 1 30 value
    | severity_action ↦ text_where (one_of alert_severities) (λ text. text) value
    | dashboard_action ↦ flag_of (as_bool value)
    | email_action ↦ text_where (one_of email_modes) (λ text. text) value
    | webhook_action ↦ validate_webhook_action value
    | suppress_for_minutes_action ↦ int_within 0 43200 value
  ]

  -- `if key in raw: … cleaned[key] = …`, key by key.
  unfoldable pub clean_actions :
      List ActionName → List (ActionName × ActionValue) → Option (List (ActionName × ActionValue))
  unfolding action_value
  clean_actions [] raw = some []
  clean_actions (action ∷ names) raw = elim (lookup action raw) [
    | none ↦ clean_actions names raw
    | some value ↦ elim (action_value action value) [
      | none ↦ none
      | some kept ↦ elim (clean_actions names raw) [
        | none ↦ none
        | some items ↦ some ((action, kept) ∷ items)
      ]
    ]
  ]

  -- `validate_actions`; `other` says whether there is a key that is no action's name.
  unfoldable pub validate_actions :
      Category → Bool → List (ActionName × ActionValue) → Option (List (ActionName × ActionValue))
  unfolding clean_actions is_action_allowed
  validate_actions category other [] = none
  validate_actions category other (item ∷ items) =
      if other || any (λ x. not (is_action_allowed category x.0)) (item ∷ items)
      then none
      else clean_actions action_names (item ∷ items)

-- A scope, as the request names it.
pub record PolicyScope : Type 0 where
  pub scope_type : ScopeType
  pub tenant_id : Option ℕ
  pub site_id : Option ℕ
  pub network_id : Option ℕ

-- `validate_scope_shape`: whether it returns.
unfoldable pub is_scope_shaped : PolicyScope → Bool
is_scope_shaped scope = elim scope.scope_type [
  | global_scope ↦
      not (is_some scope.tenant_id || (is_some scope.site_id || is_some scope.network_id))
  | tenant_scope ↦
      not (not (is_some scope.tenant_id) || (is_some scope.site_id || is_some scope.network_id))
  | site_scope ↦
      not
        (not (is_some scope.tenant_id) || (not (is_some scope.site_id) || is_some scope.network_id))
  | network_scope ↦ not (
      not (is_some scope.tenant_id)
      || (not (is_some scope.site_id) || not (is_some scope.network_id)))
]

-- The tenants, the sites with their tenant, and the networks with their site and tenant.
pub record Places : Type 0 where
  pub tenants : List ℕ
  pub sites : List (ℕ × ℕ)
  pub networks : List (ℕ × ℕ × ℕ)

abbrev is_site : Option ℕ → Option ℕ → ℕ × ℕ → Bool
is_site site_id tenant_id site = is_value site_id site.0 && is_value tenant_id site.1

abbrev is_network : Option ℕ → Option ℕ → Option ℕ → ℕ × ℕ × ℕ → Bool
is_network network_id site_id tenant_id network =
    is_value network_id network.0 && (is_value site_id network.1 && is_value tenant_id network.2)

-- `validate_scope_objects`: whether it returns, the ids of sites and networks being unique.
unfoldable pub are_scope_objects : Places → PolicyScope → Bool
unfolding is_scope_shaped
are_scope_objects places scope =
    let tenant : Bool = elim scope.tenant_id [
      | none ↦ false
      | some id ↦ contains places.tenants id
    ] in
    let site = any (is_site scope.site_id scope.tenant_id) places.sites in
    let network = any (is_network scope.network_id scope.site_id scope.tenant_id) places.networks in
    is_scope_shaped scope && elim scope.scope_type [
      | global_scope ↦ true
      | tenant_scope ↦ tenant
      | site_scope ↦ tenant && site
      | network_scope ↦ tenant && (site && network)
    ]
