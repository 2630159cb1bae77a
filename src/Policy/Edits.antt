-- ===== src/Policy/Edits.antt =====
-- The changes of a rule: `create_policy`, `update_policy`, `set_policy_enabled` and `archive_policy` of
-- backend/app/policy.py, with `emit_policy_changed` of backend/app/events.py. The state is the rule and
-- the keys of the stored events; an error leaves it as it was, and the audit and the actor's columns are
-- left out.
use nuclei_dashboard.Base.{
  Bool, List, Option, [], any, false, if◌then◌else◌, is_some, map, max, none, not, some, true, ℕ,
  ◌&&◌, ◌++◌, ◌+◌, ◌==◌, ◌∷◌,
}
use nuclei_dashboard.Base.Moments.{Moment}
use nuclei_dashboard.Access.{Role, admin_role, viewer_role}
use nuclei_dashboard.Policy.{
  Condition, PolicyRule, Result, ScopeType, forbidden, global_scope, invalid, ok, policy_error,
}
use nuclei_dashboard.Policy.Conditions.{same_flag}
use nuclei_dashboard.Policy.Validation.{RawCondition}
use nuclei_dashboard.Policy.Cleaning.{Changes, Checks, Cleaned, Payload, normalize_rule_payload}

-- The idempotence key of an event: the rule's id and its revision.
abbrev pub PolicyEvent : Type 0
PolicyEvent = ℕ × ℕ

abbrev pub PolicyState : Type 0
PolicyState = PolicyRule × List PolicyEvent

abbrev pub same_event : PolicyEvent → PolicyEvent → Bool
same_event a b = a.0 == b.0 && a.1 == b.1

-- `emit_policy_changed`
unfoldable pub emit_policy_changed : PolicyRule → List PolicyEvent → List PolicyEvent
emit_policy_changed row events =
    if any (same_event (row.id, row.revision)) events
    then events
    else events ++ (row.id, row.revision) ∷ []

-- `changes.get(key, row.key)`
abbrev get {ℓ} : {A : Type ℓ} → Option A → A → A
get none default = default
get (some value) default = value

abbrev is_global : ScopeType → Bool
is_global scope_type = elim scope_type [ global_scope ↦ true | _ ↦ false ]

abbrev is_admin : Role → Bool
is_admin role = elim role [ admin_role ↦ true | _ ↦ false ]

-- `_require_write`: whether it returns.
unfoldable pub may_write : Role → ScopeType → Bool
may_write role scope_type =
    not (elim role [ viewer_role ↦ true | _ ↦ false ])
    && not (is_global scope_type && not (is_admin role))

-- `PolicyRule(**cleaned, enabled=True, revision=1, …)`; `db.add` gives the row its id.
unfoldable pub created_row : ℕ → Cleaned → PolicyRule
created_row id cleaned = record {
  id = id;
  name = cleaned.name;
  category = cleaned.category;
  scope_type = cleaned.scope.scope_type;
  tenant_id = cleaned.scope.tenant_id;
  site_id = cleaned.scope.site_id;
  network_id = cleaned.scope.network_id;
  priority = cleaned.priority;
  conditions = cleaned.conditions;
  actions = cleaned.actions;
  enabled = true;
  revision = 1;
  archived_at = none;
}

unfoldable pub create_policy : Checks → ℕ → Role → Payload → List PolicyEvent → Result PolicyState
unfolding normalize_rule_payload created_row emit_policy_changed
create_policy checks id role payload events =
    if is_global payload.scope.scope_type && not (is_admin role)
    then policy_error forbidden
    else elim (normalize_rule_payload checks payload) [
      | none ↦ policy_error invalid
      | some cleaned ↦
          (let row = created_row id cleaned in ok (row, emit_policy_changed row events))
    ]

-- A stored condition as a request would name it.
abbrev pub raw_of : Condition → RawCondition
raw_of condition = record {
  extra = false;
  field = some condition.field;
  op = some condition.op;
  value = condition.value;
}

-- `payload` of `update_policy`
unfoldable pub changed_payload : PolicyRule → Changes → Payload
changed_payload row changes =
    let actions = get changes.actions (false, row.actions) in
    record {
      name = get changes.name row.name;
      category = get changes.category row.category;
      scope = record {
        scope_type = get changes.scope_type row.scope_type;
        tenant_id = get changes.tenant_id row.tenant_id;
        site_id = get changes.site_id row.site_id;
        network_id = get changes.network_id row.network_id;
      };
      priority = get changes.priority row.priority;
      conditions = get changes.conditions (some (map raw_of row.conditions));
      other_action = actions.0;
      actions = actions.1;
    }

-- `int(row.revision or 1) + 1`
abbrev next_revision : PolicyRule → ℕ
next_revision row = max 1 row.revision + 1

-- The row with what the payload gave.
unfoldable pub updated_row : PolicyRule → Cleaned → Option Bool → PolicyRule
updated_row row cleaned enabled = record {
  id = row.id;
  name = cleaned.name;
  category = cleaned.category;
  scope_type = cleaned.scope.scope_type;
  tenant_id = cleaned.scope.tenant_id;
  site_id = cleaned.scope.site_id;
  network_id = cleaned.scope.network_id;
  priority = cleaned.priority;
  conditions = cleaned.conditions;
  actions = cleaned.actions;
  enabled = get enabled row.enabled;
  revision = next_revision row;
  archived_at = row.archived_at;
}

-- The third `_require_write` reads the same scope as the second.
unfoldable pub update_policy : Checks → Role → Changes → PolicyState → Result PolicyState
unfolding may_write normalize_rule_payload changed_payload updated_row emit_policy_changed
update_policy checks role changes (row, events) =
    let payload = changed_payload row changes in
    if not (may_write role row.scope_type)
    then policy_error forbidden
    else if is_some row.archived_at
    then policy_error invalid
    else if not (may_write role payload.scope.scope_type)
    then policy_error forbidden
    else elim (normalize_rule_payload checks payload) [
      | none ↦ policy_error invalid
      | some cleaned ↦
          (let after = updated_row row cleaned changes.enabled in
            ok (after, emit_policy_changed after events))
    ]

unfoldable pub set_policy_enabled : Role → Bool → PolicyState → Result PolicyState
unfolding may_write emit_policy_changed
set_policy_enabled role enabled (row, events) =
    let after = record row { enabled = enabled; revision = next_revision row } in
    if not (may_write role row.scope_type)
    then policy_error forbidden
    else if is_some row.archived_at
    then policy_error invalid
    else if same_flag row.enabled enabled
    then ok (row, events)
    else ok (after, emit_policy_changed after events)

unfoldable pub archive_policy : Role → Moment → PolicyState → Result PolicyState
unfolding may_write emit_policy_changed
archive_policy role now (row, events) =
    let after = record row {
      archived_at = some now;
      enabled = false;
      revision = next_revision row;
    } in
    if not (may_write role row.scope_type)
    then policy_error forbidden
    else if is_some row.archived_at
    then ok (row, events)
    else ok (after, emit_policy_changed after events)
