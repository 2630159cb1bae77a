-- ===== src/Policy/Revisions.antt =====
-- What each change of a rule keeps.
use nuclei_dashboard.Policy.Conditions.{same_flag}
use nuclei_dashboard.Base.{
  All, All-append, Bool, Bool-cases, List, Option-cases, [], any, any-append, arith, false, inl,
  inr, is_some, max, none, refl, some, subst, sym, true, ℕ, ◌++◌, ◌+◌, ◌<◌, ◌∙◌, ◌∷◌, ◌≡◌, ◌≢◌, ◌≤◌,
}
use nuclei_dashboard.Base.Moments.{Moment}
use nuclei_dashboard.Access.{Role}
use nuclei_dashboard.Policy.{PolicyRule, ok}
use nuclei_dashboard.Policy.Validation.{validate_conditions}
use nuclei_dashboard.Policy.Actions.{are_scope_objects, is_scope_shaped, validate_actions}
use nuclei_dashboard.Policy.Cleaning.{Changes, Checks, Cleaned, Payload, normalize_rule_payload}
use nuclei_dashboard.Policy.Edits.{
  PolicyEvent, PolicyState, archive_policy, changed_payload, create_policy, created_row,
  emit_policy_changed, may_write, same_event, set_policy_enabled, update_policy, updated_row,
}
use nuclei_dashboard.Policy.Scopes.{scope_of}
use nuclei_dashboard.Policy.Thresholds.{AreWithin, validate_actions-AreWithin}

-- An event that does not run ahead of the rule.
abbrev IsPast : PolicyRule → PolicyEvent → Type 0
IsPast row event = event.0 ≡ row.id → event.1 ≤ row.revision

-- A rule as it is stored: its scope has its shape, the numbers of its actions are within their bounds,
-- it is disabled once archived, and its current revision is announced by an event, the last one.
pub record IsSound (state : PolicyState) : Type 0 where
  pub shaped : is_scope_shaped (scope_of state.0) ≡ true
  pub within : AreWithin state.0.actions
  pub retired : is_some state.0.archived_at ≡ true → state.0.enabled ≡ false
  pub announced : any (same_event (state.0.id, state.0.revision)) state.1 ≡ true
  pub last : All (IsPast state.0) state.1

payload-shaped :
    (checks : Checks) (payload : Payload) (cleaned : Cleaned)
    → normalize_rule_payload checks payload ≡ some cleaned
    → (is_scope_shaped cleaned.scope ≡ true)
      × AreWithin cleaned.actions
      × (cleaned.scope ≡ payload.scope)
unfolding normalize_rule_payload are_scope_objects
payload-shaped checks payload cleaned h =
    elim (Option-cases (validate_conditions payload.category payload.conditions)) [
      | inl refused ↦ ground arith
      | inr conditions ↦
          (let c = conditions.1 in
            elim (Option-cases (
              validate_actions checks.urlparse payload.category payload.other_action
                payload.actions)) [
                  | inl refused ↦ ground arith
                  | inr actions ↦
                      (let a = actions.1 in
                        let e : cleaned.actions ≡ actions.0 = ground arith in
                        (
                          ground arith,
                          subst AreWithin (sym e) (
                              validate_actions-AreWithin checks.urlparse payload.category
                                payload.other_action payload.actions actions.0 a),
                          ground arith,
                        ))
                ])
    ]

All-IsPast :
    (row after : PolicyRule) (events : List PolicyEvent)
    → after.id ≡ row.id
    → row.revision ≤ after.revision
    → All (IsPast row) events
    → All (IsPast after) events
All-IsPast row after [] same grows h = tt
All-IsPast row after (event ∷ events) same grows h = (
  λ e. (let b = h.0 (e ∙ same) in omega (arith, b, grows)),
  All-IsPast row after events same grows h.1,
)

-- An event of a rule's current revision is stored, and no later one is.
emit-announced :
    (row : PolicyRule) (events : List PolicyEvent)
    → All (IsPast row) events
    → (any (same_event (row.id, row.revision)) (emit_policy_changed row events) ≡ true)
      × All (IsPast row) (emit_policy_changed row events)
unfolding emit_policy_changed
emit-announced row events past =
    let a = any-append (same_event (row.id, row.revision)) events ((row.id, row.revision) ∷ []) in
    (
      ground arith,
      (elim (Bool-cases (any (same_event (row.id, row.revision)) events)) [
        | inl stored ↦
            (let e : emit_policy_changed row events ≡ events = ground arith in
              subst (All (IsPast row)) (sym e) past)
        | inr fresh ↦
            (let e : emit_policy_changed row events ≡ (events ++ ((row.id, row.revision) ∷ [])) =
                ground arith in
              subst (All (IsPast row)) (sym e) (
                All-append (IsPast row) events ((row.id, row.revision) ∷ []) past
                  (λ _. omega arith, tt)))
      ]),
    )

-- A later revision of the rule is sound with its event.
changed-IsSound :
    (row after : PolicyRule) (events : List PolicyEvent)
    → after.id ≡ row.id
    → row.revision ≤ after.revision
    → is_scope_shaped (scope_of after) ≡ true
    → AreWithin after.actions
    → (is_some after.archived_at ≡ true → after.enabled ≡ false)
    → IsSound (row, events)
    → IsSound (after, emit_policy_changed after events)
changed-IsSound row after events same grows shaped within retired h =
    let e = emit-announced after events (All-IsPast row after events same grows h.last) in
    record { shaped = shaped; within = within; retired = retired; announced = e.0; last = e.1 }

pub update_policy-IsSound :
    (checks : Checks) (role : Role) (changes : Changes) (row : PolicyRule)
    (events : List PolicyEvent) (after : PolicyState)
    → IsSound (row, events)
    → update_policy checks role changes (row, events) ≡ ok after
    → IsSound after
unfolding update_policy updated_row
update_policy-IsSound checks role changes row events after h e =
    let payload = changed_payload row changes in
    elim (Option-cases (normalize_rule_payload checks payload)) [
      | inl refused ↦ ground arith
      | inr there ↦
          (let c = there.1 in
            let s = payload-shaped checks payload there.0 c in
            let row' = updated_row row there.0 changes.enabled in
            let f : (row', emit_policy_changed row' events) ≡ after = ground arith in
            subst IsSound f
              (changed-IsSound row row' events refl (omega arith) s.0 s.1 (ground arith) h))
    ]

pub set_policy_enabled-IsSound :
    (role : Role) (enabled : Bool) (row : PolicyRule) (events : List PolicyEvent)
    (after : PolicyState)
    → IsSound (row, events)
    → set_policy_enabled role enabled (row, events) ≡ ok after
    → IsSound after
unfolding set_policy_enabled
set_policy_enabled-IsSound role enabled row events after h e =
    let row' = record row { enabled = enabled; revision = max 1 row.revision + 1 } in
    elim (Bool-cases (same_flag row.enabled enabled)) [
      | inl same ↦ (let f : (row, events) ≡ after = ground arith in subst IsSound f h)
      | inr differs ↦
          (let f : (row', emit_policy_changed row' events) ≡ after = ground arith in
            subst IsSound f (
              changed-IsSound row row' events refl (omega arith) h.shaped h.within (ground arith)
                h))
    ]

pub archive_policy-IsSound :
    (role : Role) (now : Moment) (row : PolicyRule) (events : List PolicyEvent)
    (after : PolicyState)
    → IsSound (row, events)
    → archive_policy role now (row, events) ≡ ok after
    → IsSound after
unfolding archive_policy
archive_policy-IsSound role now row events after h e =
    let row' = record row {
      archived_at = some now;
      enabled = false;
      revision = max 1 row.revision + 1;
    } in
    elim (Bool-cases (is_some row.archived_at)) [
      | inl already ↦ (let f : (row, events) ≡ after = ground arith in subst IsSound f h)
      | inr open_rule ↦
          (let f : (row', emit_policy_changed row' events) ≡ after = ground arith in
            subst IsSound f
              (changed-IsSound row row' events refl (omega arith) h.shaped h.within (λ _. refl) h))
    ]

fresh-IsPast :
    (row : PolicyRule) (events : List PolicyEvent)
    → All (λ event. event.0 ≢ row.id) events
    → All (IsPast row) events
fresh-IsPast row [] h = tt
fresh-IsPast row (event ∷ events) h = (λ e. elim (h.0 e) [ ], fresh-IsPast row events h.1)

-- A rule that is created is sound, where no event of its id is stored.
pub create_policy-IsSound :
    (checks : Checks) (id : ℕ) (role : Role) (payload : Payload) (events : List PolicyEvent)
    (after : PolicyState)
    → All (λ event. event.0 ≢ id) events
    → create_policy checks id role payload events ≡ ok after
    → IsSound after
unfolding create_policy created_row
create_policy-IsSound checks id role payload events after fresh e =
    elim (Option-cases (normalize_rule_payload checks payload)) [
      | inl refused ↦ ground arith
      | inr there ↦
          (let c = there.1 in
            let s = payload-shaped checks payload there.0 c in
            let row = created_row id there.0 in
            let f : (row, emit_policy_changed row events) ≡ after = ground arith in
            let a = emit-announced row events (fresh-IsPast row events fresh) in
            let sound : IsSound (row, emit_policy_changed row events) = record {
              shaped = s.0;
              within = s.1;
              retired = λ impossible. ground arith;
              announced = a.0;
              last = a.1;
            } in
            subst IsSound f sound)
    ]

-- A change that succeeds is by a user who may write the scope that the rule had, and the scope that it
-- then has: no viewer, and for a global rule only an admin.
pub update_policy-may_write :
    (checks : Checks) (role : Role) (changes : Changes) (before after : PolicyState)
    → update_policy checks role changes before ≡ ok after
    → (may_write role before.0.scope_type ≡ true)
      × (may_write role after.0.scope_type ≡ true)
      × (before.0.archived_at ≡ none)
      × (before.0.revision < after.0.revision)
unfolding update_policy updated_row
update_policy-may_write checks role changes before after e =
    let row = before.0 in
    let payload = changed_payload row changes in
    elim (Option-cases (normalize_rule_payload checks payload)) [
      | inl refused ↦ ground arith
      | inr there ↦
          (let c = there.1 in
            let s = payload-shaped checks payload there.0 c in
            let f : after.0.scope_type ≡ payload.scope.scope_type = ground (arith, s.2) in
            (
              ground arith,
              rw f (ground arith),
              (elim (Option-cases row.archived_at) [
                | inl e ↦ e
                | inr was ↦ (let w = was.1 in ground arith)
              ]),
              ground arith,
            ))
    ]
