-- ===== src/Examples/Policies.antt =====
-- Rules of policies, and their changes.
use nuclei_dashboard.Policy.Traces.{
  PolicyTrace-IsSound, PolicyTrace-archived, archived, nothing, then_step, updated,
}
use nuclei_dashboard.Base.{
  Bool, List, [], arith, false, none, refl, some, true, ℕ, ◌<◌, ◌∷◌, ◌≡◌, ◌≤◌,
}
use nuclei_dashboard.Base.Text.{Text, codes, same_text}
use nuclei_dashboard.Access.{admin_role, user_role}
use nuclei_dashboard.Policy.{
  Condition, PolicyEvaluationContext, PolicyRule, equals, finding_lifecycle, global_scope,
  int_value, negsuc, observed_port_field, ok, pos, resolution_clean_scans_action, same_action,
  tenant_scope,
}
use nuclei_dashboard.Policy.Actions.{is_scope_shaped}
use nuclei_dashboard.Policy.Cleaning.{Changes, Checks, Payload}
use nuclei_dashboard.Policy.Resolver.{effective_threshold, evaluate, value_of}
use nuclei_dashboard.Policy.Edits.{
  PolicyState, archive_policy, create_policy, may_write, raw_of, update_policy,
}
use nuclei_dashboard.Policy.Best.{IsBest, evaluate-IsBest}
use nuclei_dashboard.Policy.Scopes.{IsInScope, winner-IsInScope}
use nuclei_dashboard.Policy.Thresholds.{AreWithin, effective_threshold-positive}
use nuclei_dashboard.Policy.Revisions.{IsSound, create_policy-IsSound, update_policy-may_write}

abbrev on_port : ℕ → Condition
on_port n = record { field = observed_port_field; op = equals; value = int_value (pos n) }

-- Three clean scans everywhere, and five in tenant 1 for what serves port 22.
abbrev everywhere : PolicyRule
everywhere = record {
  id = 1;
  name = codes "all";
  category = finding_lifecycle;
  scope_type = global_scope;
  tenant_id = none;
  site_id = none;
  network_id = none;
  priority = pos 100;
  conditions = [];
  actions = (resolution_clean_scans_action, int_value (pos 3)) ∷ [];
  enabled = true;
  revision = 1;
  archived_at = none;
}

abbrev ssh_of_one : PolicyRule
ssh_of_one = record everywhere {
  id = 2;
  scope_type = tenant_scope;
  tenant_id = some 1;
  priority = negsuc 4;
  conditions = on_port 22 ∷ [];
  actions = (resolution_clean_scans_action, int_value (pos 5)) ∷ [];
}

abbrev of_one : PolicyEvaluationContext
of_one = record {
  tenant_id = some 1;
  site_id = none;
  network_id = none;
  hostname = codes "web.example.";
  tags = [];
  criticality = codes "normal";
  is_expected = false;
  observed_ports = 22 ∷ 443 ∷ [];
  severity = none;
  priority = none;
  has_cve = none;
  current_classification = codes "Server";
  current_disposition = codes "approved";
  inference_classification = none;
  event_type = none;
  source = none;
  treatment_state = none;
}

-- The pattern `*` alone.
abbrev any_name : Text → Text → Bool
any_name name pattern = same_text pattern (codes "*")

abbrev both_rules : List PolicyRule
both_rules = everywhere ∷ ssh_of_one ∷ []

tenant_rule_wins :
    (evaluate any_name both_rules of_one).winners resolution_clean_scans_action
    ≡ some (record {
      rule = ssh_of_one;
      value = int_value (pos 5);
      overrode = some (everywhere, int_value (pos 3));
    })
unfolding evaluate same_action
tenant_rule_wins = refl

evaluate-IsBest_example :
    IsBest any_name of_one resolution_clean_scans_action both_rules
      ((evaluate any_name both_rules of_one).winners resolution_clean_scans_action)
evaluate-IsBest_example = evaluate-IsBest any_name of_one resolution_clean_scans_action both_rules

winner-IsInScope_example :
    (true ≡ true) × (everywhere.archived_at ≡ none) × IsInScope ssh_of_one of_one tenant_scope
unfolding is_scope_shaped
winner-IsInScope_example =
    winner-IsInScope any_name both_rules of_one resolution_clean_scans_action
      (record {
        rule = ssh_of_one;
        value = int_value (pos 5);
        overrode = some (everywhere, int_value (pos 3));
      })
      (refl, (refl, tt)) tenant_rule_wins

everywhere-AreWithin : AreWithin everywhere.actions
everywhere-AreWithin = (
  λ value e. ground arith,
  λ value e. (3, ground arith, omega arith, omega arith),
  λ value e. ground arith,
)

ssh_of_one-AreWithin : AreWithin ssh_of_one.actions
ssh_of_one-AreWithin = (
  λ value e. ground arith,
  λ value e. (5, ground arith, omega arith, omega arith),
  λ value e. ground arith,
)

effective_threshold-positive_example :
    (n : ℕ) × (value_of
        (effective_threshold (evaluate any_name both_rules of_one).winners (some (pos 0)))
      ≡ int_value (pos n))
    × (1 ≤ n)
effective_threshold-positive_example =
    effective_threshold-positive any_name both_rules of_one
      (everywhere-AreWithin, (ssh_of_one-AreWithin, tt)) (some (pos 0))

abbrev checks : Checks
checks = record {
  urlparse = λ url. record { scheme = url; netloc = []; username = none; password = none };
  places = record { tenants = 1 ∷ []; sites = []; networks = [] };
  tags = [];
}

abbrev request : Payload
request = record {
  name = codes " ssh  of one";
  category = finding_lifecycle;
  scope = record {
    scope_type = tenant_scope;
    tenant_id = some 1;
    site_id = none;
    network_id = none;
  };
  priority = pos 5;
  conditions = some (raw_of (on_port 22) ∷ []);
  other_action = false;
  actions = (resolution_clean_scans_action, int_value (pos 4)) ∷ [];
}

abbrev stored : PolicyRule
stored = record {
  id = 7;
  name = codes "ssh of one";
  category = finding_lifecycle;
  scope_type = tenant_scope;
  tenant_id = some 1;
  site_id = none;
  network_id = none;
  priority = pos 5;
  conditions = on_port 22 ∷ [];
  actions = (resolution_clean_scans_action, int_value (pos 4)) ∷ [];
  enabled = true;
  revision = 1;
  archived_at = none;
}

stored-is_created : create_policy checks 7 user_role request [] ≡ ok (stored, (7, 1) ∷ [])
unfolding create_policy same_action
stored-is_created = refl

abbrev without_changes : Changes
without_changes = record {
  name = none;
  category = none;
  scope_type = none;
  tenant_id = none;
  site_id = none;
  network_id = none;
  priority = none;
  conditions = none;
  actions = none;
  enabled = none;
}

abbrev preferred_more : Changes
preferred_more = record without_changes { priority = some (pos 9) }

abbrev second : PolicyState
second = (record stored { priority = pos 9; revision = 2 }, (7, 1) ∷ (7, 2) ∷ [])

second-is_updated : update_policy checks user_role preferred_more (stored, (7, 1) ∷ []) ≡ ok second
unfolding update_policy same_action
second-is_updated = refl

update_policy-may_write_example :
    (may_write user_role tenant_scope ≡ true)
    × (may_write user_role tenant_scope ≡ true)
    × (stored.archived_at ≡ none)
    × (1 < 2)
update_policy-may_write_example =
    update_policy-may_write checks user_role preferred_more (stored, (7, 1) ∷ []) second
      second-is_updated

abbrev third : PolicyState
third = (
  record stored { priority = pos 9; revision = 3; enabled = false; archived_at = some 50 },
  (7, 1) ∷ (7, 2) ∷ (7, 3) ∷ [],
)

third-is_archived : archive_policy admin_role 50 second ≡ ok third
unfolding archive_policy
third-is_archived = refl

PolicyTrace-IsSound_example : IsSound third
PolicyTrace-IsSound_example =
    PolicyTrace-IsSound
      (then_step (then_step nothing (updated checks user_role preferred_more second-is_updated))
        (archived admin_role 50 third-is_archived))
      (create_policy-IsSound checks 7 user_role request [] (stored, (7, 1) ∷ []) tt
        stored-is_created)

third-again : archive_policy admin_role 60 third ≡ ok third
unfolding archive_policy
third-again = refl

PolicyTrace-archived_example : third ≡ third
PolicyTrace-archived_example =
    PolicyTrace-archived (then_step nothing (archived admin_role 60 third-again)) refl
