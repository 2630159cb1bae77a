-- ===== src/Policy/Resolver.antt =====
-- The resolver: `PolicyResolver.evaluate` over the rules of a category in the order of their ids.
use nuclei_dashboard.Base.{
  Bool, List, Option, [], false, if◌then◌else◌, is_some, ltb, max, none, not, some, true, ℕ, ◌&&◌,
  ◌++◌, ◌∷◌,
}
use nuclei_dashboard.Base.Text.{Text, codes, is_empty}
use nuclei_dashboard.Policy.{
  ActionName, ActionValue, PolicyEvaluationContext, PolicyRule, classification_action,
  disposition_action, inactive_after_days_action, int_value, less, negsuc, pos,
  resolution_clean_scans_action, same_action, scope_rank, text_value, ℤ,
}
use nuclei_dashboard.Policy.Conditions.{all_match, scope_applies}

-- `next_key > current_key` of `_rule_sort_key`: the rank of the scope, the priority, the lower id.
unfoldable pub outranks : PolicyRule → PolicyRule → Bool
unfolding scope_rank less
outranks next current =
    if ltb (scope_rank current.scope_type) (scope_rank next.scope_type)
    then true
    else if ltb (scope_rank next.scope_type) (scope_rank current.scope_type)
    then false
    else if less current.priority next.priority
    then true
    else if less next.priority current.priority
    then false
    else ltb next.id current.id

-- `ActionExplanation` of a policy; what it overrode is the rule and the value before it.
pub record Winner : Type 0 where
  pub rule : PolicyRule
  pub value : ActionValue
  pub overrode : Option (PolicyRule × ActionValue)

abbrev pub Winners : Type 0
Winners = ActionName → Option Winner

unfoldable pub no_winners : Winners
no_winners action = none

-- `winners[action] = candidate`
unfoldable pub put_winner : ActionName → Winner → Winners → Winners
unfolding same_action
put_winner action candidate winners key =
    if same_action action key then some candidate else winners key

-- One item of a matched rule's actions.
unfoldable pub offer : PolicyRule → ActionName → ActionValue → Winners → Winners
unfolding outranks put_winner
offer rule action value winners = elim (winners action) [
  | none ↦ put_winner action (record { rule = rule; value = value; overrode = none }) winners
  | some current ↦
      if outranks rule current.rule
      then put_winner action
          (record { rule = rule; value = value; overrode = some (current.rule, current.value) })
          winners
      else winners
]

-- The inner loop.
unfoldable pub offer_all : PolicyRule → List (ActionName × ActionValue) → Winners → Winners
unfolding offer
offer_all rule [] winners = winners
offer_all rule (item ∷ items) winners = offer_all rule items (offer rule item.0 item.1 winners)

-- `ConsideredRule`, its flags
pub record ConsideredRule : Type 0 where
  pub rule_id : ℕ
  pub applicable : Bool
  pub matched : Bool
  pub enabled : Bool
  pub archived : Bool

pub record PolicyEvaluation : Type 0 where
  pub considered : List ConsideredRule
  pub matched_rules : List PolicyRule
  pub winners : Winners

-- What the loop keeps of a rule.
unfoldable pub note_rule : PolicyRule → ConsideredRule → PolicyEvaluation → PolicyEvaluation
unfolding offer_all
note_rule rule entry state = record {
  considered = state.considered ++ (entry ∷ []);
  matched_rules =
      (if entry.matched then state.matched_rules ++ (rule ∷ []) else state.matched_rules);
  winners = (if entry.matched then offer_all rule rule.actions state.winners else state.winners);
}

module _ (fnmatch : Text → Text → Bool) where
  -- One rule of the outer loop: its entry, and whether it matched.
  unfoldable pub consider : PolicyRule → PolicyEvaluationContext → ConsideredRule
  unfolding scope_applies all_match
  consider rule context =
      if is_some rule.archived_at
      then record {
        rule_id = rule.id;
        applicable = false;
        matched = false;
        enabled = rule.enabled;
        archived = true;
      }
      else if not rule.enabled
      then record {
        rule_id = rule.id;
        applicable = false;
        matched = false;
        enabled = false;
        archived = false;
      }
      else record {
        rule_id = rule.id;
        applicable = scope_applies rule context;
        matched = scope_applies rule context && all_match fnmatch rule.conditions context;
        enabled = true;
        archived = false;
      }

  -- The outer loop, from the rules seen so far.
  unfoldable pub evaluate_loop :
      List PolicyRule → PolicyEvaluationContext → PolicyEvaluation → PolicyEvaluation
  unfolding consider note_rule
  evaluate_loop [] context state = state
  evaluate_loop (rule ∷ rules) context state =
      evaluate_loop rules context (note_rule rule (consider rule context) state)

  unfoldable pub evaluate : List PolicyRule → PolicyEvaluationContext → PolicyEvaluation
  unfolding evaluate_loop no_winners
  evaluate rules context =
      evaluate_loop rules context
        (record { considered = []; matched_rules = []; winners = no_winners })

-- What an action is worth where no rule names it, and where the value comes from.
pub data Explanation : Type 0 where
  by_policy : Winner → Explanation
  by_default : ActionValue → Explanation

unfoldable pub value_of : Explanation → ActionValue
value_of (by_policy winner) = winner.value
value_of (by_default value) = value

-- `if winner is None: winner = _fallback_action(…)`
unfoldable pub or_default : Option Winner → ActionValue → Explanation
or_default none value = by_default value
or_default (some winner) value = by_policy winner

-- `text or default`
abbrev truthy_or : Option Text → Text → Text
truthy_or none default = default
truthy_or (some text) default = if is_empty text then default else text

-- The explanations of `classification` and `disposition`.
unfoldable effective_handling : Winners → PolicyEvaluationContext → Explanation × Explanation
unfolding or_default
effective_handling winners context = (
  or_default (winners classification_action) (
      text_value (
        truthy_or context.inference_classification
          (truthy_or (some context.current_classification) (codes "Unknown")))),
  or_default (winners disposition_action)
      (text_value (truthy_or (some context.current_disposition) (codes "unreviewed"))),
)

-- `max(1, value)` on an integer
unfoldable pub at_least_one : ℤ → ℤ
at_least_one (pos n) = pos (max 1 n)
at_least_one (negsuc n) = pos 1

-- `fallback_inactive_days` and `fallback_resolution_clean_scans`: the setting, if it is an integer.
unfoldable fallback_inactive_days : Option ℤ → ℤ
unfolding at_least_one
fallback_inactive_days none = pos 30
fallback_inactive_days (some raw) = at_least_one raw

unfoldable pub fallback_resolution_clean_scans : Option ℤ → ℤ
unfolding at_least_one
fallback_resolution_clean_scans none = at_least_one (pos 2)
fallback_resolution_clean_scans (some raw) = at_least_one raw

unfoldable effective_inactivity : Winners → Option ℤ → Explanation
unfolding or_default fallback_inactive_days
effective_inactivity winners setting =
    or_default (winners inactive_after_days_action) (int_value (fallback_inactive_days setting))

unfoldable pub effective_threshold : Winners → Option ℤ → Explanation
unfolding or_default fallback_resolution_clean_scans
effective_threshold winners setting =
    or_default (winners resolution_clean_scans_action)
      (int_value (fallback_resolution_clean_scans setting))
