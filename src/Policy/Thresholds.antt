-- ===== src/Policy/Thresholds.antt =====
-- The numbers of a rule's actions stay within their bounds.
use nuclei_dashboard.Policy.Best.{All-Memᴰ, IsBest, evaluate-IsBest}
use nuclei_dashboard.Policy.Resolver.{
  Winner, at_least_one, effective_threshold, evaluate, fallback_resolution_clean_scans, or_default,
  value_of,
}
use nuclei_dashboard.Base.{
  All, Bool, Bool-cases, List, Option, Option-cases, [], arith, inl, inr, max, none, refl, some,
  subst, ℕ, ◌∷◌, ◌≡◌, ◌≤◌,
}
use nuclei_dashboard.Base.Text.{Text}
use nuclei_dashboard.Policy.{
  ActionName, ActionValue, Category, PolicyEvaluationContext, PolicyRule, flag_value,
  inactive_after_days_action, int_value, negsuc, null_value, pos, resolution_clean_scans_action,
  same_action, suppress_for_minutes_action, text_value, webhook_value, ℤ,
}
use nuclei_dashboard.Policy.Validation.{ParsedUrl, int_within}
use nuclei_dashboard.Policy.Actions.{action_names, action_value, clean_actions, validate_actions}
use nuclei_dashboard.Policy.Precedence.{lookup, same_action→≡}

-- An integer from `lo` to `hi`.
abbrev IsWithin : ℕ → ℕ → ActionValue → Type 0
IsWithin lo hi value = (n : ℕ) × (value ≡ int_value (pos n)) × (lo ≤ n) × (n ≤ hi)

pub int_within-IsWithin :
    (lo hi : ℕ) (raw value : ActionValue) → int_within lo hi raw ≡ some value → IsWithin lo hi value
unfolding int_within
int_within-IsWithin lo hi (int_value (pos n)) value h =
    (n, ground arith, ground arith, ground arith)
int_within-IsWithin lo hi (int_value (negsuc n)) value h = ground arith
int_within-IsWithin lo hi (flag_value flag) value h = ground arith
int_within-IsWithin lo hi (text_value text) value h = ground arith
int_within-IsWithin lo hi null_value value h = ground arith
int_within-IsWithin lo hi (webhook_value enabled url) value h = ground arith

-- The items of a dictionary of actions whose numbers are within their bounds.
abbrev pub AreWithin : List (ActionName × ActionValue) → Type 0
AreWithin items =
    ((value : ActionValue)
      → lookup inactive_after_days_action items ≡ some value
      → IsWithin 1 3650 value)
    × ((value : ActionValue)
        → lookup resolution_clean_scans_action items ≡ some value
        → IsWithin 1 30 value)
    × ((value : ActionValue)
        → lookup suppress_for_minutes_action items ≡ some value
        → IsWithin 0 43200 value)

module _ (urlparse : Text → ParsedUrl) where
  -- A value that is kept for a key passed the check of that key.
  clean_actions-value :
      (names : List ActionName) (raw items : List (ActionName × ActionValue)) (action : ActionName)
      (value : ActionValue)
      → clean_actions urlparse names raw ≡ some items
      → lookup action items ≡ some value
      → (given : ActionValue) × (action_value urlparse action given ≡ some value)
  unfolding clean_actions
  clean_actions-value [] raw items action value h l =
      let e : items ≡ [] = ground arith in
      let l' : lookup action [] ≡ some value = subst (λ x. lookup action x ≡ some value) e l in
      ground arith
  clean_actions-value (name ∷ names) raw items action value h l =
      elim (Option-cases (lookup name raw)) [
        | inl missing ↦ clean_actions-value names raw items action value (ground arith) l
        | inr there ↦
            (let f = there.1 in
              elim (Option-cases (action_value urlparse name there.0)) [
                | inl refused ↦ ground arith
                | inr kept ↦
                    (let g = kept.1 in
                      elim (Option-cases (clean_actions urlparse names raw)) [
                        | inl refused ↦ ground arith
                        | inr rest ↦
                            (let r = rest.1 in
                              let e : items ≡ ((name, kept.0) ∷ rest.0) = ground arith in
                              let l' : lookup action ((name, kept.0) ∷ rest.0) ≡ some value =
                                subst (λ x. lookup action x ≡ some value) e l in
                              elim (Bool-cases (same_action name action)) [
                                | inl same ↦ (
                                  there.0,
                                  subst (λ k. action_value urlparse k there.0 ≡ some value)
                                      (same_action→≡ name action same) (ground arith),
                                )
                                | inr other ↦
                                    clean_actions-value names raw rest.0 action value r
                                      (ground arith)
                              ])
                      ])
              ])
      ]

  validate_actions-value :
      (category : Category) (other : Bool) (raw items : List (ActionName × ActionValue))
      (action : ActionName) (value : ActionValue)
      → validate_actions urlparse category other raw ≡ some items
      → lookup action items ≡ some value
      → (given : ActionValue) × (action_value urlparse action given ≡ some value)
  unfolding validate_actions
  validate_actions-value category other [] items action value h l = ground arith
  validate_actions-value category other (item ∷ raws) items action value h l =
      clean_actions-value action_names (item ∷ raws) items action value (ground arith) l

  pub validate_actions-AreWithin :
      (category : Category) (other : Bool) (raw items : List (ActionName × ActionValue))
      → validate_actions urlparse category other raw ≡ some items
      → AreWithin items
  unfolding action_value
  validate_actions-AreWithin category other raw items h = (
    λ value l.
        (let v =
            validate_actions-value category other raw items inactive_after_days_action value h l in
          int_within-IsWithin 1 3650 v.0 value v.1),
    λ value l.
        (let v =
            validate_actions-value category other raw items resolution_clean_scans_action value h
              l in
          int_within-IsWithin 1 30 v.0 value v.1),
    λ value l.
        (let v =
            validate_actions-value category other raw items suppress_for_minutes_action value h l in
          int_within-IsWithin 0 43200 v.0 value v.1),
  )

at_least_one-value : (n : ℤ) → (m : ℕ) × (int_value (at_least_one n) ≡ int_value (pos m)) × (1 ≤ m)
unfolding at_least_one
at_least_one-value (pos n) = (max 1 n, refl, omega arith)
at_least_one-value (negsuc n) = (1, refl, omega arith)

module _ (fnmatch : Text → Text → Bool) (rules : List PolicyRule)
    (context : PolicyEvaluationContext) (within : All (λ rule. AreWithin rule.actions) rules) where
  best_threshold :
      (setting : Option ℤ) (o : Option Winner)
      → IsBest fnmatch context resolution_clean_scans_action rules o
      → (n : ℕ) × (value_of (or_default o (int_value (fallback_resolution_clean_scans setting)))
          ≡ int_value (pos n))
        × (1 ≤ n)
  unfolding or_default value_of fallback_resolution_clean_scans
  best_threshold none none best = at_least_one-value (pos 2)
  best_threshold (some raw) none best = at_least_one-value raw
  best_threshold setting (some winner) best =
      let bounds = All-Memᴰ (λ rule. AreWithin rule.actions) winner.rule rules within best.0 in
      let v = bounds.1 winner.value best.2 in (v.0, v.1, v.2)

  -- The number of clean scans that resolves a finding is at least 1, whatever the setting is, if the
  -- numbers in the actions of the rules are within their bounds.
  pub effective_threshold-positive :
      (setting : Option ℤ)
      → (n : ℕ) × (value_of (effective_threshold (evaluate fnmatch rules context).winners setting)
          ≡ int_value (pos n))
        × (1 ≤ n)
  unfolding effective_threshold
  effective_threshold-positive setting =
      best_threshold setting
        ((evaluate fnmatch rules context).winners resolution_clean_scans_action)
        (evaluate-IsBest fnmatch context resolution_clean_scans_action rules)
