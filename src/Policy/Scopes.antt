-- ===== src/Policy/Scopes.antt =====
-- A rule decides only within its own scope.
use nuclei_dashboard.Base.{
  All, Bool, List, Option, Option-cases, arith, inl, inr, is_some, none, refl, some, subst, true, ℕ,
  ◌≡◌,
}
use nuclei_dashboard.Base.Text.{Text}
use nuclei_dashboard.Policy.{
  ActionName, PolicyEvaluationContext, PolicyRule, ScopeType, global_scope, network_scope,
  site_scope, tenant_scope,
}
use nuclei_dashboard.Policy.Conditions.{same_id, scope_applies}
use nuclei_dashboard.Policy.Resolver.{Winner, evaluate}
use nuclei_dashboard.Policy.Actions.{PolicyScope, is_scope_shaped}
use nuclei_dashboard.Policy.Best.{All-Memᴰ, IsBest, evaluate-IsBest, is_candidate_rule}

abbrev pub scope_of : PolicyRule → PolicyScope
scope_of rule = record {
  scope_type = rule.scope_type;
  tenant_id = rule.tenant_id;
  site_id = rule.site_id;
  network_id = rule.network_id;
}

-- A value that is there and the same.
abbrev IsShared : Option ℕ → Option ℕ → Type 0
IsShared a b = (n : ℕ) × (a ≡ some n) × (b ≡ some n)

-- What the scope of a rule says of the context: nothing for a global rule; the rule's own tenant, and
-- the site, and the network, of a narrower one.
abbrev pub IsInScope : PolicyRule → PolicyEvaluationContext → ScopeType → Type 0
IsInScope rule context global_scope = Unit
IsInScope rule context tenant_scope = IsShared context.tenant_id rule.tenant_id
IsInScope rule context site_scope =
    IsShared context.tenant_id rule.tenant_id × IsShared context.site_id rule.site_id
IsInScope rule context network_scope =
    IsShared context.tenant_id rule.tenant_id
    × IsShared context.site_id rule.site_id
    × IsShared context.network_id rule.network_id

same_id-IsShared : (a b : Option ℕ) → is_some b ≡ true → same_id a b ≡ true → IsShared a b
unfolding same_id
same_id-IsShared none none s h = ground arith
same_id-IsShared none (some b) s h = ground arith
same_id-IsShared (some a) none s h = ground arith
same_id-IsShared (some a) (some b) s h = (a, refl, ground arith)

scope_applies-IsInScope :
    (rule : PolicyRule) (context : PolicyEvaluationContext) (scope : ScopeType)
    → rule.scope_type ≡ scope
    → is_scope_shaped (scope_of rule) ≡ true
    → scope_applies rule context ≡ true
    → IsInScope rule context scope
unfolding is_scope_shaped scope_applies
scope_applies-IsInScope rule context global_scope e shaped h = tt
scope_applies-IsInScope rule context tenant_scope e shaped h =
    same_id-IsShared context.tenant_id rule.tenant_id (ground arith) (ground arith)
scope_applies-IsInScope rule context site_scope e shaped h = (
  same_id-IsShared context.tenant_id rule.tenant_id (ground arith) (ground arith),
  same_id-IsShared context.site_id rule.site_id (ground arith) (ground arith),
)
scope_applies-IsInScope rule context network_scope e shaped h = (
  same_id-IsShared context.tenant_id rule.tenant_id (ground arith) (ground arith),
  same_id-IsShared context.site_id rule.site_id (ground arith) (ground arith),
  same_id-IsShared context.network_id rule.network_id (ground arith) (ground arith),
)

winner_of_IsBest :
    (fnmatch : Text → Text → Bool) (rules : List PolicyRule) (context : PolicyEvaluationContext)
    (action : ActionName) (winner : Winner) (o : Option Winner)
    → o ≡ some winner
    → IsBest fnmatch context action rules o
    → IsBest fnmatch context action rules (some winner)
winner_of_IsBest fnmatch rules context action winner o e best =
    subst (IsBest fnmatch context action rules) e best

-- A rule that decides an action is enabled and not archived, and unless it is global it belongs to
-- the tenant of what is evaluated, and to its site and network where it names them, if every stored
-- scope has its shape.
pub winner-IsInScope :
    (fnmatch : Text → Text → Bool) (rules : List PolicyRule) (context : PolicyEvaluationContext)
    (action : ActionName) (winner : Winner)
    → All (λ rule. is_scope_shaped (scope_of rule) ≡ true) rules
    → (evaluate fnmatch rules context).winners action ≡ some winner
    → (winner.rule.enabled ≡ true)
      × (winner.rule.archived_at ≡ none)
      × IsInScope winner.rule context winner.rule.scope_type
unfolding is_candidate_rule
winner-IsInScope fnmatch rules context action winner shaped e =
    let rule = winner.rule in
    let best =
      winner_of_IsBest fnmatch rules context action winner
        ((evaluate fnmatch rules context).winners action) e
        (evaluate-IsBest fnmatch context action rules) in
    let candidate = best.1 in
    let shape = All-Memᴰ (λ r. is_scope_shaped (scope_of r) ≡ true) rule rules shaped best.0 in
    (
      ground arith,
      (elim (Option-cases rule.archived_at) [
        | inl e ↦ e
        | inr there ↦ (let f = there.1 in ground arith)
      ]),
      scope_applies-IsInScope rule context rule.scope_type refl shape (ground arith),
    )
