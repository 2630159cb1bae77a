-- ===== src/Policy/Precedence.antt =====
-- Which rule determines an action.
use nuclei_dashboard.Base.{
  Bool-cases, List, Option, Option-cases, [], ap, arith, false, if◌then◌else◌, inl, inr, ltb, none,
  refl, some, subst, sym, true, ℕ, ◌==◌, ◌∙◌, ◌∷◌, ◌≡◌,
}
use nuclei_dashboard.Policy.{
  ActionName, ActionValue, PolicyRule, action_index, classification_action, dashboard_action,
  disposition_action, email_action, inactive_after_days_action, less, negsuc, pos,
  resolution_clean_scans_action, same_action, scope_rank, severity_action,
  suppress_for_minutes_action, webhook_action, ℤ,
}
use nuclei_dashboard.Policy.Resolver.{Winner, Winners, offer, offer_all, outranks, put_winner}

-- The item of a dictionary.
abbrev pub lookup : ActionName → List (ActionName × ActionValue) → Option ActionValue
lookup action [] = none
lookup action (item ∷ items) =
    if same_action item.0 action then some item.1 else lookup action items

less_asym : (a b : ℤ) → less a b ≡ true → less b a ≡ false
unfolding less
less_asym (pos a) (pos b) h = ground arith
less_asym (pos a) (negsuc b) h = ground arith
less_asym (negsuc a) (pos b) h = ground arith
less_asym (negsuc a) (negsuc b) h = ground arith

-- What is below neither way through a third is not below.
less_weak : (a b c : ℤ) → less a b ≡ false → less b c ≡ false → less a c ≡ false
unfolding less
less_weak (pos a) (pos b) (pos c) h k = ground arith
less_weak (pos a) (pos b) (negsuc c) h k = ground arith
less_weak (pos a) (negsuc b) (pos c) h k = ground arith
less_weak (pos a) (negsuc b) (negsuc c) h k = ground arith
less_weak (negsuc a) (pos b) (pos c) h k = ground arith
less_weak (negsuc a) (pos b) (negsuc c) h k = ground arith
less_weak (negsuc a) (negsuc b) (pos c) h k = ground arith
less_weak (negsuc a) (negsuc b) (negsuc c) h k = ground arith

pub outranks_irrefl : (rule : PolicyRule) → outranks rule rule ≡ false
unfolding outranks
outranks_irrefl rule = ground (arith, less_asym rule.priority rule.priority)

-- The key's order, on three numbers for each rule.
key_weak :
    (ar br cr : ℕ) (a b c : ℤ) (ai bi ci : ℕ)
    → (if ltb br ar
        then true
        else if ltb ar br
        then false
        else if less b a
        then true
        else if less a b
        then false
        else ltb ai bi)
      ≡ false
    → (if ltb cr br
        then true
        else if ltb br cr
        then false
        else if less c b
        then true
        else if less b c
        then false
        else ltb bi ci)
      ≡ false
    → (if ltb cr ar
        then true
        else if ltb ar cr
        then false
        else if less c a
        then true
        else if less a c
        then false
        else ltb ai ci)
      ≡ false
key_weak ar br cr a b c ai bi ci h k =
    let u = less_asym a b in
    let v = less_asym b c in
    let w = less_asym a c in
    let d = less_weak a b c in
    let e = less_weak a c b in
    let f = less_weak b a c in
    let g = less_weak b c a in let i = less_weak c a b in let j = less_weak c b a in ground arith

pub outranks_weak :
    (a b c : PolicyRule) → outranks a b ≡ false → outranks b c ≡ false → outranks a c ≡ false
unfolding outranks
outranks_weak a b c h k =
    key_weak (scope_rank a.scope_type) (scope_rank b.scope_type) (scope_rank c.scope_type)
      a.priority b.priority c.priority a.id b.id c.id h k

pub outranks_asym : (a b : PolicyRule) → outranks a b ≡ true → outranks b a ≡ false
unfolding outranks
outranks_asym a b h =
    let u = less_asym a.priority b.priority in
    let v = less_asym b.priority a.priority in ground arith

name_of : ℕ → ActionName
name_of n =
    if n == 0
    then classification_action
    else if n == 1
    then disposition_action
    else if n == 2
    then inactive_after_days_action
    else if n == 3
    then resolution_clean_scans_action
    else if n == 4
    then severity_action
    else if n == 5
    then dashboard_action
    else if n == 6
    then email_action
    else if n == 7
    then webhook_action
    else suppress_for_minutes_action

name_of-action_index : (a : ActionName) → name_of (action_index a) ≡ a
unfolding action_index name_of
name_of-action_index classification_action = refl
name_of-action_index disposition_action = refl
name_of-action_index inactive_after_days_action = refl
name_of-action_index resolution_clean_scans_action = refl
name_of-action_index severity_action = refl
name_of-action_index dashboard_action = refl
name_of-action_index email_action = refl
name_of-action_index webhook_action = refl
name_of-action_index suppress_for_minutes_action = refl

pub same_action→≡ : (a b : ActionName) → same_action a b ≡ true → a ≡ b
unfolding same_action
same_action→≡ a b h =
    sym (name_of-action_index a) ∙ ap name_of (ground arith) ∙ name_of-action_index b

same_action_self : (a : ActionName) → same_action a a ≡ true
unfolding same_action
same_action_self a = ground arith

-- What one rule makes of the winner of an action.
abbrev pub preferred : PolicyRule → Option ActionValue → Option Winner → Option Winner
preferred rule none before = before
preferred rule (some value) none = some (record { rule = rule; value = value; overrode = none })
preferred rule (some value) (some current) =
    if outranks rule current.rule
    then some (record { rule = rule; value = value; overrode = some (current.rule, current.value) })
    else some current

preferred_again :
    (rule : PolicyRule) (value : ActionValue) (again : Option ActionValue) (before : Option Winner)
    → preferred rule again (preferred rule (some value) before) ≡ preferred rule (some value) before
preferred_again rule value none before = refl
preferred_again rule value (some v) none = let h = outranks_irrefl rule in ground arith
preferred_again rule value (some v) (some current) = let h = outranks_irrefl rule in ground arith

offer_same :
    (rule : PolicyRule) (action : ActionName) (value : ActionValue) (winners : Winners)
    → offer rule action value winners action ≡ preferred rule (some value) (winners action)
unfolding offer put_winner
offer_same rule action value winners =
    let s = same_action_self action in
    elim (Option-cases (winners action)) [
      | inl missing ↦ ground arith
      | inr there ↦ (let e = there.1 in ground arith)
    ]

offer_other :
    (rule : PolicyRule) (action key : ActionName) (value : ActionValue) (winners : Winners)
    → same_action action key ≡ false
    → offer rule action value winners key ≡ winners key
unfolding offer put_winner
offer_other rule action key value winners h = ground arith

pub offer_all-preferred :
    (rule : PolicyRule) (items : List (ActionName × ActionValue)) (winners : Winners)
    (a : ActionName)
    → offer_all rule items winners a ≡ preferred rule (lookup a items) (winners a)
unfolding offer_all
offer_all-preferred rule [] winners a = refl
offer_all-preferred rule (item ∷ items) winners a =
    let ih = offer_all-preferred rule items (offer rule item.0 item.1 winners) a in
    elim (Bool-cases (same_action item.0 a)) [
      | inl same ↦
          (let e = same_action→≡ item.0 a same in
            let o : offer rule item.0 item.1 winners a ≡ preferred rule (some item.1) (winners a) =
              subst
                (λ k. offer rule item.0 item.1 winners k ≡ preferred rule (some item.1) (winners k))
                e (offer_same rule item.0 item.1 winners) in
            let p = preferred_again rule item.1 (lookup a items) (winners a) in
            ih ∙ ap (preferred rule (lookup a items)) o ∙ p ∙ ground arith)
      | inr differs ↦ (let o = offer_other rule item.0 a item.1 winners differs in ground arith)
    ]
