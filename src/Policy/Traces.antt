-- ===== src/Policy/Traces.antt =====
-- What the changes of a rule keep, in any order and by anybody.
use nuclei_dashboard.Access.{Role}
use nuclei_dashboard.Base.{Bool, arith, is_some, refl, subst, sym, true, ◌∙◌, ◌≡◌}
use nuclei_dashboard.Base.Moments.{Moment}
use nuclei_dashboard.Policy.{ok}
use nuclei_dashboard.Policy.Edits.{PolicyState, archive_policy, set_policy_enabled, update_policy}
use nuclei_dashboard.Policy.Cleaning.{Changes, Checks}
use nuclei_dashboard.Policy.Revisions.{
  IsSound, archive_policy-IsSound, set_policy_enabled-IsSound, update_policy-IsSound,
}

-- One change that succeeds, by a user of a role.
pub data PolicyStep : PolicyState → PolicyState → Type 0 where
  updated :
      (checks : Checks) (role : Role) (changes : Changes) {before after : PolicyState}
      → update_policy checks role changes before ≡ ok after
      → PolicyStep before after
  switched :
      (role : Role) (enabled : Bool) {before after : PolicyState}
      → set_policy_enabled role enabled before ≡ ok after
      → PolicyStep before after
  archived :
      (role : Role) (now : Moment) {before after : PolicyState}
      → archive_policy role now before ≡ ok after
      → PolicyStep before after

-- Any number of them.
pub data PolicyTrace : PolicyState → PolicyState → Type 0 where
  nothing : {state : PolicyState} → PolicyTrace state state
  then_step :
      {start middle after : PolicyState}
      → PolicyTrace start middle
      → PolicyStep middle after
      → PolicyTrace start after

PolicyStep-IsSound :
    {before after : PolicyState} → PolicyStep before after → IsSound before → IsSound after
PolicyStep-IsSound {before} {after} (updated checks role changes e) h =
    update_policy-IsSound checks role changes before.0 before.1 after h e
PolicyStep-IsSound {before} {after} (switched role enabled e) h =
    set_policy_enabled-IsSound role enabled before.0 before.1 after h e
PolicyStep-IsSound {before} {after} (archived role now e) h =
    archive_policy-IsSound role now before.0 before.1 after h e

-- A rule stays sound through any changes: its scope keeps a shape, the numbers of its actions stay
-- within their bounds, it is disabled once archived, and its current revision is announced by a stored
-- event, behind which there is none.
pub PolicyTrace-IsSound :
    {before after : PolicyState} → PolicyTrace before after → IsSound before → IsSound after
PolicyTrace-IsSound nothing h = h
PolicyTrace-IsSound (then_step trace step) h = PolicyStep-IsSound step (PolicyTrace-IsSound trace h)

archived_step :
    {before after : PolicyState}
    → PolicyStep before after
    → is_some before.0.archived_at ≡ true
    → after ≡ before
unfolding update_policy set_policy_enabled archive_policy
archived_step (updated checks role changes e) h = ground arith
archived_step (switched role enabled e) h = ground arith
archived_step (archived role now e) h = ground arith

-- Once archived, a rule does not change any more.
pub PolicyTrace-archived :
    {before after : PolicyState}
    → PolicyTrace before after
    → is_some before.0.archived_at ≡ true
    → after ≡ before
PolicyTrace-archived nothing h = refl
PolicyTrace-archived {before} (then_step trace step) h =
    let ih = PolicyTrace-archived trace h in
    archived_step step (subst (λ s. is_some s.0.archived_at ≡ true) (sym ih) h) ∙ ih
