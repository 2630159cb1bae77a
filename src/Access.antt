-- ===== src/Access.antt =====
-- Tenant scope of the staff's roles: backend/app/access.py. A row of the tenants is its id, and a
-- request that raises gives none. `assert_staff_usable` and the rest read one moment.
pub mod Visibility
pub mod Grants
use nuclei_dashboard.Base.{
  Bool, List, Option, [], any, contains, false, if◌then◌else◌, is_some, leb, ltb, map, none, not,
  some, true, ℕ, ◌&&◌, ◌++◌, ◌==◌, ◌||◌, ◌∷◌,
}
use nuclei_dashboard.Base.Moments.{Moment}

pub data Role : Type 0 where
  admin_role user_role viewer_role other_role : Role

pub record User : Type 0 where
  pub id : ℕ
  pub role : Role
  pub is_active : Bool
  pub viewer_all_tenants : Bool
  pub viewer_expires_at : Option Moment

pub record Grant : Type 0 where
  pub user_id : ℕ
  pub tenant_id : ℕ

pub record Tables : Type 0 where
  pub tenants : List ℕ
  pub grants : List Grant

unfoldable pub is_internal_operator : User → Bool
is_internal_operator user = elim user.role [ admin_role ↦ true | user_role ↦ true | _ ↦ false ]

unfoldable pub is_viewer : User → Bool
is_viewer user = elim user.role [ viewer_role ↦ true | _ ↦ false ]

unfoldable viewer_is_expired : User → Moment → Bool
unfolding is_viewer
viewer_is_expired user now =
    is_viewer user && elim user.viewer_expires_at [ none ↦ false | some expires ↦ leb expires now ]

pub data Unusable : Type 0 where
  inactive_or_missing access_expired : Unusable

-- `assert_staff_usable`: none where the user may go on.
unfoldable assert_staff_usable : User → Moment → Option Unusable
unfolding viewer_is_expired
assert_staff_usable user now =
    if not user.is_active
    then some inactive_or_missing
    else if viewer_is_expired user now
    then some access_expired
    else none

unfoldable pub has_all_tenant_access : User → Bool
unfolding is_internal_operator is_viewer
has_all_tenant_access user =
    is_internal_operator user || (is_viewer user && user.viewer_all_tenants)

abbrev is_grant_of : User → Grant → Bool
is_grant_of user grant = grant.user_id == user.id

abbrev pub is_grant : User → ℕ → Grant → Bool
is_grant user tenant_id grant = grant.user_id == user.id && grant.tenant_id == tenant_id

-- The predicate of SQL, at a row whose tenant column may be NULL.
unfoldable pub tenant_scope_clause : Tables → User → Bool → Option ℕ → Bool
unfolding is_internal_operator is_viewer
tenant_scope_clause db user include_unscoped column =
    if is_internal_operator user
    then true
    else if not (is_viewer user)
    then false
    else if user.viewer_all_tenants
    then include_unscoped || is_some column
    else elim column [ none ↦ false | some tenant_id ↦ any (is_grant user tenant_id) db.grants ]

-- ORDER BY on numbers.
abbrev pub insert_by : ℕ → List ℕ → List ℕ
insert_by n [] = n ∷ []
insert_by n (m ∷ ms) = let rest = insert_by n ms in if leb n m then n ∷ m ∷ ms else m ∷ rest

abbrev pub order_by : List ℕ → List ℕ
order_by [] = []
order_by (n ∷ ns) = insert_by n (order_by ns)

abbrev pub tenants_of : User → List Grant → List ℕ
tenants_of user [] = []
tenants_of user (grant ∷ grants) =
    if is_grant_of user grant
    then grant.tenant_id ∷ tenants_of user grants
    else tenants_of user grants

unfoldable pub visible_tenant_ids : Tables → User → List ℕ
unfolding has_all_tenant_access is_viewer
visible_tenant_ids db user =
    if has_all_tenant_access user
    then order_by db.tenants
    else if not (is_viewer user)
    then []
    else order_by (tenants_of user db.grants)

unfoldable pub can_access_tenant : Tables → User → Option ℕ → Bool
unfolding is_internal_operator is_viewer
can_access_tenant db user none = is_internal_operator user
can_access_tenant db user (some tenant_id) =
    if is_internal_operator user
    then contains db.tenants tenant_id
    else if not (is_viewer user)
    then false
    else if user.viewer_all_tenants
    then contains db.tenants tenant_id
    else any (is_grant user tenant_id) db.grants

-- `require_tenant_access`: none is the 404.
unfoldable require_tenant_access : Tables → User → Option ℕ → Option ℕ
unfolding can_access_tenant
require_tenant_access db user none = none
require_tenant_access db user (some tenant_id) =
    if not (can_access_tenant db user (some tenant_id)) then none else some tenant_id

-- `require_object_tenant`
unfoldable require_object_tenant {ℓ} : {A : Type ℓ} → Tables → User → Option A → Option ℕ → Option A
unfolding can_access_tenant
require_object_tenant db user none tenant_id = none
require_object_tenant db user (some obj) tenant_id =
    if not (can_access_tenant db user tenant_id) then none else some obj

unfoldable has_any_tenant_access : Tables → User → Bool
unfolding is_internal_operator is_viewer
has_any_tenant_access db user =
    if is_internal_operator user
    then true
    else if not (is_viewer user)
    then false
    else if user.viewer_all_tenants
    then any (λ tenant. true) db.tenants
    else any (is_grant_of user) db.grants

unfoldable load_grant_ids : Tables → User → List ℕ
load_grant_ids db user = order_by (tenants_of user db.grants)

abbrev pub without : User → List Grant → List Grant
without user [] = []
without user (grant ∷ grants) =
    if is_grant_of user grant then without user grants else grant ∷ without user grants

unfoldable pub clear_viewer_grants : User → Tables → Tables
clear_viewer_grants user db = record db { grants = without user db.grants }

-- `sorted({…})`
abbrev insert_once : ℕ → List ℕ → List ℕ
insert_once n ns = if contains ns n then ns else insert_by n ns

abbrev pub sorted_set : List ℕ → List ℕ
sorted_set [] = []
sorted_set (n ∷ ns) = insert_once n (sorted_set ns)

abbrev are_all_in : List ℕ → List ℕ → Bool
are_all_in known [] = true
are_all_in known (id ∷ ids) = contains known id && are_all_in known ids

abbrev pub grant_to : User → ℕ → Grant
grant_to user tenant_id = record { user_id = user.id; tenant_id = tenant_id }

-- `replace_viewer_grants`: none is the 400, after which nothing is changed.
unfoldable pub replace_viewer_grants : User → List ℕ → Tables → Option (Tables × List ℕ)
unfolding clear_viewer_grants
replace_viewer_grants user tenant_ids db =
    let unique_ids = sorted_set tenant_ids in
    let cleared = clear_viewer_grants user db in
    if not (are_all_in db.tenants unique_ids)
    then none
    else some
        (record cleared { grants = cleared.grants ++ map (grant_to user) unique_ids }, unique_ids)

-- `normalize_viewer_scope`: none is the 400.
unfoldable normalize_viewer_scope :
    Role → Bool → List ℕ → Option Moment → Option (Bool × List ℕ × Option Moment)
normalize_viewer_scope viewer_role all_tenants selected expires =
    if all_tenants && any (λ tenant. true) selected
    then none
    else some (all_tenants, selected, expires)
normalize_viewer_scope _ all_tenants selected expires = some (false, [], none)

unfoldable dormant_viewer_state : User → User
dormant_viewer_state user = record user { viewer_all_tenants = false; viewer_expires_at = none }

pub data AccessStatus : Type 0 where
  not_applicable disabled_viewer expired_viewer : AccessStatus
  all_tenants selected_tenants no_tenants : AccessStatus

-- `viewer_access_status`; a count that is not given is 0.
unfoldable viewer_access_status : User → ℕ → Moment → AccessStatus
unfolding is_viewer viewer_is_expired
viewer_access_status user grant_count now =
    if not (is_viewer user)
    then not_applicable
    else if not user.is_active
    then disabled_viewer
    else if viewer_is_expired user now
    then expired_viewer
    else if user.viewer_all_tenants
    then all_tenants
    else if ltb 0 grant_count
    then selected_tenants
    else no_tenants
