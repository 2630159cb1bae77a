-- ===== src/Access/Visibility.antt =====
-- The checks on one tenant, the lists and the clause of SQL agree.
use nuclei_dashboard.Base.{
  List, Option, [], any, arith, contains, false, none, refl, some, true, ℕ, ◌∷◌, ◌≡◌,
}
use nuclei_dashboard.Access.{
  Grant, Tables, User, can_access_tenant, has_all_tenant_access, insert_by, is_grant, order_by,
  tenant_scope_clause, tenants_of, visible_tenant_ids,
}

pub contains-insert_by : (n t : ℕ) (ns : List ℕ) → contains (insert_by n ns) t ≡ contains (n ∷ ns) t
contains-insert_by n t [] = refl
contains-insert_by n t (m ∷ ms) = let e = contains-insert_by n t ms in ground arith

contains-order_by : (t : ℕ) (ns : List ℕ) → contains (order_by ns) t ≡ contains ns t
contains-order_by t [] = refl
contains-order_by t (n ∷ ns) =
    let e = contains-order_by t ns in let d = contains-insert_by n t (order_by ns) in ground arith

contains-tenants_of :
    (user : User) (t : ℕ) (grants : List Grant)
    → contains (tenants_of user grants) t ≡ any (is_grant user t) grants
contains-tenants_of user t [] = refl
contains-tenants_of user t (grant ∷ grants) =
    let e = contains-tenants_of user t grants in ground arith

-- A user may access exactly the tenants that the list of the visible ones holds.
pub can_access_tenant-visible_tenant_ids :
    (db : Tables) (user : User) (t : ℕ)
    → can_access_tenant db user (some t) ≡ contains (visible_tenant_ids db user) t
unfolding can_access_tenant visible_tenant_ids has_all_tenant_access
can_access_tenant-visible_tenant_ids db user t =
    let a = contains-order_by t db.tenants in
    let b = contains-order_by t (tenants_of user db.grants) in
    let c = contains-tenants_of user t db.grants in ground arith

-- A row whose tenant exists, or that has none, passes the clause of SQL exactly when the user may
-- access its tenant.
pub tenant_scope_clause-can_access_tenant :
    (db : Tables) (user : User) (column : Option ℕ)
    → ((t : ℕ) → column ≡ some t → contains db.tenants t ≡ true)
    → tenant_scope_clause db user false column ≡ can_access_tenant db user column
unfolding tenant_scope_clause can_access_tenant
tenant_scope_clause-can_access_tenant db user none exists = ground arith
tenant_scope_clause-can_access_tenant db user (some t) exists =
    let e = exists t refl in ground arith
