-- ===== src/Access/Grants.antt =====
-- Replacing the grants of a viewer.
use nuclei_dashboard.Access.Visibility.{contains-insert_by}
use nuclei_dashboard.Base.{
  List, [], any, any-append, arith, contains, false, map, refl, some, ℕ, ◌∷◌, ◌≡◌, ◌≢◌,
}
use nuclei_dashboard.Access.{
  Grant, Tables, User, can_access_tenant, clear_viewer_grants, grant_to, is_grant,
  is_internal_operator, is_viewer, replace_viewer_grants, sorted_set, viewer_role, without,
}

contains-sorted_set : (t : ℕ) (ns : List ℕ) → contains (sorted_set ns) t ≡ contains ns t
contains-sorted_set t [] = refl
contains-sorted_set t (n ∷ ns) =
    let e = contains-sorted_set t ns in
    let d = contains-insert_by n t (sorted_set ns) in ground arith

any-grant_to :
    (user : User) (t : ℕ) (ids : List ℕ)
    → any (is_grant user t) (map (grant_to user) ids) ≡ contains ids t
any-grant_to user t [] = refl
any-grant_to user t (id ∷ ids) = let e = any-grant_to user t ids in ground arith

any-without :
    (user : User) (t : ℕ) (grants : List Grant)
    → any (is_grant user t) (without user grants) ≡ false
any-without user t [] = refl
any-without user t (grant ∷ grants) = let e = any-without user t grants in ground arith

any-without-other :
    (user other : User) (t : ℕ) (grants : List Grant)
    → other.id ≢ user.id
    → any (is_grant other t) (without user grants) ≡ any (is_grant other t) grants
any-without-other user other t [] apart = refl
any-without-other user other t (grant ∷ grants) apart =
    let e = any-without-other user other t grants apart in ground arith

any-grant_to-other :
    (user other : User) (t : ℕ) (ids : List ℕ)
    → other.id ≢ user.id
    → any (is_grant other t) (map (grant_to user) ids) ≡ false
any-grant_to-other user other t [] apart = refl
any-grant_to-other user other t (id ∷ ids) apart =
    let e = any-grant_to-other user other t ids apart in ground arith

-- Once its grants are replaced, a viewer without access to all tenants may access exactly the tenants
-- of the list, and the grants of any other user are what they were.
pub replace_viewer_grants-access :
    (user : User) (tenant_ids : List ℕ) (db after : Tables) (ids : List ℕ) (t : ℕ)
    → user.role ≡ viewer_role
    → user.viewer_all_tenants ≡ false
    → replace_viewer_grants user tenant_ids db ≡ some (after, ids)
    → (can_access_tenant after user (some t) ≡ contains tenant_ids t)
      × ((other : User)
          → other.id ≢ user.id
          → can_access_tenant after other (some t) ≡ can_access_tenant db other (some t))
unfolding replace_viewer_grants can_access_tenant clear_viewer_grants is_internal_operator is_viewer
replace_viewer_grants-access user tenant_ids db after ids t role selected h =
    let unique_ids = sorted_set tenant_ids in
    let kept = without user db.grants in
    let given = map (grant_to user) unique_ids in
    let a = any-append (is_grant user t) kept given in
    let b = any-grant_to user t unique_ids in
    let c = any-without user t db.grants in
    let d = contains-sorted_set t tenant_ids in
    (
      ground arith,
      λ other apart.
          let a' = any-append (is_grant other t) kept given in
          let b' = any-grant_to-other user other t unique_ids apart in
          let c' = any-without-other user other t db.grants apart in ground arith,
    )
