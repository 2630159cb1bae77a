-- ===== src/Treatment/Requests.antt =====
-- Approving and revoking keep a finding's treatments in order.
use native.Mathlib.Nat.{le_trans}
use nuclei_dashboard.Base.{
  Bool-cases, List, Option-cases, String, ap, arith, count_if, count_if-update_where_le, find, inl,
  inr, refl, some, subst, sym, update_where, ℕ, ◌∙◌, ◌≡◌, ◌≤◌,
}
use nuclei_dashboard.Base.Moments.{Moment}
use nuclei_dashboard.Finding.{AssetFinding}
use nuclei_dashboard.Treatment.{
  FindingTreatment, Treated, activate, approve_locked, approve_treatment,
  expire_elapsed_treatments_for_finding, is_active_for, is_active_status, is_elapsed_for,
  is_pending, is_treatment, ok, projection, reconcile_treatment_projection, revoke_locked,
  revoke_treatment, revoked_row,
}
use nuclei_dashboard.Treatment.Rows.{
  any-update_where-false, find-passes_lem, find-update_where_found,
}
use nuclei_dashboard.Treatment.Active.{
  IsCurrent, IsTreated, activate-IsTreated, count-is_treatment, expire-IsCurrent, expire-IsTreated,
  has_row_id, reconcile-IsTreated,
}

revoked_at-counts :
    (finding_id id : ℕ) (now : Moment) (table : List FindingTreatment) (n : ℕ)
    → count_if (is_active_for n) (update_where (is_treatment finding_id id) (revoked_row now) table)
      ≤ count_if (is_active_for n) table
revoked_at-counts finding_id id now table n =
    count_if-update_where_le (is_active_for n) (is_treatment finding_id id) (revoked_row now)
      (λ x m a. ground arith) table

revoke_locked-IsTreated :
    (now : Moment) (id : ℕ) (finding : AssetFinding) (table : List FindingTreatment)
    (after : Treated)
    → IsTreated (finding, table)
    → IsCurrent now (finding, table)
    → revoke_locked now id (finding, table) ≡ ok after
    → IsTreated after
revoke_locked-IsTreated now id finding table after w current h =
    let q = is_treatment finding.id id in
    let p = is_active_for finding.id in
    let table' = update_where q (revoked_row now) table in
    let ids = λ (n : ℕ).
      le_trans (count_if-update_where_le (has_row_id n) q (revoked_row now) (λ x m a. a) table)
        (w.one_id n) in
    let actives =
      λ (n : ℕ). le_trans (revoked_at-counts finding.id id now table n) (w.one_active n) in
    let still =
      any-update_where-false (is_elapsed_for finding.id now) q (revoked_row now)
        (λ x m. ground arith) table current in
    elim (Option-cases (find q table)) [
      | inl missing ↦ ground arith
      | inr there ↦
          (let row = there.0 in
            let f = there.1 in
            elim (Bool-cases (is_active_status row.status)) [
              | inl was_active ↦
                  (let e : reconcile_treatment_projection now (finding, table') ≡ after =
                      ground arith in
                    subst IsTreated e (reconcile-IsTreated now finding table' ids actives still))
              | inr inactive ↦
                  (let same =
                      find-update_where_found p q (revoked_row now) table row
                        (count-is_treatment finding.id id table (w.one_id id)) f (ground arith)
                        (ground arith) in
                    let made : Treated = (finding, table') in
                    let e : made ≡ after = ground arith in
                    subst IsTreated e (record {
                      one_id = ids;
                      one_active = actives;
                      projected = w.projected ∙ ap projection (sym same);
                    }))
            ])
    ]

approve_locked-IsTreated :
    (now : Moment) (id : ℕ) (finding : AssetFinding) (table : List FindingTreatment)
    (after : Treated)
    → IsTreated (finding, table)
    → IsCurrent now (finding, table)
    → approve_locked now id (finding, table) ≡ ok after
    → IsTreated after
approve_locked-IsTreated now id finding table after w current h =
    let q = is_treatment finding.id id in
    elim (Option-cases (find q table)) [
      | inl missing ↦ ground arith
      | inr there ↦
          (let row = there.0 in
            let f = there.1 in
            let passes = find-passes_lem q table row f in
            let own : row.id ≡ id = ground arith in
            let f' : find (is_treatment finding.id row.id) table ≡ some row =
              subst (λ n. find (is_treatment finding.id n) table ≡ some row) (sym own) f in
            elim (Bool-cases (is_pending row.status)) [
              | inl pending ↦
                  (let e : activate now (record row { reviewed_at = some now }) (finding, table)
                        ≡ ok after =
                      ground arith in
                    activate-IsTreated now (record row { reviewed_at = some now }) row finding table
                      after w.one_id w.one_active current f' (ground arith) refl (ground arith) e)
              | inr settled ↦ ground arith
            ])
    ]

-- A revocation that succeeds leaves at most one active treatment for every finding, and its own
-- finding showing the active one, if both were so before.
pub revoke_treatment-IsTreated :
    (now : Moment) (id : ℕ) (reason : String) (held after : Treated)
    → IsTreated held
    → revoke_treatment now id reason held ≡ ok after
    → IsTreated after
unfolding revoke_treatment
revoke_treatment-IsTreated now id reason held after w h =
    let locked = expire_elapsed_treatments_for_finding now held in
    let fine = expire-IsTreated now held w in
    let current = expire-IsCurrent now held in
    let e : revoke_locked now id locked ≡ ok after = ground arith in
    revoke_locked-IsTreated now id locked.0 locked.1 after fine current e

-- An approval that succeeds leaves at most one active treatment for every finding, and its own
-- finding showing the active one, if both were so before.
pub approve_treatment-IsTreated :
    (now : Moment) (id : ℕ) (held after : Treated)
    → IsTreated held
    → approve_treatment now id held ≡ ok after
    → IsTreated after
unfolding approve_treatment
approve_treatment-IsTreated now id held after w h =
    let locked = expire_elapsed_treatments_for_finding now held in
    let fine = expire-IsTreated now held w in
    let current = expire-IsCurrent now held in
    approve_locked-IsTreated now id locked.0 locked.1 after fine current h
