-- ===== src/Treatment/Creation.antt =====
-- Creating a treatment, and any sequence of the requests on a finding.
use nuclei_dashboard.Treatment.Requests.{approve_treatment-IsTreated, revoke_treatment-IsTreated}
use nuclei_dashboard.Base.{
  Bool, Bool-cases, List, Option, String, [], any, any-append, ap, arith, count_if, count_if-append,
  count_if-update_where_le, false, find, inl, inr, refl, some, subst, sym, true, ℕ, ◌++◌, ◌==◌, ◌∙◌,
  ◌∷◌, ◌≡◌, ◌≤◌,
}
use nuclei_dashboard.Base.Moments.{Moment}
use nuclei_dashboard.Finding.{AssetFinding}
use nuclei_dashboard.Treatment.{
  FindingTreatment, Treated, TreatmentType, approve_treatment, create_treatment,
  expire_elapsed_treatments_for_finding, expired, insert_treatment, is_active_for, is_active_status,
  is_elapsed_for, is_mitigated, is_treatment, new_treatment, ok, projection,
  reconcile_treatment_projection, revoke_treatment, set_status,
}
use nuclei_dashboard.Treatment.Active.{
  IsCurrent, IsTreated, activate-IsTreated, expire-IsCurrent, expire-IsTreated, has_row_id,
  rows_after_expiry,
}

find-append_last :
    (test : FindingTreatment → Bool) (table : List FindingTreatment) (row : FindingTreatment)
    → any test table ≡ false
    → test row ≡ true
    → find test (table ++ row ∷ []) ≡ some row
find-append_last test [] row none_before passes = ground arith
find-append_last test (x ∷ xs) row none_before passes =
    let ih = find-append_last test xs row in ground (arith, ih)

find-append_skip :
    (test : FindingTreatment → Bool) (table : List FindingTreatment) (row : FindingTreatment)
    → test row ≡ false
    → find test (table ++ row ∷ []) ≡ find test table
find-append_skip test [] row fails = ground arith
find-append_skip test (x ∷ xs) row fails =
    let ih = find-append_skip test xs row fails in ground arith

any-is_treatment :
    (finding_id id : ℕ) (table : List FindingTreatment)
    → count_if (has_row_id id) table ≡ 0
    → any (is_treatment finding_id id) table ≡ false
any-is_treatment finding_id id [] h = refl
any-is_treatment finding_id id (row ∷ rows) h =
    let ih = any-is_treatment finding_id id rows in ground (arith, ih)

module _ (now : Moment) (row : FindingTreatment) (finding : AssetFinding)
    (table : List FindingTreatment) (w : IsTreated (finding, table))
    (current : IsCurrent now (finding, table)) (fresh : count_if (has_row_id row.id) table ≡ 0)
    (own : row.asset_finding_id ≡ finding.id) (waits : is_active_status row.status ≡ false) where
  inserted-one_id : (id : ℕ) → count_if (has_row_id id) (table ++ row ∷ []) ≤ 1
  inserted-one_id id =
      let a = count_if-append (has_row_id id) table (row ∷ []) in
      let b = w.one_id id in
      elim (Bool-cases (row.id == id)) [
        | inl same ↦
            (let e : row.id ≡ id = ground arith in
              let z : count_if (has_row_id id) table ≡ 0 =
                subst (λ k. count_if (has_row_id k) table ≡ 0) e fresh in
              ground arith)
        | inr other ↦ ground arith
      ]

  inserted-one_active :
      (finding_id : ℕ) → count_if (is_active_for finding_id) (table ++ row ∷ []) ≤ 1
  inserted-one_active finding_id =
      let a = count_if-append (is_active_for finding_id) table (row ∷ []) in
      let b = w.one_active finding_id in ground arith

  inserted-IsCurrent : IsCurrent now (finding, table ++ row ∷ [])
  inserted-IsCurrent =
      let a = any-append (is_elapsed_for finding.id now) table (row ∷ []) in ground arith

  insert_treatment-IsTreated :
      (after : Treated) → insert_treatment now row (finding, table) ≡ ok after → IsTreated after
  insert_treatment-IsTreated after e = elim (Bool-cases (is_mitigated row.treatment_type)) [
    | inl at_once ↦
        activate-IsTreated now row row finding (table ++ row ∷ []) after inserted-one_id
          inserted-one_active inserted-IsCurrent
          (find-append_last (is_treatment finding.id row.id) table row
            (any-is_treatment finding.id row.id table fresh) (ground arith))
          waits refl own (ground arith)
    | inr later ↦
        (let f : (finding, table ++ row ∷ []) ≡ after = ground arith in
          let p = w.projected in
          let s = find-append_skip (is_active_for finding.id) table row (ground arith) in
          let made : IsTreated (finding, table ++ row ∷ []) = record {
            one_id = inserted-one_id;
            one_active = inserted-one_active;
            projected = p ∙ ap projection (sym s);
          } in
          subst IsTreated f made)
  ]

expire-finding_id :
    (now : Moment) (held : Treated)
    → (expire_elapsed_treatments_for_finding now held).0.id ≡ held.0.id
unfolding expire_elapsed_treatments_for_finding reconcile_treatment_projection
expire-finding_id now (finding, table) = ground arith

expire-fresh :
    (now : Moment) (held : Treated) (id : ℕ)
    → count_if (has_row_id id) held.1 ≡ 0
    → count_if (has_row_id id) (expire_elapsed_treatments_for_finding now held).1 ≡ 0
expire-fresh now (finding, table) id h =
    let rows = rows_after_expiry now finding table in
    let elapsed = is_elapsed_for finding.id now in
    let c =
      count_if-update_where_le (has_row_id id) elapsed (set_status expired now) (λ x m a. a)
        table in
    ground arith

pub create_treatment-IsTreated :
    (now : Moment) (id : ℕ) (type : TreatmentType) (rationale : String)
    (review expires : Option Moment) (held after : Treated)
    → count_if (has_row_id id) held.1 ≡ 0
    → IsTreated held
    → create_treatment now id type rationale review expires held ≡ ok after
    → IsTreated after
unfolding create_treatment
create_treatment-IsTreated now id type rationale review expires held after fresh w e =
    let locked = expire_elapsed_treatments_for_finding now held in
    let row = new_treatment id held.0.id type review expires now in
    insert_treatment-IsTreated now row locked.0 locked.1 (expire-IsTreated now held w)
      (expire-IsCurrent now held) (expire-fresh now held id fresh)
      (sym (expire-finding_id now held)) refl after (ground arith)

-- A request that succeeds; the id of a new treatment is not used yet.
pub data TreatmentStep : Treated → Treated → Type 0 where
  created :
      (now : Moment) (id : ℕ) (type : TreatmentType) (rationale : String)
      (review expires : Option Moment) {held after : Treated}
      → count_if (has_row_id id) held.1 ≡ 0
      → create_treatment now id type rationale review expires held ≡ ok after
      → TreatmentStep held after
  approved :
      (now : Moment) (id : ℕ) {held after : Treated}
      → approve_treatment now id held ≡ ok after
      → TreatmentStep held after
  withdrawn :
      (now : Moment) (id : ℕ) (reason : String) {held after : Treated}
      → revoke_treatment now id reason held ≡ ok after
      → TreatmentStep held after
  elapsed :
      (now : Moment) {held : Treated}
      → TreatmentStep held (expire_elapsed_treatments_for_finding now held)

pub data TreatmentTrace : Treated → Treated → Type 0 where
  at_rest : {held : Treated} → TreatmentTrace held held
  and_step :
      {held middle after : Treated}
      → TreatmentTrace held middle
      → TreatmentStep middle after
      → TreatmentTrace held after

TreatmentStep-IsTreated :
    {held after : Treated} → TreatmentStep held after → IsTreated held → IsTreated after
TreatmentStep-IsTreated {held} {after} (created now id type rationale review expires fresh e) w =
    create_treatment-IsTreated now id type rationale review expires held after fresh w e
TreatmentStep-IsTreated {held} {after} (approved now id e) w =
    approve_treatment-IsTreated now id held after w e
TreatmentStep-IsTreated {held} {after} (withdrawn now id reason e) w =
    revoke_treatment-IsTreated now id reason held after w e
TreatmentStep-IsTreated {held} (elapsed now) w = expire-IsTreated now held w

-- Through any sequence of creations, approvals, revocations and expiries every finding has at most one
-- active treatment, and the finding shows the active one, if both were so at the start.
pub TreatmentTrace-IsTreated :
    {held after : Treated} → TreatmentTrace held after → IsTreated held → IsTreated after
TreatmentTrace-IsTreated at_rest w = w
TreatmentTrace-IsTreated (and_step trace step) w =
    TreatmentStep-IsTreated step (TreatmentTrace-IsTreated trace w)
