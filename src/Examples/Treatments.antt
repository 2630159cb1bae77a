-- ===== src/Examples/Treatments.antt =====
-- A finding whose risk is accepted, with a treatment in review.
use nuclei_dashboard.Treatment.Creation.{
  TreatmentTrace-IsTreated, and_step, approved, at_rest, elapsed,
}
use nuclei_dashboard.Base.{[], arith, none, refl, some, ℕ, ◌∷◌, ◌≡◌}
use nuclei_dashboard.Finding.{AssetFinding, accepted_risk, opened, unaddressed}
use nuclei_dashboard.Treatment.{
  FindingTreatment, Treated, TreatmentStatus, TreatmentType, active, approve_treatment,
  expire_elapsed_treatments_for_finding, ok, pending_review, record_accepted_risk,
  record_false_positive, revoked_row, state_of, superseded,
}
use nuclei_dashboard.Treatment.Active.{IsTreated}

abbrev treatment_row : ℕ → TreatmentType → TreatmentStatus → FindingTreatment
treatment_row id treatment_type status = record {
  id = id;
  asset_finding_id = 3;
  treatment_type = treatment_type;
  status = status;
  review_due_at = none;
  expires_at = some 100;
  reviewed_at = none;
  revoked_at = none;
  updated_at = 0;
}

abbrev a_treated_finding : AssetFinding
a_treated_finding = record {
  id = 3;
  tenant_id = 1;
  asset_id = 4;
  vulnerability_id = 5;
  technical_state = opened;
  treatment_state = accepted_risk;
  first_seen = 0;
  last_seen = 0;
  resolved_at = none;
  consecutive_clean_scans = 0;
  reopened_count = 0;
  updated_at = 0;
}

abbrev two_treatments : Treated
two_treatments = (
  a_treated_finding,
  treatment_row 1 record_accepted_risk active
      ∷ treatment_row 2 record_false_positive pending_review
      ∷ [],
)

two_treatments-IsTreated : IsTreated two_treatments
two_treatments-IsTreated = record {
  one_id = λ id. ground arith;
  one_active = λ finding_id. ground arith;
  projected = refl;
}

abbrev approved_second : Treated
approved_second = (
  record a_treated_finding { treatment_state = state_of record_false_positive; updated_at = 50 },
  record (treatment_row 1 record_accepted_risk superseded) { updated_at = 50 }
      ∷ record (treatment_row 2 record_false_positive active) {
        reviewed_at = some 50;
        updated_at = 50;
      }
      ∷ [],
)

abbrev revoked_first : Treated
revoked_first = (
  record a_treated_finding { treatment_state = unaddressed; updated_at = 50 },
  revoked_row 50 (treatment_row 1 record_accepted_risk active)
      ∷ treatment_row 2 record_false_positive pending_review
      ∷ [],
)

second-is_approved : approve_treatment 50 2 two_treatments ≡ ok approved_second
unfolding approve_treatment
second-is_approved = refl

TreatmentTrace-IsTreated_example :
    IsTreated (expire_elapsed_treatments_for_finding 60 approved_second)
TreatmentTrace-IsTreated_example =
    TreatmentTrace-IsTreated
      (and_step (and_step at_rest (approved 50 2 second-is_approved)) (elapsed 60))
      two_treatments-IsTreated
