-- ===== src/Treatment.antt =====
-- The treatments of a finding: backend/app/treatments.py. An operation works on the finding that it
-- has locked and on the table of the treatments of all findings, and reads the clock once; an error
-- leaves both as they were, since its transaction is rolled back. The texts, the actors, the audit
-- and the recalculated priority are left out.
pub mod Rows
pub mod Active
pub mod Requests
pub mod Creation
use nuclei_dashboard.Base.{
  Bool, List, Option, String, [], any, false, find, if◌then◌else◌, none, not, some, true,
  update_where, ℕ, ◌&&◌, ◌++◌, ◌==◌, ◌∷◌,
}
use nuclei_dashboard.Base.Text.{is_truthy}
use nuclei_dashboard.Base.Moments.{Moment}
use nuclei_dashboard.Job.Control.{is_due}
use nuclei_dashboard.Finding.{
  AssetFinding, TreatmentState, accepted_risk, false_positive, mitigated, unaddressed,
}

-- TREATMENT_RECORD_TYPES
pub data TreatmentType : Type 0 where
  record_mitigated record_accepted_risk record_false_positive : TreatmentType

pub data TreatmentStatus : Type 0 where
  pending_review active expired revoked superseded : TreatmentStatus

pub record FindingTreatment : Type 0 where
  pub id : ℕ
  pub asset_finding_id : ℕ
  pub treatment_type : TreatmentType
  pub status : TreatmentStatus
  pub review_due_at : Option Moment
  pub expires_at : Option Moment
  pub reviewed_at : Option Moment
  pub revoked_at : Option Moment
  pub updated_at : Moment

abbrev pub Treated : Type 0
Treated = AssetFinding × List FindingTreatment

pub data TreatmentError : Type 0 where
  no_rationale already_due treatment_not_found not_pending not_open no_reason : TreatmentError

pub data TreatmentResult : Type 0 where
  ok : Treated → TreatmentResult
  err : TreatmentError → TreatmentResult

abbrev pub state_of : TreatmentType → TreatmentState
state_of record_mitigated = mitigated
state_of record_accepted_risk = accepted_risk
state_of record_false_positive = false_positive

abbrev pub is_active_status : TreatmentStatus → Bool
is_active_status active = true
is_active_status _ = false

abbrev pub is_pending : TreatmentStatus → Bool
is_pending pending_review = true
is_pending _ = false

-- The queries, each on one finding.
abbrev pub is_active_for : ℕ → FindingTreatment → Bool
is_active_for finding_id row = row.asset_finding_id == finding_id && is_active_status row.status

abbrev pub is_elapsed_for : ℕ → Moment → FindingTreatment → Bool
is_elapsed_for finding_id now row = is_active_for finding_id row && is_due row.expires_at now

abbrev pub is_treatment : ℕ → ℕ → FindingTreatment → Bool
is_treatment finding_id id row = row.id == id && row.asset_finding_id == finding_id

abbrev pub set_status : TreatmentStatus → Moment → FindingTreatment → FindingTreatment
set_status status now row = record row { status = status; updated_at = now }

-- The rows once the elapsed treatments of a finding are expired.
abbrev pub expire_rows : ℕ → Moment → List FindingTreatment → List FindingTreatment
expire_rows finding_id now table =
    update_where (is_elapsed_for finding_id now) (set_status expired now) table

-- The active treatment of a finding, and the rows: one that has elapsed is none, and is expired here. What
-- the nested expiry writes to the finding, the callers write again.
unfoldable pub current_active_treatment :
    ℕ → Moment → List FindingTreatment → Option FindingTreatment × List FindingTreatment
current_active_treatment finding_id now table = elim (find (is_active_for finding_id) table) [
  | none ↦ (none, table)
  | some row ↦
      if is_due row.expires_at now
      then (none, expire_rows finding_id now table)
      else (some row, table)
]

abbrev pub projection : Option FindingTreatment → TreatmentState
projection none = unaddressed
projection (some row) = state_of row.treatment_type

unfoldable pub reconcile_treatment_projection : Moment → Treated → Treated
unfolding current_active_treatment
reconcile_treatment_projection now (finding, table) =
    let current = current_active_treatment finding.id now table in
    (record finding { treatment_state = projection current.0; updated_at = now }, current.1)

unfoldable pub expire_elapsed_treatments_for_finding : Moment → Treated → Treated
unfolding reconcile_treatment_projection
expire_elapsed_treatments_for_finding now (finding, table) =
    let elapsed = is_elapsed_for finding.id now in
    if any elapsed table
    then reconcile_treatment_projection now (finding, expire_rows finding.id now table)
    else (finding, table)

-- `_supersede_current`
unfoldable pub supersede_current : Moment → ℕ → Treated → List FindingTreatment
unfolding current_active_treatment
supersede_current now incoming_id (finding, table) =
    let (active_one, rows) = current_active_treatment finding.id now table in
    elim active_one [
      | none ↦ rows
      | some current ↦
          if current.id == incoming_id
          then rows
          else update_where (is_treatment finding.id current.id) (set_status superseded now) rows
    ]

-- `_activate`, which writes the row as the session holds it.
unfoldable pub activate : Moment → FindingTreatment → Treated → TreatmentResult
unfolding supersede_current
activate now treatment (finding, table) =
    if is_due treatment.expires_at now
    then err already_due
    else ok (
      record finding { treatment_state = state_of treatment.treatment_type; updated_at = now },
      update_where (is_treatment finding.id treatment.id)
          (λ stored. set_status active now treatment)
          (supersede_current now treatment.id (finding, table)),
    )

abbrev pub is_mitigated : TreatmentType → Bool
is_mitigated record_mitigated = true
is_mitigated _ = false

-- The row that `create_treatment` inserts, under the id that the database gives it.
abbrev pub new_treatment :
    ℕ → ℕ → TreatmentType → Option Moment → Option Moment → Moment → FindingTreatment
new_treatment id finding_id treatment_type review_due_at expires_at now = record {
  id = id;
  asset_finding_id = finding_id;
  treatment_type = treatment_type;
  status = pending_review;
  review_due_at = review_due_at;
  expires_at = expires_at;
  reviewed_at = none;
  revoked_at = none;
  updated_at = now;
}

-- What `create_treatment` does once its finding is locked.
abbrev pub insert_treatment : Moment → FindingTreatment → Treated → TreatmentResult
insert_treatment now row (finding, table) =
    if is_mitigated row.treatment_type
    then activate now row (finding, table ++ row ∷ [])
    else ok (finding, table ++ row ∷ [])

unfoldable pub create_treatment :
    Moment → ℕ → TreatmentType → String → Option Moment → Option Moment → Treated → TreatmentResult
unfolding activate expire_elapsed_treatments_for_finding
create_treatment now id treatment_type rationale review_due_at expires_at (finding, table) =
    let row = new_treatment id finding.id treatment_type review_due_at expires_at now in
    if not (is_truthy (some rationale))
    then err no_rationale
    else if is_due expires_at now
    then err already_due
    else insert_treatment now row (expire_elapsed_treatments_for_finding now (finding, table))

-- `approve_treatment` once its finding is locked.
abbrev pub approve_locked : Moment → ℕ → Treated → TreatmentResult
approve_locked now id (finding, table) = elim (find (is_treatment finding.id id) table) [
  | none ↦ err treatment_not_found
  | some row ↦
      if not (is_pending row.status)
      then err not_pending
      else activate now (record row { reviewed_at = some now }) (finding, table)
]

unfoldable pub approve_treatment : Moment → ℕ → Treated → TreatmentResult
unfolding activate expire_elapsed_treatments_for_finding
approve_treatment now id held =
    approve_locked now id (expire_elapsed_treatments_for_finding now held)

abbrev pub revoked_row : Moment → FindingTreatment → FindingTreatment
revoked_row now row = record row { status = revoked; revoked_at = some now; updated_at = now }

-- `revoke_treatment` once its finding is locked.
abbrev pub revoke_locked : Moment → ℕ → Treated → TreatmentResult
revoke_locked now id (finding, table) =
    let table' = update_where (is_treatment finding.id id) (revoked_row now) table in
    elim (find (is_treatment finding.id id) table) [
      | none ↦ err treatment_not_found
      | some row ↦
          if is_active_status row.status
          then ok (reconcile_treatment_projection now (finding, table'))
          else if is_pending row.status
          then ok (finding, table')
          else err not_open
    ]

unfoldable pub revoke_treatment : Moment → ℕ → String → Treated → TreatmentResult
unfolding reconcile_treatment_projection expire_elapsed_treatments_for_finding
revoke_treatment now id reason held =
    if not (is_truthy (some reason))
    then err no_reason
    else revoke_locked now id (expire_elapsed_treatments_for_finding now held)
