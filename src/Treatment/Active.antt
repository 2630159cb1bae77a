-- ===== src/Treatment/Active.antt =====
-- A finding has one active treatment at most, and shows it.
use nuclei_dashboard.Treatment.Rows.{
  count_if-find, find-passes_lem, find-update_where-none, find-update_where-some,
  find-update_where_other, find_unique,
}
use native.Mathlib.Nat.{le_trans}
use nuclei_dashboard.Job.Control.{is_due}
use nuclei_dashboard.Base.{
  Bool, Bool-cases, List, Option-cases, [], any, ap, arith, count_if, count_if-update_where,
  count_if-update_where_le, count_if_mono, false, find, if◌then◌else◌, inl, inr, none, refl, some,
  subst, sym, true, update_where, ℕ, ◌==◌, ◌∙◌, ◌∷◌, ◌≡◌, ◌≤◌,
}
use nuclei_dashboard.Base.Moments.{Moment}
use nuclei_dashboard.Finding.{AssetFinding}
use nuclei_dashboard.Treatment.{
  FindingTreatment, Treated, activate, active, current_active_treatment,
  expire_elapsed_treatments_for_finding, expire_rows, expired, is_active_for, is_active_status,
  is_elapsed_for, is_treatment, ok, projection, reconcile_treatment_projection, set_status,
  state_of, supersede_current, superseded,
}

abbrev pub has_row_id : ℕ → FindingTreatment → Bool
has_row_id id row = row.id == id

-- The primary key, one active treatment for each finding, and the state that the finding shows.
pub record IsTreated (held : Treated) : Type 0 where
  pub one_id : (id : ℕ) → count_if (has_row_id id) held.1 ≤ 1
  pub one_active : (finding_id : ℕ) → count_if (is_active_for finding_id) held.1 ≤ 1
  pub projected : held.0.treatment_state ≡ projection (find (is_active_for held.0.id) held.1)

-- No active treatment of the finding has elapsed.
abbrev pub IsCurrent : Moment → Treated → Type 0
IsCurrent now held = any (is_elapsed_for held.0.id now) held.1 ≡ false

elapsed-found :
    (finding_id : ℕ) (now : Moment) (table : List FindingTreatment) (row : FindingTreatment)
    → any (is_elapsed_for finding_id now) table ≡ false
    → find (is_active_for finding_id) table ≡ some row
    → is_due row.expires_at now ≡ false
elapsed-found finding_id now [] row none_elapsed h = ground arith
elapsed-found finding_id now (first ∷ table) row none_elapsed h =
    let ih = elapsed-found finding_id now table row in ground arith

current_active-find :
    (finding_id : ℕ) (now : Moment) (table : List FindingTreatment)
    → any (is_elapsed_for finding_id now) table ≡ false
    → current_active_treatment finding_id now table ≡ (find (is_active_for finding_id) table, table)
unfolding current_active_treatment
current_active-find finding_id now table none_elapsed =
    elim (Option-cases (find (is_active_for finding_id) table)) [
      | inl missing ↦ ground arith
      | inr found ↦
          (let e = elapsed-found finding_id now table found.0 none_elapsed found.1 in ground arith)
    ]

-- Reconciling shows the active treatment, if none has elapsed.
pub reconcile-IsTreated :
    (now : Moment) (finding : AssetFinding) (table : List FindingTreatment)
    → ((id : ℕ) → count_if (has_row_id id) table ≤ 1)
    → ((finding_id : ℕ) → count_if (is_active_for finding_id) table ≤ 1)
    → IsCurrent now (finding, table)
    → IsTreated (reconcile_treatment_projection now (finding, table))
unfolding reconcile_treatment_projection
reconcile-IsTreated now finding table ids actives current =
    rw (current_active-find finding.id now table current)
      (record { one_id = ids; one_active = actives; projected = refl })

any-expired :
    (finding_id : ℕ) (now : Moment) (table : List FindingTreatment)
    → any
        (is_elapsed_for finding_id now)
        (update_where (is_elapsed_for finding_id now) (set_status expired now) table)
      ≡ false
any-expired finding_id now [] = refl
any-expired finding_id now (row ∷ table) = let ih = any-expired finding_id now table in ground arith

pub expire-IsTreated :
    (now : Moment) (held : Treated)
    → IsTreated held
    → IsTreated (expire_elapsed_treatments_for_finding now held)
unfolding expire_elapsed_treatments_for_finding
expire-IsTreated now (finding, table) w =
    let elapsed = is_elapsed_for finding.id now in
    let table' = update_where elapsed (set_status expired now) table in
    elim (Bool-cases (any elapsed table)) [
      | inl some_elapsed ↦ rw some_elapsed (
          reconcile-IsTreated now finding table'
            (λ id.
              le_trans
                (count_if-update_where_le (has_row_id id) elapsed (set_status expired now)
                  (λ x t p. p) table)
                (w.one_id id))
            (λ finding_id.
              le_trans
                (count_if-update_where_le (is_active_for finding_id) elapsed
                  (set_status expired now) (λ x t p. ground arith) table)
                (w.one_active finding_id))
            (any-expired finding.id now table))
      | inr none_elapsed ↦ rw none_elapsed w
    ]

-- The rows behind an expiry.
pub rows_after_expiry :
    (now : Moment) (finding : AssetFinding) (table : List FindingTreatment)
    → (expire_elapsed_treatments_for_finding now (finding, table)).1 ≡ (
        if any (is_elapsed_for finding.id now) table
        then expire_rows finding.id now table
        else table)
unfolding expire_elapsed_treatments_for_finding reconcile_treatment_projection
rows_after_expiry now finding table =
    let e = any-expired finding.id now table in
    let rows = current_active-find finding.id now (expire_rows finding.id now table) e in
    elim (Bool-cases (any (is_elapsed_for finding.id now) table)) [
      | inl some_elapsed ↦ rw (some_elapsed, rows) refl
      | inr none_elapsed ↦ rw none_elapsed refl
    ]

pub expire-IsCurrent :
    (now : Moment) (held : Treated) → IsCurrent now (expire_elapsed_treatments_for_finding now held)
unfolding expire_elapsed_treatments_for_finding reconcile_treatment_projection
expire-IsCurrent now (finding, table) =
    let e = any-expired finding.id now table in
    let rows = current_active-find finding.id now (expire_rows finding.id now table) e in
    elim (Bool-cases (any (is_elapsed_for finding.id now) table)) [
      | inl some_elapsed ↦ rw (some_elapsed, rows) e
      | inr none_elapsed ↦ rw none_elapsed none_elapsed
    ]

pub count-is_treatment :
    (finding_id id : ℕ) (table : List FindingTreatment)
    → count_if (has_row_id id) table ≤ 1
    → count_if (is_treatment finding_id id) table ≤ 1
count-is_treatment finding_id id table one =
    le_trans
      (count_if_mono (is_treatment finding_id id) (has_row_id id) (λ x h. ground arith) table) one

-- What superseding leaves: no active treatment of the finding, and the row that comes in.
supersede-none :
    (now : Moment) (stored : FindingTreatment) (finding : AssetFinding)
    (table : List FindingTreatment)
    → ((id : ℕ) → count_if (has_row_id id) table ≤ 1)
    → count_if (is_active_for finding.id) table ≤ 1
    → IsCurrent now (finding, table)
    → find (is_treatment finding.id stored.id) table ≡ some stored
    → is_active_status stored.status ≡ false
    → (find (is_active_for finding.id) (supersede_current now stored.id (finding, table)) ≡ none)
      × (find (is_treatment finding.id stored.id) (supersede_current now stored.id (finding, table))
          ≡ some stored)
unfolding supersede_current
supersede-none now stored finding table ids active_one current found inactive =
    elim (Option-cases (find (is_active_for finding.id) table)) [
      | inl missing ↦
          (let e = current_active-find finding.id now table current in (ground arith, ground arith))
      | inr there ↦
          (let row = there.0 in
            let p = is_active_for finding.id in
            let q = is_treatment finding.id stored.id in
            let e = current_active-find finding.id now table current in
            let passes = find-passes_lem p table row there.1 in
            let few = count-is_treatment finding.id stored.id table (ids stored.id) in
            let unique = find_unique p q table stored row few found there.1 in
            let gone =
              find-update_where-none p (is_treatment finding.id row.id) (set_status superseded now)
                (λ x t. ground arith) table row active_one there.1 in
            let kept = λ (apart : (row.id == stored.id) ≡ false).
              find-update_where_other q (is_treatment finding.id row.id) (set_status superseded now)
                (λ x t. ground arith) table in
            elim (Bool-cases (row.id == stored.id)) [
              | inl same ↦
                  (let t : q row ≡ true = ground arith in
                    let eq = unique t in
                    let clash : is_active_status row.status ≡ false =
                      ap (λ r. is_active_status r.status) eq ∙ inactive in
                    ground arith)
              | inr apart ↦
                  (let k = kept apart in
                    let g = gone (ground arith) in (ground arith, ground arith))
            ])
    ]

-- The counts that superseding keeps.
supersede-counts :
    (now : Moment) (id : ℕ) (finding : AssetFinding) (table : List FindingTreatment)
    → ((row_id : ℕ) → count_if (has_row_id row_id) table ≤ 1)
    → ((finding_id : ℕ) → count_if (is_active_for finding_id) table ≤ 1)
    → IsCurrent now (finding, table)
    → ((row_id : ℕ) → count_if (has_row_id row_id) (supersede_current now id (finding, table)) ≤ 1)
      × ((finding_id : ℕ)
          → count_if (is_active_for finding_id) (supersede_current now id (finding, table)) ≤ 1)
unfolding supersede_current
supersede-counts now id finding table ids actives current =
    let found = current_active-find finding.id now table current in
    elim (Option-cases (find (is_active_for finding.id) table)) [
      | inl missing ↦ (
        λ row_id. let one = ids row_id in ground arith,
        λ finding_id. let one = actives finding_id in ground arith,
      )
      | inr there ↦
          (let e = there.1 in
            let test = is_treatment finding.id there.0.id in
            (
              λ row_id.
                  let le =
                    count_if-update_where_le (has_row_id row_id) test (set_status superseded now)
                      (λ x t p. p) table in
                  let one = ids row_id in ground arith,
              λ finding_id.
                  let le =
                    count_if-update_where_le (is_active_for finding_id) test
                      (set_status superseded now) (λ x t p. ground arith) table in
                  let one = actives finding_id in ground arith,
            ))
    ]

activated-count :
    (owner finding_id id : ℕ) (now : Moment) (treatment : FindingTreatment)
    (t : List FindingTreatment)
    → treatment.asset_finding_id ≡ owner
    → count_if (is_active_for finding_id) t ≤ 1
    → count_if (has_row_id id) t ≤ 1
    → find (is_active_for owner) t ≡ none
    → count_if
        (is_active_for finding_id)
        (update_where (is_treatment owner id) (λ row. set_status active now treatment) t)
      ≤ 1
activated-count owner finding_id id now treatment t own one one_id none_active =
    let q = is_treatment owner id in
    let p = is_active_for finding_id in
    let change = λ (row : FindingTreatment). set_status active now treatment in
    elim (Bool-cases (finding_id == owner)) [
      | inl same ↦
          (let both = count_if-update_where p q change t in
            let few = count-is_treatment owner id t one_id in
            let empty : count_if (is_active_for owner) t ≡ 0 =
              count_if-find (is_active_for owner) t none_active in
            let e : finding_id ≡ owner = ground arith in
            let none_here : count_if p t ≡ 0 =
              subst (λ n. count_if (is_active_for n) t ≡ 0) (sym e) empty in
            omega arith)
      | inr other ↦ le_trans (count_if-update_where_le p q change (λ x m a. ground arith) t) one
    ]

-- Activating a treatment that was not active leaves it as the one that the finding shows.
pub activate-IsTreated :
    (now : Moment) (treatment stored : FindingTreatment) (finding : AssetFinding)
    (table : List FindingTreatment) (held : Treated)
    → ((id : ℕ) → count_if (has_row_id id) table ≤ 1)
    → ((finding_id : ℕ) → count_if (is_active_for finding_id) table ≤ 1)
    → IsCurrent now (finding, table)
    → find (is_treatment finding.id stored.id) table ≡ some stored
    → is_active_status stored.status ≡ false
    → treatment.id ≡ stored.id
    → treatment.asset_finding_id ≡ finding.id
    → activate now treatment (finding, table) ≡ ok held
    → IsTreated held
unfolding activate
activate-IsTreated now treatment stored finding table held ids actives current found inactive e own
      h =
    let t = supersede_current now stored.id (finding, table) in
    let q = is_treatment finding.id stored.id in
    let change = λ (row : FindingTreatment). set_status active now treatment in
    let sup =
      supersede-none now stored finding table ids (actives finding.id) current found inactive in
    let counts = supersede-counts now stored.id finding table ids actives current in
    let shown =
      find-update_where-some (is_active_for finding.id) q change t stored sup.0 sup.1
        (ground arith) in
    let made : Treated = (
      record finding { treatment_state = state_of treatment.treatment_type; updated_at = now },
      update_where q change t,
    ) in
    let same : made ≡ held = ground arith in
    subst IsTreated same (record {
      one_id = λ id.
          le_trans (count_if-update_where_le (has_row_id id) q change (λ x m p. ground arith) t)
            (counts.0 id);
      one_active = λ finding_id.
          activated-count finding.id finding_id stored.id now treatment t own (counts.1 finding_id)
            (counts.0 stored.id) sup.0;
      projected = ap projection (sym shown);
    })
