-- ===== src/Priority/Floors.antt =====
-- The band of a priority.
use nuclei_dashboard.Base.{
  Bool, List, Option, [], arith, false, if◌then◌else◌, leb, none, refl, some, true, ℕ, ◌||◌, ◌≡◌,
}
use nuclei_dashboard.Priority.{
  Band, Override, PriorityInput, Severity, add_factors, apply_floor, band,
  calculate_asset_finding_priority, cap_score, critical, critical_floor, high, high_floor, higher,
  kev_override, low, medium, other, p1, p2, p3, p4, severity_override,
}

-- A place on the ladder from p1, the most urgent, down to p4.
abbrev pub at_least : ℕ → Band → Bool
at_least place p1 = leb 1 place
at_least place p2 = leb 2 place
at_least place p3 = leb 3 place
at_least place p4 = leb 4 place

-- The vulnerability is known to be exploited.
abbrev pub is_known_exploited : PriorityInput → Bool
is_known_exploited payload = elim payload.kev [ none ↦ false | some known ↦ known ]

abbrev same_severity : Severity → Severity → Bool
same_severity critical critical = true
same_severity high high = true
same_severity medium medium = true
same_severity low low = true
same_severity other other = true
same_severity _ _ = false

-- The severity by a CVSS score in tenths where there is one, and by the detector where there is none.
abbrev pub is_severe : ℕ → Severity → PriorityInput → Bool
is_severe tenths severity payload = elim payload.cvss_base_score [
  | some cvss ↦ leb tenths cvss
  | none ↦ same_severity payload.detector_severity severity
]

critical_floor-is_severe :
    (payload : PriorityInput) → critical_floor payload ≡ is_severe 90 critical payload
unfolding critical_floor
critical_floor-is_severe payload = ground arith

high_floor-is_severe : (payload : PriorityInput) → high_floor payload ≡ is_severe 70 high payload
unfolding high_floor
high_floor-is_severe payload = ground arith

abbrev floored : Bool → Bool → Band × List Override → Band × List Override
unfolding apply_floor
floored critical_severity high_severity before =
    if critical_severity
    then apply_floor p2 before
    else if high_severity
    then apply_floor p3 before
    else before

-- The ladder that the overrides make of a band, by whether the severity is critical or high.
abbrev IsLadder : Bool → ℕ → Bool → Bool → Band → Type 0
IsLadder known score critical_severity high_severity priority =
    (at_least 1 priority ≡ (known || leb 75 score))
    × (at_least 2 priority ≡ (known || leb 50 score || critical_severity))
    × (at_least 3 priority ≡ (known || leb 25 score || critical_severity || high_severity))

band-IsLadder :
    (score : ℕ) (c h : Bool) (overrides : List Override)
    → IsLadder false score c h (floored c h (band score, overrides)).0
unfolding band higher apply_floor
band-IsLadder score true true overrides = (ground arith, ground arith, ground arith)
band-IsLadder score true false overrides = (ground arith, ground arith, ground arith)
band-IsLadder score false true overrides = (ground arith, ground arith, ground arith)
band-IsLadder score false false overrides = (ground arith, ground arith, ground arith)

kev-IsLadder :
    (score : ℕ) (c h : Bool) (overrides : List Override)
    → IsLadder true score c h (floored c h (p1, overrides)).0
unfolding higher apply_floor
kev-IsLadder score true h overrides = (refl, refl, refl)
kev-IsLadder score false true overrides = (refl, refl, refl)
kev-IsLadder score false false overrides = (refl, refl, refl)

override-IsLadder :
    (kev : Option Bool) (score : ℕ) (c h : Bool)
    → IsLadder
        (elim kev [ none ↦ false | some known ↦ known ])
        score
        c
        h
        (floored c h (kev_override kev (band score))).0
unfolding kev_override
override-IsLadder none score c h = band-IsLadder score c h []
override-IsLadder (some true) score c h = kev-IsLadder score c h _
override-IsLadder (some false) score c h = band-IsLadder score c h []

-- The priority is p1 exactly for a vulnerability of the KEV catalogue or a score from 75 on, at least p2
-- exactly for these, a score from 50 on, or a critical severity (CVSS from 9.0 on), and at least p3
-- exactly for these, a score from 25 on, or a high severity (CVSS from 7.0 on).
pub calculate_asset_finding_priority-band :
    (payload : PriorityInput)
    → (at_least 1 (calculate_asset_finding_priority payload).priority
        ≡ (is_known_exploited payload || leb 75 (calculate_asset_finding_priority payload).score))
      × (at_least 2 (calculate_asset_finding_priority payload).priority ≡ (
          is_known_exploited payload
          || leb 50 (calculate_asset_finding_priority payload).score
          || is_severe 90 critical payload))
      × (at_least 3 (calculate_asset_finding_priority payload).priority ≡ (
          is_known_exploited payload
          || leb 25 (calculate_asset_finding_priority payload).score
          || is_severe 90 critical payload
          || is_severe 70 high payload))
unfolding calculate_asset_finding_priority severity_override
calculate_asset_finding_priority-band payload =
    rw (← critical_floor-is_severe payload, ← high_floor-is_severe payload)
      (override-IsLadder payload.kev (cap_score (add_factors payload)).0 (critical_floor payload)
        (high_floor payload))
