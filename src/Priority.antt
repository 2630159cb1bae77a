-- ===== src/Priority.antt =====
-- The operational priority of a finding: backend/app/intel/priority.py. A CVSS base score is a number
-- of tenths and an EPSS percentile one of hundred-billionths, the scales of the columns that keep
-- them, so each comparison with a constant is the source's. A factor keeps the source's name and
-- its points; the cap's entry, whose points are negative, keeps the amount that it takes away.
pub mod Score
pub mod Floors
use nuclei_dashboard.Base.{
  Bool, List, Option, [], false, if◌then◌else◌, leb, ltb, none, some, true, ℕ, ◌*◌, ◌++◌, ◌+◌, ◌-◌,
  ◌/◌, ◌∷◌,
}
use nuclei_dashboard.Base.Moments.{Moment, days}

pub data Band : Type 0 where
  p1 p2 p3 p4 : Band

-- `PRIORITY_ORDER`
abbrev priority_order : Band → ℕ
priority_order p1 = 1
priority_order p2 = 2
priority_order p3 = 3
priority_order p4 = 4

pub data FactorName : Type 0 where
  cvss_factor severity_factor epss_factor cisa_kev : FactorName
  criticality_factor internet_exposure cui_tag finding_age_days treatment score_cap : FactorName

pub data Points : Type 0 where
  gives : ℕ → Points
  takes : ℕ → Points

pub record Factor : Type 0 where
  pub factor : FactorName
  pub points : Points

pub data OverrideType : Type 0 where
  kev_minimum severity_floor : OverrideType

pub record Override : Type 0 where
  pub type : OverrideType
  pub priority : Band

-- The severity that the detector gives, as the source compares it: stripped, in lower case.
pub data Severity : Type 0 where
  critical high medium low other : Severity

pub data Criticality : Type 0 where
  critical_asset high_asset normal_asset low_asset other_asset : Criticality

pub record PriorityInput : Type 0 where
  pub cvss_base_score : Option ℕ
  pub detector_severity : Severity
  pub epss_percentile : Option ℕ
  pub kev : Option Bool
  pub asset_criticality : Criticality
  pub proven_wan_exposure : Bool
  pub has_cui_tag : Bool
  pub first_seen : Option Moment
  pub now : Moment

abbrev cvss_points : ℕ → ℕ
cvss_points cvss =
    if leb 90 cvss
    then 40
    else if leb 70 cvss
    then 30
    else if leb 40 cvss
    then 20
    else if ltb 0 cvss
    then 10
    else 0

abbrev severity_points : Severity → ℕ
severity_points critical = 40
severity_points high = 30
severity_points medium = 20
severity_points low = 10
severity_points other = 0

unfoldable pub impact_points : Option ℕ → Severity → ℕ × Factor
impact_points (some cvss) severity =
    (cvss_points cvss, record { factor = cvss_factor; points = gives (cvss_points cvss) })
impact_points none severity = (
  severity_points severity,
  record { factor = severity_factor; points = gives (severity_points severity) },
)

-- One hundredth of the percentile's range, in its units.
abbrev hundredth : ℕ
hundredth = 1000000000

abbrev percentile_points : Option ℕ → ℕ
percentile_points none = 0
percentile_points (some percentile) =
    if leb (98 * hundredth) percentile
    then 25
    else if leb (95 * hundredth) percentile
    then 20
    else if leb (90 * hundredth) percentile
    then 15
    else if leb (75 * hundredth) percentile
    then 10
    else if leb (50 * hundredth) percentile
    then 5
    else 0

unfoldable pub epss_points : Option ℕ → ℕ × Factor
epss_points percentile = (
  percentile_points percentile,
  record { factor = epss_factor; points = gives (percentile_points percentile) },
)

abbrev criticality_value : Criticality → ℕ
criticality_value critical_asset = 20
criticality_value high_asset = 12
criticality_value normal_asset = 5
criticality_value low_asset = 0
criticality_value other_asset = 0

unfoldable pub criticality_points : Criticality → ℕ × Factor
criticality_points criticality = (
  criticality_value criticality,
  record { factor = criticality_factor; points = gives (criticality_value criticality) },
)

unfoldable pub exposure_points : Bool → ℕ × Factor
exposure_points true = (15, record { factor = internet_exposure; points = gives 15 })
exposure_points false = (0, record { factor = internet_exposure; points = gives 0 })

unfoldable pub cui_points : Bool → ℕ × Factor
cui_points has_cui =
    let points = if has_cui then 10 else 0 in
    (points, record { factor = cui_tag; points = gives points })

-- `max(0, …)` is the subtraction of ℕ.
unfoldable age_days : Option Moment → Moment → ℕ
age_days none now = 0
age_days (some first_seen) now = (now - first_seen) / days 1

unfoldable pub age_points : ℕ → ℕ × Factor
age_points age =
    let points =
      if leb 180 age then 10 else if leb 90 age then 7 else if leb 30 age then 4 else 0 in
    (points, record { factor = finding_age_days; points = gives points })

unfoldable pub kev_points : Option Bool → ℕ × Factor
kev_points (some true) = (35, record { factor = cisa_kev; points = gives 35 })
kev_points (some false) = (0, record { factor = cisa_kev; points = gives 0 })
kev_points none = (0, record { factor = cisa_kev; points = gives 0 })

-- `_band`
unfoldable pub band : ℕ → Band
band score =
    if leb 75 score then p1 else if leb 50 score then p2 else if leb 25 score then p3 else p4

-- `_higher`
unfoldable pub higher : Band → Band → Band
higher left right = if leb (priority_order left) (priority_order right) then left else right

pub record Priority : Type 0 where
  pub priority : Band
  pub score : ℕ
  pub factors : List Factor
  pub overrides : List Override

-- The sum of the factors' points before the cap, and the factors in the source's order.
unfoldable pub add_factors : PriorityInput → ℕ × List Factor
unfolding impact_points epss_points kev_points criticality_points exposure_points cui_points
    age_points age_days
add_factors payload =
    let (impact, impact_factor) = impact_points payload.cvss_base_score payload.detector_severity in
    let (epss, epss_row) = epss_points payload.epss_percentile in
    let (kev, kev_factor) = kev_points payload.kev in
    let (crit, crit_factor) = criticality_points payload.asset_criticality in
    let (exposure, exposure_factor) = exposure_points payload.proven_wan_exposure in
    let (cui, cui_factor) = cui_points payload.has_cui_tag in
    let (age, age_factor) = age_points (age_days payload.first_seen payload.now) in
    (
      impact + epss + kev + crit + exposure + cui + age,
      impact_factor
          ∷ epss_row
          ∷ kev_factor
          ∷ crit_factor
          ∷ exposure_factor
          ∷ cui_factor
          ∷ age_factor
          ∷ record { factor = treatment; points = gives 0 }
          ∷ [],
    )

unfoldable pub cap_score : ℕ × List Factor → ℕ × List Factor
cap_score (score, factors) =
    if ltb 100 score
    then (100, factors ++ record { factor = score_cap; points = takes (score - 100) } ∷ [])
    else (score, factors)

unfoldable pub kev_override : Option Bool → Band → Band × List Override
kev_override (some true) priority = (p1, record { type = kev_minimum; priority = p1 } ∷ [])
kev_override (some false) priority = (priority, [])
kev_override none priority = (priority, [])

-- The floors that the CVSS score sets where there is one, and the detector's severity otherwise.
unfoldable pub critical_floor : PriorityInput → Bool
critical_floor payload = elim payload.cvss_base_score [
  | some cvss ↦ leb 90 cvss
  | none ↦ elim payload.detector_severity [ critical ↦ true | _ ↦ false ]
]

unfoldable pub high_floor : PriorityInput → Bool
high_floor payload = elim payload.cvss_base_score [
  | some cvss ↦ leb 70 cvss
  | none ↦ elim payload.detector_severity [ high ↦ true | _ ↦ false ]
]

unfoldable pub apply_floor : Band → Band × List Override → Band × List Override
unfolding higher
apply_floor floor (priority, overrides) = (
  higher priority floor,
  if ltb (priority_order floor) (priority_order priority)
      then overrides ++ record { type = severity_floor; priority = floor } ∷ []
      else overrides,
)

unfoldable pub severity_override : PriorityInput → Band × List Override → Band × List Override
unfolding critical_floor high_floor apply_floor
severity_override payload before =
    if critical_floor payload
    then apply_floor p2 before
    else if high_floor payload
    then apply_floor p3 before
    else before

unfoldable pub calculate_asset_finding_priority : PriorityInput → Priority
unfolding add_factors cap_score band kev_override severity_override
calculate_asset_finding_priority payload =
    let (score, factors) = cap_score (add_factors payload) in
    let (priority, overrides) = severity_override payload (kev_override payload.kev (band score)) in
    record { priority = priority; score = score; factors = factors; overrides = overrides }

-- `factor_sum`: what the factors give, and what they take.
abbrev pub given : List Factor → ℕ
given [] = 0
given (f ∷ fs) = elim f.points [ gives n ↦ n | takes n ↦ 0 ] + given fs

abbrev pub taken : List Factor → ℕ
taken [] = 0
taken (f ∷ fs) = elim f.points [ gives n ↦ 0 | takes n ↦ n ] + taken fs

unfoldable pub factor_sum : List Factor → ℕ
factor_sum factors = given factors - taken factors
