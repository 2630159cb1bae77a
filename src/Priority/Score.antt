-- ===== src/Priority/Score.antt =====
-- The score: its bound, and that it is the sum of the points of the factors shown with it.
use nuclei_dashboard.Base.{List, [], arith, ℕ, ◌++◌, ◌+◌, ◌-◌, ◌∷◌, ◌≡◌, ◌≤◌}
use nuclei_dashboard.Priority.{
  Factor, PriorityInput, add_factors, age_points, calculate_asset_finding_priority, cap_score,
  criticality_points, cui_points, epss_points, exposure_points, factor_sum, given, impact_points,
  kev_points, score_cap, taken, takes,
}

cap_score-le : (score : ℕ) (factors : List Factor) → (cap_score (score, factors)).0 ≤ 100
unfolding cap_score
cap_score-le score factors = ground arith

-- The score is at most 100.
pub calculate_asset_finding_priority-score :
    (payload : PriorityInput) → (calculate_asset_finding_priority payload).score ≤ 100
unfolding calculate_asset_finding_priority
calculate_asset_finding_priority-score payload =
    cap_score-le (add_factors payload).0 (add_factors payload).1

given-append : (fs gs : List Factor) → given (fs ++ gs) ≡ given fs + given gs
given-append [] gs = ground arith
given-append (f ∷ fs) gs = let e = given-append fs gs in ground arith

taken-append : (fs gs : List Factor) → taken (fs ++ gs) ≡ taken fs + taken gs
taken-append [] gs = ground arith
taken-append (f ∷ fs) gs = let e = taken-append fs gs in ground arith

given-add_factors :
    (payload : PriorityInput) → given (add_factors payload).1 ≡ (add_factors payload).0
unfolding add_factors impact_points epss_points kev_points criticality_points exposure_points
    cui_points age_points
given-add_factors payload = ground arith

taken-add_factors : (payload : PriorityInput) → taken (add_factors payload).1 ≡ 0
unfolding add_factors impact_points epss_points kev_points criticality_points exposure_points
    cui_points age_points
taken-add_factors payload = ground arith

-- A capped score is explained by its factors when the uncapped one is.
factor_sum-cap_score :
    (score : ℕ) (factors : List Factor)
    → given factors ≡ score
    → taken factors ≡ 0
    → factor_sum (cap_score (score, factors)).1 ≡ (cap_score (score, factors)).0
unfolding cap_score factor_sum
factor_sum-cap_score score factors hg ht =
    let cap : List Factor = record { factor = score_cap; points = takes (score - 100) } ∷ [] in
    let g = given-append factors cap in let t = taken-append factors cap in ground arith

-- The score is the sum of the points of the factors that the explanation lists, the cap's included.
pub factor_sum-score :
    (payload : PriorityInput)
    → factor_sum (calculate_asset_finding_priority payload).factors
      ≡ (calculate_asset_finding_priority payload).score
unfolding calculate_asset_finding_priority
factor_sum-score payload =
    factor_sum-cap_score (add_factors payload).0 (add_factors payload).1 (given-add_factors payload)
      (taken-add_factors payload)
