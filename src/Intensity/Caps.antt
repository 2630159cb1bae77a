-- ===== src/Intensity/Caps.antt =====
-- What a scan resolves lies within the caps, and is what was asked for.
use nuclei_dashboard.Base.{
  All, Bool-cases, List, Option, [], any, arith, false, inl, inr, none, some, subst, sym, ℕ, ◌∷◌,
  ◌≡◌, ◌≤◌,
}
use nuclei_dashboard.Intensity.{
  Control, IntensityError, Preset, Resolved, Value, custom, first_error, high, high_controls,
  intensity_keys, invalid_value, is_over, low, low_controls, negative_value, normal,
  normal_controls, presets, resolve_intensity, resolved, unless, value_over, within_caps,
}

-- The controls that a preset and the values of a request ask for.
abbrev pub asked : Preset → (Control → Value) → Control → ℕ
asked custom values key = value_over (normal_controls key) (values key)
asked preset values key = presets preset key

All-is_over :
    (caps controls : Control → ℕ) (keys : List Control)
    → any (is_over caps controls) keys ≡ false
    → All (λ key. controls key ≤ caps key) keys
unfolding is_over
All-is_over caps controls [] h = tt
All-is_over caps controls (key ∷ keys) h =
    (ground arith, All-is_over caps controls keys (ground arith))

within_caps-resolved :
    (caps controls result : Control → ℕ)
    → within_caps caps controls ≡ resolved result
    → (result ≡ controls) × All (λ key. result key ≤ caps key) intensity_keys
within_caps-resolved caps controls result h =
    elim (Bool-cases (any (is_over caps controls) intensity_keys)) [
      | inl over ↦ ground arith
      | inr within ↦
          (let e : controls ≡ result = ground arith in
            (
              sym e,
              subst (λ r. All (λ key. r key ≤ caps key) intensity_keys) e
                  (All-is_over caps controls intensity_keys within),
            ))
    ]

unless-resolved :
    (error : Option IntensityError) (made : Resolved) (result : Control → ℕ)
    → unless error made ≡ resolved result
    → made ≡ resolved result
unless-resolved none made result h = h
unless-resolved (some error) made result h = ground arith

-- An intensity that is resolved has the controls that were asked for, each of them within its cap.
pub resolve_intensity-within :
    (preset : Preset) (values : Control → Value) (caps result : Control → ℕ)
    → resolve_intensity (some preset) values caps ≡ resolved result
    → (result ≡ asked preset values) × All (λ key. result key ≤ caps key) intensity_keys
unfolding resolve_intensity
resolve_intensity-within low values caps result h = within_caps-resolved caps low_controls result h
resolve_intensity-within normal values caps result h =
    within_caps-resolved caps normal_controls result h
resolve_intensity-within high values caps result h =
    within_caps-resolved caps high_controls result h
resolve_intensity-within custom values caps result h =
    within_caps-resolved caps (asked custom values) result (
      unless-resolved (first_error invalid_value negative_value values intensity_keys)
        (within_caps caps (asked custom values)) result h)
