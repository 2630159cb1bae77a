-- ===== src/Examples/Intensities.antt =====
-- Intensities of a scan.
use nuclei_dashboard.Base.{All, refl, ◌≡◌, ◌≤◌}
use nuclei_dashboard.Intensity.{
  Control, Value, absent, custom, default_caps, intensity_keys, naabu_rate, number,
  resolve_intensity,
}
use nuclei_dashboard.Intensity.Caps.{asked, resolve_intensity-within}

-- A custom request for another rate.
abbrev faster : Control → Value
faster naabu_rate = number 3000
faster _ = absent

resolve_intensity-within_example :
    (asked custom faster ≡ asked custom faster)
    × All (λ key. asked custom faster key ≤ default_caps key) intensity_keys
unfolding resolve_intensity
resolve_intensity-within_example =
    resolve_intensity-within custom faster default_caps (asked custom faster) refl
