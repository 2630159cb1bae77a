-- ===== src/Intensity.antt =====
-- Intensity presets, the controls that a scan resolves, and the Admin's caps:
-- backend/app/scan_intensity.py. The controls are a function of their name; a value that `int` refuses
-- and one that is negative are told apart, as the source raises for each.
pub mod Caps
use nuclei_dashboard.Base.{Bool, List, Option, [], any, if◌then◌else◌, ltb, none, some, ℕ, ◌∷◌}

-- INTENSITY_KEYS
pub data Control : Type 0 where
  naabu_rate naabu_concurrency naabu_timeout_ms naabu_retries : Control
  httpx_rate httpx_threads httpx_timeout httpx_retries : Control
  nuclei_rate nuclei_concurrency nuclei_timeout nuclei_retries : Control

abbrev pub intensity_keys : List Control
intensity_keys =
    naabu_rate ∷ naabu_concurrency ∷ naabu_timeout_ms ∷ naabu_retries ∷ httpx_rate ∷ httpx_threads
    ∷ httpx_timeout ∷ httpx_retries ∷ nuclei_rate ∷ nuclei_concurrency ∷ nuclei_timeout
    ∷ nuclei_retries ∷ []

pub data Preset : Type 0 where
  low normal high custom : Preset

-- A value of the request: missing or None, refused by `int`, negative, or a number.
pub data Value : Type 0 where
  absent invalid negative : Value
  number : ℕ → Value

pub data IntensityError : Type 0 where
  invalid_cap negative_cap unknown_preset invalid_value negative_value exceeds_cap : IntensityError

pub data Resolved : Type 0 where
  resolved : (Control → ℕ) → Resolved
  refused : IntensityError → Resolved

abbrev pub low_controls : Control → ℕ
low_controls naabu_rate = 400
low_controls naabu_concurrency = 20
low_controls naabu_timeout_ms = 800
low_controls naabu_retries = 1
low_controls httpx_rate = 50
low_controls httpx_threads = 20
low_controls httpx_timeout = 12
low_controls httpx_retries = 1
low_controls nuclei_rate = 50
low_controls nuclei_concurrency = 10
low_controls nuclei_timeout = 12
low_controls nuclei_retries = 1

abbrev pub normal_controls : Control → ℕ
normal_controls naabu_rate = 2500
normal_controls naabu_concurrency = 50
normal_controls naabu_timeout_ms = 400
normal_controls naabu_retries = 1
normal_controls httpx_rate = 150
normal_controls httpx_threads = 50
normal_controls httpx_timeout = 10
normal_controls httpx_retries = 1
normal_controls nuclei_rate = 150
normal_controls nuclei_concurrency = 25
normal_controls nuclei_timeout = 10
normal_controls nuclei_retries = 1

abbrev pub high_controls : Control → ℕ
high_controls naabu_rate = 4000
high_controls naabu_concurrency = 75
high_controls naabu_timeout_ms = 250
high_controls naabu_retries = 0
high_controls httpx_rate = 300
high_controls httpx_threads = 80
high_controls httpx_timeout = 8
high_controls httpx_retries = 0
high_controls nuclei_rate = 300
high_controls nuclei_concurrency = 50
high_controls nuclei_timeout = 8
high_controls nuclei_retries = 0

-- PRESETS, with those that a custom request starts from.
abbrev pub presets : Preset → Control → ℕ
presets low = low_controls
presets normal = normal_controls
presets high = high_controls
presets custom = normal_controls

abbrev pub default_caps : Control → ℕ
default_caps naabu_rate = 5000
default_caps naabu_concurrency = 100
default_caps naabu_timeout_ms = 10000
default_caps naabu_retries = 5
default_caps httpx_rate = 500
default_caps httpx_threads = 150
default_caps httpx_timeout = 30
default_caps httpx_retries = 5
default_caps nuclei_rate = 500
default_caps nuclei_concurrency = 100
default_caps nuclei_timeout = 30
default_caps nuclei_retries = 5

-- The number that a value stands for, over a default.
abbrev pub value_over : ℕ → Value → ℕ
value_over default absent = default
value_over default invalid = default
value_over default negative = default
value_over default (number n) = n

-- The error of the first value, in the order of the keys, that has one.
abbrev pub first_error :
    IntensityError → IntensityError → (Control → Value) → List Control → Option IntensityError
first_error bad below values [] = none
first_error bad below values (key ∷ keys) =
    let rest = first_error bad below values keys in
    elim (values key) [
      | absent ↦ rest
      | invalid ↦ some bad
      | negative ↦ some below
      | number n ↦ rest
    ]

abbrev pub unless : Option IntensityError → Resolved → Resolved
unless (some error) result = refused error
unless none result = result

-- `caps_from_settings`. A setting that is None is one that `int` refuses.
unfoldable caps_from_settings : (Control → Value) → Resolved
caps_from_settings settings =
    unless (first_error invalid_cap negative_cap settings intensity_keys)
      (resolved (λ key. value_over (default_caps key) (settings key)))

-- `_assert_within_caps`
unfoldable pub is_over : (Control → ℕ) → (Control → ℕ) → Control → Bool
is_over caps controls key = ltb (caps key) (controls key)

abbrev pub within_caps : (Control → ℕ) → (Control → ℕ) → Resolved
within_caps caps controls =
    if any (is_over caps controls) intensity_keys then refused exceeds_cap else resolved controls

-- `resolve_intensity`; none is a preset of another name.
unfoldable pub resolve_intensity : Option Preset → (Control → Value) → (Control → ℕ) → Resolved
unfolding is_over
resolve_intensity none values caps = refused unknown_preset
resolve_intensity (some custom) values caps =
    unless (first_error invalid_value negative_value values intensity_keys)
      (within_caps caps (λ key. value_over (normal_controls key) (values key)))
resolve_intensity (some preset) values caps = within_caps caps (presets preset)
