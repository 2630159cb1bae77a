-- ===== src/Stages.antt =====
-- The stages of a scan and its custom ports: backend/app/scan_stages.py. A text is the list of its
-- code points, and an error gives none.
pub mod Ports
use nuclei_dashboard.Base.{
  Bool, List, Option, [], any, contains, false, if◌then◌else◌, inl, inr, leb, ltb, none, not, some,
  true, ℕ, ◌&&◌, ◌*◌, ◌++◌, ◌+◌, ◌-◌, ◌==◌, ◌||◌, ◌∷◌, ◌⊎◌,
}
use nuclei_dashboard.Base.Text.{Text, codes, strip}

-- `str.isdigit` on ASCII, for every character; the empty text is no number.
abbrev is_digit_code : ℕ → Bool
is_digit_code c = leb 48 c && leb c 57

abbrev are_digits : List ℕ → Bool
are_digits [] = true
are_digits (c ∷ cs) = is_digit_code c && are_digits cs

abbrev is_digit : List ℕ → Bool
is_digit [] = false
is_digit (c ∷ cs) = are_digits (c ∷ cs)

-- `int(value)`
abbrev int_from : ℕ → List ℕ → ℕ
int_from n [] = n
int_from n (c ∷ cs) = int_from (10 * n + (c - 48)) cs

-- `_parse_port_number`
unfoldable pub parse_port_number : List ℕ → Option ℕ
parse_port_number value =
    let port = int_from 0 value in
    if not (is_digit value) then none else if port == 0 || ltb 65535 port then none else some port

-- A port or a range of ports, which the source prints as `start` or `start-end`.
pub data PortSpec : Type 0 where
  single : ℕ → PortSpec
  range : ℕ → ℕ → PortSpec

-- What stands before the first dash and after it.
abbrev pub partition_dash : List ℕ → Option (List ℕ × List ℕ)
partition_dash [] = none
partition_dash (c ∷ cs) =
    let rest = partition_dash cs in
    if c == 45
    then some ([], cs)
    else elim rest [ none ↦ none | some sides ↦ some (c ∷ sides.0, sides.1) ]

unfoldable pub range_of : Option ℕ → Option ℕ → Option PortSpec
range_of none end = none
range_of (some start) none = none
range_of (some start) (some end) =
    if ltb end start
    then none
    else if start == end
    then some (single start)
    else some (range start end)

-- `_validate_port_token`
unfoldable pub validate_port_token : List ℕ → Option PortSpec
unfolding parse_port_number range_of
validate_port_token token = elim (partition_dash token) [
  | none ↦ elim (parse_port_number token) [ none ↦ none | some port ↦ some (single port) ]
  | some sides ↦
      if contains sides.1 45
      then none
      else range_of (parse_port_number sides.0) (parse_port_number sides.1)
]

infix 50 ◌same_spec◌
abbrev pub ◌same_spec◌ : PortSpec → PortSpec → Bool
single a same_spec single b = a == b
range a b same_spec range c d = a == c && b == d
_ same_spec _ = false

-- The loop of `parse_custom_ports` over the tokens, with the ports so far: `seen` holds the same ones.
unfoldable pub parse_tokens : List (List ℕ) → List PortSpec → Option (List PortSpec)
unfolding validate_port_token
parse_tokens [] ports = some ports
parse_tokens (token ∷ tokens) ports = elim (validate_port_token token) [
  | none ↦ none
  | some spec ↦
      (let longer = parse_tokens tokens (ports ++ spec ∷ []) in
        let same = parse_tokens tokens ports in
        if any (λ port. port same_spec spec) ports then same else longer)
]

pub data PortMode : Type 0 where
  no_ports common deep custom : PortMode

pub data PortScope : Type 0 where
  detected_hosts all_hosts : PortScope

-- The configuration, its port modes and scopes known to be valid names.
pub record StageConfig : Type 0 where
  pub discovery : Bool
  pub port_mode : PortMode
  pub port_scope : PortScope
  pub custom_ports : List PortSpec
  pub fingerprint : Bool
  pub vulnerability : Bool
  pub nuclei_severities : Text
  pub nuclei_tags : Text

pub data StageConfigError : Type 0 where
  invalid_port discovery_required ports_required ports_not_allowed : StageConfigError
  no_stage severities_required : StageConfigError

abbrev pub has_none {ℓ} : {A : Type ℓ} → List A → Bool
has_none [] = true
has_none (x ∷ xs) = false

abbrev pub is_none_mode : PortMode → Bool
is_none_mode no_ports = true
is_none_mode _ = false

abbrev pub is_custom : PortMode → Bool
is_custom custom = true
is_custom _ = false

abbrev pub is_detected : PortScope → Bool
is_detected detected_hosts = true
is_detected all_hosts = false

-- The scope that is kept, and the checks after the ports are parsed, in order.
abbrev pub scope_for : PortMode → PortScope → PortScope
scope_for no_ports scope = detected_hosts
scope_for _ scope = scope

unfoldable pub check_stages : StageConfig → Option StageConfigError
check_stages config =
    if not (is_none_mode config.port_mode) && is_detected config.port_scope && not config.discovery
    then some discovery_required
    else if is_custom config.port_mode && has_none config.custom_ports
    then some ports_required
    else if not (is_custom config.port_mode) && not (has_none config.custom_ports)
    then some ports_not_allowed
    else if not config.discovery
        && not config.fingerprint
        && not config.vulnerability
        && is_none_mode config.port_mode
    then some no_stage
    else if config.vulnerability && has_none config.nuclei_severities
    then some severities_required
    else none

-- "critical,high,medium"
abbrev pub default_severities : Text
default_severities = codes "critical,high,medium"

-- `str(value or default).strip()`
unfoldable pub stripped_or : Text → Text → Text
stripped_or [] default = strip default
stripped_or (c ∷ cs) default = strip (c ∷ cs)

-- `normalize_stage_config` on a configuration that names its fields, with the custom ports' tokens; the
-- severities and tags are the texts that were sent, empty where there is none.
unfoldable pub normalize_stage_config : StageConfig → List (List ℕ) → StageConfigError ⊎ StageConfig
unfolding parse_tokens check_stages stripped_or
normalize_stage_config raw tokens = elim (parse_tokens tokens []) [
  | none ↦ inl invalid_port
  | some ports ↦
      (let config = record raw {
        port_scope = scope_for raw.port_mode raw.port_scope;
        custom_ports = ports;
        nuclei_severities = stripped_or raw.nuclei_severities default_severities;
        nuclei_tags = stripped_or raw.nuclei_tags [];
      } in
        elim (check_stages config) [ none ↦ inr config | some error ↦ inl error ])
]
