-- ===== src/Stages/Ports.antt =====
-- The ports that a configuration keeps are well formed, and its stages consistent.
use nuclei_dashboard.Base.{
  All, All-append, Bool-cases, List, Option, Option-cases, [], any, arith, inl, inr, none, not,
  refl, some, subst, true, ℕ, ◌++◌, ◌<◌, ◌||◌, ◌∷◌, ◌≡◌, ◌≤◌,
}
use nuclei_dashboard.Stages.{
  PortSpec, StageConfig, check_stages, default_severities, has_none, is_custom, is_detected,
  is_none_mode, normalize_stage_config, parse_port_number, parse_tokens, partition_dash, range,
  range_of, scope_for, single, stripped_or, validate_port_token, ◌same_spec◌,
}

abbrev IsPort : ℕ → Type 0
IsPort port = (1 ≤ port) × (port ≤ 65535)

abbrev pub IsSpec : PortSpec → Type 0
IsSpec (single port) = IsPort port
IsSpec (range start end) = IsPort start × IsPort end × (start < end)

parse_port_number-IsPort :
    (value : List ℕ) (port : ℕ) → parse_port_number value ≡ some port → IsPort port
unfolding parse_port_number
parse_port_number-IsPort value port h = ground arith

range_of-IsSpec :
    (start end : Option ℕ) (spec : PortSpec)
    → ((port : ℕ) → start ≡ some port → IsPort port)
    → ((port : ℕ) → end ≡ some port → IsPort port)
    → range_of start end ≡ some spec
    → IsSpec spec
unfolding range_of
range_of-IsSpec none end spec hs he h = ground arith
range_of-IsSpec (some start) none spec hs he h = ground arith
range_of-IsSpec (some start) (some end) (single port) hs he h =
    let s = hs start refl in ground arith
range_of-IsSpec (some start) (some end) (range from to) hs he h =
    let s = hs start refl in let e = he end refl in ground arith

plain-IsSpec :
    (o : Option ℕ) (spec : PortSpec)
    → ((port : ℕ) → o ≡ some port → IsPort port)
    → elim o [ none ↦ none | some port ↦ some (single port) ] ≡ some spec
    → IsSpec spec
plain-IsSpec none spec ho h = ground arith
plain-IsSpec (some port) (single kept) ho h = let s = ho port refl in ground arith
plain-IsSpec (some port) (range from to) ho h = ground arith

-- A token that is accepted names a port from 1 to 65535, or a range of them that grows.
pub validate_port_token-IsSpec :
    (token : List ℕ) (spec : PortSpec) → validate_port_token token ≡ some spec → IsSpec spec
unfolding validate_port_token
validate_port_token-IsSpec token spec h = elim (Option-cases (partition_dash token)) [
  | inl plain ↦
      (let e : elim (parse_port_number token) [ none ↦ none | some port ↦ some (single port) ]
            ≡ some spec =
          ground arith in
        plain-IsSpec (parse_port_number token) spec (parse_port_number-IsPort token) e)
  | inr sides ↦
      (let left = sides.0.0 in
        let right = sides.0.1 in
        let p = sides.1 in
        let e : range_of (parse_port_number left) (parse_port_number right) ≡ some spec =
          ground arith in
        range_of-IsSpec (parse_port_number left) (parse_port_number right) spec
          (parse_port_number-IsPort left) (parse_port_number-IsPort right) e)
]

parse_tokens-IsSpec :
    (tokens : List (List ℕ)) (ports result : List PortSpec)
    → All IsSpec ports
    → parse_tokens tokens ports ≡ some result
    → All IsSpec result
unfolding parse_tokens
parse_tokens-IsSpec [] ports result good h =
    let e : ports ≡ result = ground arith in subst (All IsSpec) e good
parse_tokens-IsSpec (token ∷ tokens) ports result good h =
    elim (Option-cases (validate_port_token token)) [
      | inl refused ↦ ground arith
      | inr accepted ↦
          (let spec = accepted.0 in
            let ok_spec = validate_port_token-IsSpec token spec accepted.1 in
            let p = accepted.1 in
            let longer =
              parse_tokens-IsSpec tokens (ports ++ spec ∷ []) result
                (All-append IsSpec ports (spec ∷ []) good (ok_spec, tt)) in
            let same = parse_tokens-IsSpec tokens ports result good in
            elim (Bool-cases (any (λ port. port same_spec spec) ports)) [
              | inl seen ↦
                  (let e : parse_tokens tokens ports ≡ some result = ground arith in same e)
              | inr unseen ↦
                  (let e : parse_tokens tokens (ports ++ spec ∷ []) ≡ some result = ground arith in
                    longer e)
            ])
    ]

-- What a stored configuration satisfies.
abbrev pub IsConsistent : StageConfig → Type 0
IsConsistent config =
    All IsSpec config.custom_ports
    × (is_custom config.port_mode ≡ not (has_none config.custom_ports))
    × ((is_none_mode config.port_mode || not (is_detected config.port_scope) || config.discovery)
        ≡ true)
    × ((config.discovery
          || config.fingerprint
          || config.vulnerability
          || not (is_none_mode config.port_mode))
        ≡ true)
    × ((not config.vulnerability || not (has_none config.nuclei_severities)) ≡ true)

check_stages-IsConsistent :
    (config : StageConfig)
    → All IsSpec config.custom_ports
    → check_stages config ≡ none
    → IsConsistent config
unfolding check_stages
check_stages-IsConsistent config good h =
    (good, ground arith, ground arith, ground arith, ground arith)

-- A configuration that is accepted has a stage, ports exactly when its mode is custom, each of them
-- well formed, the discovery that a scan of detected hosts needs and the severities that a
-- vulnerability scan needs.
pub normalize_stage_config-IsConsistent :
    (raw config : StageConfig) (tokens : List (List ℕ))
    → normalize_stage_config raw tokens ≡ inr config
    → IsConsistent config
unfolding normalize_stage_config
normalize_stage_config-IsConsistent raw config tokens h =
    elim (Option-cases (parse_tokens tokens [])) [
      | inl refused ↦ ground arith
      | inr ports ↦
          (let good = parse_tokens-IsSpec tokens [] ports.0 tt ports.1 in
            let p = ports.1 in
            let made : StageConfig = record raw {
              port_scope = scope_for raw.port_mode raw.port_scope;
              custom_ports = ports.0;
              nuclei_severities = stripped_or raw.nuclei_severities default_severities;
              nuclei_tags = stripped_or raw.nuclei_tags [];
            } in
            let checked = check_stages-IsConsistent made good in
            elim (Option-cases (check_stages made)) [
              | inl passed ↦
                  (let e : made ≡ config = ground arith in subst IsConsistent e (checked passed))
              | inr failed ↦ ground arith
            ])
    ]
