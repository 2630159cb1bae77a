-- ===== src/Schedule/Fields.antt =====
-- What a parsed expression allows, and what a normalised schedule is.
use native.Mathlib.Nat.{div-mul-le_self}
use nuclei_dashboard.Base.Text.{Text, split_on}
use nuclei_dashboard.Base.{
  All, All-append, Bool-cases, List, Option-cases, [], arith, false, inl, inr, length, ltb, refl,
  some, subst, suc, zero, ℕ, ◌*◌, ◌++◌, ◌+◌, ◌-◌, ◌/◌, ◌||◌, ◌∷◌, ◌≡◌, ◌≤◌,
}
use nuclei_dashboard.Schedule.Config.{
  base_range, checked_range, chunk_step, has_none, parse_chunk, parse_chunks, parse_cron_field,
  range_values,
}

-- A number within the limits of a field.
abbrev IsLimited : ℕ → ℕ → ℕ → Type 0
IsLimited lo hi n = (lo ≤ n) × (n ≤ hi)

-- A field allows something, all of it within its limits.
abbrev pub IsField : ℕ → ℕ → List ℕ → Type 0
IsField lo hi values = (1 ≤ length values) × All (IsLimited lo hi) values

range_values-IsLimited :
    (count start step lo hi : ℕ)
    → lo ≤ start
    → start + count * step ≤ hi + step
    → All (IsLimited lo hi) (range_values count start step)
unfolding range_values
range_values-IsLimited zero start step lo hi low high = tt
range_values-IsLimited (suc count) start step lo hi low high = (
  (low, omega (arith, high)),
  range_values-IsLimited count (start + step) step lo hi (omega (arith, low)) (omega (arith, high)),
)

length-range_values : (count start step : ℕ) → length (range_values count start step) ≡ count
unfolding range_values
length-range_values zero start step = refl
length-range_values (suc count) start step =
    omega (arith, length-range_values count (start + step) step)

checked_range-IsField :
    (lo hi start end step : ℕ) (values : List ℕ)
    → checked_range lo hi (start, end) step ≡ some values
    → IsField lo hi values
unfolding checked_range range_values
checked_range-IsField lo hi start end step values h =
    let rounds = (end - start) / step in
    let d = div-mul-le_self (end - start) step in
    elim (Bool-cases (ltb start lo || (ltb hi end || ltb end start))) [
      | inl refused ↦ ground arith
      | inr within ↦
          (let low : lo ≤ start = ground arith in
            let high : end ≤ hi = ground arith in
            let grows : start ≤ end = ground arith in
            let e : range_values (rounds + 1) start step ≡ values = ground arith in
            let room : start + (rounds + 1) * step ≤ hi + step = omega (arith, d, high, grows) in
            subst (IsField lo hi) e (
              omega (arith, length-range_values (rounds + 1) start step),
              range_values-IsLimited (rounds + 1) start step lo hi low room,
            ))
    ]

parse_chunk-IsField :
    (lo hi : ℕ) (chunk : Text) (values : List ℕ)
    → parse_chunk lo hi chunk ≡ some values
    → IsField lo hi values
unfolding parse_chunk
parse_chunk-IsField lo hi chunk values h = elim (Option-cases (chunk_step chunk)) [
  | inl refused ↦ ground arith
  | inr stepped ↦
      (let s = stepped.1 in
        elim (Option-cases (base_range stepped.0.0 lo hi)) [
          | inl refused ↦ ground arith
          | inr limits ↦
              (let l = limits.1 in
                checked_range-IsField lo hi limits.0.0 limits.0.1 stepped.0.1 values (ground arith))
        ])
]

parse_chunks-IsLimited :
    (lo hi : ℕ) (chunks : List Text) (values : List ℕ)
    → parse_chunks lo hi chunks ≡ some values
    → All (IsLimited lo hi) values
unfolding parse_chunks
parse_chunks-IsLimited lo hi [] values h =
    let e : [] ≡ values = ground arith in subst (All (IsLimited lo hi)) e tt
parse_chunks-IsLimited lo hi (chunk ∷ chunks) values h =
    elim (Option-cases (parse_chunk lo hi chunk)) [
      | inl refused ↦ ground arith
      | inr first ↦
          (let f = first.1 in
            elim (Option-cases (parse_chunks lo hi chunks)) [
              | inl refused ↦ ground arith
              | inr rest ↦
                  (let r = rest.1 in
                    let e : first.0 ++ rest.0 ≡ values = ground arith in
                    subst (All (IsLimited lo hi)) e (
                      All-append (IsLimited lo hi) first.0 rest.0
                        (parse_chunk-IsField lo hi chunk first.0 f).1
                        (parse_chunks-IsLimited lo hi chunks rest.0 r)))
            ])
    ]

has_none-length : (values : List ℕ) → has_none values ≡ false → 1 ≤ length values
has_none-length [] h = ground arith
has_none-length (n ∷ ns) h = omega arith

-- A field that is parsed allows at least one value, and only values within its limits.
pub parse_cron_field-IsField :
    (field : Text) (lo hi : ℕ) (values : List ℕ)
    → parse_cron_field field lo hi ≡ some values
    → IsField lo hi values
unfolding parse_cron_field
parse_cron_field-IsField field lo hi values h =
    let chunks = split_on b',' field in
    elim (Option-cases (parse_chunks lo hi (chunks.0 ∷ chunks.1))) [
      | inl refused ↦ ground arith
      | inr parsed ↦
          (let p = parsed.1 in
            let e : parsed.0 ≡ values = ground arith in
            subst (IsField lo hi) e (
              has_none-length parsed.0 (ground arith),
              parse_chunks-IsLimited lo hi (chunks.0 ∷ chunks.1) parsed.0 p,
            ))
    ]
