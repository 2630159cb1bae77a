-- ===== src/Alert/Passes.antt =====
-- Deliveries come to an end.
use nuclei_dashboard.Base.{
  All, Bool, Bool-cases, List, [], arith, count_if, false, inl, inr, leb, length, le→leb, map, not,
  refl, subst, suc, true, zero, ℕ, ◌+◌, ◌<◌, ◌||◌, ◌∷◌, ◌≡◌, ◌≤◌, ◌⊎◌,
}
use nuclei_dashboard.Base.Moments.{Moment, seconds}
use nuclei_dashboard.Alert.Queue.{backoff_seconds, max_delivery_attempts}
use nuclei_dashboard.Alert.Delivery.{
  AlertDelivery, Pass, Sending, claim_each, claimed_delivery, delivery_pass, delivery_pending,
  finish_delivery, handle_in, is_attempted, is_claimable, is_final, process_delivery, was_refused,
  was_sent,
}

-- One pass after another.
unfoldable pub delivery_passes : ℕ → List Pass → List AlertDelivery → List AlertDelivery
unfolding delivery_pass
delivery_passes limit [] rows = rows
delivery_passes limit (pass ∷ passes) rows =
    delivery_passes limit passes (delivery_pass limit pass rows)

-- Each pass claims at least an hour, the longest delay of a retry, after the one before has finished its
-- last delivery, at the moment that stands beside it.
abbrev pub IsSpaced : Moment → List (Pass × Moment) → Type 0
IsSpaced last [] = Unit
IsSpaced last (p ∷ passes) =
    (last + seconds 3600 ≤ p.0.claimed_at)
    × ((id : ℕ) → p.0.finished_at id ≤ p.1)
    × IsSpaced p.1 passes

backoff_bound : (n : ℕ) → backoff_seconds n ≤ 3600
unfolding backoff_seconds
backoff_bound n = ground arith

abbrev pub is_unfinished : AlertDelivery → Bool
is_unfinished row = not (is_final row.status)

-- A delivery that is sent or failed, or waits for a retry with as many attempts left as there are passes
-- at most.
abbrev pub IsOnTrack : Moment → ℕ → AlertDelivery → Type 0
IsOnTrack last passes row =
    (is_final row.status ≡ true)
    ⊎ ((row.status ≡ delivery_pending)
        × (row.attempt_count < max_delivery_attempts)
        × (row.next_attempt_at ≤ last + seconds 3600)
        × (max_delivery_attempts ≤ row.attempt_count + passes))

final-is_claimable :
    (now : Moment) (row : AlertDelivery) → is_final row.status ≡ true → is_claimable now row ≡ false
unfolding is_claimable
final-is_claimable now row h = ground arith

waiting-is_claimable :
    (now last : Moment) (row : AlertDelivery)
    → row.status ≡ delivery_pending
    → row.next_attempt_at ≤ last + seconds 3600
    → last + seconds 3600 ≤ now
    → is_claimable now row ≡ true
unfolding is_claimable
waiting-is_claimable now last row waits due late =
    rw waits (le→leb row.next_attempt_at now (omega (arith, due, late)))

-- After an attempt within the limit the row is final, or waits.
finish_delivery-IsOnTrack :
    (now last : Moment) (passes : ℕ) (sending : Sending) (row : AlertDelivery)
    → now ≤ last
    → max_delivery_attempts ≤ row.attempt_count + passes
    → IsOnTrack last passes (finish_delivery now sending row)
unfolding finish_delivery
finish_delivery-IsOnTrack now last passes was_sent row late enough = inl refl
finish_delivery-IsOnTrack now last passes (was_refused permanent) row late enough =
    let b = backoff_bound row.attempt_count in
    elim (Bool-cases (permanent || leb max_delivery_attempts row.attempt_count)) [
      | inl over ↦ inl (ground arith)
      | inr again ↦ inr (ground arith, ground arith, ground arith, ground arith)
    ]

handle_in-IsOnTrack :
    (pass : Pass) (last : Moment) (passes : ℕ) (row : AlertDelivery)
    → ((id : ℕ) → pass.finished_at id ≤ last)
    → row.attempt_count < max_delivery_attempts
    → max_delivery_attempts ≤ row.attempt_count + (passes + 1)
    → IsOnTrack last passes (handle_in pass row)
unfolding handle_in process_delivery
handle_in-IsOnTrack pass last passes row ends few enough =
    let claimed = claimed_delivery pass.claimed_at row in
    let e : is_attempted claimed ≡ true = ground arith in
    rw e (
      finish_delivery-IsOnTrack (pass.finished_at row.id) last passes (pass.sending row.id) claimed
        (ends row.id) (omega (arith, enough)))

none_unfinished :
    (last : Moment) (passes : ℕ) (rows : List AlertDelivery)
    → count_if is_unfinished rows ≡ 0
    → All (IsOnTrack last passes) rows
none_unfinished last passes [] h = tt
none_unfinished last passes (row ∷ rows) h =
    (inl (ground arith), none_unfinished last passes rows (ground arith))

module _ (pass : Pass) (limit : ℕ) (row : AlertDelivery) (rows : List AlertDelivery) where
  pass-claimed :
      is_claimable pass.claimed_at row ≡ true
      → delivery_pass (suc limit) pass (row ∷ rows)
        ≡ handle_in pass row ∷ delivery_pass limit pass rows
  unfolding delivery_pass claim_each
  pass-claimed h = ground arith

  pass-skipped :
      is_claimable pass.claimed_at row ≡ false
      → delivery_pass (suc limit) pass (row ∷ rows) ≡ row ∷ delivery_pass (suc limit) pass rows
  unfolding delivery_pass claim_each
  pass-skipped h = ground arith

module _ (pass : Pass) (last ended : Moment) (passes : ℕ)
    (late : last + seconds 3600 ≤ pass.claimed_at)
    (ends : (id : ℕ) → pass.finished_at id ≤ ended) where
  row-IsOnTrack :
      (row : AlertDelivery)
      → IsOnTrack last (passes + 1) row
      → ((is_claimable pass.claimed_at row ≡ true)
          × (is_unfinished row ≡ true)
          × IsOnTrack ended passes (handle_in pass row))
        ⊎ ((is_claimable pass.claimed_at row ≡ false) × (is_final row.status ≡ true))
  row-IsOnTrack row (inl final) = inr (final-is_claimable pass.claimed_at row final, final)
  row-IsOnTrack row (inr (waits, few, due, enough)) = inl (
    waiting-is_claimable pass.claimed_at last row waits due late,
    ground arith,
    handle_in-IsOnTrack pass ended passes row ends few enough,
  )

  delivery_pass-IsOnTrack :
      (limit : ℕ) (rows : List AlertDelivery)
      → count_if is_unfinished rows ≤ limit
      → All (IsOnTrack last (passes + 1)) rows
      → All (IsOnTrack ended passes) (delivery_pass limit pass rows)
        × (count_if is_unfinished (delivery_pass limit pass rows) ≤ count_if is_unfinished rows)
  unfolding delivery_pass
  delivery_pass-IsOnTrack limit [] few track = (tt, omega arith)
  delivery_pass-IsOnTrack zero (row ∷ rows) few track =
      (none_unfinished ended passes (row ∷ rows) (omega (arith, few)), omega arith)
  delivery_pass-IsOnTrack (suc limit) (row ∷ rows) few track = elim (row-IsOnTrack row track.0) [
    | inl (claim, unfinished, handled) ↦
        (let (rest, fewer) = delivery_pass-IsOnTrack limit rows (ground arith) track.1 in
          rw (pass-claimed pass limit row rows claim) ((handled, rest), ground arith))
    | inr (skip, final) ↦
        (let (rest, fewer) = delivery_pass-IsOnTrack (suc limit) rows (ground arith) track.1 in
          rw (pass-skipped pass limit row rows skip) ((inl final, rest), ground arith))
  ]

All-is_final :
    (last : Moment) (rows : List AlertDelivery)
    → All (IsOnTrack last 0) rows
    → All (λ row. is_final row.status ≡ true) rows
All-is_final last [] track = tt
All-is_final last (row ∷ rows) track =
    let rest = All-is_final last rows track.1 in
    elim track.0 [
      | inl final ↦ (final, rest)
      | inr waiting ↦ (let w = waiting.1 in let e = waiting.3 in ground arith, rest)
    ]

-- Where no more deliveries are unfinished than a pass may claim, and each of them waits for a retry with
-- an attempt left, all are sent or failed after as many passes as the attempts left, however sending
-- them ends, if no pass is interrupted and each begins an hour or more after the one before has ended.
pub delivery_passes-end :
    (limit : ℕ) (passes : List (Pass × Moment)) (last : Moment) (rows : List AlertDelivery)
    → count_if is_unfinished rows ≤ limit
    → All (IsOnTrack last (length passes)) rows
    → IsSpaced last passes
    → All (λ row. is_final row.status ≡ true) (delivery_passes limit (map (λ p. p.0) passes) rows)
unfolding delivery_passes
delivery_passes-end limit [] last rows few track spaced = All-is_final last rows track
delivery_passes-end limit (p ∷ passes) last rows few track spaced =
    let same : length (p ∷ passes) ≡ length passes + 1 = omega arith in
    let (later, fewer) =
      delivery_pass-IsOnTrack p.0 last p.1 (length passes) spaced.0 spaced.1 limit rows few
        (subst (λ n. All (IsOnTrack last n) rows) same track) in
    delivery_passes-end limit passes p.1 (delivery_pass limit p.0 rows) (omega (arith, few, fewer))
      later spaced.2
