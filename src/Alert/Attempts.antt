-- ===== src/Alert/Attempts.antt =====
-- How often a delivery is attempted, and that it comes to an end.
use nuclei_dashboard.Base.{arith, if◌then◌else◌, refl, true, ℕ, ◌+◌, ◌-◌, ◌≡◌, ◌≤◌}
use nuclei_dashboard.Base.Moments.{Moment}
use nuclei_dashboard.Alert.Queue.{max_delivery_attempts}
use nuclei_dashboard.Alert.Delivery.{
  AlertDelivery, Sending, claimed_delivery, finish_delivery, is_attempted, is_claimable,
  process_delivery, was_refused, was_sent,
}

-- A delivery, the claims that workers still work on, and the messages that were sent or tried.
pub record Sender : Type 0 where
  pub row : AlertDelivery
  pub in_hand : ℕ
  pub attempts_made : ℕ

-- Workers that claim and handle a delivery in any interleaving: a claim may be handled after its lease
-- is over, or never.
pub data SendStep : Sender → Sender → Type 0 where
  claims :
      (now : Moment) {s : Sender}
      → is_claimable now s.row ≡ true
      → SendStep s (record {
        row = claimed_delivery now s.row;
        in_hand = s.in_hand + 1;
        attempts_made = s.attempts_made;
      })
  handles :
      (now : Moment) (sending : Sending) {s : Sender}
      → 1 ≤ s.in_hand
      → SendStep s (record {
        row = process_delivery now sending s.row;
        in_hand = s.in_hand - 1;
        attempts_made = (if is_attempted s.row then s.attempts_made + 1 else s.attempts_made);
      })

pub data SendTrace : Sender → Sender → Type 0 where
  untouched : {s : Sender} → SendTrace s s
  and_then : {s m t : Sender} → SendTrace s m → SendStep m t → SendTrace s t

-- Every attempt has a claim of its own, and none is made beyond the limit.
abbrev IsCountedFor : Sender → Type 0
IsCountedFor s =
    (s.attempts_made + s.in_hand ≤ s.row.attempt_count) × (s.attempts_made ≤ max_delivery_attempts)

finish_delivery-attempt_count :
    (now : Moment) (sending : Sending) (row : AlertDelivery)
    → (finish_delivery now sending row).attempt_count ≡ row.attempt_count
unfolding finish_delivery
finish_delivery-attempt_count now was_sent row = refl
finish_delivery-attempt_count now (was_refused permanent) row = ground arith

process_delivery-attempt_count :
    (now : Moment) (sending : Sending) (row : AlertDelivery)
    → (process_delivery now sending row).attempt_count ≡ row.attempt_count
unfolding process_delivery
process_delivery-attempt_count now sending row =
    let a = finish_delivery-attempt_count now sending row in
    let b = finish_delivery-attempt_count now (was_refused true) row in ground arith

SendStep-IsCountedFor : {s t : Sender} → SendStep s t → IsCountedFor s → IsCountedFor t
SendStep-IsCountedFor (claims now e) h = let a = h.0 in (omega (arith, a), h.1)
SendStep-IsCountedFor (handles now sending {s} e) h =
    let a = h.0 in
    let b = h.1 in
    let c = process_delivery-attempt_count now sending s.row in (ground arith, ground arith)

SendTrace-IsCountedFor : {s t : Sender} → SendTrace s t → IsCountedFor s → IsCountedFor t
SendTrace-IsCountedFor untouched h = h
SendTrace-IsCountedFor (and_then trace step) h =
    SendStep-IsCountedFor step (SendTrace-IsCountedFor trace h)

-- A delivery that was never claimed is attempted five times at most, however the workers interleave,
-- lose their leases or stop.
pub SendTrace-attempts :
    {s t : Sender}
    → SendTrace s t
    → s.in_hand ≡ 0
    → s.attempts_made ≡ 0
    → t.attempts_made ≤ max_delivery_attempts
SendTrace-attempts {s} {t} trace idle unsent =
    let start : IsCountedFor s = (omega (arith, idle, unsent), omega (arith, unsent)) in
    (SendTrace-IsCountedFor trace start).1
