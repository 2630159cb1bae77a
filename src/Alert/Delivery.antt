-- ===== src/Alert/Delivery.antt =====
-- Delivering: `_claim_deliveries`, `_finish_delivery` and `process_pending_deliveries`. What sending by
-- mail or to a webhook gives is an argument.
use nuclei_dashboard.Base.{
  Bool, List, Option, [], false, if◌then◌else◌, leb, ltb, none, not, some, suc, true, zero, ℕ, ◌+◌,
  ◌||◌, ◌∷◌,
}
use nuclei_dashboard.Base.Moments.{Moment, seconds}
use nuclei_dashboard.Alert.Queue.{Channel, backoff_seconds, max_delivery_attempts}

pub data DeliveryStatus : Type 0 where
  delivery_pending delivery_processing delivery_sent delivery_failed : DeliveryStatus

pub record AlertDelivery : Type 0 where
  pub id : ℕ
  pub alert_id : ℕ
  pub channel : Channel
  pub status : DeliveryStatus
  pub attempt_count : ℕ
  pub next_attempt_at : Moment
  pub last_attempt_at : Option Moment
  pub updated_at : Moment
  pub delivered_at : Option Moment

-- How sending ends: it returns, or it raises for good or for now.
pub data Sending : Type 0 where
  was_sent : Sending
  was_refused : Bool → Sending

unfoldable pub is_claimable : Moment → AlertDelivery → Bool
is_claimable now row = elim row.status [
  | delivery_pending ↦ leb row.next_attempt_at now
  | delivery_processing ↦ elim row.last_attempt_at [
    | some attempt ↦ leb (attempt + seconds 120) now
    | none ↦ leb (row.updated_at + seconds 120) now
  ]
  | _ ↦ false
]

-- The row that `_claim_deliveries` updates.
abbrev pub claimed_delivery : Moment → AlertDelivery → AlertDelivery
claimed_delivery now row = record row {
  status = delivery_processing;
  updated_at = now;
  last_attempt_at = some now;
  attempt_count = row.attempt_count + 1;
}

-- The query of `_claim_deliveries`, on the rows in the order of their ids: what is done to the rows that
-- it selects, at most `limit` of them.
unfoldable pub claim_each :
    (AlertDelivery → AlertDelivery) → Moment → ℕ → List AlertDelivery → List AlertDelivery
unfolding is_claimable
claim_each change now limit [] = []
claim_each change now zero (row ∷ rows) = row ∷ rows
claim_each change now (suc limit) (row ∷ rows) = elim (is_claimable now row) [
  | true ↦ change row ∷ claim_each change now limit rows
  | false ↦ row ∷ claim_each change now (suc limit) rows
]

-- `_claim_deliveries`
unfoldable claim_deliveries : Moment → ℕ → List AlertDelivery → List AlertDelivery
unfolding claim_each
claim_deliveries now limit rows = claim_each (claimed_delivery now) now limit rows

-- `_finish_delivery`
unfoldable pub finish_delivery : Moment → Sending → AlertDelivery → AlertDelivery
unfolding backoff_seconds
finish_delivery now was_sent row = record row {
  status = delivery_sent;
  updated_at = now;
  last_attempt_at = some now;
  delivered_at = some now;
}
finish_delivery now (was_refused permanent) row =
    if permanent || leb max_delivery_attempts row.attempt_count
    then record row { status = delivery_failed; updated_at = now; last_attempt_at = some now }
    else record row {
      status = delivery_pending;
      updated_at = now;
      last_attempt_at = some now;
      next_attempt_at = now + seconds (backoff_seconds row.attempt_count);
    }

-- Whether this attempt is made: beyond the last one the row is only marked.
abbrev pub is_attempted : AlertDelivery → Bool
is_attempted row = not (ltb max_delivery_attempts row.attempt_count)

-- One row of `process_pending_deliveries`, once it is claimed.
unfoldable pub process_delivery : Moment → Sending → AlertDelivery → AlertDelivery
unfolding finish_delivery
process_delivery now sending row =
    if is_attempted row
    then finish_delivery now sending row
    else finish_delivery now (was_refused true) row

abbrev pub is_final : DeliveryStatus → Bool
is_final delivery_sent = true
is_final delivery_failed = true
is_final _ = false

-- What happens in a pass: the moment of its claim, and for each delivery the moment at which
-- `_finish_delivery` reads the clock, and how sending ended.
pub record Pass : Type 0 where
  pub claimed_at : Moment
  pub finished_at : ℕ → Moment
  pub sending : ℕ → Sending

-- A pass of `process_pending_deliveries` that nothing interrupts: each delivery that it claims is handled
-- by it.
unfoldable pub handle_in : Pass → AlertDelivery → AlertDelivery
unfolding process_delivery
handle_in pass row =
    process_delivery (pass.finished_at row.id) (pass.sending row.id)
      (claimed_delivery pass.claimed_at row)

unfoldable pub delivery_pass : ℕ → Pass → List AlertDelivery → List AlertDelivery
unfolding claim_each handle_in
delivery_pass limit pass rows = claim_each (handle_in pass) pass.claimed_at limit rows
