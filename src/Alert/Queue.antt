-- ===== src/Alert/Queue.antt =====
-- Routing the events of the queue: `_claim_queue` and `route_pending_events`. `evaluate` is what the
-- policies decide for an event, `none` where the evaluation raises; it comes before any change, and the
-- events of one batch are distinct, so whether an event is routed already is read at its turn.
use nuclei_dashboard.Base.{
  Bool, List, Option, [], any, false, find, if◌then◌else◌, leb, map, max, none, not, some, suc,
  true, update_where, zero, ℕ, ◌&&◌, ◌++◌, ◌+◌, ◌==◌, ◌∷◌,
}
use nuclei_dashboard.Base.Text.{Text, one_of}
use nuclei_dashboard.Base.Moments.{Moment, minutes, seconds}
use nuclei_dashboard.Policy.Conditions.{same_id}
use nuclei_dashboard.Alert.{
  AlertActions, DedupeKey, Event, dedupe_key_for, notification_enabled, same_key,
}

pub data QueueStatus : Type 0 where
  queue_pending queue_processing queue_processed queue_failed : QueueStatus

pub record QueueItem : Type 0 where
  pub id : ℕ
  pub event : Option Event
  pub status : QueueStatus
  pub attempts : ℕ
  pub next_attempt_at : Moment
  pub updated_at : Moment

-- `flushed_event_at` is what the table holds of `last_event_at`: the session does not flush by itself, so
-- a query does not see what was assigned since the last flush.
pub record Alert : Type 0 where
  pub id : ℕ
  pub tenant_id : Option ℕ
  pub dedupe_key : DedupeKey
  pub is_acknowledged : Bool
  pub occurrence_count : ℕ
  pub last_event_at : Moment
  pub flushed_event_at : Moment
  pub last_domain_event_id : ℕ

pub data Channel : Type 0 where
  email_channel webhook_channel : Channel

-- A delivery that is enqueued: its alert, its channel and its destination.
pub record Enqueued : Type 0 where
  pub alert_id : ℕ
  pub channel : Channel
  pub destination : Text

pub record Route : Type 0 where
  pub domain_event_id : ℕ
  pub alert_id : Option ℕ

-- The tables that routing writes, and the next id of the alerts' sequence.
pub record AlertTables : Type 0 where
  pub alerts : List Alert
  pub routes : List Route
  pub deliveries : List Enqueued
  pub next_alert_id : ℕ

abbrev pub max_delivery_attempts : ℕ
max_delivery_attempts = 5

-- `BACKOFF_SECONDS[min(attempts, len(BACKOFF_SECONDS) - 1)]`
unfoldable pub backoff_seconds : ℕ → ℕ
backoff_seconds attempts =
    if attempts == 0
    then 0
    else if attempts == 1
    then 60
    else if attempts == 2
    then 300
    else if attempts == 3
    then 900
    else 3600

abbrev is_claimable_item : Moment → QueueItem → Bool
is_claimable_item now item = elim item.status [
  | queue_pending ↦ leb item.next_attempt_at now
  | queue_processing ↦ leb (item.updated_at + seconds 120) now
  | _ ↦ false
]

-- `_claim_queue`, on the rows in the order of their ids.
unfoldable claim_queue : Moment → ℕ → List QueueItem → List QueueItem
claim_queue now limit [] = []
claim_queue now zero (item ∷ items) = item ∷ items
claim_queue now (suc limit) (item ∷ items) = elim (is_claimable_item now item) [
  | true ↦
      record item { status = queue_processing; updated_at = now; attempts = item.attempts + 1 }
      ∷ claim_queue now limit items
  | false ↦ item ∷ claim_queue now (suc limit) items
]

abbrev pub is_route_of : ℕ → Route → Bool
is_route_of event_id route = route.domain_event_id == event_id

abbrev pub is_open_alert : Option ℕ → DedupeKey → ℕ → Moment → Alert → Bool
is_open_alert tenant_id key window now alert =
    same_key alert.dedupe_key key
    && (not alert.is_acknowledged
        && (same_id alert.tenant_id tenant_id && leb now (alert.flushed_event_at + minutes window)))

-- `_open_alert_for_dedupe`
unfoldable pub open_alert_for_dedupe : Moment → Option ℕ → DedupeKey → ℕ → List Alert → Option Alert
open_alert_for_dedupe now tenant_id key window_minutes alerts =
    if leb window_minutes 0
    then none
    else find (is_open_alert tenant_id key window_minutes now) alerts

abbrev pub same_channel : Channel → Channel → Bool
same_channel email_channel email_channel = true
same_channel webhook_channel webhook_channel = true
same_channel _ _ = false

abbrev pub is_delivery_of : ℕ → Channel → Enqueued → Bool
is_delivery_of alert_id channel row = row.alert_id == alert_id && same_channel row.channel channel

-- `if existing is None: db.add(…)`
unfoldable pub enqueue : ℕ → Channel → Text → List Enqueued → List Enqueued
enqueue alert_id channel destination rows =
    if any (is_delivery_of alert_id channel) rows
    then rows
    else rows ++ record { alert_id = alert_id; channel = channel; destination = destination } ∷ []

-- The part of `_enqueue_deliveries` for e-mail; `recipients` gives the addresses of a mode.
unfoldable pub enqueue_email : (Text → Text) → ℕ → Text → List Enqueued → List Enqueued
enqueue_email recipients alert_id mode rows =
    if one_of ("staff" ∷ "admins" ∷ []) mode
    then enqueue alert_id email_channel (recipients mode) rows
    else rows

-- Its part for the webhook.
unfoldable pub enqueue_webhook : ℕ → Option Text → List Enqueued → List Enqueued
enqueue_webhook alert_id none rows = rows
enqueue_webhook alert_id (some url) rows = enqueue alert_id webhook_channel url rows

-- `_enqueue_deliveries`
unfoldable pub enqueue_deliveries : (Text → Text) → ℕ → AlertActions → List Enqueued → List Enqueued
unfolding enqueue_email enqueue_webhook enqueue
enqueue_deliveries recipients alert_id actions rows =
    enqueue_webhook alert_id actions.webhook (enqueue_email recipients alert_id actions.email rows)

-- `_record_route`
unfoldable pub record_route : ℕ → Option ℕ → List Route → List Route
record_route event_id alert_id routes =
    if any (is_route_of event_id) routes
    then routes
    else routes ++ record { domain_event_id = event_id; alert_id = alert_id } ∷ []

abbrev pub has_alert_id : ℕ → Alert → Bool
has_alert_id id alert = alert.id == id

-- `existing.occurrence_count = int(existing.occurrence_count or 1) + 1`, with its moment and event.
abbrev pub coalesce : Event → Alert → Alert
coalesce event alert = record alert {
  occurrence_count = max 1 alert.occurrence_count + 1;
  last_event_at = event.occurred_at;
  last_domain_event_id = event.id;
}

abbrev pub new_alert : ℕ → Event → DedupeKey → Alert
new_alert id event key = record {
  id = id;
  tenant_id = event.tenant_id;
  dedupe_key = key;
  is_acknowledged = false;
  occurrence_count = 1;
  last_event_at = event.occurred_at;
  flushed_event_at = event.occurred_at;
  last_domain_event_id = event.id;
}

abbrev pub flushed : Alert → Alert
flushed alert = record alert { flushed_event_at = alert.last_event_at }

-- `db.flush()`
abbrev pub flush : AlertTables → AlertTables
flush db = record db { alerts = map flushed db.alerts }

-- What the tables become for an event that has no route yet.
unfoldable pub route_event :
    (Text → Text) → Moment → Event → AlertActions → AlertTables → AlertTables
unfolding notification_enabled dedupe_key_for open_alert_for_dedupe enqueue_deliveries record_route
route_event recipients now event actions db =
    let key = dedupe_key_for event actions in
    if not (notification_enabled actions)
    then record db { routes = record_route event.id none db.routes }
    else elim (open_alert_for_dedupe now event.tenant_id key actions.suppress_for_minutes
        db.alerts) [
          | some existing ↦ record db {
            alerts = update_where (has_alert_id existing.id) (coalesce event) db.alerts;
            routes = record_route event.id (some existing.id) db.routes;
          }
          | none ↦ record {
            alerts = map flushed (db.alerts ++ new_alert db.next_alert_id event key ∷ []);
            routes = record_route event.id (some db.next_alert_id) db.routes;
            deliveries = enqueue_deliveries recipients db.next_alert_id actions db.deliveries;
            next_alert_id = db.next_alert_id + 1;
          }
        ]
