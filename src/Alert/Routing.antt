-- ===== src/Alert/Routing.antt =====
-- The loop of `route_pending_events` over the items of the queue that this pass has claimed.
use nuclei_dashboard.Base.{List, Option, [], any, if◌then◌else◌, ltb, none, some, ◌+◌, ◌∷◌}
use nuclei_dashboard.Base.Text.{Text}
use nuclei_dashboard.Base.Moments.{Moment, seconds}
use nuclei_dashboard.Alert.{AlertActions, Event}
use nuclei_dashboard.Alert.Queue.{
  AlertTables, QueueItem, QueueStatus, backoff_seconds, flush, is_route_of, max_delivery_attempts,
  queue_failed, queue_pending, queue_processed, route_event,
}

abbrev set_item : QueueStatus → Moment → QueueItem → QueueItem
set_item status now item = record item { status = status; updated_at = now }

-- The handler of an exception.
unfoldable retry_item : Moment → QueueItem → QueueItem
unfolding backoff_seconds
retry_item now item = record item {
  status = (if ltb item.attempts max_delivery_attempts then queue_pending else queue_failed);
  next_attempt_at = now + seconds (backoff_seconds item.attempts);
  updated_at = now;
}

module _ (recipients : Text → Text) (evaluate : Event → Option AlertActions) where
  -- One item.
  unfoldable pub route_item : Moment → QueueItem → AlertTables → QueueItem × AlertTables
  unfolding retry_item route_event
  route_item now item db =
      if ltb max_delivery_attempts item.attempts
      then (set_item queue_failed now item, db)
      else elim item.event [
        | none ↦ (set_item queue_failed now item, db)
        | some event ↦
            if any (is_route_of event.id) db.routes
            then (set_item queue_processed now item, db)
            else elim (evaluate event) [
              | none ↦ (retry_item now item, db)
              | some actions ↦
                  (set_item queue_processed now item, route_event recipients now event actions db)
            ]
      ]

  -- The loop, and the flush behind it.
  unfoldable pub route_items : Moment → List QueueItem → AlertTables → List QueueItem × AlertTables
  unfolding route_item
  route_items now [] db = ([], flush db)
  route_items now (item ∷ items) db =
      let first = route_item now item db in
      let rest = route_items now items first.1 in (first.0 ∷ rest.0, rest.1)
