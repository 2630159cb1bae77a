-- ===== src/Alert/Routed.antt =====
-- Routing keeps the tables of alerts in order.
use nuclei_dashboard.Alert.Routing.{route_item, route_items}
use nuclei_dashboard.Base.{
  All, All-append, Bool-cases, List, Option, Option-cases, [], any, arith, count_if-append, false,
  inl, inr, leb, ltb, map, none, some, subst, sym, update_where, ℕ, ◌++◌, ◌+◌, ◌<◌, ◌∷◌, ◌≡◌,
}
use nuclei_dashboard.Base.Text.{Text}
use nuclei_dashboard.Base.Moments.{Moment}
use nuclei_dashboard.Alert.{AlertActions, DedupeKey, Event, dedupe_key_for, notification_enabled}
use nuclei_dashboard.Alert.Queue.{
  Alert, AlertTables, QueueItem, Route, coalesce, enqueue_deliveries, flush, flushed, has_alert_id,
  is_open_alert, is_route_of, max_delivery_attempts, new_alert, open_alert_for_dedupe, record_route,
  route_event,
}
use nuclei_dashboard.Alert.Routes.{
  HasCounted, IsOlder, IsRouted, append-one_route, enqueue_deliveries-IsOnce, leads_to,
  record_route-appends,
}
use nuclei_dashboard.Alert.Counts.{
  append-counted, below-apart, below-find, below-update_where, coalesce-counted, no_alert-apart,
  older-count,
}

IsOlder-grows :
    (next : ℕ) (routes : List Route) → All (IsOlder next) routes → All (IsOlder (next + 1)) routes
IsOlder-grows next [] h = tt
IsOlder-grows next (route ∷ routes) h =
    (λ id e. (let b = h.0 id e in omega (arith, b)), IsOlder-grows next routes h.1)

below-grows :
    (next : ℕ) (alerts : List Alert)
    → All (λ alert. alert.id < next) alerts
    → All (λ alert. alert.id < next + 1) alerts
below-grows next [] h = tt
below-grows next (alert ∷ alerts) h = (let b = h.0 in omega (arith, b), below-grows next alerts h.1)

flushed-counted :
    (routes : List Route) (alerts : List Alert)
    → All (HasCounted routes) alerts
    → All (HasCounted routes) (map flushed alerts)
flushed-counted routes [] h = tt
flushed-counted routes (alert ∷ alerts) h = (h.0, flushed-counted routes alerts h.1)

flushed-below :
    (next : ℕ) (alerts : List Alert)
    → All (λ alert. alert.id < next) alerts
    → All (λ alert. alert.id < next) (map flushed alerts)
flushed-below next [] h = tt
flushed-below next (alert ∷ alerts) h = (h.0, flushed-below next alerts h.1)

flush-IsRouted : (db : AlertTables) → IsRouted db → IsRouted (flush db)
flush-IsRouted db h = record {
  one_route = h.one_route;
  one_delivery = h.one_delivery;
  counted = flushed-counted db.routes db.alerts h.counted;
  older = h.older;
  below = flushed-below db.next_alert_id db.alerts h.below;
}

-- The tables after a route to an alert that is there, or to none.
module _ (db : AlertTables) (event : Event) (h : IsRouted db)
    (fresh : any (is_route_of event.id) db.routes ≡ false) where
  silent-IsRouted : IsRouted (record db { routes = record_route event.id none db.routes })
  silent-IsRouted =
      let e = record_route-appends event.id none db.routes fresh in
      let route : Route = record { domain_event_id = event.id; alert_id = none } in
      subst (λ rs. IsRouted (record db { routes = rs })) (sym e)
        (record {
          one_route = append-one_route event.id none db.routes fresh h.one_route;
          one_delivery = h.one_delivery;
          counted =
              append-counted db.routes route db.alerts (no_alert-apart event.id db.alerts)
                h.counted;
          older =
              All-append (IsOlder db.next_alert_id) db.routes (route ∷ []) h.older
                (λ id e. ground arith, tt);
          below = h.below;
        })

  IsOlder-some :
      (id : ℕ)
      → id < db.next_alert_id + 1
      → All
          (IsOlder (db.next_alert_id + 1))
          (db.routes ++ record { domain_event_id = event.id; alert_id = some id } ∷ [])
  IsOlder-some id under =
      All-append (IsOlder (db.next_alert_id + 1)) db.routes
        (record { domain_event_id = event.id; alert_id = some id } ∷ [])
        (IsOlder-grows db.next_alert_id db.routes h.older) (λ i e. ground arith, tt)

  coalesced-IsRouted :
      (existing : Alert)
      → existing.id < db.next_alert_id
      → IsRouted (record db {
        alerts = update_where (has_alert_id existing.id) (coalesce event) db.alerts;
        routes = record_route event.id (some existing.id) db.routes;
      })
  coalesced-IsRouted existing under =
      let e = record_route-appends event.id (some existing.id) db.routes fresh in
      let route : Route = record { domain_event_id = event.id; alert_id = some existing.id } in
      let alerts = update_where (has_alert_id existing.id) (coalesce event) db.alerts in
      subst (λ rs. IsRouted (record db { alerts = alerts; routes = rs })) (sym e)
        (record {
          one_route = append-one_route event.id (some existing.id) db.routes fresh h.one_route;
          one_delivery = h.one_delivery;
          counted = coalesce-counted event existing.id db.routes db.alerts h.counted;
          older =
              All-append (IsOlder db.next_alert_id) db.routes (route ∷ []) h.older
                (λ id e. ground arith, tt);
          below = below-update_where db.next_alert_id existing.id event db.alerts h.below;
        })

  created-IsRouted :
      (recipients : Text → Text) (actions : AlertActions) (key : DedupeKey)
      → IsRouted (record {
        alerts = map flushed (db.alerts ++ new_alert db.next_alert_id event key ∷ []);
        routes = record_route event.id (some db.next_alert_id) db.routes;
        deliveries = enqueue_deliveries recipients db.next_alert_id actions db.deliveries;
        next_alert_id = db.next_alert_id + 1;
      })
  created-IsRouted recipients actions key =
      let e = record_route-appends event.id (some db.next_alert_id) db.routes fresh in
      let route : Route = record { domain_event_id = event.id; alert_id = some db.next_alert_id } in
      let alert = new_alert db.next_alert_id event key in
      let after = db.routes ++ route ∷ [] in
      let a = count_if-append (leads_to db.next_alert_id) db.routes (route ∷ []) in
      let z = older-count db.next_alert_id db.routes h.older in
      let kept =
        append-counted db.routes route db.alerts
          (below-apart db.next_alert_id event.id db.alerts h.below) h.counted in
      let own : HasCounted after alert = (ground arith, omega arith) in
      subst
        (λ rs. IsRouted (record {
          alerts = map flushed (db.alerts ++ alert ∷ []);
          routes = rs;
          deliveries = enqueue_deliveries recipients db.next_alert_id actions db.deliveries;
          next_alert_id = db.next_alert_id + 1;
        }))
        (sym e)
        (record {
          one_route = append-one_route event.id (some db.next_alert_id) db.routes fresh h.one_route;
          one_delivery =
              enqueue_deliveries-IsOnce recipients db.next_alert_id actions db.deliveries
                h.one_delivery;
          counted =
              flushed-counted after (db.alerts ++ alert ∷ [])
                (All-append (HasCounted after) db.alerts (alert ∷ []) kept (own, tt));
          older = IsOlder-some db.next_alert_id (omega arith);
          below = flushed-below (db.next_alert_id + 1) (db.alerts ++ alert ∷ []) (
              All-append (λ a. a.id < db.next_alert_id + 1) db.alerts (alert ∷ [])
                (below-grows db.next_alert_id db.alerts h.below) (omega arith, tt));
        })

open_alert-below :
    (now : Moment) (tenant_id : Option ℕ) (key : DedupeKey) (window : ℕ) (db : AlertTables)
    (found : Alert)
    → All (λ alert. alert.id < db.next_alert_id) db.alerts
    → open_alert_for_dedupe now tenant_id key window db.alerts ≡ some found
    → found.id < db.next_alert_id
unfolding open_alert_for_dedupe
open_alert-below now tenant_id key window db found h e =
    let test = is_open_alert tenant_id key window now in
    elim (Bool-cases (leb window 0)) [
      | inl closed ↦ ground arith
      | inr open_window ↦ below-find db.next_alert_id test db.alerts found h (ground arith)
    ]

route_event-IsRouted :
    (recipients : Text → Text) (now : Moment) (event : Event) (actions : AlertActions)
    (db : AlertTables)
    → any (is_route_of event.id) db.routes ≡ false
    → IsRouted db
    → IsRouted (route_event recipients now event actions db)
unfolding route_event
route_event-IsRouted recipients now event actions db fresh h =
    let key = dedupe_key_for event actions in
    let found =
      open_alert_for_dedupe now event.tenant_id key actions.suppress_for_minutes db.alerts in
    elim (Bool-cases (notification_enabled actions)) [
      | inr silent ↦ rw silent (silent-IsRouted db event h fresh)
      | inl announced ↦ rw announced (elim (Option-cases found) [
        | inl missing ↦ rw missing (created-IsRouted db event h fresh recipients actions key)
        | inr there ↦ rw (there.1) (
            coalesced-IsRouted db event h fresh there.0 (
              open_alert-below now event.tenant_id key actions.suppress_for_minutes db there.0
                h.below there.1))
      ])
    ]

route_item-IsRouted :
    (recipients : Text → Text) (evaluate : Event → Option AlertActions) (now : Moment)
    (item : QueueItem) (db : AlertTables)
    → IsRouted db
    → IsRouted (route_item recipients evaluate now item db).1
unfolding route_item
route_item-IsRouted recipients evaluate now item db h =
    elim (Bool-cases (ltb max_delivery_attempts item.attempts)) [
      | inl over ↦ rw over h
      | inr within ↦ rw within (elim (Option-cases item.event) [
        | inl missing ↦ rw missing h
        | inr there ↦ rw (there.1) (elim (Bool-cases (any (is_route_of there.0.id) db.routes)) [
          | inl already ↦ rw already h
          | inr fresh ↦ rw fresh (elim (Option-cases (evaluate there.0)) [
            | inl raised ↦ rw raised h
            | inr decided ↦
                rw (decided.1) (route_event-IsRouted recipients now there.0 decided.0 db fresh h)
          ])
        ])
      ])
    ]

-- Routing any batch keeps the tables in order: no event gets a second route and no alert a second
-- delivery on a channel, and every alert has counted exactly the events that are routed to it.
pub route_items-IsRouted :
    (recipients : Text → Text) (evaluate : Event → Option AlertActions) (now : Moment)
    (items : List QueueItem) (db : AlertTables)
    → IsRouted db
    → IsRouted (route_items recipients evaluate now items db).1
unfolding route_items
route_items-IsRouted recipients evaluate now [] db h = flush-IsRouted db h
route_items-IsRouted recipients evaluate now (item ∷ items) db h =
    route_items-IsRouted recipients evaluate now items
      (route_item recipients evaluate now item db).1
      (route_item-IsRouted recipients evaluate now item db h)
