-- ===== src/Examples/Alerts.antt =====
-- Events that are routed, and deliveries.
use nuclei_dashboard.Base.{
  All, List, Option, [], arith, false, inr, map, none, refl, some, true, ℕ, ◌*◌, ◌+◌, ◌∷◌, ◌≡◌, ◌≤◌,
}
use nuclei_dashboard.Base.Text.{codes}
use nuclei_dashboard.Base.Moments.{Moment, seconds}
use nuclei_dashboard.Policy.Resolver.{no_winners}
use nuclei_dashboard.Alert.{AlertActions, Event, effective_alerting, read_actions, same_key}
use nuclei_dashboard.Alert.Queue.{
  AlertTables, QueueItem, email_channel, max_delivery_attempts, queue_processing,
}
use nuclei_dashboard.Alert.Routing.{route_items}
use nuclei_dashboard.Alert.Routes.{IsRouted}
use nuclei_dashboard.Alert.Routed.{route_items-IsRouted}
use nuclei_dashboard.Alert.Delivery.{
  AlertDelivery, Pass, claimed_delivery, delivery_pending, is_claimable, is_final, was_refused,
  was_sent,
}
use nuclei_dashboard.Alert.Attempts.{
  SendTrace-attempts, Sender, and_then, claims, handles, untouched,
}
use nuclei_dashboard.Alert.Passes.{delivery_passes, delivery_passes-end}

abbrev event_of : ℕ → Event
event_of id = record {
  id = id;
  event_type = codes "new_asset";
  tenant_id = some 1;
  occurred_at = 1000;
  asset_finding_id = none;
  asset_id = some 4;
  agent_id = none;
  scan_job_id = none;
  treatment_id = none;
  policy_rule_id = none;
  wan_target_id = none;
}

abbrev queued_item : ℕ → QueueItem
queued_item id = record {
  id = id;
  event = some (event_of id);
  status = queue_processing;
  attempts = 1;
  next_attempt_at = 0;
  updated_at = 0;
}

abbrev staff_by_hour : AlertActions
staff_by_hour = record {
  dashboard = true;
  email = codes "staff";
  webhook = none;
  suppress_for_minutes = 60;
}

abbrev no_alerts : AlertTables
no_alerts = record { alerts = []; routes = []; deliveries = []; next_alert_id = 1 }

no_alerts-IsRouted : IsRouted no_alerts
no_alerts-IsRouted = record {
  one_route = λ id. omega arith;
  one_delivery = λ id c. omega arith;
  counted = tt;
  older = tt;
  below = tt;
}

abbrev two_events : List QueueItem
two_events = queued_item 8 ∷ queued_item 9 ∷ []

abbrev decide : Event → Option AlertActions
decide event = some staff_by_hour

second-event-coalesces :
    map
      (λ a. a.occurrence_count)
      (route_items (λ mode. mode) decide 2000 two_events no_alerts).1.alerts
    ≡ (2 ∷ [])
unfolding route_items same_key
second-event-coalesces = refl

default-actions :
    read_actions (effective_alerting no_winners (codes "new_asset"))
    ≡ record { dashboard = true; email = codes "staff"; webhook = none; suppress_for_minutes = 0 }
unfolding read_actions effective_alerting no_winners
default-actions = refl

route_items-IsRouted_example :
    IsRouted (route_items (λ mode. mode) decide 2000 two_events no_alerts).1
route_items-IsRouted_example =
    route_items-IsRouted (λ mode. mode) decide 2000 two_events no_alerts no_alerts-IsRouted

abbrev waiting_delivery : AlertDelivery
waiting_delivery = record {
  id = 1;
  alert_id = 1;
  channel = email_channel;
  status = delivery_pending;
  attempt_count = 0;
  next_attempt_at = 0;
  last_attempt_at = none;
  updated_at = 0;
  delivered_at = none;
}

abbrev idle : Sender
idle = record { row = waiting_delivery; in_hand = 0; attempts_made = 0 }

abbrev hour : ℕ → Moment
hour n = seconds 3600 * n

abbrev busy : Sender
busy = record { row = claimed_delivery 0 waiting_delivery; in_hand = 1; attempts_made = 0 }

claimed-at-once : is_claimable 0 waiting_delivery ≡ true
unfolding is_claimable
claimed-at-once = refl

SendTrace-attempts_example : 1 ≤ max_delivery_attempts
SendTrace-attempts_example =
    SendTrace-attempts
      (and_then (and_then untouched (claims 0 {s = idle} claimed-at-once))
        (handles 1 was_sent {s = busy} (omega arith)))
      refl refl

-- A pass whose every sending fails a minute after the claim.
abbrev failing_pass : Moment → Pass
failing_pass now = record {
  claimed_at = now;
  finished_at = λ id. now + seconds 60;
  sending = λ id. was_refused false;
}

-- Every two hours.
abbrev timed : ℕ → Pass × Moment
timed n = (failing_pass (hour n), hour n + seconds 60)

abbrev five_failures : List (Pass × Moment)
five_failures = timed 2 ∷ timed 4 ∷ timed 6 ∷ timed 8 ∷ timed 10 ∷ []

delivery_passes-end_example :
    All
      (λ row. is_final row.status ≡ true)
      (delivery_passes 25 (map (λ p. p.0) five_failures) (waiting_delivery ∷ []))
delivery_passes-end_example =
    delivery_passes-end 25 five_failures 0 (waiting_delivery ∷ []) (omega arith)
      (inr (refl, omega arith, omega arith, omega arith), tt)
      (
        omega arith,
        λ id. omega arith,
        (
          omega arith,
          λ id. omega arith,
          (
            omega arith,
            λ id. omega arith,
            (omega arith, λ id. omega arith, (omega arith, λ id. omega arith, tt)),
          ),
        ),
      )
