-- ===== src/Alert/Routes.antt =====
-- What the tables of alerts keep while events are routed.
use nuclei_dashboard.Base.{
  All, Bool, Bool-cases, List, Option, [], any, arith, count_if, count_if-append, count_if_of_any,
  false, inl, inr, is_value, none, refl, some, subst, true, ℕ, ◌++◌, ◌<◌, ◌==◌, ◌∷◌, ◌≡◌, ◌≤◌,
}
use nuclei_dashboard.Base.Text.{Text, one_of}
use nuclei_dashboard.Alert.{AlertActions}
use nuclei_dashboard.Alert.Queue.{
  Alert, AlertTables, Channel, Enqueued, Route, email_channel, enqueue, enqueue_deliveries,
  enqueue_email, enqueue_webhook, is_delivery_of, is_route_of, record_route, same_channel,
  webhook_channel,
}

-- A route to an alert.
abbrev pub leads_to : ℕ → Route → Bool
leads_to id route = is_value route.alert_id id

-- An alert has counted the events that are routed to it, one at least.
abbrev pub HasCounted : List Route → Alert → Type 0
HasCounted routes alert =
    (alert.occurrence_count ≡ count_if (leads_to alert.id) routes) × (1 ≤ alert.occurrence_count)

abbrev pub IsOlder : ℕ → Route → Type 0
IsOlder next route = (id : ℕ) → route.alert_id ≡ some id → id < next

-- No alert has two deliveries on a channel.
abbrev pub IsOnce : List Enqueued → Type 0
IsOnce rows = (alert_id : ℕ) (c : Channel) → count_if (is_delivery_of alert_id c) rows ≤ 1

-- No event has two routes, no alert two deliveries on a channel, and every alert has counted the
-- events that are routed to it; ids of the sequence are not used ahead.
pub record IsRouted (db : AlertTables) : Type 0 where
  pub one_route : (event_id : ℕ) → count_if (is_route_of event_id) db.routes ≤ 1
  pub one_delivery : IsOnce db.deliveries
  pub counted : All (HasCounted db.routes) db.alerts
  pub older : All (IsOlder db.next_alert_id) db.routes
  pub below : All (λ alert. alert.id < db.next_alert_id) db.alerts

same_channel→≡ : (a b : Channel) → same_channel a b ≡ true → a ≡ b
same_channel→≡ email_channel email_channel h = refl
same_channel→≡ webhook_channel webhook_channel h = refl
same_channel→≡ email_channel webhook_channel h = ground arith
same_channel→≡ webhook_channel email_channel h = ground arith

enqueue-one_delivery :
    (id : ℕ) (channel : Channel) (destination : Text) (rows : List Enqueued)
    → IsOnce rows
    → IsOnce (enqueue id channel destination rows)
unfolding enqueue
enqueue-one_delivery id channel destination rows h alert_id c =
    let row : Enqueued = record { alert_id = id; channel = channel; destination = destination } in
    let a = count_if-append (is_delivery_of alert_id c) rows (row ∷ []) in
    let b = h alert_id c in
    elim (Bool-cases (any (is_delivery_of id channel) rows)) [
      | inl there ↦ ground arith
      | inr fresh ↦
          (let z = count_if_of_any (is_delivery_of id channel) rows fresh in
            elim (Bool-cases (is_delivery_of alert_id c row)) [
              | inl same ↦
                  (let e : id ≡ alert_id = ground arith in
                    let f : channel ≡ c = same_channel→≡ channel c (ground arith) in
                    let z' : count_if (is_delivery_of alert_id c) rows ≡ 0 =
                      subst (λ k. count_if (is_delivery_of k c) rows ≡ 0) e
                        (subst (λ k. count_if (is_delivery_of id k) rows ≡ 0) f z) in
                    ground arith)
              | inr other ↦ ground arith
            ])
    ]

enqueue_email-IsOnce :
    (recipients : Text → Text) (id : ℕ) (mode : Text) (rows : List Enqueued)
    → IsOnce rows
    → IsOnce (enqueue_email recipients id mode rows)
unfolding enqueue_email
enqueue_email-IsOnce recipients id mode rows h =
    elim (Bool-cases (one_of ("staff" ∷ "admins" ∷ []) mode)) [
      | inl mailed ↦ rw mailed (enqueue-one_delivery id email_channel (recipients mode) rows h)
      | inr silent ↦ rw silent h
    ]

enqueue_webhook-IsOnce :
    (id : ℕ) (webhook : Option Text) (rows : List Enqueued)
    → IsOnce rows
    → IsOnce (enqueue_webhook id webhook rows)
unfolding enqueue_webhook
enqueue_webhook-IsOnce id none rows h = h
enqueue_webhook-IsOnce id (some url) rows h = enqueue-one_delivery id webhook_channel url rows h

pub enqueue_deliveries-IsOnce :
    (recipients : Text → Text) (id : ℕ) (actions : AlertActions) (rows : List Enqueued)
    → IsOnce rows
    → IsOnce (enqueue_deliveries recipients id actions rows)
unfolding enqueue_deliveries
enqueue_deliveries-IsOnce recipients id actions rows h =
    enqueue_webhook-IsOnce id actions.webhook (enqueue_email recipients id actions.email rows)
      (enqueue_email-IsOnce recipients id actions.email rows h)

pub record_route-appends :
    (event_id : ℕ) (target : Option ℕ) (routes : List Route)
    → any (is_route_of event_id) routes ≡ false
    → record_route event_id target routes
      ≡ routes ++ record { domain_event_id = event_id; alert_id = target } ∷ []
unfolding record_route
record_route-appends event_id target routes fresh = ground arith

pub append-one_route :
    (event_id : ℕ) (target : Option ℕ) (routes : List Route)
    → any (is_route_of event_id) routes ≡ false
    → ((id : ℕ) → count_if (is_route_of id) routes ≤ 1)
    → (id : ℕ)
    → count_if
        (is_route_of id)
        (routes ++ record { domain_event_id = event_id; alert_id = target } ∷ [])
      ≤ 1
append-one_route event_id target routes fresh h id =
    let route : Route = record { domain_event_id = event_id; alert_id = target } in
    let a = count_if-append (is_route_of id) routes (route ∷ []) in
    let b = h id in
    let z = count_if_of_any (is_route_of event_id) routes fresh in
    elim (Bool-cases (event_id == id)) [
      | inl same ↦
          (let e : event_id ≡ id = ground arith in
            let z' : count_if (is_route_of id) routes ≡ 0 =
              subst (λ k. count_if (is_route_of k) routes ≡ 0) e z in
            ground arith)
      | inr other ↦ ground arith
    ]
