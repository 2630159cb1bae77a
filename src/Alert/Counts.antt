-- ===== src/Alert/Counts.antt =====
-- What an alert has counted, when a route is added.
use nuclei_dashboard.Base.{
  All, Bool, Bool-cases, List, Option-cases, [], arith, count_if, count_if-append, false, find,
  if◌then◌else◌, inl, inr, none, refl, some, subst, sym, update_where, ℕ, ◌++◌, ◌<◌, ◌∷◌, ◌≡◌,
}
use nuclei_dashboard.Alert.{Event}
use nuclei_dashboard.Alert.Queue.{Alert, Route, coalesce, has_alert_id}
use nuclei_dashboard.Alert.Routes.{HasCounted, IsOlder, leads_to}

-- Alerts that a new route does not lead to.
pub append-counted :
    (routes : List Route) (route : Route) (alerts : List Alert)
    → All (λ alert. leads_to alert.id route ≡ false) alerts
    → All (HasCounted routes) alerts
    → All (HasCounted (routes ++ route ∷ [])) alerts
append-counted routes route [] apart h = tt
append-counted routes route (alert ∷ alerts) apart h =
    let a = count_if-append (leads_to alert.id) routes (route ∷ []) in
    let b = apart.0 in
    let c = h.0.0 in ((ground arith, h.0.1), append-counted routes route alerts apart.1 h.1)

-- Alerts of which one counts the event that is routed to it.
pub coalesce-counted :
    (event : Event) (id : ℕ) (routes : List Route) (alerts : List Alert)
    → All (HasCounted routes) alerts
    → All
        (HasCounted (routes ++ record { domain_event_id = event.id; alert_id = some id } ∷ []))
        (update_where (has_alert_id id) (coalesce event) alerts)
coalesce-counted event id routes [] h = tt
coalesce-counted event id routes (alert ∷ alerts) h =
    let route : Route = record { domain_event_id = event.id; alert_id = some id } in
    let a = count_if-append (leads_to alert.id) routes (route ∷ []) in
    let c = h.0.0 in
    let d = h.0.1 in
    let after = routes ++ route ∷ [] in
    let changed = if has_alert_id id alert then coalesce event alert else alert in
    (
      (elim (Bool-cases (has_alert_id id alert)) [
        | inl same ↦
            (let e : changed ≡ coalesce event alert = ground arith in
              let s : HasCounted after (coalesce event alert) = (ground arith, ground arith) in
              subst (HasCounted after) (sym e) s)
        | inr other ↦
            (let e : changed ≡ alert = ground arith in
              let s : HasCounted after alert = (ground arith, d) in
              subst (HasCounted after) (sym e) s)
      ]),
      coalesce-counted event id routes alerts h.1,
    )

-- The sequence's next id is the id of no alert, so a route to it leads to none of them.
pub below-apart :
    (next : ℕ) (event_id : ℕ) (alerts : List Alert)
    → All (λ alert. alert.id < next) alerts
    → All
        (λ alert.
          leads_to alert.id (record { domain_event_id = event_id; alert_id = some next }) ≡ false)
        alerts
below-apart next event_id [] h = tt
below-apart next event_id (alert ∷ alerts) h =
    let b = h.0 in (ground arith, below-apart next event_id alerts h.1)

pub no_alert-apart :
    (event_id : ℕ) (alerts : List Alert)
    → All
        (λ alert.
          leads_to alert.id (record { domain_event_id = event_id; alert_id = none }) ≡ false)
        alerts
no_alert-apart event_id [] = tt
no_alert-apart event_id (alert ∷ alerts) = (refl, no_alert-apart event_id alerts)

pub older-count :
    (next : ℕ) (routes : List Route)
    → All (IsOlder next) routes
    → count_if (leads_to next) routes ≡ 0
older-count next [] h = refl
older-count next (route ∷ routes) h =
    let ih = older-count next routes h.1 in
    elim (Option-cases route.alert_id) [
      | inl nowhere ↦ ground arith
      | inr there ↦ (let e = there.1 in let b = h.0 there.0 e in ground arith)
    ]

pub below-update_where :
    (next id : ℕ) (event : Event) (alerts : List Alert)
    → All (λ alert. alert.id < next) alerts
    → All (λ alert. alert.id < next) (update_where (has_alert_id id) (coalesce event) alerts)
below-update_where next id event [] h = tt
below-update_where next id event (alert ∷ alerts) h =
    let b = h.0 in (ground arith, below-update_where next id event alerts h.1)

pub below-find :
    (next : ℕ) (test : Alert → Bool) (alerts : List Alert) (found : Alert)
    → All (λ alert. alert.id < next) alerts
    → find test alerts ≡ some found
    → found.id < next
below-find next test [] found h e = ground arith
below-find next test (alert ∷ alerts) found h e = elim (Bool-cases (test alert)) [
  | inl passes ↦ (let f : alert ≡ found = ground arith in subst (λ a. a.id < next) f h.0)
  | inr fails ↦ below-find next test alerts found h.1 (ground arith)
]
