-- ===== src/Dispatch.antt =====
-- Which Agent may run a LAN run: health, policy and claim priority of backend/app/scan_dispatch.py.
pub mod Priority
pub mod Policy
use nuclei_dashboard.Base.{
  Bool, List, Option, String, [], any, contains, false, if◌then◌else◌, is_value, leb, none, not,
  some, true, ℕ, ◌&&◌, ◌+◌, ◌==◌, ◌∷◌,
}
use nuclei_dashboard.Base.Moments.{Moment, minutes, seconds}
use nuclei_dashboard.Job.{
  DispatchMode, Snapshot, Status, any_available, preferred_failover, queued, waiting_for_agent,
}

pub data AgentStatus : Type 0 where
  pending approved revoked : AgentStatus

pub record Agent : Type 0 where
  pub id : ℕ
  pub uuid : String
  pub tenant_id : ℕ
  pub site_id : Option ℕ
  pub status : AgentStatus
  pub last_heartbeat : Option Moment

abbrev pub agent_health_seconds : ℕ
agent_health_seconds = 90

abbrev default_preferred_agent_grace_seconds : ℕ
default_preferred_agent_grace_seconds = 60

abbrev is_approved : AgentStatus → Bool
is_approved approved = true
is_approved _ = false

-- `heartbeat >= current - window`, with the window on the other side.
unfoldable pub is_agent_healthy : Moment → Agent → Bool
is_agent_healthy now agent =
    if not (is_approved agent.status) then false else elim agent.last_heartbeat [
      | none ↦ false
      | some heartbeat ↦ leb now (heartbeat + seconds agent_health_seconds)
    ]

unfoldable healthy_eligible : Moment → List Agent → List Agent
healthy_eligible now [] = []
healthy_eligible now (agent ∷ agents) =
    let rest = healthy_eligible now agents in
    if is_agent_healthy now agent then agent ∷ rest else rest

-- The fields of a new run that its first status fixes.
pub record InitialStatus : Type 0 where
  pub status : Status
  pub waiting_since : Option Moment
  pub wait_expires_at : Option Moment

unfoldable initial_job_status : List Agent → ℕ → Moment → InitialStatus
initial_job_status [] wait_minutes now = record {
  status = waiting_for_agent;
  waiting_since = some now;
  wait_expires_at = some (now + minutes wait_minutes);
}
initial_job_status (agent ∷ agents) wait_minutes now = record {
  status = queued;
  waiting_since = none;
  wait_expires_at = none;
}

-- `agents_by_id.get(id)`
unfoldable pub agent_of_id : ℕ → List Agent → Option Agent
agent_of_id id [] = none
agent_of_id id (agent ∷ agents) = if agent.id == id then some agent else agent_of_id id agents

abbrev pub is_preferred_failover : DispatchMode → Bool
is_preferred_failover preferred_failover = true
is_preferred_failover any_available = false

-- `int(dispatch.get("grace_seconds") or DEFAULT_PREFERRED_AGENT_GRACE_SECONDS)`
abbrev pub grace_of : Option ℕ → ℕ
grace_of none = default_preferred_agent_grace_seconds
grace_of (some n) = if n == 0 then default_preferred_agent_grace_seconds else n

-- The preferred Agent has claim priority over `agent` until the grace after the run's creation.
unfoldable preferred_has_priority : Moment → Agent → Snapshot → ℕ → List Agent → Bool
unfolding is_agent_healthy agent_of_id
preferred_has_priority now agent snapshot preferred_id agents =
    let available_from : Moment = elim snapshot.created_at [
      | none ↦ now
      | some created ↦ created
    ] in
    let grace = grace_of snapshot.dispatch.grace_seconds in
    if agent.id == preferred_id then false else elim (agent_of_id preferred_id agents) [
      | none ↦ false
      | some preferred ↦
          if not (is_agent_healthy now preferred)
          then false
          else not (leb (available_from + seconds grace) now)
    ]

unfoldable pub agent_may_claim_now : Moment → Agent → Snapshot → List Agent → Bool
unfolding preferred_has_priority
agent_may_claim_now now agent snapshot agents =
    if not (contains snapshot.dispatch.eligible_agent_ids agent.id)
    then false
    else if not (is_agent_healthy now agent)
    then false
    else if not (is_preferred_failover snapshot.dispatch.mode)
    then true
    else elim snapshot.dispatch.preferred_agent_id [
      | none ↦ true
      | some preferred_id ↦ not (preferred_has_priority now agent snapshot preferred_id agents)
    ]

-- What a Network says about dispatch.
pub record Network : Type 0 where
  pub id : ℕ
  pub tenant_id : ℕ
  pub site_id : ℕ
  pub dispatch_mode : DispatchMode
  pub preferred_agent_id : Option ℕ

pub data DispatchError : Type 0 where
  no_preferred_agent preferred_disagree preferred_not_eligible : DispatchError

pub data PolicyResult : Type 0 where
  ok : DispatchMode → Option ℕ → PolicyResult
  err : DispatchError → PolicyResult

-- The preferred ids of the Networks in Preferred + Failover mode.
abbrev pub preferred_ids : List Network → List (Option ℕ)
preferred_ids [] = []
preferred_ids (network ∷ networks) =
    let rest = preferred_ids networks in
    if is_preferred_failover network.dispatch_mode then network.preferred_agent_id ∷ rest else rest

abbrev pub is_none {ℓ} : {A : Type ℓ} → Option A → Bool
is_none none = true
is_none (some a) = false

-- Whether every id of the set is `n`.
abbrev pub all_are : ℕ → List (Option ℕ) → Bool
all_are n [] = true
all_are n (id ∷ ids) = is_value id n && all_are n ids

unfoldable pub resolve_preferred : List (Option ℕ) → List ℕ → PolicyResult
resolve_preferred [] eligible = ok any_available none
resolve_preferred (none ∷ ids) eligible = err no_preferred_agent
resolve_preferred (some n ∷ ids) eligible =
    if any is_none ids
    then err no_preferred_agent
    else if not (all_are n ids)
    then err preferred_disagree
    else if not (contains eligible n)
    then err preferred_not_eligible
    else ok preferred_failover (some n)

unfoldable pub resolve_dispatch_policy : List Network → List ℕ → PolicyResult
unfolding resolve_preferred
resolve_dispatch_policy networks eligible = resolve_preferred (preferred_ids networks) eligible
