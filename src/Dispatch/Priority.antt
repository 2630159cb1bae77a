-- ===== src/Dispatch/Priority.antt =====
-- Claim priority of the preferred Agent.
use nuclei_dashboard.Base.{
  List, arith, contains, false, inl, inr, leb, none, some, true, ℕ, ◌&&◌, ◌+◌, ◌≡◌, ◌≢◌, ◌≤◌, ◌⊎◌,
}
use nuclei_dashboard.Base.Moments.{Moment, seconds}
use nuclei_dashboard.Job.{Snapshot, preferred_failover}
use nuclei_dashboard.Dispatch.{
  Agent, agent_health_seconds, agent_may_claim_now, agent_of_id, approved, grace_of,
  is_agent_healthy,
}

-- Where a run prefers an Agent that is healthy, another Agent may claim it exactly if it is
-- eligible, healthy, and the grace after the run's creation has passed.
pub agent_may_claim_now-failover :
    (now created : Moment) (agent preferred : Agent) (snapshot : Snapshot) (agents : List Agent)
    → snapshot.dispatch.mode ≡ preferred_failover
    → snapshot.dispatch.preferred_agent_id ≡ some preferred.id
    → snapshot.created_at ≡ some created
    → agent_of_id preferred.id agents ≡ some preferred
    → is_agent_healthy now preferred ≡ true
    → agent.id ≢ preferred.id
    → agent_may_claim_now now agent snapshot agents ≡ (
        contains snapshot.dispatch.eligible_agent_ids agent.id
        && is_agent_healthy now agent
        && leb (created + seconds (grace_of snapshot.dispatch.grace_seconds)) now)
unfolding agent_may_claim_now
agent_may_claim_now-failover now created agent preferred snapshot agents m p c found healthy other =
    ground arith

-- An eligible Agent that is healthy may claim a run once the grace after its creation has passed, and at
-- any moment at which the preferred Agent is unknown or not healthy.
agent_may_claim_now-no_priority :
    (now created preferred_id : ℕ) (agent : Agent) (snapshot : Snapshot) (agents : List Agent)
    → contains snapshot.dispatch.eligible_agent_ids agent.id ≡ true
    → is_agent_healthy now agent ≡ true
    → snapshot.created_at ≡ some created
    → snapshot.dispatch.preferred_agent_id ≡ some preferred_id
    → (created + seconds (grace_of snapshot.dispatch.grace_seconds) ≤ now)
      ⊎ ((agent_of_id preferred_id agents ≡ none)
          ⊎ ((preferred : Agent) × (agent_of_id preferred_id agents ≡ some preferred)
              × (is_agent_healthy now preferred ≡ false)))
    → agent_may_claim_now now agent snapshot agents ≡ true
unfolding agent_may_claim_now
agent_may_claim_now-no_priority now created preferred_id agent snapshot agents e h c p late =
    elim late [
      | inl passed ↦ ground arith
      | inr (inl unknown) ↦ ground arith
      | inr (inr away) ↦ ground arith
    ]

-- Only an Agent of the run's pool that is approved and has sent a heartbeat within the last
-- `agent_health_seconds` may claim.
pub agent_may_claim_now-needs :
    (now : Moment) (agent : Agent) (snapshot : Snapshot) (agents : List Agent)
    → agent_may_claim_now now agent snapshot agents ≡ true
    → (contains snapshot.dispatch.eligible_agent_ids agent.id ≡ true)
      × (agent.status ≡ approved)
      × ((heartbeat : Moment) × (agent.last_heartbeat ≡ some heartbeat)
          × (now ≤ heartbeat + seconds agent_health_seconds))
unfolding agent_may_claim_now is_agent_healthy
agent_may_claim_now-needs now agent snapshot agents h = ground arith
