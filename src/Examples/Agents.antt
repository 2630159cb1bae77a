-- ===== src/Examples/Agents.antt =====
-- Dispatch to the Agents.
use nuclei_dashboard.Base.{All, [], any, contains, refl, some, true, ℕ, ◌∷◌, ◌≡◌}
use nuclei_dashboard.Base.Moments.{Moment}
use nuclei_dashboard.Job.{Snapshot, lan, preferred_failover}
use nuclei_dashboard.Dispatch.{Agent, Network, approved, resolve_dispatch_policy}
use nuclei_dashboard.Dispatch.Policy.{Names, is_failover, resolve_dispatch_policy-failover}

abbrev agent_at : ℕ → Moment → Agent
agent_at id heartbeat = record {
  id = id;
  uuid = "a";
  tenant_id = 1;
  site_id = some 1;
  status = approved;
  last_heartbeat = some heartbeat;
}

abbrev one : Agent
one = agent_at 1 1000000

abbrev two : Agent
two = agent_at 2 1000000

abbrev prefers_one : Snapshot
prefers_one = record {
  scope = some lan;
  dispatch = record {
    eligible_agent_ids = 1 ∷ 2 ∷ [];
    mode = preferred_failover;
    preferred_agent_id = some 1;
    grace_seconds = some 30;
  };
  created_at = some 0;
}

abbrev failover_network : Network
failover_network = record {
  id = 1;
  tenant_id = 1;
  site_id = 1;
  dispatch_mode = preferred_failover;
  preferred_agent_id = some 1;
}

resolve_dispatch_policy-failover_example :
    (n : ℕ) × (some 1 ≡ some n)
    × All (Names n) (failover_network ∷ [])
    × (contains (1 ∷ 2 ∷ []) n ≡ true)
    × (any is_failover (failover_network ∷ []) ≡ true)
unfolding resolve_dispatch_policy
resolve_dispatch_policy-failover_example =
    resolve_dispatch_policy-failover (failover_network ∷ []) (1 ∷ 2 ∷ []) (some 1) refl
