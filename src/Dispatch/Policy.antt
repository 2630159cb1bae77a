-- ===== src/Dispatch/Policy.antt =====
-- The dispatch policy of a selection of Networks.
use nuclei_dashboard.Base.{
  All, Bool, List, Option, [], any, arith, contains, false, if◌then◌else◌, none, refl, some, sym,
  true, ℕ, ◌∙◌, ◌∷◌, ◌≡◌,
}
use nuclei_dashboard.Job.{any_available, preferred_failover}
use nuclei_dashboard.Dispatch.{
  Network, all_are, is_none, is_preferred_failover, ok, preferred_ids, resolve_dispatch_policy,
  resolve_preferred,
}

-- A Network in Preferred + Failover mode that names the Agent, if it is in that mode at all.
abbrev pub Names : ℕ → Network → Type 0
Names n network = network.dispatch_mode ≡ preferred_failover → network.preferred_agent_id ≡ some n

abbrev pub is_failover : Network → Bool
is_failover network = is_preferred_failover network.dispatch_mode

all_are-Names :
    (n : ℕ) (networks : List Network)
    → all_are n (preferred_ids networks) ≡ true
    → All (Names n) networks
all_are-Names n [] h = tt
all_are-Names n (network ∷ networks) h = ground (arith, all_are-Names n networks)

Names-all_are :
    (n : ℕ) (networks : List Network)
    → All (Names n) networks
    → all_are n (preferred_ids networks) ≡ true
Names-all_are n [] h = refl
Names-all_are n (network ∷ networks) h = ground (arith, h.0, Names-all_are n networks h.1)

all_are-is_none : (n : ℕ) (ids : List (Option ℕ)) → all_are n ids ≡ true → any is_none ids ≡ false
all_are-is_none n [] h = refl
all_are-is_none n (none ∷ ids) h = cc
all_are-is_none n (some m ∷ ids) h = ground (arith, all_are-is_none n ids)

abbrev is_filled : List (Option ℕ) → Bool
is_filled [] = false
is_filled (id ∷ ids) = true

is_filled-preferred_ids :
    (networks : List Network) → is_filled (preferred_ids networks) ≡ any is_failover networks
is_filled-preferred_ids [] = refl
is_filled-preferred_ids (network ∷ networks) = ground (arith, is_filled-preferred_ids networks)

resolve_preferred-failover :
    (ids : List (Option ℕ)) (eligible : List ℕ) (preferred : Option ℕ)
    → resolve_preferred ids eligible ≡ ok preferred_failover preferred
    → (n : ℕ) × (preferred ≡ some n)
      × (all_are n ids ≡ true)
      × (contains eligible n ≡ true)
      × (is_filled ids ≡ true)
unfolding resolve_preferred
resolve_preferred-failover [] eligible preferred h = cc
resolve_preferred-failover (none ∷ ids) eligible preferred h = cc
resolve_preferred-failover (some n ∷ ids) eligible preferred h =
    (n, ground arith, ground arith, ground arith, refl)

resolve_preferred_total :
    (ids : List (Option ℕ)) (eligible : List ℕ) (n : ℕ)
    → all_are n ids ≡ true
    → contains eligible n ≡ true
    → resolve_preferred ids eligible
      ≡ (if is_filled ids then ok preferred_failover (some n) else ok any_available none)
unfolding resolve_preferred
resolve_preferred_total [] eligible n same pool = refl
resolve_preferred_total (none ∷ ids) eligible n same pool = cc
resolve_preferred_total (some m ∷ ids) eligible n same pool =
    let e : m ≡ n = ground arith in
    let rest : all_are n ids ≡ true = ground arith in
    rw (e, all_are-is_none n ids rest, rest, pool) refl

-- A selection that is dispatched by Preferred + Failover has such a Network, every such Network
-- names the one preferred Agent, and that Agent is in the common pool.
pub resolve_dispatch_policy-failover :
    (networks : List Network) (eligible : List ℕ) (preferred : Option ℕ)
    → resolve_dispatch_policy networks eligible ≡ ok preferred_failover preferred
    → (n : ℕ) × (preferred ≡ some n)
      × All (Names n) networks
      × (contains eligible n ≡ true)
      × (any is_failover networks ≡ true)
unfolding resolve_dispatch_policy
resolve_dispatch_policy-failover networks eligible preferred h =
    let (n, e, same, pool, filled) =
      resolve_preferred-failover (preferred_ids networks) eligible preferred h in
    (n, e, all_are-Names n networks same, pool, sym (is_filled-preferred_ids networks) ∙ filled)

-- If some Network is in Preferred + Failover mode, all those that are name one Agent, and it is in
-- the pool, the selection is dispatched by preferring it; if none is, by any available Agent.
pub resolve_dispatch_policy_total :
    (networks : List Network) (eligible : List ℕ) (n : ℕ)
    → All (Names n) networks
    → contains eligible n ≡ true
    → resolve_dispatch_policy networks eligible
      ≡ (if any is_failover networks then ok preferred_failover (some n) else ok any_available none)
unfolding resolve_dispatch_policy
resolve_dispatch_policy_total networks eligible n named pool =
    rw (← is_filled-preferred_ids networks) (
      resolve_preferred_total (preferred_ids networks) eligible n (Names-all_are n networks named)
        pool)
