-- ===== src/Challenge/Single.antt =====
-- A challenge is good for one login of the Agent that it was made for.
use nuclei_dashboard.Base.{
  List, Option-cases, [], arith, count_if, count_if-append, count_if-update_where_le, find, inl,
  inr, max, none, refl, some, true, update_where, ℕ, ◌+◌, ◌<◌, ◌∷◌, ◌≡◌, ◌≢◌, ◌≤◌,
}
use nuclei_dashboard.Base.Moments.{Moment, seconds}
use nuclei_dashboard.Challenge.{
  AgentChallenge, consume_challenge, consumed, create_challenge, delete_row, delete_rows,
  expired_rows, has_id, is_open_for, prune_expired_challenges, take,
}

find-passes :
    (agent_id nonce : ℕ) (table : List AgentChallenge) (row : AgentChallenge)
    → find (is_open_for agent_id nonce) table ≡ some row
    → is_open_for agent_id nonce row ≡ true
find-passes agent_id nonce [] row h = ground arith
find-passes agent_id nonce (first ∷ table) row h =
    let ih = find-passes agent_id nonce table row in ground arith

-- A success hands back a challenge that was made for the Agent with this nonce, had not been consumed,
-- and had not expired.
pub consume_challenge-valid :
    (now : Moment) (agent_id nonce : ℕ) (table : List AgentChallenge) (row : AgentChallenge)
    → (consume_challenge now agent_id nonce table).1 ≡ some row
    → (row.agent_id ≡ agent_id)
      × (row.nonce ≡ nonce)
      × (now < row.expires_at)
      × (row.consumed_at ≡ some now)
unfolding consume_challenge
consume_challenge-valid now agent_id nonce table row h =
    elim (Option-cases (find (is_open_for agent_id nonce) table)) [
      | inl missing ↦ ground arith
      | inr found ↦ (let p = find-passes agent_id nonce table found.0 found.1 in ground arith)
    ]

find-none :
    (agent_id nonce : ℕ) (table : List AgentChallenge)
    → count_if (is_open_for agent_id nonce) table ≡ 0
    → find (is_open_for agent_id nonce) table ≡ none
find-none agent_id nonce [] h = refl
find-none agent_id nonce (row ∷ table) h = let ih = find-none agent_id nonce table in ground arith

-- The consumed row was the only one that its query could find.
count-update :
    (now : Moment) (agent_id nonce : ℕ) (table : List AgentChallenge) (row : AgentChallenge)
    → count_if (is_open_for agent_id nonce) table ≤ 1
    → find (is_open_for agent_id nonce) table ≡ some row
    → count_if (is_open_for agent_id nonce) (update_where (has_id row.id) (consumed now) table) ≡ 0
count-update now agent_id nonce [] row few h = refl
count-update now agent_id nonce (first ∷ table) row few h =
    let test = is_open_for agent_id nonce in
    let ih = count-update now agent_id nonce table row in
    let no_more =
      count_if-update_where_le test (has_id row.id) (consumed now) (λ x passes after. ground arith)
        table in
    ground arith

-- What may happen to the table, a creation with the nonce that is watched excepted: creations, the
-- pruning that is part of them, and consumptions, of any challenge.
pub data ChallengeStep (nonce : ℕ) (table : List AgentChallenge) (table' : List AgentChallenge)
    : Type 0 where
  creates :
      (id new_nonce : ℕ) (pruned_at now : Moment) (ttl_seconds agent_id : ℕ)
      → new_nonce ≢ nonce
      → table' ≡ create_challenge id new_nonce pruned_at now ttl_seconds agent_id table
      → ChallengeStep nonce table table'
  prunes :
      (now : Moment) (batch_size : ℕ)
      → table' ≡ (prune_expired_challenges now batch_size table).0
      → ChallengeStep nonce table table'
  consumes :
      (now : Moment) (agent_id other : ℕ)
      → table' ≡ (consume_challenge now agent_id other table).0
      → ChallengeStep nonce table table'

pub data ChallengeTrace (nonce : ℕ) (table : List AgentChallenge)
    : List AgentChallenge → Type 0 where
  as_it_was : ChallengeTrace nonce table table
  and_later :
      {mid last : List AgentChallenge}
      → ChallengeTrace nonce table mid
      → ChallengeStep nonce mid last
      → ChallengeTrace nonce table last

module _ (agent_id nonce : ℕ) where
  abbrev open_ones : List AgentChallenge → ℕ
  open_ones table = count_if (is_open_for agent_id nonce) table

  open_ones-delete_row :
      (id : ℕ) (table : List AgentChallenge) → open_ones (delete_row id table) ≤ open_ones table
  open_ones-delete_row id [] = omega arith
  open_ones-delete_row id (row ∷ table) = ground (arith, open_ones-delete_row id table)

  open_ones-delete_rows :
      (rows table : List AgentChallenge) → open_ones (delete_rows rows table) ≤ open_ones table
  open_ones-delete_rows [] table = omega arith
  open_ones-delete_rows (row ∷ rows) table = omega (
    arith,
    open_ones-delete_rows rows (delete_row row.id table),
    open_ones-delete_row row.id table,
  )

  open_ones-prune :
      (now : Moment) (batch_size : ℕ) (table : List AgentChallenge)
      → open_ones (prune_expired_challenges now batch_size table).0 ≤ open_ones table
  unfolding prune_expired_challenges
  open_ones-prune now batch_size table =
      open_ones-delete_rows (take batch_size (expired_rows now table)) table

  open_ones-other : (row : AgentChallenge) → row.nonce ≢ nonce → open_ones (row ∷ []) ≡ 0
  open_ones-other row other = ground (arith, other)

  open_ones-create :
      (id new_nonce : ℕ) (pruned_at now : Moment) (ttl_seconds owner : ℕ)
      (table : List AgentChallenge)
      → new_nonce ≢ nonce
      → open_ones (create_challenge id new_nonce pruned_at now ttl_seconds owner table)
        ≤ open_ones table
  unfolding create_challenge
  open_ones-create id new_nonce pruned_at now ttl_seconds owner table other =
      let pruned = (prune_expired_challenges pruned_at 200 table).0 in
      let row : AgentChallenge = record {
        id = id;
        agent_id = owner;
        nonce = new_nonce;
        expires_at = now + seconds (max 30 ttl_seconds);
        consumed_at = none;
      } in
      let a = open_ones-prune pruned_at 200 table in
      let both = count_if-append (is_open_for agent_id nonce) pruned (row ∷ []) in
      let alone = open_ones-other row other in omega (arith, a, both, alone)

  open_ones-consume :
      (now : Moment) (owner other : ℕ) (table : List AgentChallenge)
      → open_ones (consume_challenge now owner other table).0 ≤ open_ones table
  unfolding consume_challenge
  open_ones-consume now owner other table =
      elim (Option-cases (find (is_open_for owner other) table)) [
        | inl missing ↦ ground arith
        | inr found ↦
            (let row = found.0 in
              let f = found.1 in
              let deleted = open_ones-delete_row row.id table in
              let updated =
                count_if-update_where_le (is_open_for agent_id nonce) (has_id row.id) (consumed now)
                  (λ x passes after. ground arith) table in
              ground arith)
      ]

  ChallengeStep-open_ones :
      {table table' : List AgentChallenge}
      → ChallengeStep nonce table table'
      → open_ones table' ≤ open_ones table
  ChallengeStep-open_ones {table} (creates id new pruned_at now ttl owner other e) =
      rw e (open_ones-create id new pruned_at now ttl owner table other)
  ChallengeStep-open_ones {table} (prunes now batch_size e) =
      rw e (open_ones-prune now batch_size table)
  ChallengeStep-open_ones {table} (consumes now owner other e) =
      rw e (open_ones-consume now owner other table)

  ChallengeTrace-open_ones :
      {table table' : List AgentChallenge}
      → ChallengeTrace nonce table table'
      → open_ones table' ≤ open_ones table
  ChallengeTrace-open_ones as_it_was = omega arith
  ChallengeTrace-open_ones (and_later trace step) =
      omega (arith, ChallengeTrace-open_ones trace, ChallengeStep-open_ones step)

  refused_once_closed :
      (now : Moment) (table : List AgentChallenge)
      → open_ones table ≡ 0
      → (consume_challenge now agent_id nonce table).1 ≡ none
  unfolding consume_challenge
  refused_once_closed now table h = let gone = find-none agent_id nonce table h in ground arith

  consumed-open_ones :
      (now : Moment) (table : List AgentChallenge) (row : AgentChallenge)
      → open_ones table ≤ 1
      → (consume_challenge now agent_id nonce table).1 ≡ some row
      → open_ones (consume_challenge now agent_id nonce table).0 ≡ 0
  unfolding consume_challenge
  consumed-open_ones now table row few h =
      elim (Option-cases (find (is_open_for agent_id nonce) table)) [
        | inl missing ↦ ground arith
        | inr found ↦
            (let f = found.1 in
              let zeroed = count-update now agent_id nonce table found.0 few f in ground arith)
      ]

-- Where the nonce belongs to at most one open challenge of the Agent, a challenge that was consumed is
-- refused ever after: whatever creations, none of them with this nonce, prunings and consumptions
-- follow.
pub consume_challenge-once :
    (now later : Moment) (agent_id nonce : ℕ) (table table' : List AgentChallenge)
    (row : AgentChallenge)
    → count_if (is_open_for agent_id nonce) table ≤ 1
    → (consume_challenge now agent_id nonce table).1 ≡ some row
    → ChallengeTrace nonce (consume_challenge now agent_id nonce table).0 table'
    → (consume_challenge later agent_id nonce table').1 ≡ none
consume_challenge-once now later agent_id nonce table table' row few h trace =
    let closed = consumed-open_ones agent_id nonce now table row few h in
    let fewer = ChallengeTrace-open_ones agent_id nonce trace in
    refused_once_closed agent_id nonce later table' (omega (arith, closed, fewer))
