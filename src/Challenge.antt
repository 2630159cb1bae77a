-- ===== src/Challenge.antt =====
-- The single-use challenges of the Agents: backend/app/agent_challenges.py. The rate limit of
-- `create_challenge` is Throttle's, checked before; the nonce is a parameter, as `new_nonce` draws it
-- from the system's entropy. A request that raises 401 gives none beside the table that it leaves.
pub mod Single
use nuclei_dashboard.Base.{
  Bool, List, Option, [], find, if◌then◌else◌, is_some, leb, length, ltb, max, none, not, some, suc,
  update_where, zero, ℕ, ◌&&◌, ◌++◌, ◌+◌, ◌==◌, ◌||◌, ◌∷◌,
}
use nuclei_dashboard.Base.Moments.{Moment, seconds}

pub record AgentChallenge : Type 0 where
  pub id : ℕ
  pub agent_id : ℕ
  pub nonce : ℕ
  pub expires_at : Moment
  pub consumed_at : Option Moment

abbrev is_expired : Moment → AgentChallenge → Bool
is_expired now row = leb row.expires_at now && not (is_some row.consumed_at)

-- ORDER BY expires_at, id
abbrev expires_before : AgentChallenge → AgentChallenge → Bool
expires_before a b =
    ltb a.expires_at b.expires_at || (a.expires_at == b.expires_at && leb a.id b.id)

abbrev place : AgentChallenge → List AgentChallenge → List AgentChallenge
place row [] = row ∷ []
place row (other ∷ rows) =
    let rest = place row rows in
    if expires_before row other then row ∷ other ∷ rows else other ∷ rest

-- The expired rows of the query, in its order.
abbrev pub expired_rows : Moment → List AgentChallenge → List AgentChallenge
expired_rows now [] = []
expired_rows now (row ∷ rows) =
    let rest = expired_rows now rows in if is_expired now row then place row rest else rest

abbrev pub take : ℕ → List AgentChallenge → List AgentChallenge
take zero rows = []
take (suc n) [] = []
take (suc n) (row ∷ rows) = row ∷ take n rows

abbrev pub delete_row : ℕ → List AgentChallenge → List AgentChallenge
delete_row id [] = []
delete_row id (row ∷ rows) =
    let rest = delete_row id rows in if row.id == id then rest else row ∷ rest

abbrev pub delete_rows : List AgentChallenge → List AgentChallenge → List AgentChallenge
delete_rows [] table = table
delete_rows (row ∷ rows) table = delete_rows rows (delete_row row.id table)

unfoldable pub prune_expired_challenges : Moment → ℕ → List AgentChallenge → List AgentChallenge × ℕ
prune_expired_challenges now batch_size table =
    let rows = take batch_size (expired_rows now table) in (delete_rows rows table, length rows)

-- `create_challenge`, once the rate limit allows it; `id` is the one that the database gives.
unfoldable pub create_challenge :
    ℕ → ℕ → Moment → Moment → ℕ → ℕ → List AgentChallenge → List AgentChallenge
unfolding prune_expired_challenges
create_challenge id nonce pruned_at now ttl_seconds agent_id table =
    (prune_expired_challenges pruned_at 200 table).0
    ++ record {
      id = id;
      agent_id = agent_id;
      nonce = nonce;
      expires_at = now + seconds (max 30 ttl_seconds);
      consumed_at = none;
    }
      ∷ []

abbrev pub is_open_for : ℕ → ℕ → AgentChallenge → Bool
is_open_for agent_id nonce row =
    row.agent_id == agent_id && row.nonce == nonce && not (is_some row.consumed_at)

abbrev pub has_id : ℕ → AgentChallenge → Bool
has_id id row = row.id == id

abbrev pub consumed : Moment → AgentChallenge → AgentChallenge
consumed now row = record row { consumed_at = some now }

unfoldable pub consume_challenge :
    Moment → ℕ → ℕ → List AgentChallenge → List AgentChallenge × Option AgentChallenge
consume_challenge now agent_id nonce table = elim (find (is_open_for agent_id nonce) table) [
  | none ↦ (table, none)
  | some row ↦
      if leb row.expires_at now
      then (delete_row row.id table, none)
      else (update_where (has_id row.id) (consumed now) table, some (consumed now row))
]
