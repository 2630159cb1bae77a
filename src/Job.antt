-- ===== src/Job.antt =====
-- A run of a scan: the `scan_jobs` row of backend/app/models.py with the fields that its operations
-- read or write, and the events about runs that backend/app/events.py stores once for each key.
pub mod Control
pub mod Transitions
pub mod Claims
pub mod Completion
pub mod Expiry
pub mod Steps
use nuclei_dashboard.Base.{
  Bool, List, Option, String, [], any, false, if◌then◌else◌, true, ℕ, ◌++◌, ◌==◌, ◌∷◌,
}
use nuclei_dashboard.Base.Moments.{Moment}

pub data Status : Type 0 where
  queued waiting_for_agent running done failed cancelled missed : Status

pub data Scope : Type 0 where
  lan wan : Scope

-- DISPATCH_ANY_AVAILABLE, DISPATCH_PREFERRED_FAILOVER
pub data DispatchMode : Type 0 where
  any_available preferred_failover : DispatchMode

-- The `dispatch` object of an execution snapshot.
pub record Dispatch : Type 0 where
  pub eligible_agent_ids : List ℕ
  pub mode : DispatchMode
  pub preferred_agent_id : Option ℕ
  pub grace_seconds : Option ℕ

-- The immutable execution snapshot of a run. Its moment of creation is none if it is missing or no
-- date; its scope is none if it is neither of the two.
pub record Snapshot : Type 0 where
  pub scope : Option Scope
  pub dispatch : Dispatch
  pub created_at : Option Moment

-- An empty snapshot object counts as none, as in the tests of the source.
pub record ScanJob : Type 0 where
  pub id : ℕ
  pub scan_id : ℕ
  pub tenant_id : ℕ
  pub status : Status
  pub claimed_by : Option String
  pub claimed_agent_id : Option ℕ
  pub error : Option String
  pub started_at : Option Moment
  pub finished_at : Option Moment
  pub wait_expires_at : Option Moment
  pub deadline_at : Option Moment
  pub cancel_requested_at : Option Moment
  pub scheduled_for : Option Moment
  pub execution_snapshot : Option Snapshot

-- The idempotence keys of the events about runs.
pub data DomainEvent : Type 0 where
  scan_failed scan_missed_unavailable_agent : ℕ → DomainEvent

infix 50 ◌same_key◌
abbrev ◌same_key◌ : DomainEvent → DomainEvent → Bool
scan_failed a same_key scan_failed b = a == b
scan_missed_unavailable_agent a same_key scan_missed_unavailable_agent b = a == b
_ same_key _ = false

-- `emit_domain_event`: an event whose key is stored already is not stored again.
unfoldable pub emit_domain_event : DomainEvent → List DomainEvent → List DomainEvent
emit_domain_event event events =
    if any (λ stored. stored same_key event) events then events else events ++ event ∷ []

abbrev pub is_running : Status → Bool
is_running running = true
is_running _ = false

abbrev pub is_queued : Status → Bool
is_queued queued = true
is_queued _ = false

-- JOB_QUEUED, JOB_WAITING_FOR_AGENT
abbrev pub is_unclaimed_status : Status → Bool
is_unclaimed_status queued = true
is_unclaimed_status waiting_for_agent = true
is_unclaimed_status _ = false

-- RUNNABLE_LEGACY_STATUSES, and the statuses of `has_active_job`
abbrev pub is_active : Status → Bool
is_active queued = true
is_active waiting_for_agent = true
is_active running = true
is_active _ = false

-- The final statuses of `_is_terminal`.
abbrev pub is_terminal : Status → Bool
is_terminal failed = true
is_terminal cancelled = true
is_terminal done = true
is_terminal missed = true
is_terminal _ = false
