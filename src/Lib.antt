-- ===== src/Lib.antt =====
-- Nuclei Dashboard: verification library.
--
-- The program scans the networks of tenants for vulnerabilities. A server (backend/app) keeps scans,
-- runs, assets and findings in a database; workers (scan_runtime), the central one and Agents on the
-- tenants' sites, claim runs, execute scanners, spool the records on disk, upload them in bounded
-- chunks and report the end of the run. Finalising a run moves its findings through their lifecycle,
-- and a priority is calculated for each. A scheduler expires runs that wait or hang.
--
-- The parts, and what models them:
--
-- Ingest models backend/app/ingest_chunks.py and scan_runtime/ingest_chunks.py: `iter_ingest_chunks` of
-- the worker and `validate_ingest_batch` of the server, which Ingest.Received applies to the parsed
-- records. Ingest.Spool models scan_runtime/spool.py:
-- `append`, `seal`, `mark_pipeline_complete`, and in Ingest.Spool.Recovery `JobSpool.for_job`,
-- `reclaim_foreign_jobs` and `recover_owned_spool`. A spool slices its records by the same rule as
-- `iter_ingest_chunks`, and sends what it has sealed.
--
-- Job models a row of `scan_jobs`. Job.Control is backend/app/job_control.py; Job.Transitions is
-- backend/app/jobs.py; Job.Claims is the claims of backend/app/scan_dispatch.py; Job.Completion is
-- backend/app/scan_execution.py, `complete_scan_run` of backend/app/finding_lifecycle.py and
-- `complete_job` of backend/app/routers/scanner_api.py; Job.Expiry is the passes over runs of
-- backend/app/scheduler.py. Job.Steps puts these operations together as one step relation on a row, with
-- the guards of their callers, one operation after another. Job.Steps.Overlap is about operations that
-- overlap: a claim tests the row that it updates, all others commit the columns that they changed in the
-- row as they had read it. Job.Steps.Table is the table of runs under claims, insertions and such steps.
--
-- Dispatch models the rest of backend/app/scan_dispatch.py: the health of Agents, the policy of a
-- selection of Networks, and the priority of the preferred Agent.
--
-- Finding models the technical lifecycle in backend/app/finding_lifecycle.py: `apply_detection`,
-- `_record_evaluation`, `_resolve_if_threshold_reached` and `finalize_run_lifecycle`. Finding.Trace
-- follows one finding through runs and compares it with a specification of its course;
-- Finding.Rerun is about a finalisation that is repeated.
--
-- Treatment models backend/app/treatments.py: creation, approval, revocation and expiry of the treatments
-- of a finding, and the state that the finding shows.
--
-- Priority models `calculate_asset_finding_priority` and its helpers of backend/app/intel/priority.py.
--
-- Access models backend/app/access.py, Throttle backend/app/auth_throttle.py, Challenge
-- backend/app/agent_challenges.py, Stages the ports and the checks of backend/app/scan_stages.py, and Intensity
-- backend/app/scan_intensity.py.
--
-- Policy models backend/app/policy.py: the conditions and scopes of rules (Policy.Conditions), their
-- validation (Policy.Validation, Policy.Actions, Policy.Cleaning), `PolicyResolver.evaluate`
-- (Policy.Resolver) and the changes of a rule (Policy.Edits). The router of alerts and the lifecycle of
-- findings read what the resolver decides.
--
-- Alert models backend/app/alert_engine.py: Alert.Queue and Alert.Routing route events to alerts, through
-- the actions that the policies give, and Alert.Delivery claims, sends and retries deliveries.
--
-- Schedule models backend/app/scan_schedule.py: Schedule.Config reads a schedule and the fields of cron,
-- Schedule.Occurrence computes what comes next, Schedule.Catchup goes on behind a downtime, and
-- Schedule.Runs is `due_scans` and `queue_scheduled_run` of backend/app/jobs.py.
--
-- Base holds the shared names: tests on numbers, lists, moments and texts. Examples applies each
-- theorem at a concrete input.
--
-- State and effects. A row is a record with the columns that the operations read or write, a table a
-- list of rows (a function from keys for the throttle), and an operation takes the state and gives the
-- next one, with what it returns or the error that it raises. A statement of SQL, and what runs under
-- one row lock, is one step. The clock is read once in an operation, but for the passes of deliveries. Rows of the history and events are kept by their idempotence keys only.
--
-- Numbers and time. Python's integers are unbounded, so they are the native natural numbers; where
-- the source subtracts, the difference is kept at 0 exactly where the source does, or the comparison
-- is written with the other side. A datetime is its number of microseconds of UTC. Scores and
-- percentiles are integers in the units of the columns that keep them. `lower` and `isdigit` are those
-- of ASCII. A setting that is configured is a natural number, negative ones being rejected before or
-- raised to a minimum by `max`.
--
-- Loops are structural recursion over lists, or over the number of rounds that the source gives to the
-- weekly, monthly and cron searches (14, 36 and 527040). Only the catch-up of a schedule is a loop without
-- a bound; it runs on fuel, one round for each microsecond up to a day behind the present, which is
-- enough since every occurrence is at least a microsecond later in local time and a zone's offset is less
-- than a day.
--
-- Parameters: the sizes that `json.dumps` gives, with the law of a list's size, and the parsing of records by
-- their schema, with a bound of the bytes that it adds to a record; the checks of raw
-- evidence and of tool versions in front of a completion; the finalisation, where completion is
-- modelled; `fnmatch` and `urlparse`; the calendar and the zone of a schedule, with what is documented of
-- a zone's offset; what the policies decide for an event, and how sending ends; which findings a run could
-- have detected, and the thresholds of the policies; the nonces
-- and the ids that the database gives.
--
-- Spool files are listed in the order in which they are made, which is the order of their sorted names
-- up to 999999 files of a kind.
--
-- Not modelled: merging of treatments and compensating controls, the progress view, the contexts that
-- policies are evaluated
-- for and their application to assets, correlation of assets, exclusions and targets, compliance and
-- reports, persistence of raw evidence,
-- the web routes beyond the completion of a run, cryptography and mail, the frontend, and the external
-- scanners. They are queries, glue or further components.
pub mod Base
pub mod Ingest
pub mod Job
pub mod Dispatch
pub mod Policy
pub mod Alert
pub mod Schedule
pub mod Finding
pub mod Priority
pub mod Access
pub mod Throttle
pub mod Challenge
pub mod Stages
pub mod Examples
pub mod Intensity
pub mod Treatment
