-- ===== src/Lib.antt =====
-- Downtime-aware recovery of failed payments (agent/).
--
-- A failed payment becomes a case. `ingest` assigns it to the treated or the holdout cohort and
-- stores it; `process_case` classifies it, asks a diagnosis where the class is ambiguous, lets the
-- policy engine decide, hands an allowed verdict to an executor and writes every step to an audit log
-- whose events are chained by hashes. The parts and the files that model them:
--   Models       agent/models.py: enumerations, records, their dumps, the idempotency key
--   Triage       agent/triage.py: `triage` over its two tables
--   Ledger       agent/ledger.py: `assign_cohort`
--   State        agent/state.py: the table of transitions; Store/Cases has its operations on rows
--   Store        agent/db.py: the tables, and actions on them with state and exceptions
--   Audit        agent/audit.py: `append`, `verify_chain`, `replay`
--   Downtime     agent/downtime.py: the stored outages, `active_at`, `context_at`
--   Policy       agent/policy/engine.py: the rules and `evaluate`, one function for each gate
--   Contracts    agent/executors/contracts.py: codes, `build_retry_input`, the check of the state
--   Diagnosis    agent/diagnosis: the prompt, `validate`, the fallbacks, the adapters and the stubs
--   Simulated    agent/executors/simulated.py: `SimulatedExecutor.execute`
--   Live         agent/executors/live.py: `LiveRazorpayExecutor.execute` over an HTTP client
--   Text         the methods of Python's `str` that the code uses
--   Reconciliation  agent/reconciliation.py: `find_uncertain_cases` and `reconcile`
--   Pipeline     agent/pipeline.py: `ingest` and `process_case`
--   Logger       agent/logger.py: the removal of secrets, `sanitize_data`
--   Clock        agent/clock.py: `VirtualClock`
--   Harness      evalharness/run.py: the replay of a stored corpus; Harness/Sealed the log of the
--                scoring runs, the guard of the sealed corpus and what `run` does around the replay
--   Validation   scripts/validate_data.py: the search for duplicates and the check of the attempts
--   Metrics      evalharness/metrics.py: the scores of a replayed corpus, over Fraction; the bootstrap
--   Config       agent/config.py: the `.env` file, `load_config` and its checks
--   Dashboard    agent/dashboard.py: the metrics, the list, the trace and the detail of a case
--   Tests        the properties at concrete inputs
-- Common has the helpers that they share.
--
-- The state is `World`: the four tables, as lists in the order of insertion, and a count of readings.
-- An operation that reads or writes it is an `Exec`: it gives a value or an exception, and the
-- database after it. Each statement commits by itself, so that what was written before a raise stays.
-- A function of the source keeps its name; a part of a long function has a name of its own, in the
-- order in which the source has the parts.
--
-- Times are microseconds, and no time is too great for a datetime. Where SQL compares the texts of
-- times, which have offsets of their own, the texts are a parameter (`Columns`). A float of [0, 1]
-- is a number of millionths, and a comparison of floats is the comparison of the exact numbers;
-- the rounding of floats is not modelled. Texts that are built with f-strings are constructors of
-- `Message`; only where code depends on the characters, as in the idempotency key and the cohort,
-- is the text computed. A decimal number is printed on fuel, one more than the number, which is
-- more than the count of its digits. No other function has fuel.
--
-- Parameters: SHA-256, the canonical JSON text, what the clock and the source of ids give at each
-- reading (`Env`); the diagnosis and the executor of the pipeline; the model and the parser behind
-- a diagnosis (`Provider`); the regular expressions of the logger (`Redactor`); what SQLite makes
-- of a JSON number and of LIKE (`Sqlite`); the texts of the times (`Columns`); `float` and the
-- files that exist (`Host`); `randrange` of the bootstrap (`Random`); the HTTP client of the live
-- executor (`Gateway`); the response model, the random source and the test for timeouts of the
-- simulated executor (`Injected`).
--
-- Not modelled: the log lines and the latencies, which nothing reads back; the YAML and JSON
-- parsers; the creation of the database file; two processes that run at once, except two writers
-- of one case. The text of the evaluation's report, the generation of data, the other checks of
-- the data, the other scripts and the server of the dashboard are not modelled either; nor are the
-- checks of pydantic on an amount or an attempt of a row that is read back, which a payment has
-- passed before `ingest` stores it.
pub mod Audit
pub mod Common
pub mod Clock
pub mod Contracts
pub mod Diagnosis
pub mod Downtime
pub mod Fraction
pub mod Harness
pub mod Ledger
pub mod Live
pub mod Config
pub mod Dashboard
pub mod Logger
pub mod Metrics
pub mod Models
pub mod Pipeline
pub mod Policy
pub mod Reconciliation
pub mod Simulated
pub mod State
pub mod Store
pub mod Tests
pub mod Text
pub mod Triage
pub mod Validation
