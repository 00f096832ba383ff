-- ===== src/Lib.antt =====
-- TokenBank: the control plane that gives Work Units to workers. A route plan is approved or denied by
-- the policy; the scheduler makes attempts of a Work Unit and assignments to workers, grants leases,
-- takes results and sweeps leases that have expired; each change is announced in an event outbox, which
-- a flusher writes to a JSONL file; a verifier checks the result envelopes. A route plan is validated
-- and its candidates are scored before that; after it, the usage ledger records what an accepted
-- result has cost, and the audit chain gives it a receipt.
--
-- The files, and the code that they are about (paths from the repository's root):
--   Json, Json/Equality, Text, Text/Decimal
--                               Python's JSON values, and what the code uses of str and re
--   Exec, Result                code that reads and writes a state and may raise
--   World                       the clock, random identifiers and digests, as numbered readings
--   Sql, Db                     the statements and tables of src/tokenbank/db/migrations that are used
--   Session                     a connection, and `transaction` of src/tokenbank/db/transactions.py
--   Redaction                   src/tokenbank/core/redaction.py
--   Outbox                      src/tokenbank/events/outbox.py, with Outbox/Flusher for flusher.py and
--                               jsonl.py
--   Scheduler/Tables            the inserts, updates and lookups of the scheduler, with their keys
--   Scheduler/Lease             src/tokenbank/scheduler/lease.py and the lease hash of core/tokens.py
--   Scheduler/Lifecycle         src/tokenbank/scheduler/lifecycle.py
--   Scheduler/Attempts          create_attempt, schedule_retry and schedule_fallback of
--                               src/tokenbank/scheduler/scheduler.py, and retry_fallback.py
--   Scheduler/Assignments       create_assignment, assign_next_work, poll_next_assignment
--   Scheduler/Leasing           accept_, reject_ and progress_assignment, record_worker_heartbeat
--   Scheduler/Results           submit_result with the late-result quarantine, and Results/Stored for
--                               what it stores
--   Scheduler/Sweeper           src/tokenbank/scheduler/sweeper.py
--   Scheduler/Calls             the calls on the scheduler and the sweeper, in any order
--   Policy/Extensions, /Checks, /Evaluation
--                               src/tokenbank/policy/extensions.py and checks.py
--   Verifier/Common, /Tasks, /Runner
--                               src/tokenbank/verifier/checks/common.py, checks/task_specific.py,
--                               runner.py, recipes.py and report_builder.py
--   Ledger/Amounts, /Bodies, /Entry, Entry/Dump, /Repository
--                               src/tokenbank/ledger/usage.py and models/usage_ledger.py
--   Audit/Receipt, /Repository  src/tokenbank/audit/receipts.py and models/audit_receipt.py
--   Books/Requests              requests to the scheduler, the ledger and the receipts, in any order
--   Router/Model                what the router reads of src/tokenbank/models, and get of
--                               backends/registry.py
--   Router/Scorer/Filters, /Fits, /Scores, /Ranking
--                               src/tokenbank/router/route_scorer.py
--   Router/Validator, /Shape    src/tokenbank/router/route_plan_validator.py
--   Router/Tokens               src/tokenbank/router/token_estimator.py
--   Router/Privacy, /Patterns   src/tokenbank/router/privacy_preflight.py, with its regular expressions in
--                               Text/Backtrack
--   Router/Analyzer, /Shape, /Levels, /Costs
--                               src/tokenbank/router/task_analyzer.py
--   Capacity/Validators         src/tokenbank/capacity/validators.py, and _validate_registry_pairing of
--                               capacity/registry.py
--   Models/Forbidden            the key filter of src/tokenbank/models/base.py
--   Outbox/Fifo                 posts and flushes of the outbox, beside an abstract queue
-- The other files hold proofs, and Tests their examples.
--
-- State. A method of the scheduler is a step on a session: the database and the number of readings of
-- the World made so far. A raise is a value; what was written before it stays written unless
-- `transaction` rolls it back. A JSON column holds the value and not its text. A call works on one
-- connection at a time; Scheduler/Leasing splits an acceptance into what it reads and what its
-- transaction does, so that other calls can come between.
--
-- Bounds. Loops are recursion on the rows, the fields or the characters; there is no fuel. A float in a
-- JSON value is a dyadic rational, so NaN and the infinities are left out. Numbers of rows and versions
-- have no bound, as in Python; an amount that SQLite cannot hold raises OverflowError. A quotient that
-- the token estimator rounds up, or the analyzer halves, is exact, as it is below 2 ^ 53.
--
-- Parameters. The clock, uuid4, secrets.token_urlsafe, SHA-256 and str.strip are functions of World. The
-- file system of the flusher, the JSON Schema validator, the canonical JSON text and Python's str and
-- repr of numbers and containers are arguments of the definitions that use them. Nothing is assumed of
-- any of them, but that a second request for a receipt supposes that stripping leaves its identifier
-- alone. The floats of the scorer are an interface, Router/Floats, with the order of numbers as its one
-- law; the classes \w and \d of re are parameters. A routebook and a table of prices are what was read of
-- their files.
--
-- Not modelled: the validation by pydantic, apart from the identifiers of a decision, the
-- recommendation of a report, and the texts of usage entries and receipts; reading YAML and JSON files;
-- the fields of a report that name the plan, the Work Unit, the routebook and the scorer; the candidate
-- generator, the capacity profiles and the explainer of the router; the table of capacity nodes;
-- workers, accounts, the adapters of backends, the host pipeline, reports, the dashboard, the API and
-- the command line. After a raise in the sweep the connection's implicit transaction would stay open,
-- so that the next BEGIN IMMEDIATE would raise as well; the model lets the next call proceed.
pub mod Prelude
pub mod Json
pub mod Result
pub mod Text
pub mod Exec
pub mod Redaction
pub mod World
pub mod Sql
pub mod Db
pub mod Session
pub mod Outbox
pub mod Policy
pub mod Verifier
pub mod Ledger
pub mod Audit
pub mod Books
pub mod Router
pub mod Models
pub mod Capacity
pub mod Tests
pub mod Scheduler
