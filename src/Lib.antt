-- ===== src/Lib.antt =====
-- Verification of the reliability core of Hermes Life Bridge.
--
-- The bridge carries three kinds of operations between Hermes and Life Runtime: Percepts, Cognitions
-- and Contacts. Each is a row of a durable SQLite table. A row is moved from state to state by
-- guarded transactions, and a retry engine decides when a failed operation may be tried again. The
-- modules below model that core, its use for the delivery of Percepts, the service that hands
-- Contacts to Hermes and settles those whose outcome was lost, and the ledger of finished work, whose
-- facts become candidates only if their session stays idle.
--
-- Paths are from the repository's root, in src/hermes_life_bridge/.
--   Contract   reliability_contract.py: OperationState, RetryClass, DeliveryOutcome, RetryPolicy and
--              BridgeOperation with their `__post_init__` (policy_init, post_init), and
--              is_operation_transition_allowed. WellFormed and Reach describe what the constructor and
--              the guard accept without their tests; Life is about chains of transitions.
--   Store      operation_store.py: Table has the tables as lists of rows with their constraints and the
--              reading methods, Reserve has reserve and reserve_percept, Outbox the Percept outbox,
--              Transition the seven methods that move one row, Purge purge_terminal, and Recovery
--              recover_interrupted_contact_operations. Soundness, Calls, Admitted, Progress,
--              Idempotency, Retention, Attempts, Reserved, Recovered, Interrupted, Recoverable and
--              Payloads have the theorems.
--   Retry      retry_engine.py: Registry has the policies, Delay retry_delay_seconds, Engine the
--              methods of RetryEngine. Limits, Bounded, Sweeps and Runs follow the bound on attempts
--              through every method, Started is about begin_attempt, and Backoff about the delay.
--   Calendar   the timestamps of both files.
--   Delivery   percept_delivery.py: Executor has submit and attempt, Pump has pump.
--   Routing    routing.py: the learned route, its file, and route_status.
--   Contact    Evidence and Reconciler have contact_reconciliation.py, Tables and Requests
--              contact_store.py, Sending contact_delivery.py, and Setting, Checks, Service, Process and
--              Startup contact_service.py. Kept, Answers, Ready, AtMostOnce, Requested and Runs follow the
--              count of sendings through every method; Reconciled and Recovering follow a startup through
--              the operations that it finds; Allowed, Stored, Latest and Resolved have the other theorems.
--   Work       work_contract.py and work_store.py: Contract has the facts and the checks of their
--              fields, Mapping from_mapping and to_mapping, Tables the tables with the reading methods,
--              and Ledger accept, note_activity and evaluate_due. Changes and Steps split these into
--              four kinds of changes, which Decided, Idle, Quieted, Agreeing and Lifecycle use;
--              Repeated is about a second accept, Roundtrip and Reread about the mappings.
--   Exec, Errors and Prelude hold what these share: methods that change a state and may raise, the
--   exceptions, and lemmas on lists and texts. Tests has a run of each kind at a concrete store.
--
-- A method is a function from a state to a result and the next state (Exec). What it wrote before it
-- raised stays written, but a transaction that raises is rolled back. A transaction is one step by the
-- store's lock and BEGIN IMMEDIATE. The runs of several callers (Retry.Runs, Contact.Runs and the calls
-- of Work.Decided) are coarser: each step is a whole method, so two methods that are several
-- transactions each, as schedule_failed_safe and ContactService.process are, do not interleave in the
-- middle, and no crash falls into the middle of one.
--
-- Choices of the model. Columns whose CHECK constraint lists their values are enumerations, and the
-- attempt counter is a natural number. Python's checks that an argument has its annotated type hold by
-- the types. Times are microseconds, and the ratios of a policy are thousandths, computed exactly and
-- rounded down where the source computes with floating-point numbers; policy_init takes every number,
-- and the engine those that are finite and not negative. An OSError of running the child counts as a
-- child that was not started, as in the source. Numbers in an event are kept as
-- numerals. Stored JSON reads back as it was written. The epoch of a session without a row is absent,
-- where the source writes -1.
--
-- Outside of the model, and parameters of the definitions: `datetime` (Calendar, which says that a
-- written time reads back), SHA-256 (digest_head, sha256), UUID 5, the clock and the socket (Host,
-- ContactHost), the date and the digest of a work fact (WorkHost), the child process of the Hermes
-- CLI, the evidence and receipt probes, `str.lower`, and, until representation.py is modelled, its
-- two functions on texts (`sanitize`, `platform_of`) together with `json.dumps` (Representation,
-- request_json). The trace is the list of its stages.
--
-- Loops are structural over the rows that were read, so no fuel is needed but in the decimal numeral
-- of an attempt, whose number of digits is at most its value plus one.
--
-- Not modelled: file permissions, PRAGMAs, compact, checkpoint and migrations, which touch files
-- only; the sockets of contact_service.py; cognition, the producers and adapters of work facts,
-- configuration and the plugin.
pub mod Prelude
pub mod Errors
pub mod Exec
pub mod Contract
pub mod Calendar
pub mod Store
pub mod Retry
pub mod Routing
pub mod Delivery
pub mod Contact
pub mod Work
pub mod Tests
