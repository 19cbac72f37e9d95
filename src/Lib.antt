-- ===== src/Lib.antt =====
-- Verification of agent-learning-loop, an offline reliability harness for tool-using agents.
--
-- The parts of the program, and the files that model them (paths of the program from the
-- repository's root, src/agent_learning_loop/ where none is given):
--
-- - Schemas: schemas.py and runtime_schemas.py, the records and enumerations that the Runtime
--   exchanges, with the validator of `RuntimeConfig` and `for_mode`. Fields with one permitted
--   value are left out. Times are natural numbers of ticks of one scale, scores are 0 or 1.
-- - Machine: runtime_state.py, the table of legal transitions and the state machine.
-- - Schedules: failure_schedules.py and tool_metadata.py, the one injected failure of a run and what
--   the tools permit.
-- - Runtime: runtime.py. `Store` has the idempotency store and the failure tracker, `Exits`,
--   `Attempts` and `Retry` the function `_execute_tool_attempts`, `Frame`, `Round`, `Act` and `Run`
--   the `try` body and the handler of `execute_runtime_task`, and `Task` the whole function. A
--   statement is a function from a state to a value, a way of leaving, and the new state (`Body` of
--   Base/Control); exceptions and early returns are ways of leaving. The clock, the policy, the
--   environment, the tools and the verifier are the record `Host`: they share one world, and each
--   call of one may return, raise an exception that its call site catches, or raise another. Reading
--   the clock, sleeping and closing raise nothing, and the clock never goes backwards. An empty
--   `run_id`, with which the first event of a run is refused, ends `execute_runtime_task` there.
--   `Bounds`, `Idempotence`, `Trace`, `Outcomes`, `Stages`, `Terminal`, `Finish`, `Whole`,
--   `Finished` and `Escape` hold the proofs.
-- - Incident: incident_schemas.py, incident_environment.py and incident_verifier.py, the
--   simulated incident and the checks of its audit. `Names`, `Contracts` and `Arguments` have the
--   data and its validation, `Environment`, `Observe`, `Approvals`, `HighImpact` and `Execute` the
--   class `IncidentEnvironment`: each tool takes an action and the environment, and gives a result
--   or an exception with the environment after it. `_redact_log_line` is the parameter `redact`.
--   `Audit`, `Sound`, `Committed`, `Kept`, `Mutated` and `Runs` hold the proof of the invariant;
--   `Steps`, `Noted` and `Stepped` say what one call may do, and `Closed`, `Grows`, `Replay`,
--   `Counted`, `Replies`, `Answers`, `Grounded` and `Approved` what follows. `Verifier` has `verify_audit`,
--   `Groups` and `Audited` what a passed verdict shows.
-- - Workspace: verifier.py. `Verifier` has the checks of the final files, `Accepted` what a passed
--   verdict shows of every path.
-- - Durable: durable_schemas.py, checkpoint.py, journal.py and event_replay.py. `Events` and
--   `Contracts` have the records with their validation and digests, `Journal` the append-only journal
--   (its file is a text) and `read_and_validate_journal`, `Trajectory`, `Validation` and `Replay` the
--   function `validate_trajectory` over what stands in a run's directory (`RunDirectory`); an early
--   `raise` is the value `refused` of `Trial`. `Chain`, `Written`, `Reread`, `Pinned`, `Walk`,
--   `Ending` and `Legal` hold the proofs.
-- - DataOps: dataops_schemas.py and dataops_environment.py. `Names`, `Contracts` and `Arguments` have
--   the data and the validation of arguments, `Store` what is asked of SQLite (`Sql`), `Environment`,
--   `Reads`, `Writes` and `Execute` the class `DataOpsEnvironment`: a tool takes an action, the digest
--   before it and the environment, and gives a result or an exception with the environment after it.
--   `Did`, `Noted`, `Stepped` and `Ran` say what one call may do, and `Trails`, `Accounted`,
--   `Restored` and `Final` what follows from it; `Remembered` and `Retried` are about a write that is
--   called twice. `Memory` is a database for the tests.
--
-- The only fuel is that of the Runtime's task loop: one round makes one step, so the configured
-- `max_steps` and one more suffice, and the theorem on the whole run shows that they do. The loop of
-- `_execute_tool_attempts` is a recursion on the attempts left.
--
-- Python's `json.dumps`, `hashlib.sha256` and `str` of a number are the parameter `Stdlib`, and
-- pydantic's printing of a model is `Printer` or `Dump`; nothing is assumed of them. `json.loads` with
-- pydantic's reading of a record is the parameter `loads`; the round trip of the journal assumes that
-- a record's text is one line that loads as the record.
--
-- SQLite is the parameter `Sql`, one field for each statement; a statement that fails leaves the
-- database as it was, and disk errors are left out. `RollsBack` says that ROLLBACK undoes what was
-- written since BEGIN, and is assumed where a theorem names it. The comparison of two JSON values and
-- the two patterns for unsafe texts are parameters too.
--
-- The audit records of the Incident and DataOps environments refuse an empty `run_id`: with one, no
-- action can be recorded and every call raises. The models leave such runs out.
--
-- Not modelled: what only reads and writes packaged or produced JSON files (corpora, catalogs,
-- bundles, the command line), and the local model's backend.
pub mod Base
pub mod Schemas
pub mod Machine
pub mod Schedules
pub mod Runtime
pub mod Incident
pub mod Workspace
pub mod DataOps
pub mod Durable
