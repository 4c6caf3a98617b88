-- ===== src/Lib.antt =====
-- Xyn Seed runs blueprints and agent work as runs in a database. The program is a FastAPI service
-- with two kinds of workers; this library models the parts that decide who works on what, in which
-- state a run is, and who may ask for it.
--
-- The parts, and the files that model them:
--   * Models: the rows of core/models.py that these parts use, and the payloads of
--     core/runtime_contract.py. `Db` is a session: its tables, and the UUID that comes next.
--   * Runtime: core/runtime_execution.py, core/runtime_workers.py, core/runtime_events.py and the
--     handlers of core/api/runs.py that change a run. Status has the transition tables; Workers
--     the registry and the health of workers; Events the run context; Session the queries; Runs,
--     Controls, Dispatch, Heartbeats, Steps and Api one function for each function of the code,
--     with the same name. A function of the code that raises is one into `Result Error`.
--   * Queue: core/worker.py (`claim_run`, `renew_lease`); for core/blueprints/runner.py Queue/Runner
--     (`enqueue_run`, `assert_ownership`, `emit_event`), Queue/Execution (`execute_run`),
--     Queue/StepBlocks (`step`), Queue/Children (`spawn_run`) and Queue/Waiting (`wait_runs`, on
--     the list of its turns).
--     An SQL statement is a function of the session and of `NOW()`. The unique indexes on the edges
--     and on the steps are those of scripts/migrations/003_add_run_edges_for_dag.sql and
--     scripts/migrations/005_steps_run_idx_constraints.sql.
--   * Lifecycle: core/lifecycle/definitions.py and core/lifecycle/service.py.
--   * Access: core/access_control.py.
--   * Desk, Drafts, Jobs: the tables of core/models.py that core/api/drafts.py, core/api/jobs.py and
--     the worker of core/app_jobs.py share, core/workspaces.py, and the handlers and the worker.
--     What the handler of a kind of job does is an argument.
--   * Codex: of core/codex_local_worker.py the reports of a step and the ends of a run that fails or
--     is blocked, with `capture_run_artifact` of core/runtime_execution.py.
--   * Transitions: `_allowed_transition_path` of core/app_jobs.py; the fuel is one more than the
--     number of candidates, and Transitions/Paths proves that it is enough.
--   * Environment: core/env_config.py. Environment has `_env` and the `.env` file, Providers the
--     AI providers and the roles, Config `load_seed_config` in its parts, Export
--     `export_runtime_env`. A loader hands on the environment of the process also where it raises.
--   * Releases: core/releases/compiler.py, and in Releases/Plans the actions of a plan
--     (core/api/releases.py, `_diff_actions`), on items of any type with an equality. A component
--     without a health check and one whose health check is empty are the same, as the code treats
--     them.
--   * Locks: `hash_lock_key` of core/advisory_locks.py.
--   * Base: the helpers that the parts share, with Python's `strip`, `lower` and `dict`.
--   * Scenarios: concrete sessions and requests, on which the theorems are applied.
--
-- How they interact: the dispatcher gives a queued run to an idle worker, the worker sends
-- heartbeats and reports the end, and the sweep takes a run from a worker that is silent. The
-- column `active_run_id` of a worker and the columns `status` and `locked_by` of a run say the same
-- thing twice; Runtime/Assignment states that they agree. Runtime/Moves is the relation whose steps
-- are the committed transactions of all these operations, in any order and at any times;
-- Runtime/Moves/Safety and Finality reason about every sequence of them. A failure or a block that a
-- Codex worker reports of a run that it works on is one of the steps. Not among the steps are: the
-- cancellation through the API, which leaves the worker occupied (Runtime/Moves/Cancelling; Finality
-- allows it between the steps); an end that a worker reports of a run that it does not work on any
-- more, which takes the run from another worker (Codex/Ends); and the claims and ends of the queue
-- of core/worker.py, which shares the table of runs with the runtime, and takes a running run whose
-- lease has expired. The workers of the queue hold a run by a lease (Queue/Leases).
--
-- How the code is read:
--   * A `datetime` is a number of seconds, a UUID is a number, and `uuid4()` gives the number that
--     the session has next. The clock is read once in an operation: `Env.utcnow`.
--   * A column that is not nullable is not an `Option`; priorities are not negative.
--   * The JSON column `execution_policy` is a record of the keys that the code reads and writes.
--     `prompt_payload` is `none` where it does not validate.
--   * An exception drops the changes of its transaction, except in Queue/Execution, Queue/Children
--     and Queue/StepBlocks, where the code itself commits in between.
--   * Texts are ordered by code points. `lower` changes the capitals of ASCII only. A text that is
--     empty is false, as in Python, wherever the code tests it.
--   * `int` reads the digits of ASCII, with a sign and single underscores; `.env` is the list of its
--     lines. The three keys of the configuration, and the three values of a role, are a record each.
--   * The threshold of a sweep is `now - stale_after` on numbers that stop at 0: no heartbeat is
--     before the epoch.
--   * A loop is a recursion on the list of rows that the query returned, so no fuel is needed,
--     except in Transitions. The creation of a step has the three attempts of the code, and a wait
--     runs on a list of turns, for it ends only when other workers end the runs.
--
-- Parameters: the store of the bytes of an artifact; whether the Codex CLI is available and how
-- `str` writes a UUID (`Env`); the blueprint that is executed and the statements of a step; the
-- exceptions that SQLAlchemy and the driver of the database raise for the two raw statements that end
-- a run (`StatementDriver` of Queue/Execution); what other transactions commit between two statements, and which rows they have locked; how `uuid.UUID`
-- reads a text and the variable `XYN_AUTH_MODE` (`AccessEnv`); the registry of lifecycles; SHA-256.
--
-- Not modelled: the artifact store and the snapshots of a run (file system); the run of the Codex
-- CLI and its five steps; the event loops and signal handlers; serialisation of responses and list
-- queries; the handlers of the jobs, the palette, the store and the reconciler of releases,
-- provisioning, packs and migrations.
--
pub mod Base
pub mod Models
pub mod Runtime
pub mod Lifecycle
pub mod Queue
pub mod Access
pub mod Releases
pub mod Locks
pub mod Desk
pub mod Drafts
pub mod Jobs
pub mod Transitions
pub mod Environment
pub mod Codex
pub mod Scenarios
