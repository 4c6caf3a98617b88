-- ===== src/Queue/Execution.antt =====
-- core/blueprints/runner.py: `execute_run`. A statement that raises leaves the session as it was
-- last committed.
use xyn_seed.Base.{
  ◌<>◌, ℕ, String, Option, none, some, [], ◌∷◌, nat_eq, string_eq, option_eq, if◌then◌else◌,
  or_else, Result, ok, err,
}
use xyn_seed.Base.Dict.{Dict}
use xyn_seed.Base.Json.{Json, text, uuid, object_of}
use xyn_seed.Models.{Run, RunStatus, run_status_eq, Db}
use xyn_seed.Runtime.Workers.{Env}
use xyn_seed.Runtime.Session.{find_run, put_run}
use xyn_seed.Queue.Runner.{
  QueueError, lost_lease, run_not_found, blueprint_not_found, blueprint_failed, statement_failed,
  may_finish, emit_event,
}

abbrev pub started_fields : Run → Dict Json
started_fields run =
    ("run_id", uuid run.id)
    ∷ ("blueprint_ref", text run.name)
    ∷ ("inputs", object_of run.inputs)
    ∷ []

abbrev pub completed_fields : Run → Dict Json → Dict Json
completed_fields run outputs = ("run_id", uuid run.id) ∷ ("outputs", object_of outputs) ∷ []

-- A blueprint: it returns, or raises, and leaves a session that is committed.
pub data Outcome : Type 0 where
  returned : Dict Json → Db → Outcome
  raised : QueueError → Db → Outcome

abbrev pub Blueprint : Type 0
Blueprint = Run → Db → Outcome

abbrev pub completed_row : ℕ → Dict Json → Run → Run
completed_row now outputs run = record run {
  status = RunStatus.completed;
  completed_at = some now;
  outputs = some outputs;
}

-- `str(e)` and `type(e).__name__`; the two exceptions before the `try` are not written to a row.
abbrev pub error_text : QueueError → String
error_text (lost_lease message) = message
error_text run_not_found = "Run not found"
error_text blueprint_not_found = "Blueprint not found"
error_text (blueprint_failed kind message) = message
error_text (statement_failed kind message) = message

abbrev pub error_type : QueueError → String
error_type (lost_lease message) = "LostLeaseError"
error_type run_not_found = "ValueError"
error_type blueprint_not_found = "ValueError"
error_type (blueprint_failed kind message) = kind
error_type (statement_failed kind message) = kind

abbrev pub failed_row : ℕ → QueueError → Run → Run
failed_row now e run = record run {
  status = RunStatus.failed;
  completed_at = some now;
  error = some (("message", text (error_text e)) ∷ ("type", text (error_type e)) ∷ []);
}

-- What a call leaves: its result or its exception, and the session. The event of a success is
-- flushed, and is committed by the caller.
pub record Executed : Type 0 where
  pub result : Result QueueError Run
  pub session : Db

unfoldable pub announce_failure : Env → Option String → Run → QueueError → Db → Executed
announce_failure env worker_id run e db =
    elim (emit_event env worker_id run "run.failed"
      (("run_id", uuid run.id) ∷ ("error", text (error_text e)) ∷ []) db) [
        | ok db' ↦ record { result = err e; session = db' }
        | err lost ↦ record { result = err lost; session = db }
      ]

-- `f"Lost ownership when marking run {run.id} as completed"`.
unfoldable pub not_finished_text : Env → Run → String
not_finished_text env run =
    "Lost ownership when marking run " <> env.uuid_text run.id <> " as completed"

-- What SQLAlchemy and the driver of the database do with the two raw statements that end a run: the
-- exception that they raise in place of sending it, if they raise one. They are not part of the
-- repository. The first is given the outputs as they are bound, a dict; the second is written with
-- `:error::jsonb`.
pub record StatementDriver : Type 0 where
  pub completion_error : Dict Json → Option QueueError
  pub failure_error : QueueError → Option QueueError

module _ (driver : StatementDriver) where
  -- The `UPDATE` of a success; `none` where it finds no row.
  unfoldable pub finish_run : ℕ → Option String → ℕ → Dict Json → Db → Result QueueError (Option Db)
  finish_run now worker_id run_id outputs db = elim (driver.completion_error outputs) [
    | some e ↦ err e
    | none ↦ elim (find_run run_id db) [
      | none ↦ ok none
      | some run ↦
          if may_finish now worker_id run
          then ok (some (put_run (completed_row now outputs run) db))
          else ok none
    ]
  ]

  -- The `UPDATE` of a failure.
  unfoldable pub mark_failed :
      ℕ → Option String → ℕ → QueueError → Db → Result QueueError (Option Db)
  mark_failed now worker_id run_id e db = elim (driver.failure_error e) [
    | some e' ↦ err e'
    | none ↦ elim (find_run run_id db) [
      | none ↦ ok none
      | some run ↦
          if may_finish now worker_id run
          then ok (some (put_run (failed_row now e run) db))
          else ok none
    ]
  ]

  -- The handler `except Exception`, on the session as it was last committed. An exception of its
  -- statement takes the place of the one it handles.
  unfoldable pub fail_execution : Env → Option String → Run → QueueError → Db → Executed
  unfolding announce_failure
  fail_execution env worker_id run e db = elim (mark_failed env.utcnow worker_id run.id e db) [
    | err e' ↦ record { result = err e'; session = db }
    | ok none ↦ record { result = err e; session = db }
    | ok (some db') ↦ announce_failure env worker_id run e db'
  ]

  -- The last lines of the `try`: an exception that is raised after the update goes to the handler,
  -- too.
  unfoldable pub announce_success : Env → Option String → Run → Dict Json → Run → Db → Executed
  announce_success env worker_id run outputs row db =
      elim (emit_event env worker_id run "run.completed" (completed_fields run outputs) db) [
        | ok db' ↦ record { result = ok row; session = db' }
        | err lost ↦ fail_execution env worker_id run lost db
      ]

  unfoldable pub finish_execution : Env → Option String → Run → Dict Json → Db → Executed
  unfolding announce_success
  finish_execution env worker_id run outputs db =
      elim (finish_run env.utcnow worker_id run.id outputs db) [
        | err e ↦ fail_execution env worker_id run e db
        | ok none ↦ fail_execution env worker_id run (lost_lease (not_finished_text env run)) db
        | ok (some db') ↦
            announce_success env worker_id run outputs (or_else (find_run run.id db') run) db'
      ]

  unfoldable pub settle : Env → Option String → Run → Outcome → Executed
  settle env worker_id run (returned outputs db) = finish_execution env worker_id run outputs db
  settle env worker_id run (raised e db) = fail_execution env worker_id run e db

  unfoldable pub run_implementation : Env → Env → Option String → Run → Blueprint → Db → Executed
  run_implementation env env' worker_id run implementation db =
      elim (emit_event env worker_id run "run.started" (started_fields run) db) [
        | err lost ↦ fail_execution env worker_id run lost db
        | ok db' ↦ settle env' worker_id run (implementation run db')
      ]

  unfoldable pub with_blueprint : Env → Env → Option String → Run → Option Blueprint → Db → Executed
  with_blueprint env env' worker_id run none db = record {
    result = err blueprint_not_found;
    session = db;
  }
  with_blueprint env env' worker_id run (some implementation) db =
      run_implementation env env' worker_id run implementation db

  -- The blueprint starts in one environment and has ended in the next one.
  unfoldable pub execute_run :
      Env → Env → (String → Option Blueprint) → Option String → ℕ → Db → Executed
  unfolding with_blueprint run_implementation settle
  execute_run env env' get_blueprint worker_id run_id db = elim (find_run run_id db) [
    | none ↦ record { result = err run_not_found; session = db }
    | some run ↦ with_blueprint env env' worker_id run (get_blueprint run.name) db
  ]
