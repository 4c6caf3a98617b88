-- ===== src/Queue/Executions.antt =====
-- What comes of an execution with a worker.
use xyn_seed.Base.{
  ℕ, String, Option, none, some, ◌≡◌, ◌≢◌, refl, arith, ok, err, nat_eq, string_eq, option_eq,
  Option-cases, Result-cases, ◌⊎◌, inl, inr,
}
use xyn_seed.Base.Dict.{Dict}
use xyn_seed.Base.Json.{Json}
use xyn_seed.Models.{Run, run_status_eq, Db}
use xyn_seed.Runtime.Workers.{Env}
use xyn_seed.Runtime.Session.{find_run}
use xyn_seed.Queue.Runner.{QueueError, run_not_found, blueprint_not_found, emit_event}
use xyn_seed.Queue.Endings.{
  HandlerEnd, FinishEnd, fail_execution-HandlerEnd, finish_execution-FinishEnd, HandlerEnd-raises,
  FinishEnd-raises,
}
use xyn_seed.Queue.Execution.{
  Outcome, returned, raised, Blueprint, StatementDriver, Executed, fail_execution, finish_execution,
  execute_run, settle, run_implementation, with_blueprint, started_fields,
}

-- How an execution by a worker ends, with its result and the session it leaves.
pub data WorkerEnd (driver : StatementDriver) (env env' : Env)
    (get_blueprint : String → Option Blueprint) (v : String) (run_id : ℕ) (db : Db) (x : Executed)
    : Type 0 where
  no_run :
      find_run run_id db ≡ none
      → x ≡ record { result = err run_not_found; session = db }
      → WorkerEnd driver env env' get_blueprint v run_id db x
  no_blueprint :
      (run : Run)
      → find_run run_id db ≡ some run
      → get_blueprint run.name ≡ none
      → x ≡ record { result = err blueprint_not_found; session = db }
      → WorkerEnd driver env env' get_blueprint v run_id db x
  not_started :
      (run : Run) (e : QueueError)
      → find_run run_id db ≡ some run
      → emit_event env (some v) run "run.started" (started_fields run) db ≡ err e
      → HandlerEnd driver env v run e db x
      → WorkerEnd driver env env' get_blueprint v run_id db x
  blueprint_raises :
      (run : Run) (implementation : Blueprint) (started db' : Db) (e : QueueError)
      → find_run run_id db ≡ some run
      → get_blueprint run.name ≡ some implementation
      → emit_event env (some v) run "run.started" (started_fields run) db ≡ ok started
      → implementation run started ≡ raised e db'
      → HandlerEnd driver env' v run e db' x
      → WorkerEnd driver env env' get_blueprint v run_id db x
  blueprint_returns :
      (run : Run) (implementation : Blueprint) (started db' : Db) (outputs : Dict Json)
      → find_run run_id db ≡ some run
      → get_blueprint run.name ≡ some implementation
      → emit_event env (some v) run "run.started" (started_fields run) db ≡ ok started
      → implementation run started ≡ returned outputs db'
      → FinishEnd driver env' v run outputs db' x
      → WorkerEnd driver env env' get_blueprint v run_id db x

Outcome-cases :
    (o : Outcome)
    → ((outputs : Dict Json) × (db : Db) × (o ≡ returned outputs db))
      ⊎ ((e : QueueError) × (db : Db) × (o ≡ raised e db))
Outcome-cases (returned outputs db) = inl (outputs, db, refl)
Outcome-cases (raised e db) = inr (e, db, refl)

execute_run-WorkerEnd :
    (driver : StatementDriver) (env env' : Env) (get_blueprint : String → Option Blueprint)
    (v : String) (run_id : ℕ) (db : Db)
    → v ≢ ""
    → WorkerEnd driver env env' get_blueprint v run_id db
        (execute_run driver env env' get_blueprint (some v) run_id db)
unfolding execute_run with_blueprint run_implementation settle
execute_run-WorkerEnd driver env env' get_blueprint v run_id db named =
    let x = execute_run driver env env' get_blueprint (some v) run_id db in
    let handled : (now : Env) (run : Run) (e : QueueError) (base : Db)
        → x ≡ fail_execution driver now (some v) run e base
        → HandlerEnd driver now v run e base x =
      λ now run e base same. rw same (fail_execution-HandlerEnd driver now v run e base named) in
    let finished : (run : Run) (outputs : Dict Json) (base : Db)
        → x ≡ finish_execution driver env' (some v) run outputs base
        → FinishEnd driver env' v run outputs base x =
      λ run outputs base same.
        rw same (finish_execution-FinishEnd driver env' v run outputs base named) in
    elim (Option-cases (find_run run_id db)) [
      | inl gone ↦ no_run gone (ground (arith, gone))
      | inr (run, found) ↦ elim (Option-cases (get_blueprint run.name)) [
        | inl unknown ↦ no_blueprint run found unknown (ground (arith, found, unknown))
        | inr (implementation, known) ↦
            elim (Result-cases
              (emit_event env (some v) run "run.started" (started_fields run) db)) [
                | inr (e, lost) ↦
                    not_started run e found lost
                      (handled env run e db (ground (arith, found, known, lost)))
                | inl (started, begun) ↦ elim (Outcome-cases (implementation run started)) [
                  | inl (outputs, db', eq) ↦
                      blueprint_returns run implementation started db' outputs found known begun eq
                        (finished run outputs db' (ground (arith, found, known, begun, eq)))
                  | inr (e, db', eq) ↦
                      blueprint_raises run implementation started db' e found known begun eq
                        (handled env' run e db' (ground (arith, found, known, begun, eq)))
                ]
              ]
      ]
    ]

WorkerEnd-raises :
    (driver : StatementDriver) (env env' : Env) (get_blueprint : String → Option Blueprint)
    (v : String) (run_id : ℕ) (db : Db) (x : Executed)
    → WorkerEnd driver env env' get_blueprint v run_id db x
    → (e : QueueError) × (x.result ≡ err e)
WorkerEnd-raises driver env env' get_blueprint v run_id db x (no_run _ eq) =
    (run_not_found, rw eq refl)
WorkerEnd-raises driver env env' get_blueprint v run_id db x (no_blueprint _ _ _ eq) =
    (blueprint_not_found, rw eq refl)
WorkerEnd-raises driver env env' get_blueprint v run_id db x (not_started run e _ _ handled) =
    HandlerEnd-raises driver env v run e db x handled
WorkerEnd-raises driver env env' get_blueprint v run_id db x
      (blueprint_raises run _ _ db' e _ _ _ _ handled) =
    HandlerEnd-raises driver env' v run e db' x handled
WorkerEnd-raises driver env env' get_blueprint v run_id db x
      (blueprint_returns run _ _ db' outputs _ _ _ _ finished) =
    FinishEnd-raises driver env' v run outputs db' x finished

-- An execution by a worker never returns, whatever the driver does with the statements that end a
-- run: without the run or its blueprint it raises and leaves the session; if the event of the start
-- is refused, or the blueprint raises, or the run cannot be completed, the handler raises that
-- exception, unless its own statement raises, or it marks the run as failed, when it raises the
-- exception of a lost lease; and a run that is completed raises that exception too, or the
-- handler's, and stays completed, without the event of the success. The name of the worker is not
-- the empty text.
pub execute_run_by_worker_raises :
    (driver : StatementDriver) (env env' : Env) (get_blueprint : String → Option Blueprint)
    (v : String) (run_id : ℕ) (db : Db)
    → v ≢ ""
    → ((e : QueueError) × ((execute_run driver env env' get_blueprint (some v) run_id db).result
          ≡ err e))
      × WorkerEnd driver env env' get_blueprint v run_id db
          (execute_run driver env env' get_blueprint (some v) run_id db)
execute_run_by_worker_raises driver env env' get_blueprint v run_id db named =
    let ends = execute_run-WorkerEnd driver env env' get_blueprint v run_id db named in
    (
      WorkerEnd-raises driver env env' get_blueprint v run_id db
          (execute_run driver env env' get_blueprint (some v) run_id db) ends,
      ends,
    )
