-- ===== src/Queue/Endings.antt =====
-- How the handler of a failure and the last lines of an execution end, with a worker:
-- core/blueprints/runner.py, `execute_run`.
use xyn_seed.Base.{
  String, true, false, none, some, ◌≡◌, ◌≢◌, refl, arith, ok, err, nat_eq, string_eq, option_eq,
  nat_beq_iff, Option-cases, Bool-cases, ◌⊎◌, inl, inr, eq_iff, or_else, ◌==◌,
}
use xyn_seed.Base.Dict.{Dict}
use xyn_seed.Base.Json.{Json}
use xyn_seed.Models.{Run, RunStatus, run_status_eq, Db}
use xyn_seed.Runtime.Workers.{Env}
use xyn_seed.Runtime.Session.{find_run, put_run}
use xyn_seed.Runtime.Rows.{find_run-put_run, id_of_find_run}
use xyn_seed.Queue.Runner.{QueueError, lost_lease, is_owned, emit_event, may_finish, not_owned_text}
use xyn_seed.Queue.Execution.{
  StatementDriver, Executed, finish_run, mark_failed, completed_row, failed_row, fail_execution,
  finish_execution, not_finished_text,
}

module _ (driver : StatementDriver) (env : Env) (v : String) (run : Run) where
  -- How the handler `except Exception` ends, for an exception and the session as committed: its own
  -- statement raises, or it finds no row that the worker may end, or it marks the run as failed, and
  -- the event of the failure is then refused, since the run does not run any more.
  pub data HandlerEnd (e : QueueError) (db : Db) (x : Executed) : Type 0 where
    handler_raises :
        (e' : QueueError)
        → driver.failure_error e ≡ some e'
        → x ≡ record { result = err e'; session = db }
        → HandlerEnd e db x
    not_marked :
        mark_failed driver env.utcnow (some v) run.id e db ≡ ok none
        → x ≡ record { result = err e; session = db }
        → HandlerEnd e db x
    marked :
        (row : Run)
        → find_run run.id db ≡ some row
        → may_finish env.utcnow (some v) row ≡ true
        → x ≡ record {
          result = err (lost_lease (not_owned_text env (some v) run));
          session = put_run (failed_row env.utcnow e row) db;
        }
        → HandlerEnd e db x

  -- A run that has just been ended is not owned any more: `assert_ownership` wants it running.
  not_owned_after :
      (row row' : Run) (db : Db)
      → v ≢ ""
      → find_run run.id db ≡ some row
      → row'.id ≡ row.id
      → (row'.status == RunStatus.running) ≡ false
      → is_owned env.utcnow (some v) run.id (put_run row' db) ≡ false
  unfolding is_owned
  not_owned_after row row' db named found same ended = ground (
    arith,
    found,
    find_run-put_run row' run.id db,
    id_of_find_run run.id db {q = row} found,
    nat_beq_iff row.id run.id,
    eq_iff v "",
  )

  pub fail_execution-HandlerEnd :
      (e : QueueError) (db : Db)
      → v ≢ ""
      → HandlerEnd e db (fail_execution driver env (some v) run e db)
  unfolding fail_execution mark_failed emit_event
  fail_execution-HandlerEnd e db named = elim (Option-cases (driver.failure_error e)) [
    | inr (e', raises) ↦ handler_raises e' raises (ground (arith, raises))
    | inl sent ↦ elim (Option-cases (find_run run.id db)) [
      | inl gone ↦ not_marked (ground (arith, sent, gone)) (ground (arith, sent, gone))
      | inr (row, found) ↦ elim (Bool-cases (may_finish env.utcnow (some v) row)) [
        | inr lost ↦
            not_marked (ground (arith, sent, found, lost)) (ground (arith, sent, found, lost))
        | inl held ↦
            let failed = failed_row env.utcnow e row in
            marked row found held (
              ground
                (arith, sent, found, held, not_owned_after row failed db named found refl refl))
      ]
    ]
  ]

  -- How an execution ends once the blueprint has returned: the run is completed, and the event of
  -- the success is refused, since the run does not run any more; or the run is not completed.
  pub data FinishEnd (outputs : Dict Json) (db : Db) (x : Executed) : Type 0 where
    completed :
        (row : Run) (e : QueueError)
        → find_run run.id db ≡ some row
        → may_finish env.utcnow (some v) row ≡ true
        → e ≡ lost_lease (not_owned_text env (some v) run)
        → x ≡ record {
          result = err (or_else (driver.failure_error e) e);
          session = put_run (completed_row env.utcnow outputs row) db;
        }
        → FinishEnd outputs db x
    not_completed :
        (e : QueueError)
        → (finish_run driver env.utcnow (some v) run.id outputs db ≡ err e)
          ⊎ ((finish_run driver env.utcnow (some v) run.id outputs db ≡ ok none)
              × (e ≡ lost_lease (not_finished_text env run)))
        → HandlerEnd e db x
        → FinishEnd outputs db x

  -- The handler after the run has been completed: there is no running run to mark.
  fail_execution-completed :
      (outputs : Dict Json) (row : Run) (e : QueueError) (db : Db)
      → find_run run.id db ≡ some row
      → fail_execution driver env (some v) run e (put_run (completed_row env.utcnow outputs row) db)
        ≡ record {
          result = err (or_else (driver.failure_error e) e);
          session = put_run (completed_row env.utcnow outputs row) db;
        }
  unfolding fail_execution mark_failed may_finish
  fail_execution-completed outputs row e db found = ground (
    arith,
    found,
    find_run-put_run (completed_row env.utcnow outputs row) run.id db,
    id_of_find_run run.id db {q = row} found,
    nat_beq_iff row.id run.id,
    Option-cases (driver.failure_error e),
  )

  pub finish_execution-FinishEnd :
      (outputs : Dict Json) (db : Db)
      → v ≢ ""
      → FinishEnd outputs db (finish_execution driver env (some v) run outputs db)
  unfolding finish_execution finish_run emit_event
  finish_execution-FinishEnd outputs db named =
      let lost = lost_lease (not_finished_text env run) in
      let x = finish_execution driver env (some v) run outputs db in
      let moved : (e : QueueError)
          → x ≡ fail_execution driver env (some v) run e db
          → HandlerEnd e db x =
        λ e same. rw same (fail_execution-HandlerEnd e db named) in
      elim (Option-cases (driver.completion_error outputs)) [
        | inr (e, raises) ↦
            not_completed e (inl (ground (arith, raises))) (moved e (ground (arith, raises)))
        | inl sent ↦ elim (Option-cases (find_run run.id db)) [
          | inl gone ↦
              not_completed lost (inr (ground (arith, sent, gone), refl))
                (moved lost (ground (arith, sent, gone)))
          | inr (row, found) ↦ elim (Bool-cases (may_finish env.utcnow (some v) row)) [
            | inr other ↦
                not_completed lost (inr (ground (arith, sent, found, other), refl))
                  (moved lost (ground (arith, sent, found, other)))
            | inl held ↦
                let e = lost_lease (not_owned_text env (some v) run) in
                let done = completed_row env.utcnow outputs row in
                completed row e found held refl (
                  ground (
                    arith,
                    sent,
                    found,
                    held,
                    not_owned_after row done db named found refl refl,
                    fail_execution-completed outputs row e db found,
                  ))
          ]
        ]
      ]

pub HandlerEnd-raises :
    (driver : StatementDriver) (env : Env) (v : String) (run : Run) (e : QueueError) (db : Db)
    (x : Executed)
    → HandlerEnd driver env v run e db x
    → (e' : QueueError) × (x.result ≡ err e')
HandlerEnd-raises driver env v run e db x (handler_raises e' _ eq) = (e', rw eq refl)
HandlerEnd-raises driver env v run e db x (not_marked _ eq) = (e, rw eq refl)
HandlerEnd-raises driver env v run e db x (marked row _ _ eq) =
    (lost_lease (not_owned_text env (some v) run), rw eq refl)

pub FinishEnd-raises :
    (driver : StatementDriver) (env : Env) (v : String) (run : Run) (outputs : Dict Json) (db : Db)
    (x : Executed)
    → FinishEnd driver env v run outputs db x
    → (e : QueueError) × (x.result ≡ err e)
FinishEnd-raises driver env v run outputs db x (completed row e _ _ _ eq) =
    (or_else (driver.failure_error e) e, rw eq refl)
FinishEnd-raises driver env v run outputs db x (not_completed e _ handled) =
    HandlerEnd-raises driver env v run e db x handled
