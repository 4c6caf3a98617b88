-- ===== src/Runtime/Outcomes.antt =====
-- The operations of Runs, Controls and Dispatch on every branch: the exception, or the new row and the
-- writes that go with it.
use xyn_seed.Base.{
  ℕ, String, Option, none, some, ◌==◌, ◌≡◌, arith, if◌then◌else◌, ok, err, nat_eq, string_eq,
}
use xyn_seed.Models.{Run, RunStatus, run_status_eq, RuntimeWorker, Db}
use xyn_seed.Runtime.Status.{
  invalid_run_transition, no_result_found, Reasons, no_reasons, enter_run_status,
  transition_run_status, elem_run_status, run_status_transitions,
}
use xyn_seed.Runtime.Events.{publish_runtime_event}
use xyn_seed.Runtime.Workers.{Env, mark_worker_busy}
use xyn_seed.Runtime.Session.{
  find_run, one_run, put_run, save_run, change_run_status, publish, released, release_worker,
  busy_worker,
}
use xyn_seed.Runtime.Controls.{
  request_pause_run, pausing, paused_event, pause_reasons, pause_noted, continue_blocked_run,
  continuing, continue_reasons, requeued,
}
use xyn_seed.Runtime.Dispatch.{assign_run, assigned, started_event}
use xyn_seed.Runtime.Heartbeats.{expire_run, stale_result, timeout_event, review_event}
use xyn_seed.Runtime.Runs.{complete_run, completed_event, fail_run, failure_status, failure_event}

-- `complete_run` raises unless the run exists and is running.
pub complete_run-eq :
    (env : Env) (run_id : ℕ) (summary : Option String) (db : Db)
    → complete_run env run_id summary db ≡ elim (find_run run_id db) [
      | none ↦ err no_result_found
      | some q ↦
          if q.status == RunStatus.running
          then (let q' =
                enter_run_status env.utcnow RunStatus.completed
                  (record no_reasons { summary = summary })
                  q in
              ok (
                q',
                publish_runtime_event env.utcnow
                    (completed_event q' summary)
                    (released env q.locked_by (put_run q' db)),
              ))
          else err (invalid_run_transition q.status RunStatus.completed)
    ]
unfolding complete_run one_run change_run_status transition_run_status save_run release_worker
    publish enter_run_status
complete_run-eq env run_id summary db = ground arith

-- `fail_run` raises unless the run exists and may go to `failed`, or to `blocked` where a reason to
-- escalate is given.
pub fail_run-eq :
    (env : Env) (run_id : ℕ) (r : Reasons) (db : Db)
    → fail_run env run_id r db ≡ elim (find_run run_id db) [
      | none ↦ err no_result_found
      | some q ↦
          let next = failure_status r.escalation_reason in
          if elem_run_status next (run_status_transitions q.status)
          then (let q' = enter_run_status env.utcnow next r q in
              ok (
                q',
                publish_runtime_event env.utcnow
                    (failure_event q' r)
                    (released env q.locked_by (put_run q' db)),
              ))
          else err (invalid_run_transition q.status next)
    ]
unfolding fail_run one_run change_run_status transition_run_status save_run release_worker publish
    enter_run_status
fail_run-eq env run_id r db = ground arith

-- A pause blocks a queued run at once; on any other run it leaves a note.
pub request_pause_run-eq :
    (env : Env) (run_id : ℕ) (actor : String) (db : Db)
    → request_pause_run env run_id actor db ≡ elim (find_run run_id db) [
      | none ↦ err no_result_found
      | some q ↦
          let asked = pausing env actor q in
          if q.status == RunStatus.queued
          then (let q' = enter_run_status env.utcnow RunStatus.blocked pause_reasons asked in
              ok (q', publish_runtime_event env.utcnow (paused_event actor q') (put_run q' db)))
          else ok (pause_noted asked, put_run (pause_noted asked) db)
    ]
unfolding request_pause_run one_run change_run_status transition_run_status save_run publish pausing
    enter_run_status
request_pause_run-eq env run_id actor db = ground arith

-- The row that a continuation writes first.
abbrev pub resumed : Env → String → Run → Run
resumed env actor q =
    enter_run_status env.utcnow RunStatus.queued continue_reasons (continuing actor q)

-- `continue_blocked_run` raises unless the run exists and may be queued again.
pub continue_blocked_run-eq :
    (env : Env) (run_id : ℕ) (actor : String) (db : Db)
    → continue_blocked_run env run_id actor db ≡ elim (find_run run_id db) [
      | none ↦ err no_result_found
      | some q ↦
          if elem_run_status RunStatus.queued (run_status_transitions q.status)
          then (let q' = resumed env actor q in
              ok (requeued env q', put_run (requeued env q') (put_run q' db)))
          else err (invalid_run_transition q.status RunStatus.queued)
    ]
unfolding continue_blocked_run one_run change_run_status transition_run_status save_run continuing
    enter_run_status
continue_blocked_run-eq env run_id actor db = ground arith

-- A queued run is started.
pub assign_run-eq :
    (env : Env) (current timeout : ℕ) (q : Run) (w : RuntimeWorker) (db : Db)
    → q.status ≡ RunStatus.queued
    → let started = enter_run_status env.utcnow RunStatus.running no_reasons q in
      let q' = assigned current timeout w.worker_id started in
      assign_run env current timeout q w db
      ≡ ok (
        q',
        publish_runtime_event env.utcnow
            (started_event q' w.worker_id)
            (mark_worker_busy env w.worker_id q'.id (put_run q' (put_run started db))).1,
      )
unfolding assign_run change_run_status transition_run_status save_run busy_worker publish
assign_run-eq env current timeout q w db h = ground arith

-- A run whose heartbeat is stale: the note, the release of its worker, and its new row.
abbrev pub expired_db : Env → ℕ → Run → Db → Db
expired_db env current q db = put_run (stale_result current q) (
    released env q.locked_by (
      publish_runtime_event env.utcnow (timeout_event q)
        (put_run (record q { failure_reason = some "worker_unresponsive" }) db)))

pub expire_run-eq :
    (env : Env) (current : ℕ) (q : Run) (db : Db)
    → expire_run env current q db
      ≡ ok (
        stale_result current q,
        if (stale_result current q).status == RunStatus.blocked
            then publish_runtime_event env.utcnow
                (review_event (stale_result current q))
                (expired_db env current q db)
            else expired_db env current q db,
      )
unfolding expire_run save_run release_worker publish
expire_run-eq env current q db = ground arith
