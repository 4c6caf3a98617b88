-- ===== src/Runtime/Identities.antt =====
-- No operation but a submission changes the ids of the runs.
use xyn_seed.Base.{
  ℕ, String, Option, none, some, List, [], ◌∷◌, ◌≡◌, arith, ok, inl, inr, select, ◌==◌, Bool-cases,
}
use xyn_seed.Base.Members.{Distinct}
use xyn_seed.Models.{Run, RunStatus, run_status_eq, RuntimeWorker, Db}
use xyn_seed.Runtime.Status.{Reasons, no_reasons, enter_run_status}
use xyn_seed.Runtime.Events.{NewEvent, publish_runtime_event}
use xyn_seed.Runtime.Workers.{Env, mark_worker_busy, occupied}
use xyn_seed.Runtime.Session.{put_run, released}
use xyn_seed.Runtime.Rows.{
  run_ids, run_ids-put_run, run_ids-publish, run_ids-released, run_ids-update_worker,
}
use xyn_seed.Runtime.Runs.{complete_run, completed_event, fail_run, failure_event}
use xyn_seed.Runtime.Controls.{request_pause_run, paused_event}
use xyn_seed.Runtime.Api.{continue_runtime_run}
use xyn_seed.Runtime.Outcomes.{resumed, expired_db}
use xyn_seed.Runtime.Consistency.{
  complete_run_inv, fail_run_inv, request_pause_run_inv, continue_runtime_run_inv,
}
use xyn_seed.Runtime.Dispatch.{dispatch_queued_run, started_event}
use xyn_seed.Runtime.Dispatch.Selection.{started_run, started_db}
use xyn_seed.Runtime.Dispatch.Choice.{dispatch_queued_run-StartsFirst, dispatch_none_available}
use xyn_seed.Runtime.Heartbeats.{
  stale_result, timeout_event, review_event, expire_runs, handle_stale_heartbeats, is_stale,
}
use xyn_seed.Runtime.Heartbeats.Sweep.{swept_db}
use xyn_seed.Runtime.Loops.{expire_runs_cons}

-- The session after an operation that ends a run.
run_ids_of_end :
    (env : Env) (v : Option String) (q' : Run) (e : NewEvent) (db : Db)
    → run_ids (publish_runtime_event env.utcnow e (released env v (put_run q' db))) ≡ run_ids db
run_ids_of_end env v q' e db = rw (
  run_ids-publish env.utcnow e (released env v (put_run q' db)),
  run_ids-released env v (put_run q' db),
  run_ids-put_run q' db,
)

pub run_ids-complete_run :
    (env : Env) (run_id : ℕ) (summary : Option String) (db db' : Db) (q' : Run)
    → complete_run env run_id summary db ≡ ok (q', db')
    → run_ids db' ≡ run_ids db
run_ids-complete_run env run_id summary db db' q' h =
    let (q, _, _, eq) = complete_run_inv env run_id summary db db' q' h in
    rw eq (run_ids_of_end env q.locked_by q' (completed_event q' summary) db)

pub run_ids-fail_run :
    (env : Env) (run_id : ℕ) (r : Reasons) (db db' : Db) (q' : Run)
    → fail_run env run_id r db ≡ ok (q', db')
    → run_ids db' ≡ run_ids db
run_ids-fail_run env run_id r db db' q' h =
    let (q, _, _, eq) = fail_run_inv env run_id r db db' q' h in
    rw eq (run_ids_of_end env q.locked_by q' (failure_event q' r) db)

pub run_ids-request_pause_run :
    (env : Env) (run_id : ℕ) (actor : String) (db db' : Db) (q' : Run)
    → request_pause_run env run_id actor db ≡ ok (q', db')
    → run_ids db' ≡ run_ids db
run_ids-request_pause_run env run_id actor db db' q' h =
    let (q, _, _, ends) = request_pause_run_inv env run_id actor db db' q' h in
    elim ends [
      | inl (_, eq) ↦ rw (
        eq,
        run_ids-publish env.utcnow (paused_event actor q') (put_run q' db),
        run_ids-put_run q' db,
      )
      | inr (_, _, eq) ↦ rw (eq, run_ids-put_run q' db)
    ]

pub run_ids-continue_runtime_run :
    (env : Env) (run_id : ℕ) (db db' : Db) (q' : Run)
    → continue_runtime_run env run_id db ≡ ok (q', db')
    → run_ids db' ≡ run_ids db
run_ids-continue_runtime_run env run_id db db' q' h =
    let (q, _, _, _, eq) = continue_runtime_run_inv env run_id db db' q' h in
    rw (
      eq,
      run_ids-put_run q' (put_run (resumed env "api" q) db),
      run_ids-put_run (resumed env "api" q) db,
    )

module _ (env : Env) (current timeout : ℕ) (db : Db) where
  run_ids-started_db :
      (q : Run) (w : RuntimeWorker) → run_ids (started_db env current timeout db q w) ≡ run_ids db
  unfolding mark_worker_busy
  run_ids-started_db q w =
      let q' = started_run env current timeout w.worker_id q in
      let started = enter_run_status env.utcnow RunStatus.running no_reasons q in
      let written = put_run q' (put_run started db) in
      rw (
        run_ids-publish env.utcnow (started_event q' w.worker_id)
            (mark_worker_busy env w.worker_id q'.id written).1,
        run_ids-update_worker (occupied env q'.id) w.worker_id written,
        run_ids-put_run q' (put_run started db),
        run_ids-put_run started db,
      )

  pub run_ids-dispatch_queued_run :
      (db' : Db) (found : Option Run)
      → Distinct (run_ids db)
      → dispatch_queued_run env current timeout db ≡ ok (found, db')
      → run_ids db' ≡ run_ids db
  run_ids-dispatch_queued_run db' none d h =
      rw (dispatch_none_available env current timeout db db' h).0
  run_ids-dispatch_queued_run db' (some q') d h =
      let (q, w, _, _, _, _, session, _) =
        dispatch_queued_run-StartsFirst env current timeout db db' q' d h in
      rw session (run_ids-started_db q w)

module _ (env : Env) (current : ℕ) where
  run_ids-expired_db : (q : Run) (db : Db) → run_ids (expired_db env current q db) ≡ run_ids db
  run_ids-expired_db q db =
      let noted = record q { failure_reason = some "worker_unresponsive" } in
      let told = publish_runtime_event env.utcnow (timeout_event q) (put_run noted db) in
      rw (
        run_ids-put_run (stale_result current q) (released env q.locked_by told),
        run_ids-released env q.locked_by told,
        run_ids-publish env.utcnow (timeout_event q) (put_run noted db),
        run_ids-put_run noted db,
      )

  run_ids-swept_db : (q : Run) (db : Db) → run_ids (swept_db env current q db) ≡ run_ids db
  run_ids-swept_db q db = elim (Bool-cases ((stale_result current q).status == RunStatus.blocked)) [
    | inl t ↦
        let e = review_event (stale_result current q) in
        rw (t, run_ids-publish env.utcnow e (expired_db env current q db)) (run_ids-expired_db q db)
    | inr t ↦ rw t (run_ids-expired_db q db)
  ]

  run_ids-expire_runs :
      (qs : List Run) (db db' : Db) (updated : List Run)
      → expire_runs env current qs db ≡ ok (updated, db')
      → run_ids db' ≡ run_ids db
  unfolding expire_runs
  run_ids-expire_runs [] db db' updated h = ground arith
  run_ids-expire_runs (q ∷ rest) db db' updated h =
      let (later, runs) = expire_runs_cons env current q rest db db' updated h in
      rw (run_ids-expire_runs rest (swept_db env current q db) db' later runs)
        (run_ids-swept_db q db)

  pub run_ids-handle_stale_heartbeats :
      (stale_after : ℕ) (db db' : Db) (updated : List Run)
      → handle_stale_heartbeats env current stale_after db ≡ ok (updated, db')
      → run_ids db' ≡ run_ids db
  unfolding handle_stale_heartbeats
  run_ids-handle_stale_heartbeats stale_after db db' updated h =
      run_ids-expire_runs (select (is_stale current stale_after) db.runs) db db' updated h
