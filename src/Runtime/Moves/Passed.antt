-- ===== src/Runtime/Moves/Passed.antt =====
-- What the dispatcher and the sweep do to a run that is completed or cancelled.
use xyn_seed.Base.{ℕ, true, Option, none, some, List, [], ◌≡◌, arith, ok, nat_eq, nat_beq_iff}
use xyn_seed.Models.{Run, RunStatus, run_status_eq, run_status_beq_iff, RuntimeWorker, Db}
use xyn_seed.Runtime.Status.{no_reasons, enter_run_status, run_status_transitions}
use xyn_seed.Runtime.Workers.{Env, mark_worker_busy, occupied}
use xyn_seed.Runtime.Session.{find_run, put_run}
use xyn_seed.Runtime.Rows.{run_ids, find_run-put_run, find_run-publish, find_run-update_worker}
use xyn_seed.Base.Members.{Distinct}
use xyn_seed.Runtime.Dispatch.{is_dispatchable, dispatch_queued_run, started_event}
use xyn_seed.Runtime.Dispatch.Selection.{started_run, started_db}
use xyn_seed.Runtime.Dispatch.Choice.{dispatch_queued_run-StartsFirst, dispatch_none_available}
use xyn_seed.Runtime.Heartbeats.{handle_stale_heartbeats, is_stale}
use xyn_seed.Runtime.Heartbeats.Sweep.{handle_stale_heartbeats-Sweeps}

module _ (r : ℕ) (q : Run) (db db' : Db) (found : find_run r db ≡ some q) where
  pub kept_by_start :
      (env : Env) (current timeout : ℕ) (p : Run) (w : RuntimeWorker)
      → run_status_transitions q.status ≡ []
      → find_run p.id db ≡ some p
      → is_dispatchable p ≡ true
      → find_run r (started_db env current timeout db p w) ≡ some q
  unfolding enter_run_status is_dispatchable mark_worker_busy
  kept_by_start env current timeout p w final there waiting =
      let p' = started_run env current timeout w.worker_id p in
      let entered = enter_run_status env.utcnow RunStatus.running no_reasons p in
      let written = put_run p' (put_run entered db) in
      ground (
        arith,
        find_run-publish env.utcnow (started_event p' w.worker_id) r
            (mark_worker_busy env w.worker_id p'.id written).1,
        find_run-update_worker (occupied env p'.id) w.worker_id r written,
        find_run-put_run p' r (put_run entered db),
        find_run-put_run entered r db,
        nat_beq_iff p.id r,
        run_status_beq_iff p.status RunStatus.queued,
      )

  pub kept_by_dispatch :
      (env : Env) (current timeout : ℕ) (started : Option Run)
      → Distinct (run_ids db)
      → run_status_transitions q.status ≡ []
      → dispatch_queued_run env current timeout db ≡ ok (started, db')
      → find_run r db' ≡ some q
  kept_by_dispatch env current timeout none d final h =
      rw (dispatch_none_available env current timeout db db' h).0 found
  kept_by_dispatch env current timeout (some q') d final h =
      let (p, w, there, waiting, _, _, session, _) =
        dispatch_queued_run-StartsFirst env current timeout db db' q' d h in
      rw session (kept_by_start env current timeout p w final there waiting)

  pub kept_by_sweep :
      (env : Env) (current stale_after : ℕ) (updated : List Run)
      → Distinct (run_ids db)
      → run_status_transitions q.status ≡ []
      → handle_stale_heartbeats env current stale_after db ≡ ok (updated, db')
      → find_run r db' ≡ some q
  unfolding is_stale
  kept_by_sweep env current stale_after updated d final h =
      let (_, swept, runs, at) = handle_stale_heartbeats-Sweeps env current stale_after db d in
      ground (arith, at r)
