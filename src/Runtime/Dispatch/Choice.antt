-- ===== src/Runtime/Dispatch/Choice.antt =====
-- What a caller of `dispatch_queued_run` may rely on.
use mathlib.Core.List.{map}
use xyn_seed.Base.{ℕ, true, none, some, ◌≡◌, ◌≢◌, ok, All, select, nat_eq}
use xyn_seed.Base.Members.{
  Distinct, All-sort, All-select, All-of_sort, All-of_select, All-both, All-select_self, lookup-All,
}
use xyn_seed.Base.Sorted.{sort-Sorted}
use xyn_seed.Models.{Run, RuntimeWorker, Db}
use xyn_seed.Runtime.Workers.{Env}
use xyn_seed.Runtime.Session.{find_run, run_key}
use xyn_seed.Runtime.Dispatch.{is_dispatchable, run_precedes, queued_runs, dispatch_queued_run}
use xyn_seed.Runtime.Dispatch.Queue.{run_precedes-IsOrder}
use xyn_seed.Runtime.Dispatch.Selection.{
  available_worker, started_run, started_db, dispatch_loop_starts, dispatch_loop-none,
  queued_dispatchable,
}

module _ (env : Env) (current timeout : ℕ) (db db' : Db) where
  -- What a start of a run says: the run was queued, its worker was available, the row and the
  -- session are those of the start, and no run that could have been started precedes it.
  abbrev pub StartsFirst : Run → Type 0
  StartsFirst q' =
      (q : Run) × (w : RuntimeWorker) × (find_run q.id db ≡ some q)
      × (is_dispatchable q ≡ true)
      × (available_worker env current timeout db q ≡ some w)
      × (q' ≡ started_run env current timeout w.worker_id q)
      × (db' ≡ started_db env current timeout db q w)
      × All
          (λ p.
            is_dispatchable p ≡ true
            → available_worker env current timeout db p ≢ none
            → run_precedes q p ≡ true)
          db.runs

  -- A successful dispatch starts a run that was queued and had an available worker, and no run
  -- that could have been started instead stands before it in the order of the queue; the new
  -- session is the one of that start. The ids of the runs are taken to be distinct.
  pub dispatch_queued_run-StartsFirst :
      (q' : Run)
      → Distinct (map run_key db.runs)
      → dispatch_queued_run env current timeout db ≡ ok (some q', db')
      → StartsFirst q'
  unfolding dispatch_queued_run queued_runs find_run
  dispatch_queued_run-StartsFirst q' d h =
      let Waiting = λ (q : Run). (find_run q.id db ≡ some q) × (is_dispatchable q ≡ true) in
      let waiting = select is_dispatchable db.runs in
      let s =
        dispatch_loop_starts env current timeout db Waiting (queued_runs db) q' db'
          (All-sort Waiting run_precedes waiting (
            All-both _ _ waiting
              (All-select _ is_dispatchable db.runs (lookup-All run_key db.runs d))
              (All-select_self is_dispatchable db.runs)))
          (queued_dispatchable env current timeout db)
          (sort-Sorted run_precedes-IsOrder (select is_dispatchable db.runs)) h in
      (
        s.run,
        s.worker,
        s.was_waiting.0,
        s.was_waiting.1,
        s.is_available,
        s.row,
        s.session,
        All-of_select _ is_dispatchable db.runs
            (All-of_sort _ run_precedes (select is_dispatchable db.runs) s.precedes),
      )

  -- A dispatch that starts nothing changes nothing, and no run that waits has an available worker.
  pub dispatch_none_available :
      dispatch_queued_run env current timeout db ≡ ok (none, db')
      → (db' ≡ db)
        × All
            (λ p. is_dispatchable p ≡ true → available_worker env current timeout db p ≡ none)
            db.runs
  unfolding dispatch_queued_run queued_runs
  dispatch_none_available h =
      let (same, nobody) =
        dispatch_loop-none env current timeout db (queued_runs db) db'
          (queued_dispatchable env current timeout db) h in
      (
        same,
        All-of_select _ is_dispatchable db.runs
            (All-of_sort _ run_precedes (select is_dispatchable db.runs) nobody),
      )
