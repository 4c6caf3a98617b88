-- ===== src/Runtime/Moves/Cancelling.antt =====
-- The cancellation through the API beside the other operations.
use xyn_seed.Base.{
  ℕ, String, Option, some, ◌≡◌, arith, ok, err, nat_eq, string_eq, option_eq, nat_beq_iff,
}
use xyn_seed.Models.{Run, RunStatus, run_status_eq, RuntimeWorker, Db}
use xyn_seed.Runtime.Status.{invalid_run_transition}
use xyn_seed.Runtime.Workers.{Env, find_worker}
use xyn_seed.Runtime.Session.{find_run, put_run}
use xyn_seed.Runtime.Rows.{find_run-put_run, find_worker-put_run, id_of_find_run}
use xyn_seed.Runtime.Assignment.{IsConsistent}
use xyn_seed.Runtime.Runs.{complete_run}
use xyn_seed.Runtime.Outcomes.{complete_run-eq}
use xyn_seed.Runtime.Api.{cancel_run, cancelled}

pub cancel_run_inv :
    (run_id : ℕ) (db db' : Db) (q' : Run)
    → cancel_run run_id db ≡ ok (q', db')
    → (q : Run) × (find_run run_id db ≡ some q) × (q' ≡ cancelled q) × (db' ≡ put_run q' db)
unfolding cancel_run
cancel_run_inv run_id db db' q' h = ground arith

-- A cancellation through the API sets no end time, and it leaves the worker of the run occupied: a
-- worker that named the run still names it, though the run does not run any more, and the
-- completion that the worker reports afterwards is refused.
pub cancel_run_leaves_worker :
    (env : Env) (run_id : ℕ) (summary : Option String) (db db' : Db) (q' : Run) (w : String)
    (x : RuntimeWorker)
    → cancel_run run_id db ≡ ok (q', db')
    → find_worker w db ≡ some x
    → x.active_run_id ≡ some run_id
    → (q : Run) × (find_run run_id db ≡ some q)
      × (find_run run_id db' ≡ some (record q { status = RunStatus.cancelled }))
      × (find_worker w db' ≡ some x)
      × (IsConsistent db' → ⊥)
      × (complete_run env run_id summary db'
          ≡ err (invalid_run_transition RunStatus.cancelled RunStatus.completed))
cancel_run_leaves_worker env run_id summary db db' q' w x h at names =
    let (q, found, row, session) = cancel_run_inv run_id db db' q' h in
    let same : (cancelled q).id ≡ run_id = id_of_find_run run_id db {q = q} found in
    let there : find_run run_id db' ≡ some (cancelled q) =
      ground (arith, find_run-put_run (cancelled q) run_id db, nat_beq_iff q.id run_id) in
    let kept : find_worker w db' ≡ some x =
      ground (arith, find_worker-put_run (cancelled q) w db) in
    (
      q,
      found,
      there,
      kept,
      (λ c. ground (arith, c.active w x run_id kept names)),
      ground (arith, complete_run-eq env run_id summary db'),
    )
