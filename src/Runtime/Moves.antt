-- ===== src/Runtime/Moves.antt =====
-- The operations of the runtime as the steps of one transition relation, in any order.
pub mod Safety
pub mod Cancelling
pub mod Untouched
pub mod Passed
pub mod Identities
pub mod Finality
use xyn_seed.Base.{ℕ, String, Option, List, Result, some, true, ok, ◌≡◌, ◌≢◌}
use xyn_seed.Models.{Run, RunPayload, WorkerInfo, Step, Db}
use xyn_seed.Runtime.Status.{Reasons}
use xyn_seed.Runtime.Workers.{Env, register_worker}
use xyn_seed.Runtime.Runs.{submit_runtime_run, retry_runtime_run, complete_run, fail_run}
use xyn_seed.Runtime.Controls.{request_pause_run}
use xyn_seed.Runtime.Api.{continue_runtime_run, cancel_run}
use xyn_seed.Runtime.Dispatch.{dispatch_queued_run}
use xyn_seed.Runtime.Heartbeats.{record_run_heartbeat, handle_stale_heartbeats}
use xyn_seed.Runtime.Steps.{report_run_step}
use xyn_seed.Runtime.Session.{find_run}
use xyn_seed.Runtime.Assignment.{runs_on}
use xyn_seed.Codex.{ArtifactStore, Artifact, Bench, handle_failure, mark_blocked}

-- One transaction that is committed. Each has its own environment: time passes between them. The
-- Codex worker reports a failure or a block of a run that it still works on. A cancellation through
-- the API, an end reported by a worker that does not work on the run any more, and the claims and
-- ends of the run queue (Queue) are not among them.
pub data Move (db db' : Db) : Type 0 where
  registers :
      (info : WorkerInfo) → info.worker_id ≢ "" → db' ≡ (register_worker info db).1 → Move db db'
  submits :
      (env : Env) (p : RunPayload) (actor : String) (q : Run)
      → submit_runtime_run env p actor db ≡ ok (q, db')
      → Move db db'
  retries :
      (env : Env) (run_id : ℕ) (actor : String) (q : Run)
      → retry_runtime_run env run_id actor db ≡ ok (q, db')
      → Move db db'
  dispatches :
      (env : Env) (current timeout : ℕ) (found : Option Run)
      → dispatch_queued_run env current timeout db ≡ ok (found, db')
      → Move db db'
  beats :
      (env : Env) (worker_id : String) (run_id : ℕ) (found : Option Run)
      → record_run_heartbeat env worker_id run_id db ≡ ok (found, db')
      → Move db db'
  reports :
      (env : Env) (run_id : ℕ) (step_key label status : String) (n : ℕ) (summary : Option String)
      (s : Step)
      → report_run_step env run_id step_key label status n summary db ≡ ok (s, db')
      → Move db db'
  completes :
      (env : Env) (run_id : ℕ) (summary : Option String) (q : Run)
      → complete_run env run_id summary db ≡ ok (q, db')
      → Move db db'
  fails :
      (env : Env) (run_id : ℕ) (r : Reasons) (q : Run)
      → fail_run env run_id r db ≡ ok (q, db')
      → Move db db'
  pauses :
      (env : Env) (run_id : ℕ) (actor : String) (q : Run)
      → request_pause_run env run_id actor db ≡ ok (q, db')
      → Move db db'
  continues :
      (env : Env) (run_id : ℕ) (q : Run)
      → continue_runtime_run env run_id db ≡ ok (q, db')
      → Move db db'
  sweeps :
      (env : Env) (current stale_after : ℕ) (updated : List Run)
      → handle_stale_heartbeats env current stale_after db ≡ ok (updated, db')
      → Move db db'
  codex_fails :
      (store : ArtifactStore) (env : Env) (run_id : ℕ) (worker_id summary reason log_text : String)
      (artifacts : List Artifact) (t : Bench) (q q' : Run)
      → worker_id ≢ ""
      → find_run run_id db ≡ some q
      → runs_on worker_id (some q) ≡ true
      → handle_failure store env run_id worker_id summary reason log_text
          (record { db = db; artifacts = artifacts })
        ≡ ok (q', t)
      → db' ≡ t.db
      → Move db db'
  codex_blocks :
      (env : Env) (run_id : ℕ) (worker_id summary reason : String) (q q' : Run)
      → worker_id ≢ ""
      → find_run run_id db ≡ some q
      → runs_on worker_id (some q) ≡ true
      → mark_blocked env run_id worker_id summary reason db ≡ ok (q', db')
      → Move db db'

-- Any number of transactions one after another.
pub data Reach (start : Db) : Db → Type 0 where
  stay : Reach start start
  step : {db db' : Db} → Reach start db → Move db db' → Reach start db'

-- The transactions and the cancellations through the API, one after another.
pub data Course (start : Db) : Db → Type 0 where
  begins : Course start start
  moves : {db db' : Db} → Course start db → Move db db' → Course start db'
  cancels :
      {db db' : Db} (run_id : ℕ) (q : Run)
      → Course start db
      → cancel_run run_id db ≡ ok (q, db')
      → Course start db'
