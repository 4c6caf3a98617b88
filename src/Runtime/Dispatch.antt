-- ===== src/Runtime/Dispatch.antt =====
-- core/runtime_execution.py: `dispatch_queued_run`.
pub mod Queue
pub mod Selection
pub mod Choice
use xyn_seed.Base.{
  ℕ, ◌+◌, String, Bool, true, false, Option, none, some, List, [], ◌∷◌, string_eq, ◌==◌, ◌&&◌, Exec,
  ok, err, ◌>>=◌, ◌>>◌, pure, lift, if◌then◌else◌, or_else, is_some, select, find,
}
use xyn_seed.Base.Json.{bool, uuid, text, opt_text}
use xyn_seed.Base.Order.{compare_numbers, compare_nulls_last, then_by, not_after}
use xyn_seed.Base.Sort.{sort}
use xyn_seed.Models.{
  Run, RunStatus, run_status_eq, RunPayload, RuntimeWorker, RuntimeWorkerStatus, idle,
  worker_status_eq, Db,
}
use xyn_seed.Runtime.Status.{no_reasons}
use xyn_seed.Runtime.Workers.{Env, Driver, get_worker_driver, can_accept, list_healthy_workers}
use xyn_seed.Runtime.Events.{NewEvent}
use xyn_seed.Runtime.Session.{Session, save_run, change_run_status, busy_worker, publish}
use xyn_seed.Runtime.Runs.{validated_payload}

unfoldable pub is_dispatchable : Run → Bool
is_dispatchable run = run.status == RunStatus.queued && is_some run.worker_type

-- `priority`, then `queued_at` with nulls last, then `created_at`, then `id`.
unfoldable pub run_precedes : Run → Run → Bool
run_precedes a b = not_after (
    then_by (compare_numbers a.priority b.priority) (
      then_by (compare_nulls_last a.queued_at b.queued_at)
        (then_by (compare_numbers a.created_at b.created_at) (compare_numbers a.id b.id))))

unfoldable pub queued_runs : Db → List Run
queued_runs db = sort run_precedes (select is_dispatchable db.runs)

-- A driver that takes the payload, as `driver is None or not driver.can_accept(payload)` tests it.
unfoldable pub accepting_driver : Env → Run → RunPayload → Option Driver
accepting_driver env run p = elim (get_worker_driver (or_else run.worker_type "")) [
  | none ↦ none
  | some d ↦ if can_accept env d p then some d else none
]

unfoldable pub idle_worker : ℕ → ℕ → Run → Db → Option RuntimeWorker
idle_worker current timeout run db =
    find (λ (w : RuntimeWorker). w.status == idle)
      (list_healthy_workers (or_else run.worker_type "") current timeout db)

-- The assignments to the run that is started.
abbrev pub assigned : ℕ → ℕ → String → Run → Run
assigned current timeout worker_id run = record run {
  locked_by = some worker_id;
  heartbeat_at = some current;
  locked_at = some current;
  lease_expires_at = some (current + timeout);
  attempt = run.attempt + 1;
}

unfoldable pub started_event : Run → String → NewEvent
started_event run worker_id = record {
  event_name = "run.started";
  run_id = run.id;
  step_id = none;
  actor = worker_id;
  correlation_id = some run.correlation_id;
  fields =
      ("run_id", uuid run.id)
      ∷ ("work_item_id", opt_text run.work_item_id)
      ∷ ("worker_id", text worker_id)
      ∷ ("worker_type", opt_text run.worker_type)
      ∷ ("accepted", bool true)
      ∷ [];
}

-- The body of the loop once a worker is found. `start_run` of the one driver always accepts.
unfoldable pub assign_run : Env → ℕ → ℕ → Run → RuntimeWorker → Session Run
assign_run env current timeout run worker = do
  started ← change_run_status env run RunStatus.running no_reasons
  let run' = assigned current timeout worker.worker_id started
  save_run run'
  busy_worker env worker.worker_id run'.id
  publish env (started_event run' worker.worker_id)
  pure run'

assign_if_found : Env → ℕ → ℕ → Run → Option Driver → Session (Option Run)
assign_if_found env current timeout run none db = ok (none, db)
assign_if_found env current timeout run (some d) db = elim (idle_worker current timeout run db) [
  | none ↦ ok (none, db)
  | some worker ↦ (do r ← assign_run env current timeout run worker; pure (some r)) db
]

-- One turn of the loop: `None` where the code says `continue`.
unfoldable pub try_dispatch : Env → ℕ → ℕ → Run → Session (Option Run)
unfolding assign_if_found
try_dispatch env current timeout run = do
  payload ← lift (validated_payload run)
  assign_if_found env current timeout run (accepting_driver env run payload)

unfoldable pub dispatch_loop : Env → ℕ → ℕ → List Run → Session (Option Run)
dispatch_loop env current timeout [] = pure none
dispatch_loop env current timeout (run ∷ rest) = do
  found ← try_dispatch env current timeout run
  elim found [ some r ↦ pure (some r) | none ↦ dispatch_loop env current timeout rest ]

unfoldable pub dispatch_queued_run : Env → ℕ → ℕ → Session (Option Run)
dispatch_queued_run env current timeout db = dispatch_loop env current timeout (queued_runs db) db
