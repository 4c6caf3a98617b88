-- ===== src/Runtime/Heartbeats.antt =====
-- core/runtime_execution.py: `record_run_heartbeat` and `handle_stale_heartbeats`.
pub mod Sweep
pub mod Retries
use xyn_seed.Base.{
  ℕ, ◌+◌, ◌-◌, String, Bool, true, false, Option, none, some, List, [], ◌∷◌, ◌==◌, ◌&&◌, string_eq,
  option_eq, Exec, ok, err, ◌>>=◌, ◌>>◌, pure, if◌then◌else◌, or_else, is_some, select, ltb, leb,
}
use Prim.Native.Nat.{max}
use xyn_seed.Base.Json.{bool, text, time}
use xyn_seed.Models.{Run, RunStatus, run_status_eq, RuntimeWorker, Db}
use xyn_seed.Runtime.Workers.{Env, heartbeat, default_health_window_seconds}
use xyn_seed.Runtime.Events.{NewEvent, run_status_value}
use xyn_seed.Runtime.Session.{
  Session, find_run, save_run, publish, release_worker, worker_or_runtime,
}

-- `models.Run.id == run_id, models.Run.locked_by == worker_id`.
unfoldable pub locked_run : String → ℕ → Db → Option Run
locked_run worker_id run_id db = elim (find_run run_id db) [
  | none ↦ none
  | some run ↦ if run.locked_by == some worker_id then some run else none
]

abbrev pub renewed : Env → Run → Run
renewed env run = record run {
  heartbeat_at = some env.utcnow;
  lease_expires_at = some (env.utcnow + default_health_window_seconds);
}

unfoldable pub heartbeat_event : Env → String → Run → NewEvent
heartbeat_event env worker_id run = record {
  event_name = "run.heartbeat";
  run_id = run.id;
  step_id = none;
  actor = worker_id;
  correlation_id = some run.correlation_id;
  fields = ("heartbeat_at", time env.utcnow) ∷ ("status", text (run_status_value run.status)) ∷ [];
}

renew_heartbeat : Env → String → Run → Session (Option Run)
renew_heartbeat env worker_id run = do
  save_run (renewed env run)
  publish env (heartbeat_event env worker_id (renewed env run))
  pure (some (renewed env run))

-- The worker's own heartbeat is kept also where the run is not its own.
heartbeat_of : Env → String → Option RuntimeWorker → Option Run → Session (Option Run)
heartbeat_of env worker_id none run = pure none
heartbeat_of env worker_id (some w) none = pure none
heartbeat_of env worker_id (some w) (some run) = renew_heartbeat env worker_id run

unfoldable pub record_run_heartbeat : Env → String → ℕ → Session (Option Run)
unfolding heartbeat_of renew_heartbeat heartbeat_event
record_run_heartbeat env worker_id run_id db =
    let (worker, db') = heartbeat env worker_id db in
    heartbeat_of env worker_id worker (locked_run worker_id run_id db') db'

abbrev heartbeat_before : ℕ → Option ℕ → Bool
heartbeat_before threshold none = false
heartbeat_before threshold (some t) = ltb t threshold

-- A threshold before the epoch has no heartbeat before it, so `-` on ℕ selects the same runs.
unfoldable pub is_stale : ℕ → ℕ → Run → Bool
is_stale current stale_after run =
    run.status == RunStatus.running && heartbeat_before (current - stale_after) run.heartbeat_at

-- `int(policy.get("max_retries") or 0)` and `max(int(run.attempt_count or 0), 1)`.
abbrev pub max_retries : Run → ℕ
max_retries run = or_else run.execution_policy.max_retries 0

abbrev pub current_attempt : Run → ℕ
current_attempt run = max run.attempt 1

abbrev pub retry_eligible : Run → Bool
retry_eligible run = leb (current_attempt run) (max_retries run)

abbrev pub require_review : Run → Bool
require_review run = or_else run.execution_policy.require_human_review_on_failure false

-- `run.summary or "Worker heartbeat timed out."`.
abbrev failure_summary : Option String → String
failure_summary none = "Worker heartbeat timed out."
failure_summary (some s) = if s == "" then "Worker heartbeat timed out." else s

-- What the three ends of the loop's body assign.
unfoldable pub stale_result : ℕ → Run → Run
stale_result current run =
    if retry_eligible run
    then record run {
      status = RunStatus.queued;
      failure_reason = some "worker_unresponsive";
      summary = some (failure_summary run.summary);
      queued_at = some current;
      heartbeat_at = none;
      locked_by = none;
      locked_at = none;
      lease_expires_at = none;
    }
    else if require_review run
    then record run {
      status = RunStatus.blocked;
      failure_reason = some "worker_unresponsive";
      completed_at = some current;
      summary = some (failure_summary run.summary);
      escalation_reason = some "human_review_required";
    }
    else record run {
      status = RunStatus.failed;
      failure_reason = some "worker_unresponsive";
      completed_at = some current;
      summary = some (failure_summary run.summary);
    }

unfoldable pub timeout_event : Run → NewEvent
timeout_event run = record {
  event_name = "run.failed";
  run_id = run.id;
  step_id = none;
  actor = worker_or_runtime run.locked_by;
  correlation_id = some run.correlation_id;
  fields =
      ("failure_reason", text "worker_unresponsive")
      ∷ ("retry_eligible", bool (retry_eligible run))
      ∷ [];
}

unfoldable pub review_event : Run → NewEvent
review_event run = record {
  event_name = "run.blocked";
  run_id = run.id;
  step_id = none;
  actor = "runtime";
  correlation_id = some run.correlation_id;
  fields = ("failure_reason", text "worker_unresponsive") ∷ [];
}

publish_blocked : Env → Run → Session (Unit {0})
publish_blocked env run =
    if run.status == RunStatus.blocked then publish env (review_event run) else pure tt

-- One turn of the loop.
unfoldable pub expire_run : Env → ℕ → Run → Session Run
unfolding publish_blocked
expire_run env current run = do
  save_run (record run { failure_reason = some "worker_unresponsive" })
  publish env (timeout_event run)
  release_worker env run.locked_by
  save_run (stale_result current run)
  publish_blocked env (stale_result current run)
  pure (stale_result current run)

unfoldable pub expire_runs : Env → ℕ → List Run → Session (List Run)
expire_runs env current [] = pure []
expire_runs env current (run ∷ rest) = do
  run' ← expire_run env current run
  updated ← expire_runs env current rest
  pure (run' ∷ updated)

unfoldable pub handle_stale_heartbeats : Env → ℕ → ℕ → Session (List Run)
handle_stale_heartbeats env current stale_after db =
    expire_runs env current (select (is_stale current stale_after) db.runs) db
