-- ===== src/Runtime/Controls.antt =====
-- core/runtime_execution.py: a pause and a continuation, requested from a conversation.
use xyn_seed.Base.{
  ℕ, String, Bool, true, false, none, some, [], ◌∷◌, ◌>>=◌, ◌>>◌, pure, if◌then◌else◌, or_else,
  ◌==◌,
}
use xyn_seed.Base.Json.{opt_text}
use xyn_seed.Models.{Run, RunStatus, run_status_eq, RuntimeControls}
use xyn_seed.Runtime.Status.{Reasons, no_reasons}
use xyn_seed.Runtime.Workers.{Env}
use xyn_seed.Runtime.Events.{NewEvent}
use xyn_seed.Runtime.Session.{Session, one_run, save_run, change_run_status, publish}

abbrev no_controls : RuntimeControls
no_controls = record {
  pause_requested = none;
  pause_requested_by = none;
  pause_requested_at = none;
}

unfoldable pub runtime_controls : Run → RuntimeControls
runtime_controls run = or_else run.execution_policy.runtime_controls no_controls

unfoldable pub set_runtime_controls : RuntimeControls → Run → Run
set_runtime_controls c run = record run {
  execution_policy = record run.execution_policy { runtime_controls = some c };
}

unfoldable pub pause_requested : Run → Bool
unfolding runtime_controls
pause_requested run = or_else (runtime_controls run).pause_requested false

unfoldable pub paused_event : String → Run → NewEvent
paused_event actor run = record {
  event_name = "run.blocked";
  run_id = run.id;
  step_id = none;
  actor = actor;
  correlation_id = some run.correlation_id;
  fields =
      ("summary", opt_text run.summary)
      ∷ ("escalation_reason", opt_text run.escalation_reason)
      ∷ [];
}

abbrev pub pause_reasons : Reasons
pause_reasons = record {
  summary = some "Run paused before execution.";
  failure_reason = none;
  escalation_reason = some "paused_by_user";
}

pause_queued : Env → String → Run → Session Run
pause_queued env actor run = do
  run' ← change_run_status env run RunStatus.blocked pause_reasons
  publish env (paused_event actor run')
  pure run'

abbrev pub pause_noted : Run → Run
pause_noted run = record run {
  summary = some "Pause requested. Run will block at the next safe checkpoint.";
}

pause_later : Run → Session Run
pause_later run = do save_run (pause_noted run); pure (pause_noted run)

-- The controls with the request noted.
unfoldable pub pausing : Env → String → Run → Run
unfolding runtime_controls set_runtime_controls
pausing env actor run =
    set_runtime_controls
      (record (runtime_controls run) {
        pause_requested = some true;
        pause_requested_by = some actor;
        pause_requested_at = some env.utcnow;
      })
      run

unfoldable pub request_pause_run : Env → ℕ → String → Session Run
unfolding pause_queued pause_later
request_pause_run env run_id actor = do
  run ← one_run run_id
  let run' = pausing env actor run
  if run'.status == RunStatus.queued then pause_queued env actor run' else pause_later run'

-- The controls with the request withdrawn.
unfoldable pub continuing : String → Run → Run
unfolding runtime_controls set_runtime_controls
continuing actor run =
    set_runtime_controls
      (record (runtime_controls run) {
        pause_requested = some false;
        pause_requested_by = some actor;
      })
      run

-- The columns that a continuation clears.
abbrev pub requeued : Env → Run → Run
requeued env run = record run {
  completed_at = none;
  started_at = none;
  locked_by = none;
  locked_at = none;
  lease_expires_at = none;
  heartbeat_at = none;
  failure_reason = none;
  escalation_reason = none;
  queued_at = some env.utcnow;
}

abbrev pub continue_reasons : Reasons
continue_reasons = record no_reasons { summary = some "Run re-queued from conversation hold." }

unfoldable pub continue_blocked_run : Env → ℕ → String → Session Run
continue_blocked_run env run_id actor = do
  run ← one_run run_id
  run' ← change_run_status env (continuing actor run) RunStatus.queued continue_reasons
  save_run (requeued env run')
  pure (requeued env run')
