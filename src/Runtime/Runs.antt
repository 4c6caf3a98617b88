-- ===== src/Runtime/Runs.antt =====
-- core/runtime_execution.py: the operations on one run, from its submission to its end.
use xyn_seed.Base.{
  ℕ, suc, String, true, Option, none, some, [], ◌∷◌, ◌++◌, nat_eq, string_eq, ◌==◌, Result, ok, err,
  ◌>>=◌, ◌>>◌, pure, lift, if◌then◌else◌,
}
use xyn_seed.Base.Json.{bool, text, opt_text, object, end, field}
use xyn_seed.Models.{Run, RunStatus, run_status_eq, RunPayload, RunPolicy, ExecutionPolicy}
use xyn_seed.Runtime.Status.{Error, invalid_payload, Reasons, no_reasons}
use xyn_seed.Runtime.Workers.{Env}
use xyn_seed.Runtime.Events.{NewEvent}
use xyn_seed.Runtime.Session.{
  Session, find_run, one_run, change_run_status, publish, release_worker, worker_or_runtime,
}

-- `payload.policy.model_dump`.
abbrev policy_of : RunPolicy → ExecutionPolicy
policy_of p = record {
  auto_continue = some p.auto_continue;
  max_retries = some p.max_retries;
  require_human_review_on_failure = some p.require_human_review_on_failure;
  timeout_seconds = p.timeout_seconds;
  runtime_controls = none;
}

-- The row that `create_runtime_run` adds, with the column defaults.
unfoldable pub runtime_run : Env → RunPayload → String → String → Run
runtime_run env p actor correlation_id = record {
  id = p.run_id;
  name = p.prompt.title;
  status = RunStatus.queued;
  actor = actor;
  correlation_id = correlation_id;
  inputs =
      ("runtime_execution", bool true)
      ∷ (
        "prompt",
        object (field "title" (text p.prompt.title) (field "body" (text p.prompt.body) end)),
      )
      ∷ [];
  outputs = none;
  error = none;
  queued_at = some env.utcnow;
  locked_at = none;
  locked_by = none;
  lease_expires_at = none;
  heartbeat_at = none;
  run_at = some env.utcnow;
  priority = 100;
  attempt = 0;
  max_attempts = some p.policy.max_retries;
  work_item_id = some p.work_item_id;
  worker_type = some p.worker_type;
  prompt_payload = some p;
  execution_policy = policy_of p.policy;
  summary = none;
  escalation_reason = none;
  failure_reason = none;
  created_at = env.utcnow;
  started_at = none;
  completed_at = none;
  parent_run_id = none;
}

unfoldable pub create_runtime_run : Env → RunPayload → String → Session Run
create_runtime_run env p actor db =
    let run = runtime_run env p actor (env.uuid_text db.next_uuid) in
    ok (run, record db { runs = db.runs ++ run ∷ []; next_uuid = suc db.next_uuid })

-- `RunPayloadV1.model_validate(run.prompt_payload or {})`.
unfoldable pub validated_payload : Run → Result Error RunPayload
validated_payload run = elim run.prompt_payload [ none ↦ err invalid_payload | some p ↦ ok p ]

submit_existing : Run → Session Run
submit_existing existing = do validated ← lift (validated_payload existing); pure existing

unfoldable pub submit_runtime_run : Env → RunPayload → String → Session Run
unfolding submit_existing
submit_runtime_run env p actor db = elim (find_run p.run_id db) [
  | some existing ↦ submit_existing existing db
  | none ↦ create_runtime_run env p actor db
]

-- `uuid.uuid4()`.
unfoldable pub fresh_uuid : Session ℕ
fresh_uuid db = ok (db.next_uuid, record db { next_uuid = suc db.next_uuid })

unfoldable pub retry_runtime_run : Env → ℕ → String → Session Run
retry_runtime_run env run_id actor = do
  run ← one_run run_id
  payload ← lift (validated_payload run)
  new_id ← fresh_uuid
  submit_runtime_run env (record payload { run_id = new_id }) actor

unfoldable pub completed_event : Run → Option String → NewEvent
completed_event run summary = record {
  event_name = "run.completed";
  run_id = run.id;
  step_id = none;
  actor = worker_or_runtime run.locked_by;
  correlation_id = some run.correlation_id;
  fields = ("summary", opt_text summary) ∷ [];
}

unfoldable pub complete_run : Env → ℕ → Option String → Session Run
complete_run env run_id summary = do
  run ← one_run run_id
  run' ← change_run_status env run RunStatus.completed (record no_reasons { summary = summary })
  release_worker env run'.locked_by
  publish env (completed_event run' summary)
  pure run'

-- An escalation reason that is not empty blocks the run.
unfoldable pub failure_status : Option String → RunStatus
failure_status none = RunStatus.failed
failure_status (some reason) = if reason == "" then RunStatus.failed else RunStatus.blocked

unfoldable pub failure_event : Run → Reasons → NewEvent
failure_event run r = record {
  event_name =
      if failure_status r.escalation_reason == RunStatus.blocked
      then "run.blocked"
      else "run.failed";
  run_id = run.id;
  step_id = none;
  actor = worker_or_runtime run.locked_by;
  correlation_id = some run.correlation_id;
  fields =
      ("summary", opt_text r.summary)
      ∷ ("failure_reason", opt_text r.failure_reason)
      ∷ ("escalation_reason", opt_text r.escalation_reason)
      ∷ [];
}

unfoldable pub fail_run : Env → ℕ → Reasons → Session Run
fail_run env run_id r = do
  run ← one_run run_id
  run' ← change_run_status env run (failure_status r.escalation_reason) r
  release_worker env run'.locked_by
  publish env (failure_event run' r)
  pure run'
