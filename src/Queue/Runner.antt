-- ===== src/Queue/Runner.antt =====
-- core/blueprints/runner.py: `enqueue_run`, `RunContext.assert_ownership`, `RunContext.emit_event`.
-- `execute_run` is in Execution, `step` in StepBlocks. A statement that raises leaves the session as
-- it was last committed.
use xyn_seed.Base.{
  ◌<>◌, ℕ, suc, String, Bool, true, false, Option, none, some, [], ◌∷◌, ◌++◌, ◌==◌, ◌&&◌, nat_eq,
  string_eq, option_eq, if◌then◌else◌, or_else, ltb, Result, ok, err,
}
use xyn_seed.Base.Dict.{Dict, get}
use xyn_seed.Base.Json.{Json, text}
use xyn_seed.Models.{Run, RunStatus, run_status_eq, ExecutionPolicy, Event, Db}
use xyn_seed.Runtime.Workers.{Env}
use xyn_seed.Runtime.Session.{find_run}

pub data QueueError : Type 0 where
  lost_lease : String → QueueError
  run_not_found blueprint_not_found : QueueError
  blueprint_failed statement_failed : (kind message : String) → QueueError

-- The column `execution_policy` of a run that has none.
abbrev no_policy : ExecutionPolicy
no_policy = record {
  auto_continue = none;
  max_retries = none;
  require_human_review_on_failure = none;
  timeout_seconds = none;
  runtime_controls = none;
}

-- `if not correlation_id: correlation_id = str(uuid.uuid4())`, and the UUID that comes next.
abbrev correlation : Env → Option String → ℕ → String × ℕ
correlation env none n = (env.uuid_text n, suc n)
correlation env (some c) n = if c == "" then (env.uuid_text n, suc n) else (c, n)

unfoldable pub enqueued :
    Env → String → Dict Json → String → String → Option ℕ → ℕ → Option ℕ → ℕ → Run
enqueued env blueprint_ref inputs actor correlation_id run_at priority max_attempts id = record {
  id = id;
  name = blueprint_ref;
  status = RunStatus.queued;
  actor = actor;
  correlation_id = correlation_id;
  inputs = inputs;
  outputs = none;
  error = none;
  queued_at = some env.utcnow;
  locked_at = none;
  locked_by = none;
  lease_expires_at = none;
  heartbeat_at = none;
  run_at = some (or_else run_at env.utcnow);
  priority = priority;
  attempt = 0;
  max_attempts = max_attempts;
  work_item_id = none;
  worker_type = none;
  prompt_payload = none;
  execution_policy = no_policy;
  summary = none;
  escalation_reason = none;
  failure_reason = none;
  created_at = env.utcnow;
  started_at = none;
  completed_at = none;
  parent_run_id = none;
}

unfoldable pub enqueue_run :
    Env → String → Dict Json → String → Option String → Option ℕ → ℕ → Option ℕ → Db → Run × Db
enqueue_run env blueprint_ref inputs actor correlation_id run_at priority max_attempts db =
    let (c, n) = correlation env correlation_id db.next_uuid in
    let run = enqueued env blueprint_ref inputs actor c run_at priority max_attempts n in
    (run, record db { runs = db.runs ++ run ∷ []; next_uuid = suc n })

-- `:worker_id IS NULL OR locked_by = :worker_id`.
abbrev pub held_by : Option String → Run → Bool
held_by none run = true
held_by (some w) run = run.locked_by == some w

-- `lease_expires_at > NOW()`, which is not true of NULL.
abbrev pub is_live : ℕ → Option ℕ → Bool
is_live now none = false
is_live now (some t) = ltb now t

-- `:worker_id IS NULL OR lease_expires_at > NOW()`.
abbrev pub lease_is_live : ℕ → Option String → Run → Bool
lease_is_live now none run = true
lease_is_live now (some w) run = is_live now run.lease_expires_at

-- The `WHERE` of the statements that end a run.
unfoldable pub may_finish : ℕ → Option String → Run → Bool
may_finish now worker_id run =
    run.status == RunStatus.running && held_by worker_id run && lease_is_live now worker_id run

abbrev row_owned : ℕ → String → Option Run → Bool
row_owned now worker_id none = false
row_owned now worker_id (some run) =
    run.status == RunStatus.running
    && run.locked_by == some worker_id
    && is_live now run.lease_expires_at

-- The test of `assert_ownership`; without a worker it is skipped. The empty text is no worker.
unfoldable pub is_owned : ℕ → Option String → ℕ → Db → Bool
is_owned now none run_id db = true
is_owned now (some worker_id) run_id db =
    if worker_id == "" then true else row_owned now worker_id (find_run run_id db)

unfoldable pub env_id_of : Run → Json
env_id_of run = or_else (get run.inputs "env_id") (text "local-dev")

-- The event of a run, outside of a step.
unfoldable pub run_event : Env → Run → String → Dict Json → ℕ → Event
run_event env run event_name fields id = record {
  id = id;
  event_name = event_name;
  occurred_at = env.utcnow;
  env_id = elim (env_id_of run) [ text s ↦ s | _ ↦ "local-dev" ];
  actor = run.actor;
  correlation_id = some run.correlation_id;
  run_id = some run.id;
  step_id = none;
  fields = fields;
}

-- The session with one more event.
abbrev pub with_event : Env → Run → String → Dict Json → Db → Db
with_event env run event_name fields db = record db {
  events = db.events ++ run_event env run event_name fields db.next_uuid ∷ [];
  next_uuid = suc db.next_uuid;
}

-- `f"Worker {self.worker_id} lost lease/ownership of run {self.run.id}"`.
unfoldable pub not_owned_text : Env → Option String → Run → String
not_owned_text env worker_id run =
    "Worker " <> or_else worker_id "None" <> " lost lease/ownership of run " <> env.uuid_text run.id

unfoldable pub emit_event :
    Env → Option String → Run → String → Dict Json → Db → Result QueueError Db
emit_event env worker_id run event_name fields db =
    if is_owned env.utcnow worker_id run.id db
    then ok (with_event env run event_name fields db)
    else err (lost_lease (not_owned_text env worker_id run))
