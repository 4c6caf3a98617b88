-- ===== src/Codex.antt =====
-- core/codex_local_worker.py: how a run of the local Codex worker ends when it does not succeed, and
-- the steps that it reports; core/runtime_execution.py: `capture_run_artifact`, on texts.
pub mod Sessions
pub mod Ends
pub mod Reported
use Prim.Native.String.{len}
use xyn_seed.Base.{
  ℕ, suc, String, Bool, true, not, Option, none, some, List, [], ◌∷◌, ◌++◌, ◌<>◌, ◌==◌, ◌&&◌, ◌||◌,
  string_eq, option_eq, any, Result, Exec, ok, err, ◌>>=◌, ◌>>◌, pure, raise, if◌then◌else◌,
}
use xyn_seed.Base.Dict.{Dict, update}
use xyn_seed.Base.Json.{Json, bool, text, uuid}
use xyn_seed.Models.{Run, RunStatus, run_status_eq, Step, Db}
use xyn_seed.Runtime.Status.{Error, not_assigned, unknown_artifact_type}
use xyn_seed.Runtime.Workers.{Env, mark_worker_idle}
use xyn_seed.Runtime.Events.{NewEvent}
use xyn_seed.Runtime.Session.{Session, one_run, save_run, publish}
use xyn_seed.Runtime.Heartbeats.{record_run_heartbeat, retry_eligible, require_review}
use xyn_seed.Runtime.Steps.{report_run_step}

-- The store of the bytes: the key and the hash that it gives for an artifact.
pub record ArtifactStore : Type 0 where
  pub store_bytes : ℕ → String → String × Option String
  pub provider : String

pub record Artifact : Type 0 where
  pub id : ℕ
  pub run_id : ℕ
  pub name : String
  pub kind : String
  pub content_type : String
  pub byte_length : ℕ
  pub sha256 : Option String
  pub created_by : String
  pub extra_metadata : Dict Json
  pub storage_path : String
  pub created_at : ℕ

-- A session with the table of artifacts.
pub record Bench : Type 0 where
  pub db : Db
  pub artifacts : List Artifact

abbrev pub BenchWork : Type 0 → Type 0
BenchWork A = Exec Bench Error A

-- A statement on the other tables.
unfoldable pub on_db : {A : Type 0} → Session A → BenchWork A
on_db m s = elim (m s.db) [ ok (a, db') ↦ ok (a, record s { db = db' }) | err e ↦ err e ]

abbrev pub allowed_artifact_types : List String
allowed_artifact_types = "patch" ∷ "log" ∷ "report" ∷ "code" ∷ "summary" ∷ []

-- `_artifact_uri`, with the file name that every capture of the worker gives.
abbrev pub artifact_uri : Env → ℕ → String → String
artifact_uri env run_id file_name =
    "artifact://runs/" <> (env.uuid_text run_id <> ("/" <> file_name))

unfoldable pub new_artifact :
    ArtifactStore → Env → ℕ → String → String → String → Dict Json → ℕ → Artifact
new_artifact store env run_id artifact_type label content metadata artifact_id =
    let (storage_key, sha256) = store.store_bytes artifact_id content in
    record {
      id = artifact_id;
      run_id = run_id;
      name = label;
      kind = artifact_type;
      content_type = "text/plain";
      byte_length = len content;
      sha256 = sha256;
      created_by = "runtime";
      extra_metadata = update metadata (
          ("storage_key", text storage_key)
          ∷ ("storage_provider", text store.provider)
          ∷ ("runtime_artifact_uri", text (artifact_uri env run_id label))
          ∷ []);
      storage_path = artifact_uri env run_id label;
      created_at = env.utcnow;
    }

unfoldable pub artifact_event : Artifact → NewEvent
artifact_event a = record {
  event_name = "run.artifact.created";
  run_id = a.run_id;
  step_id = none;
  actor = "runtime";
  correlation_id = none;
  fields =
      ("artifact_id", uuid a.id)
      ∷ ("artifact_type", text a.kind)
      ∷ ("uri", text a.storage_path)
      ∷ ("label", text a.name)
      ∷ [];
}

-- `db.add(artifact)`, with the UUID that it took.
unfoldable pub add_artifact : (ℕ → Artifact) → BenchWork Artifact
add_artifact make s =
    let a = make s.db.next_uuid in
    ok (
      a,
      record s {
        db = record s.db { next_uuid = suc s.db.next_uuid };
        artifacts = s.artifacts ++ a ∷ [];
      },
    )

-- `capture_run_artifact`, of a text whose file name is its label.
unfoldable pub capture_run_artifact :
    ArtifactStore → Env → ℕ → String → String → String → Dict Json → BenchWork Artifact
capture_run_artifact store env run_id artifact_type label content metadata =
    if any (λ t. t == artifact_type) allowed_artifact_types
    then (do
      a ← add_artifact (new_artifact store env run_id artifact_type label content metadata)
      on_db (publish env (artifact_event a))
      pure a)
    else raise unknown_artifact_type

-- `_ensure_assigned_run`.
unfoldable pub ensure_assigned_run : Run → String → Session (Unit {0})
ensure_assigned_run run worker_id =
    if not (run.status == RunStatus.running) || not (run.locked_by == some worker_id)
    then raise not_assigned
    else pure tt

-- `_start_step`, `_complete_step` and `_fail_step`.
unfoldable pub start_codex_step : Env → ℕ → String → String → String → ℕ → Session Step
start_codex_step env run_id worker_id step_key label sequence_no = do
  record_run_heartbeat env worker_id run_id
  report_run_step env run_id step_key label "running" sequence_no (some "started")

abbrev pub or_text : Option String → String → String
or_text none name = name
or_text (some key) name = if key == "" then name else key

unfoldable pub end_codex_step : String → Env → ℕ → String → Step → String → Session Step
end_codex_step status env run_id worker_id step summary = do
  record_run_heartbeat env worker_id run_id
  report_run_step env run_id (or_text step.step_key step.name) (or_text step.label step.name) status
      step.idx (some summary)

unfoldable pub complete_codex_step : Env → ℕ → String → Step → String → Session Step
complete_codex_step = end_codex_step "completed"

unfoldable pub fail_codex_step : Env → ℕ → String → Step → String → Session Step
fail_codex_step = end_codex_step "failed"

unfoldable pub failed_event : String → String → String → Run → NewEvent
failed_event worker_id summary failure_reason run = record {
  event_name = "run.failed";
  run_id = run.id;
  step_id = none;
  actor = worker_id;
  correlation_id = some run.correlation_id;
  fields =
      ("summary", text summary)
      ∷ ("failure_reason", text failure_reason)
      ∷ ("retry_eligible", bool (retry_eligible run))
      ∷ [];
}

-- What `_handle_failure` assigns to the run.
unfoldable pub failure_result : Env → String → String → Run → Run
failure_result env summary failure_reason run =
    if retry_eligible run
    then record run {
      status = RunStatus.queued;
      summary = some summary;
      failure_reason = some failure_reason;
      queued_at = some env.utcnow;
      heartbeat_at = none;
      locked_by = none;
      locked_at = none;
      lease_expires_at = none;
    }
    else record run {
      status = RunStatus.failed;
      completed_at = some env.utcnow;
      summary = some summary;
      failure_reason = some failure_reason;
      escalation_reason =
          if require_review run
          then some "human_review_required_after_failure"
          else run.escalation_reason;
    }

unfoldable pub free_worker : Env → String → Session (Unit {0})
free_worker env worker_id db = ok (tt, (mark_worker_idle env worker_id db).1)

-- `_handle_failure`.
unfoldable pub handle_failure :
    ArtifactStore → Env → ℕ → String → String → String → String → BenchWork Run
handle_failure store env run_id worker_id summary failure_reason log_text = do
  run ← on_db (one_run run_id)
  on_db (publish env (failed_event worker_id summary failure_reason run))
  capture_run_artifact store env run_id "summary" "final_summary.md" summary
      (("failure_reason", text failure_reason) ∷ [])
  capture_run_artifact store env run_id "log" "build_logs.txt" (or_text (some log_text) summary)
      (("failure_reason", text failure_reason) ∷ [])
  on_db (save_run (failure_result env summary failure_reason run))
  on_db (free_worker env worker_id)
  pure (failure_result env summary failure_reason run)

unfoldable pub blocked_result : Env → String → String → Run → Run
blocked_result env summary escalation_reason run = record run {
  status = RunStatus.blocked;
  completed_at = some env.utcnow;
  summary = some summary;
  escalation_reason = some escalation_reason;
}

unfoldable pub blocked_event : String → String → String → Run → NewEvent
blocked_event worker_id summary escalation_reason run = record {
  event_name = "run.blocked";
  run_id = run.id;
  step_id = none;
  actor = worker_id;
  correlation_id = some run.correlation_id;
  fields = ("summary", text summary) ∷ ("escalation_reason", text escalation_reason) ∷ [];
}

-- `_mark_blocked`.
unfoldable pub mark_blocked : Env → ℕ → String → String → String → Session Run
mark_blocked env run_id worker_id summary escalation_reason = do
  run ← one_run run_id
  save_run (blocked_result env summary escalation_reason run)
  free_worker env worker_id
  publish env (blocked_event worker_id summary escalation_reason run)
  pure (blocked_result env summary escalation_reason run)
