-- ===== src/Jobs.antt =====
-- core/api/jobs.py: the handler that changes a job. core/app_jobs.py: the worker that runs the
-- jobs one after the other. What a kind of job does is an argument.
pub mod Turns
pub mod Drain
use xyn_seed.Base.{
  ◌<>◌, ℕ, suc, zero, String, Bool, true, false, Option, none, some, List, [], ◌∷◌, ◌++◌, ◌==◌,
  nat_eq, string_eq, if◌then◌else◌, or_else, select, leb, map, Result, ok, err, Exec, ◌>>=◌, ◌>>◌,
  pure, raise,
}
use mathlib.Core.List.{head?}
use xyn_seed.Base.Dict.{Dict, put}
use xyn_seed.Base.Json.{Json, Items, nil, cons, text, array, object_of, uuid}
use xyn_seed.Base.Sort.{sort}
use xyn_seed.Base.Text.{strip, lower, rstrip}
use xyn_seed.Access.{AccessPrincipal}
use xyn_seed.Access.Roles.{cap_refreshes_run}
use xyn_seed.Lifecycle.{LifecycleDefinition, is_in}
use xyn_seed.Lifecycle.Service.{ModelObject, transition_model_status}
use xyn_seed.Runtime.Workers.{Env}
use xyn_seed.Desk.{
  Workspace, Job, Desk, ApiError, invalid_status, job_not_found, Context, Reply, find_job, put_job,
  job_key, enforce_access_or_403, in_history, in_workspace,
}
use xyn_seed.Drafts.{told}

pub record JobPatchRequest : Type 0 where
  pub status : Option String
  pub output_json : Option (Dict Json)
  pub logs_text : Option String

abbrev pub allowed_job_statuses : List String
allowed_job_statuses = "queued" ∷ "running" ∷ "succeeded" ∷ "failed" ∷ []

unfoldable pub job_in : Workspace → ℕ → Exec Desk ApiError Job
job_in w job_id desk = elim (find_job job_id desk) [
  | none ↦ err job_not_found
  | some row ↦ if row.workspace_id == w.id then ok (row, desk) else err job_not_found
]

abbrev pub object_of_job : Env → Job → ModelObject
object_of_job env row = record {
  object_id = env.uuid_text row.id;
  workspace_id = some row.workspace_id;
  status = some row.status;
}

abbrev pub job_with_status : Job → ModelObject → Job
job_with_status row obj = elim obj.status [ none ↦ row | some s ↦ record row { status = s } ]

unfoldable pub move_job : Dict LifecycleDefinition → Env → String → Job → Exec Desk ApiError Job
move_job registry env next_state row desk =
    elim (in_history
      (transition_model_status registry env.utcnow (object_of_job env row) "job" "job"
        (some next_state) (told none "user" "Job status updated via patch." []))
      desk) [ err e ↦ err e | ok ((result, obj), desk') ↦ ok (job_with_status row obj, desk') ]

abbrev pub patch_job_status :
    Dict LifecycleDefinition → Env → Option String → Job → Exec Desk ApiError Job
patch_job_status registry env none row = pure row
patch_job_status registry env (some status) row = do
  (if is_in (lower (strip status)) allowed_job_statuses then pure tt else raise invalid_status)
  move_job registry env (lower (strip status)) row

abbrev pub patch_output : Option (Dict Json) → Job → Job
patch_output none row = row
patch_output (some output) row = record row { output_json = some output }

abbrev pub patch_logs : Option String → Job → Job
patch_logs none row = row
patch_logs (some logs) row = record row { logs_text = some logs }

unfoldable pub save_job : Env → Job → Exec Desk ApiError Job
save_job env row desk =
    let row' = record row { updated_at = env.utcnow } in ok (row', put_job row' desk)

unfoldable pub patch_job_in :
    Dict LifecycleDefinition
    → Env
    → AccessPrincipal
    → ℕ
    → JobPatchRequest
    → Workspace
    → Exec Desk ApiError Job
patch_job_in registry env p job_id payload w = do
  enforce_access_or_403 p (cap_refreshes_run ∷ []) w.id
  row ← job_in w job_id
  moved ← patch_job_status registry env payload.status row
  save_job env (patch_logs payload.logs_text (patch_output payload.output_json moved))

unfoldable pub patch_job :
    Dict LifecycleDefinition
    → Env
    → AccessPrincipal
    → Context
    → ℕ
    → JobPatchRequest
    → Desk
    → Reply Job
patch_job registry env p ctx job_id payload =
    in_workspace ctx (patch_job_in registry env p job_id payload)

-- The clock of the worker, and how it writes a time.
pub record JobEnv : Type 0 where
  pub utcnow : ℕ
  pub iso_now : String
  pub uuid_text : ℕ → String

abbrev pub is_queued : Job → Bool
is_queued row = row.status == "queued"

abbrev pub is_running : Job → Bool
is_running row = row.status == "running"

-- `row.logs_text.rstrip() + "\n" if row.logs_text else ""`.
abbrev pub log_prefix : Option String → String
log_prefix none = ""
log_prefix (some logs) = if logs == "" then "" else rstrip logs <> "\n"

abbrev pub claimed_job : JobEnv → Job → Job
claimed_job env row = record row {
  status = "running";
  updated_at = env.utcnow;
  logs_text = some (
      log_prefix row.logs_text
      <> "["
      <> env.iso_now
      <> "] Worker claimed job "
      <> env.uuid_text row.id
      <> " ("
      <> row.job_type
      <> ")");
}

-- `ORDER BY created_at`: rows of one time keep the order of the table.
abbrev pub job_precedes : Job → Job → Bool
job_precedes a b = leb a.created_at b.created_at

unfoldable pub oldest_queued : Desk → Option Job
oldest_queued desk = head? (sort job_precedes (select is_queued desk.jobs))

unfoldable pub claim_next_job : JobEnv → Desk → Option Job × Desk
claim_next_job env desk = elim (oldest_queued desk) [
  | none ↦ (none, desk)
  | some row ↦ (some (claimed_job env row), put_job (claimed_job env row) desk)
]

abbrev pub recovered_job : JobEnv → Job → Job
recovered_job env row = record row {
  status = "failed";
  output_json = some (
      put (or_else row.output_json []) "error"
        (text "Job interrupted by process restart before completion."));
  logs_text = some (
      log_prefix row.logs_text
      <> "["
      <> env.iso_now
      <> "] Worker startup recovered stale RUNNING job as FAILED.");
  updated_at = env.utcnow;
}

unfoldable pub recover_running_jobs : JobEnv → Desk → Desk
recover_running_jobs env desk = record desk {
  jobs = map (λ (row : Job). if is_running row then recovered_job env row else row) desk.jobs;
}

-- An item of `follow_up_jobs`.
pub record FollowUp : Type 0 where
  pub job_type : String
  pub input_json : Dict Json

abbrev pub follow_up_job : JobEnv → ℕ → FollowUp → ℕ → Job
follow_up_job env workspace_id item id = record {
  id = id;
  workspace_id = workspace_id;
  job_type = strip item.job_type;
  status = "queued";
  input_json = item.input_json;
  output_json = some [];
  logs_text = some ("[" <> env.iso_now <> "] Queued by app-job-worker.");
  created_at = env.utcnow;
  updated_at = env.utcnow;
}

unfoldable pub enqueue_job : JobEnv → ℕ → FollowUp → Desk → ℕ × Desk
enqueue_job env workspace_id item desk = (
  desk.next_uuid,
  record desk {
    jobs = desk.jobs ++ follow_up_job env workspace_id item desk.next_uuid ∷ [];
    next_uuid = suc desk.next_uuid;
  },
)

-- The loop over the follow-ups: their kinds and ids, in order.
unfoldable pub enqueue_all : JobEnv → ℕ → List FollowUp → Desk → List (String × ℕ) × Desk
enqueue_all env workspace_id [] desk = ([], desk)
enqueue_all env workspace_id (item ∷ items) desk =
    let (id, desk') = enqueue_job env workspace_id item desk in
    let (ids, desk'') = enqueue_all env workspace_id items desk' in
    ((item.job_type, id) ∷ ids, desk'')

-- What the handler of a kind of job does: it returns its output and follow-ups, or it raises. The
-- session is the one that it leaves.
pub data JobOutcome : Type 0 where
  returned : Dict Json → List FollowUp → Desk → JobOutcome
  raised : String → Desk → JobOutcome

abbrev pub Handler : Type 0
Handler = Job → Desk → JobOutcome

pub record Handlers : Type 0 where
  pub generate_app_spec : Handler
  pub deploy_app_local : Handler
  pub provision_sibling_xyn : Handler
  pub smoke_test : Handler

unfoldable pub run_handler : Handlers → Handler
run_handler handlers job desk =
    if job.job_type == "generate_app_spec"
    then handlers.generate_app_spec job desk
    else if job.job_type == "deploy_app_local"
    then handlers.deploy_app_local job desk
    else if job.job_type == "provision_sibling_xyn"
    then handlers.provision_sibling_xyn job desk
    else if job.job_type == "smoke_test"
    then handlers.smoke_test job desk
    else raised ("Unsupported job type: " <> job.job_type) desk

abbrev log_line : JobEnv → String → String
log_line env message = "[" <> env.iso_now <> "] " <> message

abbrev queued_lines : JobEnv → List (String × ℕ) → String
queued_lines env [] = ""
queued_lines env ((job_type, id) ∷ ids) =
    "\n"
    <> log_line env ("Queued follow-up job: " <> job_type <> " (" <> env.uuid_text id <> ")")
    <> queued_lines env ids

abbrev queued_items : List (String × ℕ) → Items
queued_items [] = nil
queued_items ((job_type, id) ∷ ids) =
    cons (object_of (("job_type", text job_type) ∷ ("job_id", uuid id) ∷ [])) (queued_items ids)

abbrev with_queued : List (String × ℕ) → Dict Json → Dict Json
with_queued [] output = output
with_queued (i ∷ ids) output = put output "queued_jobs" (array (queued_items (i ∷ ids)))

abbrev first_line : JobEnv → Job → String
first_line env job = log_line env ("Executing job type=" <> job.job_type)

-- The columns that the end of an execution writes.
abbrev pub finished_job : JobEnv → String → Dict Json → String → Job → Job
finished_job env status output logs row = record row {
  status = status;
  output_json = some output;
  logs_text = some (log_prefix row.logs_text <> logs);
  updated_at = env.utcnow;
}

-- The row of the job is written as the session of the handler has it; a row that is gone stays so.
unfoldable pub write_job : (Job → Job) → ℕ → Desk → Desk
write_job change id desk = elim (find_job id desk) [
  | none ↦ desk
  | some row ↦ put_job (change row) desk
]

unfoldable pub finish_job : JobEnv → Job → JobOutcome → Desk
finish_job env job (returned output items desk) =
    let (ids, desk') = enqueue_all env job.workspace_id items desk in
    write_job
      (finished_job env "succeeded" (with_queued ids output) (
        first_line env job
        <> queued_lines env ids
        <> "\n"
        <> log_line env "Job completed successfully"))
      job.id desk'
finish_job env job (raised message desk) =
    write_job
      (finished_job env "failed" (("error", text message) ∷ [])
        (first_line env job <> "\n" <> log_line env ("Job failed: " <> message)))
      job.id desk

unfoldable pub execute_job : JobEnv → Handlers → ℕ → Desk → Desk
execute_job env handlers job_id desk = elim (find_job job_id desk) [
  | none ↦ desk
  | some job ↦ finish_job env job (run_handler handlers job desk)
]

-- One turn of the loop of the worker.
unfoldable pub worker_turn : JobEnv → Handlers → Desk → Desk
worker_turn env handlers desk =
    let (claimed, desk') = claim_next_job env desk in
    elim claimed [ none ↦ desk' | some row ↦ execute_job env handlers row.id desk' ]

-- The turns that the loop makes before it is stopped, each at its own time.
unfoldable pub worker_turns : (ℕ → JobEnv) → Handlers → ℕ → Desk → Desk
worker_turns clock handlers zero desk = desk
worker_turns clock handlers (suc n) desk =
    worker_turns clock handlers n (worker_turn (clock n) handlers desk)

unfoldable pub worker_loop : (ℕ → JobEnv) → Handlers → ℕ → Desk → Desk
worker_loop clock handlers n desk =
    worker_turns clock handlers n (recover_running_jobs (clock n) desk)
