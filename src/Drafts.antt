-- ===== src/Drafts.antt =====
-- core/api/drafts.py: the handlers that change a draft.
pub mod Steps
pub mod Rows
pub mod Requests
pub mod Isolation
pub mod Submissions
use xyn_seed.Base.{
  ◌<>◌, ℕ, suc, String, Bool, true, not, Option, none, some, List, [], ◌∷◌, ◌++◌, ◌==◌, ◌&&◌,
  nat_eq, string_eq, if◌then◌else◌, any, Result, ok, err, Exec, ◌>>=◌, ◌>>◌, pure, raise,
}
use xyn_seed.Base.Dict.{Dict}
use xyn_seed.Base.Json.{Json, text, uuid, object_of}
use xyn_seed.Base.Text.{strip, lower}
use xyn_seed.Access.{AccessPrincipal}
use xyn_seed.Access.Roles.{cap_campaigns_manage}
use xyn_seed.Lifecycle.{LifecycleDefinition, is_in}
use xyn_seed.Lifecycle.Service.{Details, ModelObject, apply_transition, transition_model_status}
use xyn_seed.Runtime.Workers.{Env}
use xyn_seed.Desk.{
  Workspace, Draft, Job, Desk, ApiError, title_required, invalid_status, draft_not_found, Context,
  Reply, find_draft, put_draft, ensure_default_workspace, enforce_access_or_403, in_history,
  in_workspace,
}

pub record DraftCreateRequest : Type 0 where
  pub draft_type : String
  pub title : String
  pub content_json : Dict Json
  pub status : String
  pub created_by : String

pub record DraftPatchRequest : Type 0 where
  pub title : Option String
  pub content_json : Option (Dict Json)
  pub status : Option String

abbrev pub allowed_draft_statuses : List String
allowed_draft_statuses = "draft" ∷ "ready" ∷ "submitted" ∷ "archived" ∷ []

-- `str(value or default)`, where the empty text is false.
abbrev pub value_or : String → String → String
value_or value default = if value == "" then default else value

abbrev pub draft_status : String → Exec Desk ApiError (Unit {0})
draft_status status = if is_in status allowed_draft_statuses then pure tt else raise invalid_status

abbrev pub new_draft : Env → Workspace → DraftCreateRequest → String → ℕ → Draft
new_draft env w payload status id = record {
  id = id;
  workspace_id = w.id;
  draft_type = value_or (strip (value_or payload.draft_type "app_intent")) "app_intent";
  title = strip payload.title;
  content_json = payload.content_json;
  status = status;
  created_by = value_or (strip (value_or payload.created_by "user")) "user";
  created_at = env.utcnow;
  updated_at = env.utcnow;
}

abbrev pub add_draft : Draft → Exec Desk ApiError Draft
add_draft row desk =
    ok (row, record desk { drafts = desk.drafts ++ row ∷ []; next_uuid = suc desk.next_uuid })

abbrev pub told : Option ℕ → String → String → Dict Json → Details
told workspace_id actor reason metadata = record {
  workspace_id = workspace_id;
  actor = some actor;
  reason = some reason;
  metadata = metadata;
  correlation_id = none;
  run_id = none;
}

abbrev pub created_in : Dict LifecycleDefinition → Env → Draft → Exec Desk ApiError Draft
created_in registry env row = do
  in_history (
      apply_transition registry env.utcnow "draft" "draft" (env.uuid_text row.id) none
        (some row.status) (told (some row.workspace_id) row.created_by "Draft created." []))
  add_draft row

unfoldable pub create_in :
    Dict LifecycleDefinition
    → Env
    → AccessPrincipal
    → DraftCreateRequest
    → Workspace
    → Exec Desk ApiError Draft
create_in registry env p payload w desk =
    let status = lower (strip (value_or payload.status "draft")) in
    let row = new_draft env w payload status desk.next_uuid in
    (do
      enforce_access_or_403 p (cap_campaigns_manage ∷ []) w.id
      draft_status status
      (if row.title == "" then raise title_required else pure tt)
      created_in registry env row)
      desk

-- The default workspace is committed first.
unfoldable pub create_draft :
    Dict LifecycleDefinition
    → Env
    → AccessPrincipal
    → Context
    → DraftCreateRequest
    → Desk
    → Reply Draft
create_draft registry env p ctx payload desk =
    in_workspace ctx (create_in registry env p payload) (ensure_default_workspace desk).1

-- The row of the handler: its id in its workspace.
unfoldable pub draft_in : Workspace → ℕ → Exec Desk ApiError Draft
draft_in w draft_id desk = elim (find_draft draft_id desk) [
  | none ↦ err draft_not_found
  | some row ↦ if row.workspace_id == w.id then ok (row, desk) else err draft_not_found
]

abbrev pub object_of_draft : Env → Draft → ModelObject
object_of_draft env row = record {
  object_id = env.uuid_text row.id;
  workspace_id = some row.workspace_id;
  status = some row.status;
}

-- `model_obj.status = result.to_state`.
abbrev pub with_status : Draft → ModelObject → Draft
with_status row obj = elim obj.status [ none ↦ row | some s ↦ record row { status = s } ]

unfoldable pub move_draft :
    Dict LifecycleDefinition → Env → String → String → Draft → Exec Desk ApiError Draft
move_draft registry env next_state reason row desk =
    elim (in_history
      (transition_model_status registry env.utcnow (object_of_draft env row) "draft" "draft"
        (some next_state) (told none "user" reason []))
      desk) [ err e ↦ err e | ok ((result, obj), desk') ↦ ok (with_status row obj, desk') ]

abbrev pub patch_title : Option String → Draft → Exec Desk ApiError Draft
patch_title none row = pure row
patch_title (some title) row =
    if strip title == "" then raise title_required else pure (record row { title = strip title })

abbrev pub patch_content : Option (Dict Json) → Draft → Draft
patch_content none row = row
patch_content (some content) row = record row { content_json = content }

abbrev pub patch_draft_status :
    Dict LifecycleDefinition → Env → Option String → Draft → Exec Desk ApiError Draft
patch_draft_status registry env none row = pure row
patch_draft_status registry env (some status) row = do
  draft_status (lower (strip status))
  move_draft registry env (lower (strip status)) "Draft status updated via patch." row

unfoldable pub save_draft : Env → Draft → Exec Desk ApiError Draft
save_draft env row desk =
    let row' = record row { updated_at = env.utcnow } in ok (row', put_draft row' desk)

unfoldable pub patch_in :
    Dict LifecycleDefinition
    → Env
    → AccessPrincipal
    → ℕ
    → DraftPatchRequest
    → Workspace
    → Exec Desk ApiError Draft
patch_in registry env p draft_id payload w = do
  enforce_access_or_403 p (cap_campaigns_manage ∷ []) w.id
  row ← draft_in w draft_id
  titled ← patch_title payload.title row
  moved ← patch_draft_status registry env payload.status (patch_content payload.content_json titled)
  save_draft env moved

unfoldable pub patch_draft :
    Dict LifecycleDefinition
    → Env
    → AccessPrincipal
    → Context
    → ℕ
    → DraftPatchRequest
    → Desk
    → Reply Draft
patch_draft registry env p ctx draft_id payload =
    in_workspace ctx (patch_in registry env p draft_id payload)

abbrev pub submitted_job : Env → Workspace → Draft → ℕ → Job
submitted_job env w row id = record {
  id = id;
  workspace_id = w.id;
  job_type = "generate_app_spec";
  status = "queued";
  input_json =
      ("draft_id", uuid row.id)
      ∷ ("draft_type", text row.draft_type)
      ∷ ("title", text row.title)
      ∷ ("content_json", object_of row.content_json)
      ∷ [];
  output_json = some [];
  logs_text = some "Queued from draft submit.";
  created_at = env.utcnow;
  updated_at = env.utcnow;
}

abbrev pub add_job : Job → Exec Desk ApiError Job
add_job job desk =
    ok (job, record desk { jobs = desk.jobs ++ job ∷ []; next_uuid = suc desk.next_uuid })

unfoldable pub queue_job :
    Dict LifecycleDefinition → Env → Workspace → Draft → Exec Desk ApiError Job
queue_job registry env w row desk =
    let job = submitted_job env w row desk.next_uuid in
    (do
      in_history (
          apply_transition registry env.utcnow "job" "job" (env.uuid_text job.id) none
            (some job.status)
            (told (some w.id) "system" "Job created from draft submission."
              (("draft_id", uuid row.id) ∷ [])))
      add_job job)
      desk

unfoldable pub submit_in :
    Dict LifecycleDefinition
    → Env
    → AccessPrincipal
    → ℕ
    → Workspace
    → Exec Desk ApiError (Draft × Job)
submit_in registry env p draft_id w = do
  enforce_access_or_403 p (cap_campaigns_manage ∷ []) w.id
  row ← draft_in w draft_id
  moved ← move_draft registry env "submitted" "Draft submitted." row
  saved ← save_draft env moved
  job ← queue_job registry env w saved
  pure (saved, job)

unfoldable pub submit_draft :
    Dict LifecycleDefinition → Env → AccessPrincipal → Context → ℕ → Desk → Reply (Draft × Job)
submit_draft registry env p ctx draft_id = in_workspace ctx (submit_in registry env p draft_id)
