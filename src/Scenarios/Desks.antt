-- ===== src/Scenarios/Desks.antt =====
-- A desk with jobs, and a worker whose handlers queue the jobs that come next.
use xyn_seed.Base.{ℕ, String, none, some, List, [], ◌∷◌, ◌≡◌, ◌≢◌, refl, ok, string_eq}
use xyn_seed.Base.Text.{strip, lower}
use xyn_seed.Desk.{
  Context, put_draft, find_draft, in_workspace, resolve_workspace_by_context, asked_workspace,
  enforce_access_or_403, in_history, Workspace, Draft, Job, Desk,
}
use xyn_seed.Base.Dict.{get}
use xyn_seed.Base.Table.{lookup, save}
use xyn_seed.Access.{AccessPrincipal, assert_access, normalize_capability_slug}
use xyn_seed.Access.Roles.{cap_campaigns_manage}
use xyn_seed.Lifecycle.{
  get_lifecycle_definition, allows, compat_fallback_definitions, draft_definition,
}
use xyn_seed.Lifecycle.Service.{
  transition_model_status, apply_transition, build_transition_request, validate_transition,
  record_transition, normalize_state,
}
use xyn_seed.Drafts.{
  DraftPatchRequest, submitted_job, submit_draft, submit_in, draft_in, move_draft, save_draft,
  queue_job,
}
use xyn_seed.Drafts.Requests.{Request, submits, patches, serve_all, serve_each}
use xyn_seed.Drafts.Isolation.{RowsStay, scoped_requests-RowsStay}
use xyn_seed.Drafts.Submissions.{submit_draft_once}
use xyn_seed.Scenarios.RunStates.{env_at}
use xyn_seed.Jobs.{JobEnv, FollowUp, returned, raised, Handlers}

abbrev job_env_at : ℕ → JobEnv
job_env_at n = record { utcnow = n; iso_now = "now"; uuid_text = λ i. "uuid" }

abbrev next_job : String → FollowUp
next_job kind = record { job_type = kind; input_json = [] }

-- The last kind of job fails.
abbrev handlers : Handlers
handlers = record {
  generate_app_spec = λ job desk. returned [] (next_job "deploy_app_local" ∷ []) desk;
  deploy_app_local = λ job desk. returned [] (next_job "provision_sibling_xyn" ∷ []) desk;
  provision_sibling_xyn = λ job desk. returned [] (next_job "smoke_test" ∷ []) desk;
  smoke_test = λ job desk. raised "smoke" desk;
}

abbrev job_in_state : ℕ → String → String → Job
job_in_state id kind status = record {
  id = id;
  workspace_id = 0;
  job_type = kind;
  status = status;
  input_json = [];
  output_json = none;
  logs_text = none;
  created_at = id;
  updated_at = id;
}

abbrev jobs_desk : Desk
jobs_desk = record {
  workspaces = [];
  drafts = [];
  jobs = job_in_state 1 "smoke_test" "running" ∷ job_in_state 2 "generate_app_spec" "queued" ∷ [];
  transitions = [];
  next_uuid = 3;
}

-- A draft of the workspace 9, and one of another workspace.
abbrev draft_in_state : ℕ → ℕ → String → Draft
draft_in_state id workspace_id status = record {
  id = id;
  workspace_id = workspace_id;
  draft_type = "app_intent";
  title = "An app";
  content_json = [];
  status = status;
  created_by = "ann";
  created_at = 5;
  updated_at = 5;
}

abbrev workspace_of : ℕ → String → Workspace
workspace_of id slug = record { id = id; slug = slug; title = slug }

abbrev drafts_desk : Desk
drafts_desk = record {
  workspaces = workspace_of 9 "lab" ∷ workspace_of 10 "shop" ∷ [];
  drafts = draft_in_state 1 9 "ready" ∷ draft_in_state 2 10 "draft" ∷ [];
  jobs = [];
  transitions = [];
  next_uuid = 20;
}

abbrev ann : AccessPrincipal
ann = record {
  subject_id = "ann";
  roles = [];
  capabilities = cap_campaigns_manage ∷ [];
  workspace_scope_id = some 9;
  application_scope = none;
}

abbrev in_lab : Context
in_lab = record { workspace_id = some 9; workspace_slug = none }

abbrev in_shop : Context
in_shop = record { workspace_id = none; workspace_slug = some "Shop" }

abbrev archive : DraftPatchRequest
archive = record { title = none; content_json = none; status = some "archived" }

abbrev requests : List Request
requests =
    submits (env_at 30) in_lab 1
    ∷ patches (env_at 31) in_lab 1 archive
    ∷ submits (env_at 32) in_shop 2
    ∷ []

draft_lifecycle_known :
    get_lifecycle_definition compat_fallback_definitions "draft" ≡ ok draft_definition
unfolding get_lifecycle_definition get strip lower
draft_lifecycle_known = refl

scoped_requests-RowsStay_example :
    RowsStay 9 drafts_desk (serve_all compat_fallback_definitions ann requests drafts_desk)
scoped_requests-RowsStay_example =
    scoped_requests-RowsStay compat_fallback_definitions draft_definition draft_lifecycle_known ann
      9 refl requests drafts_desk

abbrev submitted_row : Draft
submitted_row = record (draft_in_state 1 9 "submitted") { updated_at = 30 }

abbrev own_requests : List (AccessPrincipal × Request)
own_requests =
    (ann, submits (env_at 30) in_lab 1)
    ∷ (record ann { workspace_scope_id = none }, patches (env_at 31) in_lab 1 archive)
    ∷ []

submit_draft_once_example :
    (submit_draft compat_fallback_definitions (env_at 40) ann in_lab 1 (
      serve_each compat_fallback_definitions own_requests
        (submit_draft compat_fallback_definitions (env_at 30) ann in_lab 1 drafts_desk).1)).0
    ≢ ok (submitted_row, submitted_job (env_at 40) (workspace_of 9 "lab") submitted_row 21)
unfolding submit_draft submit_in in_workspace resolve_workspace_by_context asked_workspace lookup
    enforce_access_or_403 assert_access draft_in find_draft move_draft in_history
    transition_model_status apply_transition build_transition_request validate_transition
    record_transition normalize_state get_lifecycle_definition allows get strip lower save_draft
    put_draft save queue_job normalize_capability_slug
submit_draft_once_example =
    submit_draft_once compat_fallback_definitions (env_at 30) (env_at 40) ann ann in_lab in_lab 1
      drafts_desk own_requests submitted_row submitted_row
      (submitted_job (env_at 30) (workspace_of 9 "lab") submitted_row 20)
      (submitted_job (env_at 40) (workspace_of 9 "lab") submitted_row 21) draft_lifecycle_known refl
