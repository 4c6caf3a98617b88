-- ===== src/Desk.antt =====
-- core/models.py: `Workspace`, `Draft` and `Job`; core/workspaces.py. A `Desk` is a session on
-- these tables and on the history of core/lifecycle/service.py.
use xyn_seed.Base.{
  ℕ, suc, String, true, Option, none, some, List, [], ◌∷◌, ◌++◌, ◌==◌, nat_eq, string_eq,
  if◌then◌else◌, Result, ok, err, Exec,
}
use xyn_seed.Base.Dict.{Dict}
use xyn_seed.Base.Json.{Json}
use xyn_seed.Base.Table.{lookup, save}
use xyn_seed.Base.Text.{strip, lower}
use xyn_seed.Access.{AccessPrincipal, AccessError, assert_access}
use xyn_seed.Lifecycle.{LifecycleError}
use xyn_seed.Lifecycle.Service.{LifecycleTransition, History}

pub record Workspace : Type 0 where
  pub id : ℕ
  pub slug : String
  pub title : String

pub record Draft : Type 0 where
  pub id : ℕ
  pub workspace_id : ℕ
  pub draft_type : String
  pub title : String
  pub content_json : Dict Json
  pub status : String
  pub created_by : String
  pub created_at : ℕ
  pub updated_at : ℕ

pub record Job : Type 0 where
  pub id : ℕ
  pub workspace_id : ℕ
  pub job_type : String
  pub status : String
  pub input_json : Dict Json
  pub output_json : Option (Dict Json)
  pub logs_text : Option String
  pub created_at : ℕ
  pub updated_at : ℕ

pub record Desk : Type 0 where
  pub workspaces : List Workspace
  pub drafts : List Draft
  pub jobs : List Job
  pub transitions : List LifecycleTransition
  pub next_uuid : ℕ

-- The answers of the handlers that are not a result.
pub data ApiError : Type 0 where
  workspace_required title_required invalid_status draft_not_found job_not_found : ApiError
  forbidden : AccessError → ApiError
  refused : LifecycleError → ApiError

abbrev pub draft_key : Draft → ℕ
draft_key row = row.id

abbrev pub job_key : Job → ℕ
job_key row = row.id

unfoldable pub find_draft : ℕ → Desk → Option Draft
find_draft id desk = lookup draft_key id desk.drafts

unfoldable pub find_job : ℕ → Desk → Option Job
find_job id desk = lookup job_key id desk.jobs

unfoldable pub put_draft : Draft → Desk → Desk
put_draft row desk = record desk { drafts = save draft_key row desk.drafts }

unfoldable pub put_job : Job → Desk → Desk
put_job row desk = record desk { jobs = save job_key row desk.jobs }

-- What a request says of its workspace; the query parameters come first.
pub record Context : Type 0 where
  pub workspace_id : Option ℕ
  pub workspace_slug : Option String

-- `a or b`, where the empty text is false.
abbrev text_or : Option String → Option String → Option String
text_or none b = b
text_or (some s) b = if s == "" then b else some s

abbrev id_or : Option ℕ → Option ℕ → Option ℕ
id_or none b = b
id_or (some i) b = some i

unfoldable pub workspace_context : Option ℕ → Option String → Option ℕ → Option String → Context
workspace_context workspace_id workspace_slug x_workspace_id x_workspace_slug = record {
  workspace_id = id_or workspace_id x_workspace_id;
  workspace_slug = text_or workspace_slug x_workspace_slug;
}

abbrev workspace_of_id : ℕ → Desk → Option Workspace
workspace_of_id id desk = lookup (λ (w : Workspace). w.id) id desk.workspaces

abbrev workspace_of_slug : String → Desk → Option Workspace
workspace_of_slug slug desk = lookup (λ (w : Workspace). w.slug) slug desk.workspaces

abbrev default_workspace : ℕ → Workspace
default_workspace id = record { id = id; slug = "default"; title = "Default Workspace" }

-- The row, and a session in which it is committed.
unfoldable pub ensure_default_workspace : Desk → Workspace × Desk
ensure_default_workspace desk = elim (workspace_of_slug "default" desk) [
  | some row ↦ (row, desk)
  | none ↦ (
    default_workspace desk.next_uuid,
    record desk {
      workspaces = desk.workspaces ++ default_workspace desk.next_uuid ∷ [];
      next_uuid = suc desk.next_uuid;
    },
  )
]

-- `str(workspace_slug).strip().lower()`, where `None` is the empty text.
abbrev slug_of : Option String → String
slug_of none = ""
slug_of (some s) = lower (strip s)

abbrev row_of_slug : String → Desk → Option Workspace
row_of_slug slug desk = if slug == "" then none else workspace_of_slug slug desk

unfoldable pub asked_workspace : Context → Desk → Option Workspace
asked_workspace ctx desk = elim ctx.workspace_id [
  | some id ↦ workspace_of_id id desk
  | none ↦ row_of_slug (slug_of ctx.workspace_slug) desk
]

-- The workspace of a request; the default one is created where it is asked for.
unfoldable pub resolve_workspace_by_context : Context → Desk → Option (Workspace × Desk)
resolve_workspace_by_context ctx desk = elim (asked_workspace ctx desk) [
  | some row ↦ some (row, desk)
  | none ↦
      if slug_of ctx.workspace_slug == "default" then some (ensure_default_workspace desk) else none
]

-- A transaction of a handler: what it returns or raises, and the session that is committed.
abbrev pub Reply : Type 0 → Type 0
Reply A = Result ApiError A × Desk

abbrev pub transact : {A : Type 0} → Exec Desk ApiError A → Desk → Reply A
transact m desk = elim (m desk) [ ok (a, desk') ↦ (ok a, desk') | err e ↦ (err e, desk) ]

-- `enforce_access_or_403` as a step of a handler.
unfoldable pub enforce_access_or_403 :
    AccessPrincipal → List String → ℕ → Exec Desk ApiError (Unit {0})
enforce_access_or_403 p required_capabilities workspace_id desk =
    elim (assert_access p required_capabilities (some workspace_id) none true) [
      | ok _ ↦ ok (tt, desk)
      | err e ↦ err (forbidden e)
    ]

-- A call of the lifecycle service: `except LifecycleError` answers with its text.
unfoldable pub in_history : {A : Type 0} → History A → Exec Desk ApiError A
in_history m desk = elim (m desk.transitions) [
  | ok (a, rows) ↦ ok (a, record desk { transitions = rows })
  | err e ↦ err (refused e)
]

-- The beginning of the handlers: the workspace, committed, and then the transaction.
unfoldable pub in_workspace :
    {A : Type 0} → Context → (Workspace → Exec Desk ApiError A) → Desk → Reply A
in_workspace ctx handler desk = elim (resolve_workspace_by_context ctx desk) [
  | none ↦ (err workspace_required, desk)
  | some (w, desk') ↦ transact (handler w) desk'
]
