-- ===== src/Drafts/Requests.antt =====
-- The requests of a principal to core/api/drafts.py and core/api/jobs.py, in any order.
use xyn_seed.Base.{
  ℕ, some, List, [], ◌∷◌, ◌≡◌, arith, nat_eq, string_eq, Option-cases, Result-cases, ◌⊎◌, inl, inr,
  ok, Exec,
}
use xyn_seed.Base.Dict.{Dict}
use xyn_seed.Access.{AccessPrincipal}
use xyn_seed.Lifecycle.{LifecycleDefinition}
use xyn_seed.Runtime.Workers.{Env}
use xyn_seed.Desk.{
  Workspace, Desk, Context, ApiError, ensure_default_workspace, resolve_workspace_by_context,
  in_workspace,
}
use xyn_seed.Drafts.{DraftCreateRequest, DraftPatchRequest, create_draft, patch_draft, submit_draft}
use xyn_seed.Jobs.{JobPatchRequest, patch_job}

-- A request: its time, its context and what it asks for.
pub data Request : Type 0 where
  creates : Env → Context → DraftCreateRequest → Request
  patches : Env → Context → ℕ → DraftPatchRequest → Request
  submits : Env → Context → ℕ → Request
  patches_job : Env → Context → ℕ → JobPatchRequest → Request

unfoldable pub serve : Dict LifecycleDefinition → AccessPrincipal → Request → Desk → Desk
serve registry p (creates env ctx payload) desk = (create_draft registry env p ctx payload desk).1
serve registry p (patches env ctx draft_id payload) desk =
    (patch_draft registry env p ctx draft_id payload desk).1
serve registry p (submits env ctx draft_id) desk = (submit_draft registry env p ctx draft_id desk).1
serve registry p (patches_job env ctx job_id payload) desk =
    (patch_job registry env p ctx job_id payload desk).1

unfoldable pub serve_all : Dict LifecycleDefinition → AccessPrincipal → List Request → Desk → Desk
serve_all registry p [] desk = desk
serve_all registry p (r ∷ requests) desk = serve_all registry p requests (serve registry p r desk)

-- The requests of several principals.
unfoldable pub serve_each :
    Dict LifecycleDefinition → List (AccessPrincipal × Request) → Desk → Desk
serve_each registry [] desk = desk
serve_each registry ((p, r) ∷ requests) desk =
    serve_each registry requests (serve registry p r desk)

-- A workspace that is created leaves the drafts and the jobs.
pub ensure_default_workspace-rows :
    (desk : Desk)
    → ((ensure_default_workspace desk).1.drafts ≡ desk.drafts)
      × ((ensure_default_workspace desk).1.jobs ≡ desk.jobs)
unfolding ensure_default_workspace
ensure_default_workspace-rows desk = (ground arith, ground arith)

resolve_rows :
    (ctx : Context) (desk desk' : Desk) (w : Workspace)
    → resolve_workspace_by_context ctx desk ≡ some (w, desk')
    → (desk'.drafts ≡ desk.drafts) × (desk'.jobs ≡ desk.jobs)
unfolding resolve_workspace_by_context
resolve_rows ctx desk desk' w h =
    let (d, j) = ensure_default_workspace-rows desk in (ground arith, ground arith)

-- A handler in a workspace: it leaves the rows as they are, or its transaction is committed.
pub in_workspace-cases :
    {A : Type 0} (ctx : Context) (handler : Workspace → Exec Desk ApiError A) (desk : Desk)
    → (((in_workspace ctx handler desk).1.drafts ≡ desk.drafts)
        × ((in_workspace ctx handler desk).1.jobs ≡ desk.jobs))
      ⊎ ((w : Workspace) × (base : Desk) × (desk' : Desk) × (a : A) × (base.drafts ≡ desk.drafts)
          × (base.jobs ≡ desk.jobs)
          × (handler w base ≡ ok (a, desk'))
          × (in_workspace ctx handler desk ≡ (ok a, desk')))
unfolding in_workspace
in_workspace-cases ctx handler desk = elim (Option-cases (resolve_workspace_by_context ctx desk)) [
  | inl none_there ↦ inl (ground (arith, none_there), ground (arith, none_there))
  | inr ((w, base), resolved) ↦
      let (d, j) = resolve_rows ctx desk base w resolved in
      elim (Result-cases (handler w base)) [
        | inl ((a, desk'), done) ↦
            inr (w, base, desk', a, d, j, done, ground (arith, resolved, done))
        | inr (e, failed) ↦ inl (ground (arith, resolved, failed), ground (arith, resolved, failed))
      ]
]

-- A handler that returns has committed its transaction.
pub in_workspace_ok :
    {A : Type 0} (ctx : Context) (handler : Workspace → Exec Desk ApiError A) (desk : Desk) (a : A)
    → (in_workspace ctx handler desk).0 ≡ ok a
    → (w : Workspace) × (base : Desk) × (base.drafts ≡ desk.drafts)
      × (handler w base ≡ ok (a, (in_workspace ctx handler desk).1))
unfolding in_workspace
in_workspace_ok ctx handler desk a h = elim (Option-cases (resolve_workspace_by_context ctx desk)) [
  | inl none_there ↦ absurd (ground (arith, none_there))
  | inr ((w, base), resolved) ↦ elim (Result-cases (handler w base)) [
    | inl ((b, desk'), done) ↦
        (w, base, (resolve_rows ctx desk base w resolved).0, ground (arith, resolved, done))
    | inr (e, failed) ↦ absurd (ground (arith, resolved, failed))
  ]
]
