-- ===== src/Drafts/Isolation.antt =====
-- The scope of a principal and the rows of other workspaces.
use xyn_seed.Base.{
  ℕ, List, some, [], ◌∷◌, ◌++◌, ◌≡◌, ◌≢◌, arith, ◌==◌, nat_eq, nat_beq_iff, Bool-cases, ap, sym,
  refl, Option-cases, ◌∙◌, inl, inr, ok,
}
use xyn_seed.Base.Dict.{Dict}
use xyn_seed.Base.Members.{lookup-append}
use xyn_seed.Base.Table.{lookup, save, lookup-save, key_of_lookup}
use xyn_seed.Access.{AccessPrincipal}
use xyn_seed.Access.Roles.{cap_campaigns_manage, cap_refreshes_run}
use xyn_seed.Lifecycle.{LifecycleDefinition, get_lifecycle_definition}
use xyn_seed.Desk.{
  Draft, Job, Desk, draft_key, job_key, find_draft, find_job, ensure_default_workspace,
  in_workspace, Context,
}
use xyn_seed.Runtime.Workers.{Env}
use xyn_seed.Drafts.{
  DraftCreateRequest, DraftPatchRequest, create_in, create_draft, patch_in, patch_draft, submit_in,
  submit_draft,
}
use xyn_seed.Drafts.Steps.{enforce_access_scope, patch_in_inv, submit_in_inv}
use xyn_seed.Drafts.Rows.{create_in_inv, patch_job_in_inv}
use xyn_seed.Drafts.Requests.{
  Request, creates, patches, submits, patches_job, serve, serve_all, ensure_default_workspace-rows,
  in_workspace-cases,
}
use xyn_seed.Jobs.{JobPatchRequest, patch_job, patch_job_in}

module _ {A : Type 0} (key workspace : A → ℕ) (scope : ℕ) where
  -- The rows outside of the scope: a row of another workspace is found afterwards exactly where it
  -- was found before.
  abbrev pub Stays : ℕ → List A → List A → Type 0
  Stays i rows rows' =
      (row : A)
      → workspace row ≢ scope
      → (lookup key i rows ≡ some row → lookup key i rows' ≡ some row)
        × (lookup key i rows' ≡ some row → lookup key i rows ≡ some row)

  -- A row is written over one of the scope.
  save_other :
      (i k : ℕ) (row old new : A) (rows : List A)
      → lookup key i rows ≡ some row
      → lookup key k rows ≡ some old
      → key new ≡ key old
      → row ≢ old
      → lookup key i (save key new rows) ≡ some row
  save_other i k row old new rows there here same other = elim (Bool-cases (key new == i)) [
    | inr e ↦ ground (arith, lookup-save key new i rows, e, there)
    | inl e ↦
        let at : k ≡ i =
          sym (key_of_lookup key k rows {a = old} here)
          ∙ sym same
          ∙ (nat_beq_iff (key new) i).0 e in
        absurd (other (ground (arith, ap (λ j. lookup key j rows) at, there, here)))
  ]

  saved_before :
      (i : ℕ) (row new : A) (rows : List A)
      → lookup key i (save key new rows) ≡ some row
      → row ≢ new
      → lookup key i rows ≡ some row
  saved_before i row new rows there other = elim (Bool-cases (key new == i)) [
    | inr e ↦ ground (arith, lookup-save key new i rows, e, there)
    | inl e ↦ elim (Option-cases (lookup key i rows)) [
      | inl gone ↦ absurd (ground (arith, lookup-save key new i rows, e, gone))
      | inr (x, found) ↦ absurd (other (ground (arith, lookup-save key new i rows, e, found)))
    ]
  ]

  Stays-save :
      (i k : ℕ) (old new : A) (rows : List A)
      → lookup key k rows ≡ some old
      → workspace old ≡ scope
      → key new ≡ key old
      → workspace new ≡ scope
      → Stays i rows (save key new rows)
  Stays-save i k old new rows here inside same inside' row other = (
    λ there. save_other i k row old new rows there here same (λ e. other (ap workspace e ∙ inside)),
    λ there. saved_before i row new rows there (λ e. other (ap workspace e ∙ inside')),
  )

  appended_before :
      (i : ℕ) (row new : A) (rows : List A)
      → lookup key i (rows ++ new ∷ []) ≡ some row
      → row ≢ new
      → lookup key i rows ≡ some row
  unfolding lookup
  appended_before i row new rows there other = elim (Option-cases (lookup key i rows)) [
    | inl gone ↦ absurd (other (ground (arith, lookup-append key i rows (new ∷ []), gone)))
    | inr (x, found) ↦ ground (arith, lookup-append key i rows (new ∷ []), found)
  ]

  -- A row of the scope is added.
  Stays-append :
      (i : ℕ) (new : A) (rows : List A) → workspace new ≡ scope → Stays i rows (rows ++ new ∷ [])
  Stays-append i new rows inside row other = (
    λ there. ground (arith, lookup-append key i rows (new ∷ []), there),
    λ there. appended_before i row new rows there (λ e. other (ap workspace e ∙ inside)),
  )

-- The drafts and the jobs of other workspaces stay: none is changed, taken away or added.
abbrev pub DraftsStay : ℕ → Desk → Desk → Type 0
DraftsStay scope desk desk' =
    (i : ℕ) → Stays draft_key (λ (d : Draft). d.workspace_id) scope i desk.drafts desk'.drafts

abbrev pub JobsStay : ℕ → Desk → Desk → Type 0
JobsStay scope desk desk' =
    (i : ℕ) → Stays job_key (λ (j : Job). j.workspace_id) scope i desk.jobs desk'.jobs

module _ (scope : ℕ) (desk desk' : Desk) where
  drafts_alike : desk'.drafts ≡ desk.drafts → DraftsStay scope desk desk'
  drafts_alike same i row other = (λ there. rw same there, λ there. rw (← same) there)

  jobs_alike : desk'.jobs ≡ desk.jobs → JobsStay scope desk desk'
  jobs_alike same i row other = (λ there. rw same there, λ there. rw (← same) there)

  draft_added :
      (new : Draft)
      → new.workspace_id ≡ scope
      → desk'.drafts ≡ desk.drafts ++ new ∷ []
      → DraftsStay scope desk desk'
  draft_added new inside same i =
      rw same
        (Stays-append draft_key (λ (d : Draft). d.workspace_id) scope i new desk.drafts inside)

  job_added :
      (new : Job)
      → new.workspace_id ≡ scope
      → desk'.jobs ≡ desk.jobs ++ new ∷ []
      → JobsStay scope desk desk'
  job_added new inside same i =
      rw same (Stays-append job_key (λ (j : Job). j.workspace_id) scope i new desk.jobs inside)

  draft_saved :
      (k : ℕ) (old new : Draft)
      → find_draft k desk ≡ some old
      → old.workspace_id ≡ scope
      → new.id ≡ old.id
      → new.workspace_id ≡ old.workspace_id
      → desk'.drafts ≡ save draft_key new desk.drafts
      → DraftsStay scope desk desk'
  unfolding find_draft
  draft_saved k old new here inside same at saved i = rw saved (
      Stays-save draft_key (λ (d : Draft). d.workspace_id) scope i k old new desk.drafts here inside
        same (at ∙ inside))

  job_saved :
      (k : ℕ) (old new : Job)
      → find_job k desk ≡ some old
      → old.workspace_id ≡ scope
      → new.id ≡ old.id
      → new.workspace_id ≡ old.workspace_id
      → desk'.jobs ≡ save job_key new desk.jobs
      → JobsStay scope desk desk'
  unfolding find_job
  job_saved k old new here inside same at saved i = rw saved (
      Stays-save job_key (λ (j : Job). j.workspace_id) scope i k old new desk.jobs here inside same
        (at ∙ inside))

abbrev pub RowsStay : ℕ → Desk → Desk → Type 0
RowsStay scope desk desk' = DraftsStay scope desk desk' × JobsStay scope desk desk'

alike :
    (scope : ℕ) (desk desk' : Desk)
    → desk'.drafts ≡ desk.drafts
    → desk'.jobs ≡ desk.jobs
    → RowsStay scope desk desk'
alike scope desk desk' d j = (drafts_alike scope desk desk' d, jobs_alike scope desk desk' j)

pub RowsStay-trans :
    (scope : ℕ) (a b c : Desk) → RowsStay scope a b → RowsStay scope b c → RowsStay scope a c
RowsStay-trans scope a b c f g = (
  λ i row other. (
    λ there. (g.0 i row other).0 ((f.0 i row other).0 there),
    λ there. (f.0 i row other).1 ((g.0 i row other).1 there),
  ),
  λ i row other. (
    λ there. (g.1 i row other).0 ((f.1 i row other).0 there),
    λ there. (f.1 i row other).1 ((g.1 i row other).1 there),
  ),
)

module _ (registry : Dict LifecycleDefinition) (def : LifecycleDefinition)
    (known : get_lifecycle_definition registry "draft" ≡ ok def) (p : AccessPrincipal) (scope : ℕ)
    (scoped : p.workspace_scope_id ≡ some scope) where
  created_stay :
      (env : Env) (ctx : Context) (payload : DraftCreateRequest) (desk : Desk)
      → RowsStay scope desk (in_workspace ctx (create_in registry env p payload) desk).1
  created_stay env ctx payload desk =
      elim (in_workspace-cases ctx (create_in registry env p payload) desk) [
        | inl (d, j) ↦
            alike scope desk (in_workspace ctx (create_in registry env p payload) desk).1 d j
        | inr (w, base, desk', row, d, j, done, eq) ↦
            let (u, e, entered, inside, added, jobs) =
              create_in_inv registry env p payload w base desk' row done in
            let (at, _) =
              enforce_access_scope p (cap_campaigns_manage ∷ []) w.id scope base e u scoped
                entered in
            rw eq (
              RowsStay-trans scope desk base desk' (alike scope desk base d j) (
                draft_added scope base desk' row (inside ∙ at) added,
                jobs_alike scope base desk' jobs,
              ))
      ]

  patched_stay :
      (env : Env) (ctx : Context) (draft_id : ℕ) (payload : DraftPatchRequest) (desk : Desk)
      → RowsStay scope desk (in_workspace ctx (patch_in registry env p draft_id payload) desk).1
  patched_stay env ctx draft_id payload desk =
      elim (in_workspace-cases ctx (patch_in registry env p draft_id payload) desk) [
        | inl (d, j) ↦
            alike scope desk (in_workspace ctx (patch_in registry env p draft_id payload) desk).1 d
              j
        | inr (w, base, desk', row, d, j, done, eq) ↦
            let (u, e, old, entered, found, inside, same, home, saved, jobs, _) =
              patch_in_inv registry env p draft_id payload w base desk' row def known done in
            let (at, _) =
              enforce_access_scope p (cap_campaigns_manage ∷ []) w.id scope base e u scoped
                entered in
            rw eq (
              RowsStay-trans scope desk base desk' (alike scope desk base d j) (
                draft_saved scope base desk' draft_id old row found (inside ∙ at) same home saved,
                jobs_alike scope base desk' jobs,
              ))
      ]

  submitted_stay :
      (env : Env) (ctx : Context) (draft_id : ℕ) (desk : Desk)
      → RowsStay scope desk (in_workspace ctx (submit_in registry env p draft_id) desk).1
  submitted_stay env ctx draft_id desk =
      elim (in_workspace-cases ctx (submit_in registry env p draft_id) desk) [
        | inl (d, j) ↦
            alike scope desk (in_workspace ctx (submit_in registry env p draft_id) desk).1 d j
        | inr (w, base, desk', (row, job), d, j, done, eq) ↦
            let (u, e, old, entered, found, inside, same, home, saved, queued, jobs, _, _) =
              submit_in_inv registry env p draft_id w base desk' row job def known done in
            let (at, _) =
              enforce_access_scope p (cap_campaigns_manage ∷ []) w.id scope base e u scoped
                entered in
            rw eq (
              RowsStay-trans scope desk base desk' (alike scope desk base d j) (
                draft_saved scope base desk' draft_id old row found (inside ∙ at) same home saved,
                job_added scope base desk' job (ap (λ (j : Job). j.workspace_id) queued ∙ at) jobs,
              ))
      ]

  job_patched_stay :
      (env : Env) (ctx : Context) (job_id : ℕ) (payload : JobPatchRequest) (desk : Desk)
      → RowsStay scope desk (in_workspace ctx (patch_job_in registry env p job_id payload) desk).1
  job_patched_stay env ctx job_id payload desk =
      elim (in_workspace-cases ctx (patch_job_in registry env p job_id payload) desk) [
        | inl (d, j) ↦
            alike scope desk (in_workspace ctx (patch_job_in registry env p job_id payload) desk).1
              d j
        | inr (w, base, desk', row, d, j, done, eq) ↦
            let (u, e, old, entered, found, inside, same, home, saved, drafts) =
              patch_job_in_inv registry env p job_id payload w base desk' row done in
            let (at, _) =
              enforce_access_scope p (cap_refreshes_run ∷ []) w.id scope base e u scoped entered in
            rw eq (
              RowsStay-trans scope desk base desk' (alike scope desk base d j) (
                drafts_alike scope base desk' drafts,
                job_saved scope base desk' job_id old row found (inside ∙ at) same home saved,
              ))
      ]

  serve-RowsStay : (r : Request) (desk : Desk) → RowsStay scope desk (serve registry p r desk)
  unfolding serve create_draft patch_draft submit_draft patch_job
  serve-RowsStay (creates env ctx payload) desk =
      let start = (ensure_default_workspace desk).1 in
      let (d, j) = ensure_default_workspace-rows desk in
      RowsStay-trans scope desk start (in_workspace ctx (create_in registry env p payload) start).1
        (alike scope desk start d j) (created_stay env ctx payload start)
  serve-RowsStay (patches env ctx draft_id payload) desk =
      patched_stay env ctx draft_id payload desk
  serve-RowsStay (submits env ctx draft_id) desk = submitted_stay env ctx draft_id desk
  serve-RowsStay (patches_job env ctx job_id payload) desk =
      job_patched_stay env ctx job_id payload desk

  -- Whatever requests a principal with a workspace scope makes, in any order and for any workspace,
  -- the drafts and the jobs of other workspaces stay as they are: none is changed, taken away or
  -- added. Drafts have a lifecycle.
  pub scoped_requests-RowsStay :
      (requests : List Request) (desk : Desk)
      → RowsStay scope desk (serve_all registry p requests desk)
  unfolding serve_all
  scoped_requests-RowsStay [] desk = alike scope desk desk refl refl
  scoped_requests-RowsStay (r ∷ requests) desk =
      RowsStay-trans scope desk (serve registry p r desk) (serve_all registry p (r ∷ requests) desk)
        (serve-RowsStay r desk) (scoped_requests-RowsStay requests (serve registry p r desk))
