-- ===== src/Drafts/Rows.antt =====
-- A creation of a draft, and a change of a job through core/api/jobs.py, when they succeed.
use xyn_seed.Base.{
  ℕ, String, Option, none, some, [], ◌∷◌, ◌++◌, ◌≡◌, arith, ◌==◌, nat_eq, string_eq, nat_beq_iff,
  if◌then◌else◌, Option-cases, >>=-eq-ok, ap, sym, ◌∙◌, inl, inr, ok, pure, raise,
}
use xyn_seed.Base.Dict.{Dict}
use xyn_seed.Base.Json.{Json}
use xyn_seed.Base.Table.{save}
use xyn_seed.Base.Text.{strip, lower}
use xyn_seed.Access.{AccessPrincipal}
use xyn_seed.Access.Roles.{cap_campaigns_manage, cap_refreshes_run}
use xyn_seed.Lifecycle.{LifecycleDefinition}
use xyn_seed.Runtime.Workers.{Env}
use xyn_seed.Desk.{
  Workspace, Draft, Job, Desk, job_key, title_required, find_job, put_job, enforce_access_or_403,
  in_history,
}
use xyn_seed.Drafts.{DraftCreateRequest, value_or, draft_status, new_draft, created_in, create_in}
use xyn_seed.Drafts.Steps.{enforce_access_keeps}
use xyn_seed.Jobs.{
  JobPatchRequest, job_in, move_job, patch_job_status, patch_output, patch_logs, save_job,
  patch_job_in,
}

module _ (registry : Dict LifecycleDefinition) (env : Env) where
  created_in_inv :
      (row row' : Draft) (desk desk' : Desk)
      → created_in registry env row desk ≡ ok (row', desk')
      → (row' ≡ row) × (desk'.drafts ≡ desk.drafts ++ row ∷ []) × (desk'.jobs ≡ desk.jobs)
  unfolding in_history
  created_in_inv row row' desk desk' h = (ground arith, ground arith, ground arith)

  pub create_in_inv :
      (p : AccessPrincipal) (payload : DraftCreateRequest) (w : Workspace) (desk desk' : Desk)
      (row : Draft)
      → create_in registry env p payload w desk ≡ ok (row, desk')
      → (u : Unit {0}) × (entered : Desk) × (enforce_access_or_403 p
            (cap_campaigns_manage ∷ [])
            w.id
            desk
          ≡ ok (u, entered))
        × (row.workspace_id ≡ w.id)
        × (desk'.drafts ≡ desk.drafts ++ row ∷ [])
        × (desk'.jobs ≡ desk.jobs)
  unfolding create_in
  create_in_inv p payload w desk desk' row h =
      let status = lower (strip (value_or payload.status "draft")) in
      let new = new_draft env w payload status desk.next_uuid in
      let (u, desk₁, entered, h₁) =
        >>=-eq-ok (enforce_access_or_403 p (cap_campaigns_manage ∷ []) w.id) _ desk h in
      let (v, desk₂, checked, h₂) = >>=-eq-ok (draft_status status) _ desk₁ h₁ in
      let (x, desk₃, titled, h₃) =
        >>=-eq-ok (if new.title == "" then raise title_required else pure tt) _ desk₂ h₂ in
      let (same, drafts, jobs) = created_in_inv new row desk₃ desk' h₃ in
      let e₁ : desk₁ ≡ desk =
        enforce_access_keeps p (cap_campaigns_manage ∷ []) w.id desk desk₁ u entered in
      let e₂ : desk₂ ≡ desk₁ = ground (arith, checked) in
      let e₃ : desk₃ ≡ desk₂ = ground (arith, titled) in
      let e : desk₃ ≡ desk = e₃ ∙ e₂ ∙ e₁ in
      (
        u,
        desk₁,
        entered,
        ap (λ (d : Draft). d.workspace_id) same,
        drafts
            ∙ ap (λ (d : Desk). d.drafts ++ new ∷ []) e
            ∙ ap (λ r. desk.drafts ++ r ∷ []) (sym same),
        jobs ∙ ap (λ (d : Desk). d.jobs) e,
      )

  job_in_inv :
      (w : Workspace) (job_id : ℕ) (desk desk' : Desk) (row : Job)
      → job_in w job_id desk ≡ ok (row, desk')
      → (find_job job_id desk ≡ some row) × (row.workspace_id ≡ w.id) × (desk' ≡ desk)
  unfolding job_in
  job_in_inv w job_id desk desk' row h = elim (Option-cases (find_job job_id desk)) [
    | inl gone ↦ absurd (ground (arith, gone))
    | inr (q, found) ↦ (
      ground (arith, found),
      ground (arith, found, nat_beq_iff q.workspace_id w.id),
      ground (arith, found),
    )
  ]

  patch_job_status_inv :
      (status : Option String) (row row' : Job) (desk desk' : Desk)
      → patch_job_status registry env status row desk ≡ ok (row', desk')
      → (row'.id ≡ row.id)
        × (row'.workspace_id ≡ row.workspace_id)
        × (desk'.drafts ≡ desk.drafts)
        × (desk'.jobs ≡ desk.jobs)
  unfolding move_job in_history
  patch_job_status_inv none row row' desk desk' h =
      (ground arith, ground arith, ground arith, ground arith)
  patch_job_status_inv (some status) row row' desk desk' h =
      (ground arith, ground arith, ground arith, ground arith)

  patch_columns_keep :
      (logs : Option String) (output : Option (Dict Json)) (row : Job)
      → ((patch_logs logs (patch_output output row)).id ≡ row.id)
        × ((patch_logs logs (patch_output output row)).workspace_id ≡ row.workspace_id)
  patch_columns_keep logs output row = (ground arith, ground arith)

  pub patch_job_in_inv :
      (p : AccessPrincipal) (job_id : ℕ) (payload : JobPatchRequest) (w : Workspace)
      (desk desk' : Desk) (row' : Job)
      → patch_job_in registry env p job_id payload w desk ≡ ok (row', desk')
      → (u : Unit {0}) × (entered : Desk) × (row : Job) × (enforce_access_or_403 p
            (cap_refreshes_run ∷ [])
            w.id
            desk
          ≡ ok (u, entered))
        × (find_job job_id desk ≡ some row)
        × (row.workspace_id ≡ w.id)
        × (row'.id ≡ row.id)
        × (row'.workspace_id ≡ row.workspace_id)
        × (desk'.jobs ≡ save job_key row' desk.jobs)
        × (desk'.drafts ≡ desk.drafts)
  unfolding patch_job_in save_job put_job
  patch_job_in_inv p job_id payload w desk desk' row' h =
      let (u, desk₁, entered, h₁) =
        >>=-eq-ok (enforce_access_or_403 p (cap_refreshes_run ∷ []) w.id) _ desk h in
      let (row, desk₂, found, h₂) = >>=-eq-ok (job_in w job_id) _ desk₁ h₁ in
      let (moved, desk₃, stepped, h₃) =
        >>=-eq-ok (patch_job_status registry env payload.status row) _ desk₂ h₂ in
      let e₁ : desk₁ ≡ desk =
        enforce_access_keeps p (cap_refreshes_run ∷ []) w.id desk desk₁ u entered in
      let (there, inside, e₂) = job_in_inv w job_id desk₁ desk₂ row found in
      let (mid, mws, mdrafts, mjobs) =
        patch_job_status_inv payload.status row moved desk₂ desk₃ stepped in
      let (cid, cws) = patch_columns_keep payload.logs_text payload.output_json moved in
      let e : desk₂ ≡ desk = e₂ ∙ e₁ in
      let (rid, rws, rjobs, rdrafts) =
        written (patch_logs payload.logs_text (patch_output payload.output_json moved)) row' desk₃
          desk' h₃ in
      (
        u,
        desk₁,
        row,
        entered,
        ap (find_job job_id) (sym e₁) ∙ there,
        inside,
        rid ∙ cid ∙ mid,
        rws ∙ cws ∙ mws,
        rjobs ∙ ap (save job_key row') (mjobs ∙ ap (λ (d : Desk). d.jobs) e),
        rdrafts ∙ mdrafts ∙ ap (λ (d : Desk). d.drafts) e,
      )
    where
      written :
          (row row' : Job) (desk desk' : Desk)
          → save_job env row desk ≡ ok (row', desk')
          → (row'.id ≡ row.id)
            × (row'.workspace_id ≡ row.workspace_id)
            × (desk'.jobs ≡ save job_key row' desk.jobs)
            × (desk'.drafts ≡ desk.drafts)
      written row row' desk desk' h = (ground arith, ground arith, ground arith, ground arith)
