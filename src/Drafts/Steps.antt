-- ===== src/Drafts/Steps.antt =====
-- What the transactions of core/api/drafts.py and core/api/jobs.py change when they succeed.
use xyn_seed.Base.{
  ℕ, String, true, Option, none, some, List, [], ◌∷◌, ◌++◌, ◌≡◌, refl, arith, ◌==◌, nat_eq,
  string_eq, nat_beq_iff, Option-cases, Result-cases, Bool-cases, >>=-eq-ok, ◌⊎◌, ap, sym, ◌∙◌, inl,
  inr, ok, Result,
}
use xyn_seed.Base.Dict.{Dict}
use xyn_seed.Base.Json.{Json}
use xyn_seed.Base.Table.{save}
use xyn_seed.Base.Text.{strip, lower}
use xyn_seed.Access.{AccessPrincipal}
use xyn_seed.Access.Grants.{other_workspace_refused}
use xyn_seed.Access.Roles.{cap_campaigns_manage}
use xyn_seed.Lifecycle.{LifecycleDefinition, allows, get_lifecycle_definition}
use xyn_seed.Lifecycle.Service.{normalize_state, transition_model_status}
use xyn_seed.Lifecycle.History.{transition_model_status_inv, transition_model_status-state}
use xyn_seed.Runtime.Workers.{Env}
use xyn_seed.Desk.{
  Workspace, Draft, Job, Desk, ApiError, draft_key, find_draft, put_draft, enforce_access_or_403,
  in_history,
}
use xyn_seed.Drafts.{
  DraftPatchRequest, told, object_of_draft, draft_in, move_draft, patch_title, patch_content,
  patch_draft_status, save_draft, patch_in, draft_status, submitted_job, queue_job, submit_in,
}

-- A principal with a scope passes only in its workspace.
pub enforce_access_scope :
    (p : AccessPrincipal) (required : List String) (w scope : ℕ) (desk desk' : Desk) (u : Unit {0})
    → p.workspace_scope_id ≡ some scope
    → enforce_access_or_403 p required w desk ≡ ok (u, desk')
    → (w ≡ scope) × (desk' ≡ desk)
unfolding enforce_access_or_403
enforce_access_scope p required w scope desk desk' u scoped h = elim (Bool-cases (scope == w)) [
  | inl same ↦ (ground (arith, nat_beq_iff scope w), ground arith)
  | inr other ↦ absurd (
      ground
        (arith, nat_beq_iff scope w, other_workspace_refused p required w scope none true scoped))
]

pub enforce_access_keeps :
    (p : AccessPrincipal) (required : List String) (w : ℕ) (desk desk' : Desk) (u : Unit {0})
    → enforce_access_or_403 p required w desk ≡ ok (u, desk')
    → desk' ≡ desk
unfolding enforce_access_or_403
enforce_access_keeps p required w desk desk' u h = ground arith

pub draft_in_inv :
    (w : Workspace) (draft_id : ℕ) (desk desk' : Desk) (row : Draft)
    → draft_in w draft_id desk ≡ ok (row, desk')
    → (find_draft draft_id desk ≡ some row) × (row.workspace_id ≡ w.id) × (desk' ≡ desk)
unfolding draft_in
draft_in_inv w draft_id desk desk' row h = elim (Option-cases (find_draft draft_id desk)) [
  | inl gone ↦ absurd (ground (arith, gone))
  | inr (q, found) ↦ (
    ground (arith, found),
    ground (arith, found, nat_beq_iff q.workspace_id w.id),
    ground (arith, found),
  )
]

same_parts :
    {row row' : Draft} {job job' : Job} {desk desk' : Desk}
    → ◌≡◌ {A = Result ApiError ((Draft × Job) × Desk)}
        (ok ((row, job), desk))
        (ok ((row', job'), desk'))
    → (row ≡ row') × (job ≡ job') × (desk ≡ desk')
same_parts h = (cc, cc, cc)

module _ (registry : Dict LifecycleDefinition) (env : Env) where
  -- A draft that is moved keeps all but its status, and the step is one of the lifecycle.
  pub move_draft_inv :
      (next_state reason : String) (row row' : Draft) (desk desk' : Desk)
      (def : LifecycleDefinition)
      → get_lifecycle_definition registry "draft" ≡ ok def
      → move_draft registry env next_state reason row desk ≡ ok (row', desk')
      → (row' ≡ record row { status = row'.status })
        × (desk' ≡ record desk { transitions = desk'.transitions })
        × (allows def (normalize_state (some row.status)) row'.status ≡ true)
        × (some row'.status ≡ normalize_state (some next_state))
  unfolding move_draft in_history strip lower
  move_draft_inv next_state reason row row' desk desk' def known h =
      elim (Result-cases (
        transition_model_status registry env.utcnow (object_of_draft env row) "draft" "draft"
          (some next_state) (told none "user" reason []) desk.transitions)) [
            | inr (e, bad) ↦ absurd (ground (arith, bad))
            | inl (((result, obj), rows), moved) ↦
                let (t, grown, from, allowed, status, _) =
                  transition_model_status_inv registry env.utcnow (object_of_draft env row) obj
                    "draft" "draft" (some next_state) (told none "user" reason []) desk.transitions
                    rows result def known moved in
                (
                  ground (arith, moved, status),
                  ground (arith, moved),
                  ground (arith, moved, status, from, allowed),
                  ground (
                    arith,
                    moved,
                    transition_model_status-state registry env.utcnow (object_of_draft env row) obj
                        "draft" "draft" (some next_state) (told none "user" reason [])
                        desk.transitions rows result moved,
                  ),
                )
          ]

  patch_title_inv :
      (title : Option String) (row row' : Draft) (desk desk' : Desk)
      → patch_title title row desk ≡ ok (row', desk')
      → (row' ≡ record row { title = row'.title }) × (desk' ≡ desk)
  patch_title_inv none row row' desk desk' h = (ground arith, ground arith)
  patch_title_inv (some title) row row' desk desk' h = (ground arith, ground arith)

  patch_draft_status_inv :
      (status : Option String) (row row' : Draft) (desk desk' : Desk) (def : LifecycleDefinition)
      → get_lifecycle_definition registry "draft" ≡ ok def
      → patch_draft_status registry env status row desk ≡ ok (row', desk')
      → (row' ≡ record row { status = row'.status })
        × (desk' ≡ record desk { transitions = desk'.transitions })
        × ((row'.status ≡ row.status)
            ⊎ (allows def (normalize_state (some row.status)) row'.status ≡ true))
  patch_draft_status_inv none row row' desk desk' def known h =
      (ground arith, ground arith, inl (ground arith))
  patch_draft_status_inv (some status) row row' desk desk' def known h =
      let next = lower (strip status) in
      let (u, desk₁, checked, moved) =
        >>=-eq-ok (draft_status next)
          (λ _. move_draft registry env next "Draft status updated via patch." row) desk h in
      let (same, kept, allowed, _) =
        move_draft_inv next "Draft status updated via patch." row row' desk₁ desk' def known
          moved in
      (same, ground (arith, checked), inr allowed)

  patch_content_keeps :
      (content : Option (Dict Json)) (row : Draft)
      → ((patch_content content row).id ≡ row.id)
        × ((patch_content content row).workspace_id ≡ row.workspace_id)
        × ((patch_content content row).status ≡ row.status)
  patch_content_keeps none row = (refl, refl, refl)
  patch_content_keeps (some content) row = (refl, refl, refl)

  pub save_draft_inv :
      (row row' : Draft) (desk desk' : Desk)
      → save_draft env row desk ≡ ok (row', desk')
      → (row'.id ≡ row.id)
        × (row'.workspace_id ≡ row.workspace_id)
        × (row'.status ≡ row.status)
        × (desk' ≡ put_draft row' desk)
  unfolding save_draft put_draft
  save_draft_inv row row' desk desk' h = (ground arith, ground arith, ground arith, ground arith)

  pub patch_in_inv :
      (p : AccessPrincipal) (draft_id : ℕ) (payload : DraftPatchRequest) (w : Workspace)
      (desk desk' : Desk) (row' : Draft) (def : LifecycleDefinition)
      → get_lifecycle_definition registry "draft" ≡ ok def
      → patch_in registry env p draft_id payload w desk ≡ ok (row', desk')
      → (u : Unit {0}) × (entered : Desk) × (row : Draft) × (enforce_access_or_403 p
            (cap_campaigns_manage ∷ [])
            w.id
            desk
          ≡ ok (u, entered))
        × (find_draft draft_id desk ≡ some row)
        × (row.workspace_id ≡ w.id)
        × (row'.id ≡ row.id)
        × (row'.workspace_id ≡ row.workspace_id)
        × (desk'.drafts ≡ save draft_key row' desk.drafts)
        × (desk'.jobs ≡ desk.jobs)
        × ((row'.status ≡ row.status)
            ⊎ (allows def (normalize_state (some row.status)) row'.status ≡ true))
  unfolding patch_in put_draft
  patch_in_inv p draft_id payload w desk desk' row' def known h =
      let (u, desk₁, entered, h₁) =
        >>=-eq-ok (enforce_access_or_403 p (cap_campaigns_manage ∷ []) w.id) _ desk h in
      let (row, desk₂, found, h₂) = >>=-eq-ok (draft_in w draft_id) _ desk₁ h₁ in
      let (titled, desk₃, named, h₃) = >>=-eq-ok (patch_title payload.title row) _ desk₂ h₂ in
      let content = patch_content payload.content_json titled in
      let (moved, desk₄, stepped, h₄) =
        >>=-eq-ok (patch_draft_status registry env payload.status content) _ desk₃ h₃ in
      let e₁ : desk₁ ≡ desk =
        enforce_access_keeps p (cap_campaigns_manage ∷ []) w.id desk desk₁ u entered in
      let (there, inside, e₂) = draft_in_inv w draft_id desk₁ desk₂ row found in
      let (t, e₃) = patch_title_inv payload.title row titled desk₂ desk₃ named in
      let (cid, cws, cst) = patch_content_keeps payload.content_json titled in
      let (m, e₄, status) =
        patch_draft_status_inv payload.status content moved desk₃ desk₄ def known stepped in
      let (sid, sws, sst, e₅) = save_draft_inv moved row' desk₄ desk' h₄ in
      let e : desk₃ ≡ desk = e₃ ∙ e₂ ∙ e₁ in
      let old : content.status ≡ row.status = cst ∙ ap (λ (d : Draft). d.status) t in
      (
        u,
        desk₁,
        row,
        entered,
        ap (find_draft draft_id) (sym e₁) ∙ there,
        inside,
        sid ∙ ap (λ (d : Draft). d.id) m ∙ cid ∙ ap (λ (d : Draft). d.id) t,
        sws ∙ ap (λ (d : Draft). d.workspace_id) m ∙ cws ∙ ap (λ (d : Draft). d.workspace_id) t,
        ap (λ (d : Desk). d.drafts) e₅
            ∙ ap (save draft_key row') (
                ap (λ (d : Desk). d.drafts)
                  (e₄ ∙ ap (λ (d : Desk). record d { transitions = desk₄.transitions }) e)),
        ap (λ (d : Desk). d.jobs) e₅
            ∙ ap (λ (d : Desk). d.jobs)
                (e₄ ∙ ap (λ (d : Desk). record d { transitions = desk₄.transitions }) e),
        (elim status [
          | inl kept ↦ inl (sst ∙ kept ∙ old)
          | inr allowed ↦ inr (
              ap (λ x. allows def (normalize_state (some x)) row'.status) (sym old)
              ∙ ap (allows def (normalize_state (some content.status))) sst
              ∙ allowed)
        ]),
      )

  pub queue_job_inv :
      (w : Workspace) (row : Draft) (desk desk' : Desk) (job : Job)
      → queue_job registry env w row desk ≡ ok (job, desk')
      → (job ≡ submitted_job env w row desk.next_uuid)
        × (desk'.jobs ≡ desk.jobs ++ job ∷ [])
        × (desk'.drafts ≡ desk.drafts)
  unfolding queue_job in_history
  queue_job_inv w row desk desk' job h = (ground arith, ground arith, ground arith)

  pub submit_in_inv :
      (p : AccessPrincipal) (draft_id : ℕ) (w : Workspace) (desk desk' : Desk) (row' : Draft)
      (job : Job) (def : LifecycleDefinition)
      → get_lifecycle_definition registry "draft" ≡ ok def
      → submit_in registry env p draft_id w desk ≡ ok ((row', job), desk')
      → (u : Unit {0}) × (entered : Desk) × (row : Draft) × (enforce_access_or_403 p
            (cap_campaigns_manage ∷ [])
            w.id
            desk
          ≡ ok (u, entered))
        × (find_draft draft_id desk ≡ some row)
        × (row.workspace_id ≡ w.id)
        × (row'.id ≡ row.id)
        × (row'.workspace_id ≡ row.workspace_id)
        × (desk'.drafts ≡ save draft_key row' desk.drafts)
        × (job ≡ submitted_job env w row' job.id)
        × (desk'.jobs ≡ desk.jobs ++ job ∷ [])
        × (allows def (normalize_state (some row.status)) row'.status ≡ true)
        × (some row'.status ≡ normalize_state (some "submitted"))
  unfolding submit_in put_draft
  submit_in_inv p draft_id w desk desk' row' job def known h =
      let (u, desk₁, entered, h₁) =
        >>=-eq-ok (enforce_access_or_403 p (cap_campaigns_manage ∷ []) w.id) _ desk h in
      let (row, desk₂, found, h₂) = >>=-eq-ok (draft_in w draft_id) _ desk₁ h₁ in
      let (moved, desk₃, stepped, h₃) =
        >>=-eq-ok (move_draft registry env "submitted" "Draft submitted." row) _ desk₂ h₂ in
      let (saved, desk₄, written, h₄) = >>=-eq-ok (save_draft env moved) _ desk₃ h₃ in
      let (queued, desk₅, added, h₅) = >>=-eq-ok (queue_job registry env w saved) _ desk₄ h₄ in
      let (se, qe, de) = same_parts h₅ in
      let e₁ : desk₁ ≡ desk =
        enforce_access_keeps p (cap_campaigns_manage ∷ []) w.id desk desk₁ u entered in
      let (there, inside, e₂) = draft_in_inv w draft_id desk₁ desk₂ row found in
      let (m, e₃, allowed, state) =
        move_draft_inv "submitted" "Draft submitted." row moved desk₂ desk₃ def known stepped in
      let (sid, sws, sst, e₄) = save_draft_inv moved saved desk₃ desk₄ written in
      let (qrow, qjobs, qdrafts) = queue_job_inv w saved desk₄ desk₅ queued added in
      let e : desk₃ ≡ record desk { transitions = desk₃.transitions } =
        e₃ ∙ ap (λ (d : Desk). record d { transitions = desk₃.transitions }) (e₂ ∙ e₁) in
      let status : row'.status ≡ moved.status = ap (λ (d : Draft). d.status) (sym se) ∙ sst in
      (
        u,
        desk₁,
        row,
        entered,
        ap (find_draft draft_id) (sym e₁) ∙ there,
        inside,
        ap (λ (d : Draft). d.id) (sym se) ∙ sid ∙ ap (λ (d : Draft). d.id) m,
        ap (λ (d : Draft). d.workspace_id) (sym se) ∙ sws ∙ ap (λ (d : Draft). d.workspace_id) m,
        ap (λ (d : Desk). d.drafts) (sym de)
            ∙ qdrafts
            ∙ ap (λ (d : Desk). d.drafts) e₄
            ∙ ap (save draft_key saved) (ap (λ (d : Desk). d.drafts) e)
            ∙ ap (λ r. save draft_key r desk.drafts) se,
        sym qe
            ∙ qrow
            ∙ ap (submitted_job env w saved) (sym (ap (λ (j : Job). j.id) qrow))
            ∙ ap (λ r. submitted_job env w r queued.id) se
            ∙ ap (λ (j : Job). submitted_job env w row' j.id) qe,
        ap (λ (d : Desk). d.jobs) (sym de)
            ∙ qjobs
            ∙ ap (λ js. js ++ queued ∷ [])
                (ap (λ (d : Desk). d.jobs) e₄ ∙ ap (λ (d : Desk). d.jobs) e)
            ∙ ap (λ j. desk.jobs ++ j ∷ []) qe,
        ap (allows def (normalize_state (some row.status))) status ∙ allowed,
        ap some status ∙ state,
      )
