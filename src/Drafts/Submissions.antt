-- ===== src/Drafts/Submissions.antt =====
-- A draft is submitted once.
use xyn_seed.Base.{
  ℕ, List, some, [], ◌∷◌, ◌++◌, ◌≡◌, ◌≢◌, refl, arith, ◌==◌, ◌||◌, nat_eq, string_eq, nat_beq_iff,
  eq_iff, Bool-cases, Bool, ap, sym, ◌∙◌, inl, inr, ok, String, true, ◌⊎◌,
}
use xyn_seed.Base.Dict.{Dict, get}
use xyn_seed.Base.Members.{lookup-append}
use xyn_seed.Base.Table.{lookup, save, lookup-save, key_of_lookup}
use xyn_seed.Base.Text.{strip, lower}
use xyn_seed.Access.{AccessPrincipal}
use xyn_seed.Lifecycle.{LifecycleDefinition, get_lifecycle_definition, draft_definition, allows}
use xyn_seed.Lifecycle.Service.{normalize_state}
use xyn_seed.Runtime.Workers.{Env}
use xyn_seed.Desk.{
  Draft, Job, Desk, Context, draft_key, find_draft, ensure_default_workspace, in_workspace,
}
use xyn_seed.Drafts.{
  DraftCreateRequest, DraftPatchRequest, create_in, create_draft, patch_in, patch_draft, submit_in,
  submit_draft,
}
use xyn_seed.Drafts.Steps.{patch_in_inv, submit_in_inv}
use xyn_seed.Drafts.Rows.{create_in_inv, patch_job_in_inv}
use xyn_seed.Drafts.Requests.{
  Request, creates, patches, submits, patches_job, serve, serve_each, ensure_default_workspace-rows,
  in_workspace-cases, in_workspace_ok,
}
use xyn_seed.Jobs.{JobPatchRequest, patch_job, patch_job_in}

-- The states after a submission.
abbrev pub is_past : String → Bool
is_past s = s == "submitted" || s == "archived"

-- From such a state the lifecycle leads only to `archived`.
past_step :
    (s t : String)
    → is_past s ≡ true
    → allows draft_definition (normalize_state (some s)) t ≡ true
    → t ≡ "archived"
unfolding allows normalize_state strip lower get
past_step s t past allowed = elim (Bool-cases (s == "submitted")) [
  | inl e ↦ from_submitted (rw ((eq_iff s "submitted").0 e) at allowed)
  | inr e ↦ from_archived (rw ((eq_iff s "archived").0 (ground (arith, e))) at allowed)
]
  where
    from_submitted :
        allows draft_definition (normalize_state (some "submitted")) t ≡ true → t ≡ "archived"
    from_submitted h = ground (arith, eq_iff t "archived")

    from_archived :
        allows draft_definition (normalize_state (some "archived")) t ≡ true → t ≡ "archived"
    from_archived h = absurd (ground arith)

submitted_state : (s : String) → some s ≡ normalize_state (some "submitted") → s ≡ "submitted"
unfolding normalize_state strip lower
submitted_state s h = cc

-- The draft is there, in such a state.
abbrev pub IsPast : ℕ → Desk → Type 0
IsPast id desk = (row : Draft) × (find_draft id desk ≡ some row) × (is_past row.status ≡ true)

module _ (id : ℕ) (desk desk' : Desk) where
  IsPast-alike : desk'.drafts ≡ desk.drafts → IsPast id desk → IsPast id desk'
  unfolding find_draft
  IsPast-alike same (row, there, past) = (row, ap (lookup draft_key id) same ∙ there, past)

  IsPast-added :
      (new : Draft) → desk'.drafts ≡ desk.drafts ++ new ∷ [] → IsPast id desk → IsPast id desk'
  unfolding find_draft
  IsPast-added new same (row, there, past) = (
    row,
    ap (lookup draft_key id) same
        ∙ ground (arith, lookup-append draft_key id desk.drafts (new ∷ []), there),
    past,
  )

  IsPast-saved :
      (k : ℕ) (old new : Draft)
      → find_draft k desk ≡ some old
      → new.id ≡ old.id
      → desk'.drafts ≡ save draft_key new desk.drafts
      → (is_past old.status ≡ true → is_past new.status ≡ true)
      → IsPast id desk
      → IsPast id desk'
  unfolding find_draft
  IsPast-saved k old new here same saved kept (row, there, past) =
      elim (Bool-cases (new.id == id)) [
        | inr e ↦ (
          row,
          ap (lookup draft_key id) saved
              ∙ ground (arith, lookup-save draft_key new id desk.drafts, e, there),
          past,
        )
        | inl e ↦
            let at : k ≡ id =
              sym (key_of_lookup draft_key k desk.drafts {a = old} here)
              ∙ sym same
              ∙ (nat_beq_iff new.id id).0 e in
            (
              new,
              ap (lookup draft_key id) saved
                  ∙ ground (arith, lookup-save draft_key new id desk.drafts, e, there),
              kept (ground (arith, ap (λ j. lookup draft_key j desk.drafts) at, there, here, past)),
            )
      ]

allowed_past :
    (s t : String)
    → (t ≡ s) ⊎ (allows draft_definition (normalize_state (some s)) t ≡ true)
    → is_past s ≡ true
    → is_past t ≡ true
allowed_past s t (inl same) past = rw same past
allowed_past s t (inr allowed) past = rw (past_step s t past allowed) refl

module _ (registry : Dict LifecycleDefinition)
    (known : get_lifecycle_definition registry "draft" ≡ ok draft_definition) (p : AccessPrincipal)
    (id : ℕ) where
  created-IsPast :
      (env : Env) (ctx : Context) (payload : DraftCreateRequest) (desk : Desk)
      → IsPast id desk
      → IsPast id (in_workspace ctx (create_in registry env p payload) desk).1
  created-IsPast env ctx payload desk past =
      elim (in_workspace-cases ctx (create_in registry env p payload) desk) [
        | inl (d, j) ↦ IsPast-alike id desk _ d past
        | inr (w, base, desk', row, d, j, done, eq) ↦
            let (_, _, _, _, added, _) =
              create_in_inv registry env p payload w base desk' row done in
            rw eq (IsPast-added id base desk' row added (IsPast-alike id desk base d past))
      ]

  patched-IsPast :
      (env : Env) (ctx : Context) (draft_id : ℕ) (payload : DraftPatchRequest) (desk : Desk)
      → IsPast id desk
      → IsPast id (in_workspace ctx (patch_in registry env p draft_id payload) desk).1
  patched-IsPast env ctx draft_id payload desk past =
      elim (in_workspace-cases ctx (patch_in registry env p draft_id payload) desk) [
        | inl (d, j) ↦ IsPast-alike id desk _ d past
        | inr (w, base, desk', row, d, j, done, eq) ↦
            let (_, _, old, _, found, _, same, _, saved, _, status) =
              patch_in_inv registry env p draft_id payload w base desk' row draft_definition known
                done in
            rw eq (
              IsPast-saved id base desk' draft_id old row found same saved
                (allowed_past old.status row.status status) (IsPast-alike id desk base d past))
      ]

  submitted-IsPast :
      (env : Env) (ctx : Context) (draft_id : ℕ) (desk : Desk)
      → IsPast id desk
      → IsPast id (in_workspace ctx (submit_in registry env p draft_id) desk).1
  submitted-IsPast env ctx draft_id desk past =
      elim (in_workspace-cases ctx (submit_in registry env p draft_id) desk) [
        | inl (d, j) ↦ IsPast-alike id desk _ d past
        | inr (w, base, desk', (row, job), d, j, done, eq) ↦
            let (_, _, old, _, found, _, same, _, saved, _, _, status, _) =
              submit_in_inv registry env p draft_id w base desk' row job draft_definition known
                done in
            rw eq (
              IsPast-saved id base desk' draft_id old row found same saved
                (allowed_past old.status row.status (inr status))
                (IsPast-alike id desk base d past))
      ]

  job_patched-IsPast :
      (env : Env) (ctx : Context) (job_id : ℕ) (payload : JobPatchRequest) (desk : Desk)
      → IsPast id desk
      → IsPast id (in_workspace ctx (patch_job_in registry env p job_id payload) desk).1
  job_patched-IsPast env ctx job_id payload desk past =
      elim (in_workspace-cases ctx (patch_job_in registry env p job_id payload) desk) [
        | inl (d, j) ↦ IsPast-alike id desk _ d past
        | inr (w, base, desk', row, d, j, done, eq) ↦
            let (_, _, _, _, _, _, _, _, _, drafts) =
              patch_job_in_inv registry env p job_id payload w base desk' row done in
            rw eq (IsPast-alike id base desk' drafts (IsPast-alike id desk base d past))
      ]

  serve-IsPast : (r : Request) (desk : Desk) → IsPast id desk → IsPast id (serve registry p r desk)
  unfolding serve create_draft patch_draft submit_draft patch_job
  serve-IsPast (creates env ctx payload) desk past =
      let start = (ensure_default_workspace desk).1 in
      created-IsPast env ctx payload start
        (IsPast-alike id desk start (ensure_default_workspace-rows desk).0 past)
  serve-IsPast (patches env ctx draft_id payload) desk past =
      patched-IsPast env ctx draft_id payload desk past
  serve-IsPast (submits env ctx draft_id) desk past = submitted-IsPast env ctx draft_id desk past
  serve-IsPast (patches_job env ctx job_id payload) desk past =
      job_patched-IsPast env ctx job_id payload desk past

serve_each-IsPast :
    (registry : Dict LifecycleDefinition) (id : ℕ)
    → get_lifecycle_definition registry "draft" ≡ ok draft_definition
    → (requests : List (AccessPrincipal × Request)) (desk : Desk) → IsPast id desk
    → IsPast id (serve_each registry requests desk)
unfolding serve_each
serve_each-IsPast registry id known [] desk past = past
serve_each-IsPast registry id known ((p, r) ∷ requests) desk past =
    serve_each-IsPast registry id known requests (serve registry p r desk)
      (serve-IsPast registry known p id r desk past)

module _ (registry : Dict LifecycleDefinition) (env : Env) (p : AccessPrincipal) (ctx : Context)
    (id : ℕ) (desk : Desk)
    (known : get_lifecycle_definition registry "draft" ≡ ok draft_definition) where
  -- A submission that returns leaves the draft submitted.
  submit_draft-IsPast :
      (row : Draft) (job : Job)
      → (submit_draft registry env p ctx id desk).0 ≡ ok (row, job)
      → IsPast id (submit_draft registry env p ctx id desk).1
  unfolding submit_draft find_draft
  submit_draft-IsPast row job h =
      let handler = submit_in registry env p id in
      let (w, base, _, done) = in_workspace_ok ctx handler desk (row, job) h in
      let desk' = (in_workspace ctx handler desk).1 in
      let (_, _, old, _, found, _, same, _, saved, _, _, _, state) =
        submit_in_inv registry env p id w base desk' row job draft_definition known done in
      let at : old.id ≡ id = key_of_lookup draft_key id base.drafts {a = old} found in
      (
        row,
        ap (lookup draft_key id) saved
            ∙ ground (
              arith,
              lookup-save draft_key row id base.drafts,
              same,
              at,
              found,
              nat_beq_iff row.id id,
            ),
        rw (submitted_state row.status state) refl,
      )

  submit_draft_refused :
      (row : Draft) (job : Job)
      → IsPast id desk
      → (submit_draft registry env p ctx id desk).0 ≢ ok (row, job)
  unfolding submit_draft find_draft
  submit_draft_refused row job past h =
      let handler = submit_in registry env p id in
      let (w, base, drafts, done) = in_workspace_ok ctx handler desk (row, job) h in
      let desk' = (in_workspace ctx handler desk).1 in
      let (_, _, old, _, found, _, _, _, _, _, _, allowed, state) =
        submit_in_inv registry env p id w base desk' row job draft_definition known done in
      let (old', there, passed) = IsPast-alike id desk base drafts past in
      let closed : is_past old.status ≡ true = ground (arith, found, there, passed) in
      let last : row.status ≡ "archived" = past_step old.status row.status closed allowed in
      let first : row.status ≡ "submitted" = submitted_state row.status state in
      absurd (ground (arith, eq_iff "submitted" "archived", sym first ∙ last))

-- After a submission of a draft that returned, whatever requests are made, in any order and each by
-- a principal of its own, no later submission of it returns: it is submitted once. Drafts have the lifecycle of
-- core/lifecycle/definitions.py.
pub submit_draft_once :
    (registry : Dict LifecycleDefinition) (env env' : Env) (p p' : AccessPrincipal)
    (ctx ctx' : Context) (id : ℕ) (desk : Desk) (requests : List (AccessPrincipal × Request))
    (row row' : Draft) (job job' : Job)
    → get_lifecycle_definition registry "draft" ≡ ok draft_definition
    → (submit_draft registry env p ctx id desk).0 ≡ ok (row, job)
    → (submit_draft registry env' p' ctx' id
        (serve_each registry requests (submit_draft registry env p ctx id desk).1)).0
      ≢ ok (row', job')
submit_draft_once registry env env' p p' ctx ctx' id desk requests row row' job job' known first =
    let desk' = (submit_draft registry env p ctx id desk).1 in
    submit_draft_refused registry env' p' ctx' id (serve_each registry requests desk') known row'
      job'
      (serve_each-IsPast registry id known requests desk'
        (submit_draft-IsPast registry env p ctx id desk known row job first))
