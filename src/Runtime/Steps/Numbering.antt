-- ===== src/Runtime/Steps/Numbering.antt =====
-- The numbers of the steps of a run, and what is left of a finished step that starts again.
use mathlib.Core.List.{head?}
use xyn_seed.Base.{
  ℕ, suc, ◌<◌, String, Bool, true, Option, none, some, List, [], ◌∷◌, ◌++◌, ◌≡◌, refl, arith, All,
  leb, ◌==◌, nat_eq, nat_beq_iff, ok,
}
use xyn_seed.Base.Members.{All-map, All-of_sort, All-of_select}
use xyn_seed.Base.Sort.{sort}
use xyn_seed.Base.Sorted.{IsOrder, Sorted, sort-Sorted}
use xyn_seed.Base.Table.{lookup, save}
use xyn_seed.Models.{Step, StepStatus, step_status_eq, Db}
use xyn_seed.Runtime.Status.{
  elem_step_status, step_terminal_statuses, transition_step_status, enter_step_status,
}
use xyn_seed.Runtime.Workers.{Env}
use xyn_seed.Runtime.Events.{publish_runtime_event}
use xyn_seed.Runtime.Session.{publish}
use xyn_seed.Runtime.Steps.{
  step_key_of, steps_of_run, next_idx, index_after, latest_with_key, new_step, target_step,
  save_step, reported_step, report_run_step, step_status_of, step_event,
}

abbrev idx_from : Step → Step → Bool
idx_from s t = leb t.idx s.idx

idx_from-IsOrder : IsOrder idx_from
idx_from-IsOrder = record { trans = λ a b c h k. ground arith; total = λ a b h. ground arith }

-- The first of a list that is in order downwards is at least as large as all of it.
below_first :
    (n : ℕ) (ts : List Step) → Sorted idx_from ts → All (λ s. s.idx < index_after n (head? ts)) ts
below_first n [] o = tt
below_first n (t ∷ ts) o = (ground arith, All-map (λ s h. ground arith) ts o.0)

-- A new step of a run comes after all the steps that the run has.
pub next_idx_later :
    (run_id n : ℕ) (db : Db)
    → All (λ s. (s.run_id == run_id) ≡ true → s.idx < next_idx run_id n db) db.steps
unfolding next_idx steps_of_run
next_idx_later run_id n db =
    All-of_select _ (λ (s : Step). s.run_id == run_id) db.steps
      (All-of_sort _ idx_from (steps_of_run run_id db) (
        below_first n (sort idx_from (steps_of_run run_id db))
          (sort-Sorted idx_from-IsOrder (steps_of_run run_id db))))

save_last :
    (s t : Step) (xs : List Step)
    → lookup step_key_of s.id xs ≡ none
    → t.id ≡ s.id
    → save step_key_of t (xs ++ s ∷ []) ≡ xs ++ t ∷ []
unfolding lookup save
save_last s t [] h same = ground (arith, nat_beq_iff s.id t.id)
save_last s t (x ∷ xs) h same =
    ground (arith, save_last s t xs, nat_beq_iff x.id s.id, nat_beq_iff x.id t.id)

-- A finished step whose key is reported as running again keeps its row: a new row is added that is
-- running from now on, with the next number of the run. The next UUID is taken to be no step's.
pub report_run_step_again :
    (env : Env) (run_id : ℕ) (step_key label : String) (n : ℕ) (summary : Option String) (db : Db)
    (old : Step)
    → latest_with_key run_id step_key db ≡ some old
    → elem_step_status old.status step_terminal_statuses ≡ true
    → lookup step_key_of db.next_uuid db.steps ≡ none
    → (t : Step) × (db' : Db) × (report_run_step env run_id step_key label "running" n summary db
        ≡ ok (t, db'))
      × (db'.steps ≡ db.steps ++ t ∷ [])
      × (t.status ≡ StepStatus.running)
      × (t.started_at ≡ some env.utcnow)
      × (t.run_id ≡ run_id)
      × (t.step_key ≡ some step_key)
      × (t.idx ≡ next_idx run_id n db)
unfolding report_run_step step_status_of target_step save_step publish publish_runtime_event
    reported_step transition_step_status enter_step_status new_step
report_run_step_again env run_id step_key label n summary db old found finished fresh =
    let s = new_step env run_id step_key label n db in
    let t = enter_step_status env.utcnow StepStatus.running summary s in
    let added = record db { steps = db.steps ++ t ∷ []; next_uuid = suc db.next_uuid } in
    let e = step_event run_id step_key label StepStatus.running n summary t in
    (
      t,
      publish_runtime_event env.utcnow e added,
      ground (arith, save_last s t db.steps),
      refl,
      refl,
      refl,
      refl,
      refl,
      refl,
    )
