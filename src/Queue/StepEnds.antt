-- ===== src/Queue/StepEnds.antt =====
-- How the block of a step ends.
use xyn_seed.Base.{
  ℕ, String, true, false, Option, none, some, [], ◌∷◌, ◌++◌, ◌≡◌, ◌≢◌, refl, arith, ok, nat_eq,
  Option-cases, Result-cases, Bool-cases, inl, inr,
}
use xyn_seed.Base.Dict.{Dict}
use xyn_seed.Base.Json.{Json, text}
use xyn_seed.Models.{Run, Step, Db}
use xyn_seed.Runtime.Workers.{Env}
use xyn_seed.Runtime.Session.{find_run}
use xyn_seed.Queue.Runner.{QueueError, is_owned}
use xyn_seed.Queue.StepBlocks.{
  Work, Block, Body, commit, create_step, emit_in_step, update_step, boundary, step_fields,
  start_step, complete_step, fail_block, complete_block, end_block, run_block, step_block,
}

-- Changing a step does not change who owns the run.
is_owned-update_step :
    (now : ℕ) (worker_id : Option String) (run_id : ℕ) (change : Step → Step) (id : ℕ) (db : Db)
    → is_owned now worker_id run_id (update_step change id db) ≡ is_owned now worker_id run_id db
unfolding is_owned update_step find_run
is_owned-update_step now none run_id change id db = refl
is_owned-update_step now (some w) run_id change id db = refl

boundary_lost :
    (env : Env) (worker_id : Option String) (run : Run) (step : Step) (change : Step → Step)
    (event_name : String) (fields : Dict Json) (s s' : Work)
    → is_owned env.utcnow worker_id run.id s.working ≡ false
    → boundary env worker_id run step change event_name fields s ≢ ok s'
unfolding boundary
boundary_lost env worker_id run step change event_name fields s s' lost h = ground (arith, lost)

-- A boundary that is passed is owned, and commits the change of the row.
boundary_passed :
    (env : Env) (worker_id : Option String) (run : Run) (step : Step) (change : Step → Step)
    (event_name : String) (fields : Dict Json) (s s' : Work)
    → boundary env worker_id run step change event_name fields s ≡ ok s'
    → (is_owned env.utcnow worker_id run.id s.working ≡ true)
      × (s' ≡ commit s'.committed)
      × (s'.committed.steps ≡ (update_step change step.id s.working).steps)
unfolding boundary emit_in_step
boundary_passed env worker_id run step change event_name fields s s' h =
    elim (Bool-cases (is_owned env.utcnow worker_id run.id s.working)) [
      | inr lost ↦ absurd (ground (arith, lost))
      | inl owned ↦
          let same = is_owned-update_step env.utcnow worker_id run.id change step.id s.working in
          (owned, ground (arith, owned, same), ground (arith, owned, same))
    ]

fail_block-raised :
    (env : Env) (worker_id : Option String) (run : Run) (step : Step) (e : QueueError) (s : Work)
    → (fail_block env worker_id run step e s).raised ≡ some e
unfolding fail_block
fail_block-raised env worker_id run step e s = ground arith

fail_block_lost :
    (env : Env) (worker_id : Option String) (run : Run) (step : Step) (e : QueueError) (s : Work)
    → is_owned env.utcnow worker_id run.id s.working ≡ false
    → (fail_block env worker_id run step e s).work ≡ commit s.committed
unfolding fail_block boundary
fail_block_lost env worker_id run step e s lost = ground (arith, lost)

-- Without the lease the end of a block raises and falls back to what was committed.
end_block_lost :
    (env : Env) (worker_id : Option String) (run : Run) (step : Step) (b : Block)
    → is_owned env.utcnow worker_id run.id b.work.working ≡ false
    → ((end_block env worker_id run step b).raised ≢ none)
      × ((end_block env worker_id run step b).work ≡ commit b.work.committed)
unfolding end_block complete_block fail_block boundary
end_block_lost env worker_id run step b lost = elim (Option-cases b.raised) [
  | inl returned ↦ ((λ h. ground (arith, returned, lost)), ground (arith, returned, lost))
  | inr (e, threw) ↦ ((λ h. ground (arith, threw, lost)), ground (arith, threw, lost))
]

-- A block whose worker has lost the run by the time that its statements end raises, however they
-- end, and leaves the session as it was last committed: the step is not marked, and no event is
-- written. The step had been created and started.
pub step_block_lost :
    (env env' : Env) (others : Db → Db) (conflict : QueueError) (worker_id : Option String)
    (run : Run) (name kind : String) (body : Body) (s s₁ s₂ : Work) (step : Step)
    → create_step env others run name kind 3 s ≡ (some step, s₁)
    → boundary env worker_id run step
        (start_step env.utcnow)
        "step.started"
        (step_fields step ++ ("step_kind", text step.kind) ∷ [])
        s₁
      ≡ ok s₂
    → is_owned env'.utcnow worker_id run.id (body step s₂).work.working ≡ false
    → ((step_block env env' others conflict worker_id run name kind body s).raised ≢ none)
      × ((step_block env env' others conflict worker_id run name kind body s).work
          ≡ commit (body step s₂).work.committed)
unfolding step_block run_block
step_block_lost env env' others conflict worker_id run name kind body s s₁ s₂ step made begun lost =
    let ends = end_block_lost env' worker_id run step (body step s₂) lost in
    let runs : step_block env env' others conflict worker_id run name kind body s
        ≡ end_block env' worker_id run step (body step s₂) =
      ground (arith, made, begun) in
    rw runs ends

-- How a block that raises nothing has gone: its step was created and started, its statements
-- raised nothing, the worker owned the run at the end, and the completed step is committed.
abbrev pub Completes :
    Env → Env → (Db → Db) → Option String → Run → String → String → Body → Work → Work → Type 0
Completes env env' others worker_id run name kind body s final =
    (step : Step) × (s₁ : Work) × (s₂ : Work) × (create_step env others run name kind 3 s
      ≡ (some step, s₁))
    × (boundary env worker_id run step (start_step env.utcnow) "step.started"
          (step_fields step ++ ("step_kind", text step.kind) ∷ []) s₁
        ≡ ok s₂)
    × ((body step s₂).raised ≡ none)
    × (is_owned env'.utcnow worker_id run.id (body step s₂).work.working ≡ true)
    × (final ≡ commit final.committed)
    × (final.committed.steps
        ≡ (update_step (complete_step env'.utcnow) step.id (body step s₂).work.working).steps)

complete_block-passed :
    (env : Env) (worker_id : Option String) (run : Run) (step : Step) (s : Work)
    → (complete_block env worker_id run step s).raised ≡ none
    → boundary env worker_id run step
        (complete_step env.utcnow)
        "step.completed"
        (step_fields step)
        s
      ≡ ok (complete_block env worker_id run step s).work
unfolding complete_block
complete_block-passed env worker_id run step s h =
    elim (Result-cases (
      boundary env worker_id run step (complete_step env.utcnow) "step.completed" (step_fields step)
        s)) [
          | inl (t, passed) ↦ ground (arith, passed)
          | inr (e, stopped) ↦
              absurd (ground (arith, stopped, fail_block-raised env worker_id run step e s))
        ]

end_block-passed :
    (env : Env) (worker_id : Option String) (run : Run) (step : Step) (b : Block)
    → (end_block env worker_id run step b).raised ≡ none
    → (b.raised ≡ none)
      × (end_block env worker_id run step b ≡ complete_block env worker_id run step b.work)
unfolding end_block
end_block-passed env worker_id run step b h = elim (Option-cases b.raised) [
  | inl returned ↦ (returned, ground (arith, returned))
  | inr (e, threw) ↦
      absurd (ground (arith, threw, fail_block-raised env worker_id run step e b.work))
]

run_block-passed :
    (env env' : Env) (worker_id : Option String) (run : Run) (step : Step) (body : Body) (s : Work)
    → (run_block env env' worker_id run step body s).raised ≡ none
    → (t : Work) × (boundary env worker_id run step
          (start_step env.utcnow)
          "step.started"
          (step_fields step ++ ("step_kind", text step.kind) ∷ [])
          s
        ≡ ok t)
      × (run_block env env' worker_id run step body s
          ≡ end_block env' worker_id run step (body step t))
unfolding run_block
run_block-passed env env' worker_id run step body s h =
    elim (Result-cases (
      boundary env worker_id run step (start_step env.utcnow) "step.started"
        (step_fields step ++ ("step_kind", text step.kind) ∷ []) s)) [
          | inl (t, begun) ↦ (t, begun, ground (arith, begun))
          | inr (e, stopped) ↦
              absurd (ground (arith, stopped, fail_block-raised env worker_id run step e s))
        ]

-- A block returns only when its step was created and started, its statements raised nothing and
-- the worker owned the run at the end; the row is then committed as completed. This is so for any
-- statements, and whatever other transactions commit between the attempts to create the step.
pub step_block-Completes :
    (env env' : Env) (others : Db → Db) (conflict : QueueError) (worker_id : Option String)
    (run : Run) (name kind : String) (body : Body) (s : Work)
    → (step_block env env' others conflict worker_id run name kind body s).raised ≡ none
    → Completes env env' others worker_id run name kind body s
        (step_block env env' others conflict worker_id run name kind body s).work
unfolding step_block
step_block-Completes env env' others conflict worker_id run name kind body s h =
    let (created, s₁) = create_step env others run name kind 3 s in
    elim (Option-cases created) [
      | inl refused ↦ absurd (ground (arith, refused))
      | inr (step, made) ↦
          let there : step_block env env' others conflict worker_id run name kind body s
              ≡ run_block env env' worker_id run step body s₁ =
            ground (arith, made) in
          let (s₂, begun, runs) =
            run_block-passed env env' worker_id run step body s₁ (rw (← there) h) in
          let b = body step s₂ in
          let (returned, ends) =
            end_block-passed env' worker_id run step b (rw (← runs, ← there) h) in
          let passed =
            complete_block-passed env' worker_id run step b.work (rw (← ends, ← runs, ← there) h) in
          let (owned, final, row) =
            boundary_passed env' worker_id run step (complete_step env'.utcnow) "step.completed"
              (step_fields step) b.work _ passed in
          rw (there, runs, ends)
            (step, s₁, s₂, ground (arith, made), begun, returned, owned, final, row)
    ]
