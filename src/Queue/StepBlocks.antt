-- ===== src/Queue/StepBlocks.antt =====
-- core/blueprints/runner.py: `RunContext.step`, the block in which a blueprint runs a step.
use xyn_seed.Base.{
  ℕ, suc, zero, String, Bool, not, Option, none, some, [], ◌∷◌, ◌++◌, ◌==◌, ◌&&◌, nat_eq,
  if◌then◌else◌, any, length, map, Result, ok, err,
}
use xyn_seed.Base.Dict.{Dict}
use xyn_seed.Base.Json.{Json, text, uuid}
use xyn_seed.Models.{Run, Step, StepStatus, Db}
use xyn_seed.Runtime.Workers.{Env}
use xyn_seed.Runtime.Steps.{steps_of_run}
use xyn_seed.Queue.Runner.{QueueError, lost_lease, is_owned, run_event, not_owned_text}
use xyn_seed.Queue.Execution.{error_text, error_type}

-- A session: what it sees, and what it falls back to.
pub record Work : Type 0 where
  pub working : Db
  pub committed : Db

abbrev pub commit : Db → Work
commit db = record { working = db; committed = db }

abbrev pub rollback : Work → Work
rollback s = commit s.committed

-- What a block raises, and the session that it leaves.
pub record Block : Type 0 where
  pub raised : Option QueueError
  pub work : Work

-- The statements inside of the block.
abbrev pub Body : Type 0
Body = Step → Work → Block

abbrev pub created_step : Env → Run → String → String → Db → Step
created_step env run name kind db = record {
  id = db.next_uuid;
  run_id = run.id;
  name = name;
  idx = length (steps_of_run run.id db);
  kind = kind;
  status = StepStatus.created;
  error = none;
  step_key = none;
  label = none;
  summary = none;
  created_at = env.utcnow;
  started_at = none;
  completed_at = none;
}

-- The unique index `uq_steps_run_idx` of the migrations, on the run and the place of a step.
abbrev pub same_place : Step → Step → Bool
same_place s t = s.run_id == t.run_id && s.idx == t.idx

abbrev pub insert_step : Step → Work → Work
insert_step step s = record s {
  working = record s.working {
    steps = s.working.steps ++ step ∷ [];
    next_uuid = suc s.working.next_uuid;
  };
}

-- The attempts that are left: `others` is what other transactions commit before the next one.
unfoldable pub create_step : Env → (Db → Db) → Run → String → String → ℕ → Work → Option Step × Work
create_step env others run name kind zero s = (none, s)
create_step env others run name kind (suc attempts) s =
    let again = create_step env others run name kind attempts (commit (others s.committed)) in
    let step = created_step env run name kind s.working in
    if any (same_place step) s.working.steps then again else (some step, insert_step step s)

-- `emit_event` while a step is open.
unfoldable pub emit_in_step :
    Env → Option String → Run → Step → String → Dict Json → Db → Result QueueError Db
emit_in_step env worker_id run step event_name fields db =
    if is_owned env.utcnow worker_id run.id db
    then ok (record db {
      events =
          db.events
          ++ record (run_event env run event_name fields db.next_uuid) { step_id = some step.id }
            ∷ [];
      next_uuid = suc db.next_uuid;
    })
    else err (lost_lease (not_owned_text env worker_id run))

-- The columns of the row of a step, changed.
unfoldable pub update_step : (Step → Step) → ℕ → Db → Db
update_step change step_id db = record db {
  steps = map (λ (t : Step). if t.id == step_id then change t else t) db.steps;
}

-- A boundary: the ownership test, the row, the event and the commit.
unfoldable pub boundary :
    Env
    → Option String
    → Run
    → Step
    → (Step → Step)
    → String
    → Dict Json
    → Work
    → Result QueueError Work
boundary env worker_id run step change event_name fields s =
    if not (is_owned env.utcnow worker_id run.id s.working)
    then err (lost_lease (not_owned_text env worker_id run))
    else elim (emit_in_step env worker_id run step event_name fields
        (update_step change step.id s.working)) [ ok db ↦ ok (commit db) | err e ↦ err e ]

abbrev pub step_fields : Step → Dict Json
step_fields step = ("step_id", uuid step.id) ∷ ("step_name", text step.name) ∷ []

abbrev pub start_step : ℕ → Step → Step
start_step now t = record t { status = StepStatus.running; started_at = some now }

abbrev pub complete_step : ℕ → Step → Step
complete_step now t = record t { status = StepStatus.completed; completed_at = some now }

abbrev pub fail_step : ℕ → QueueError → Step → Step
fail_step now e t = record t {
  status = StepStatus.failed;
  completed_at = some now;
  error = some (("message", text (error_text e)) ∷ ("type", text (error_type e)) ∷ []);
}

-- The handler `except Exception`: it raises again, and a failure to mark the step rolls back.
unfoldable pub fail_block : Env → Option String → Run → Step → QueueError → Work → Block
fail_block env worker_id run step e s =
    elim (boundary env worker_id run step (fail_step env.utcnow e) "step.failed"
      (step_fields step ++ ("error", text (error_text e)) ∷ []) s) [
        | ok s' ↦ record { raised = some e; work = s' }
        | err lost ↦ record { raised = some e; work = rollback s }
      ]

-- The end of a block whose statements have returned.
unfoldable pub complete_block : Env → Option String → Run → Step → Work → Block
complete_block env worker_id run step s =
    elim (boundary env worker_id run step (complete_step env.utcnow) "step.completed"
      (step_fields step) s) [
        | ok s' ↦ record { raised = none; work = s' }
        | err lost ↦ fail_block env worker_id run step lost s
      ]

unfoldable pub end_block : Env → Option String → Run → Step → Block → Block
end_block env worker_id run step b = elim b.raised [
  | none ↦ complete_block env worker_id run step b.work
  | some e ↦ fail_block env worker_id run step e b.work
]

-- The step that has been created: `env` is its start, `env'` its end.
unfoldable pub run_block : Env → Env → Option String → Run → Step → Body → Work → Block
run_block env env' worker_id run step body s =
    elim (boundary env worker_id run step (start_step env.utcnow) "step.started"
      (step_fields step ++ ("step_kind", text step.kind) ∷ []) s) [
        | ok s' ↦ end_block env' worker_id run step (body step s')
        | err lost ↦ fail_block env worker_id run step lost s
      ]

-- `conflict` is the exception of the unique index, which the third attempt lets through.
unfoldable pub step_block :
    Env → Env → (Db → Db) → QueueError → Option String → Run → String → String → Body → Work → Block
step_block env env' others conflict worker_id run name kind body s =
    let (created, s') = create_step env others run name kind 3 s in
    elim created [
      | none ↦ record { raised = some conflict; work = s' }
      | some step ↦ run_block env env' worker_id run step body s'
    ]
