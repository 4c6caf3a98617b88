-- ===== src/Runtime/Steps.antt =====
-- core/runtime_execution.py: `report_run_step`.
pub mod Numbering
use xyn_seed.Base.{
  ℕ, suc, ◌+◌, String, Bool, true, false, Option, none, some, List, [], ◌∷◌, ◌++◌, ◌==◌, ◌&&◌,
  nat_eq, string_eq, option_eq, Exec, Result, ok, err, ◌>>=◌, ◌>>◌, pure, lift, if◌then◌else◌,
  is_some, select, leb,
}
use mathlib.Core.List.{head?}
use xyn_seed.Base.Json.{num, uuid, text, opt_text}
use xyn_seed.Base.Order.{compare_numbers, then_by, not_after}
use xyn_seed.Base.Sort.{sort}
use xyn_seed.Base.Table.{save}
use xyn_seed.Models.{Step, StepStatus, step_status_eq, Db}
use xyn_seed.Runtime.Status.{
  Error, invalid_step_status, elem_step_status, step_terminal_statuses, transition_step_status,
}
use xyn_seed.Runtime.Workers.{Env}
use xyn_seed.Runtime.Events.{NewEvent}
use xyn_seed.Runtime.Session.{Session, publish}

abbrev pub step_key_of : Step → ℕ
step_key_of s = s.id

abbrev pub step_status_value : StepStatus → String
step_status_value StepStatus.queued = "queued"
step_status_value StepStatus.created = "created"
step_status_value StepStatus.running = "running"
step_status_value StepStatus.completed = "completed"
step_status_value StepStatus.failed = "failed"
step_status_value StepStatus.skipped = "skipped"

-- `models.StepStatus(status)`.
unfoldable pub step_status_of : String → Result Error StepStatus
step_status_of s =
    if s == "queued"
    then ok StepStatus.queued
    else if s == "created"
    then ok StepStatus.created
    else if s == "running"
    then ok StepStatus.running
    else if s == "completed"
    then ok StepStatus.completed
    else if s == "failed"
    then ok StepStatus.failed
    else if s == "skipped"
    then ok StepStatus.skipped
    else err invalid_step_status

unfoldable pub steps_of_run : ℕ → Db → List Step
steps_of_run run_id db = select (λ (s : Step). s.run_id == run_id) db.steps

-- The step of a key that was reported last: `idx` downwards, then `created_at` downwards.
unfoldable pub latest_with_key : ℕ → String → Db → Option Step
latest_with_key run_id step_key db = head? (
    sort
      (λ (s t : Step).
        not_after
          (then_by (compare_numbers t.idx s.idx) (compare_numbers t.created_at s.created_at)))
      (select (λ (s : Step). s.step_key == some step_key) (steps_of_run run_id db)))

abbrev index_after : ℕ → Option Step → ℕ
index_after sequence_no none = sequence_no
index_after sequence_no (some latest) = latest.idx + 1

unfoldable pub next_idx : ℕ → ℕ → Db → ℕ
next_idx run_id sequence_no db =
    index_after sequence_no
      (head? (sort (λ (s t : Step). leb t.idx s.idx) (steps_of_run run_id db)))

unfoldable pub new_step : Env → ℕ → String → String → ℕ → Db → Step
new_step env run_id step_key label sequence_no db = record {
  id = db.next_uuid;
  run_id = run_id;
  name = step_key;
  idx = next_idx run_id sequence_no db;
  kind = "runtime";
  status = StepStatus.queued;
  error = none;
  step_key = some step_key;
  label = some label;
  summary = none;
  created_at = env.utcnow;
  started_at = none;
  completed_at = none;
}

add_step : Env → ℕ → String → String → ℕ → Session Step
add_step env run_id step_key label sequence_no db =
    let s = new_step env run_id step_key label sequence_no db in
    ok (s, record db { steps = db.steps ++ s ∷ []; next_uuid = suc db.next_uuid })

-- A finished step that is reported as running again gets a new row.
restart_needed : StepStatus → Step → Bool
restart_needed desired step =
    desired == StepStatus.running && elem_step_status step.status step_terminal_statuses

-- The step that the report is about: the last one with its key, or a new one.
unfoldable pub target_step : Env → ℕ → String → String → StepStatus → ℕ → Session Step
unfolding add_step restart_needed
target_step env run_id step_key label desired sequence_no db =
    elim (latest_with_key run_id step_key db) [
      | none ↦ add_step env run_id step_key label sequence_no db
      | some step ↦
          if restart_needed desired step
          then add_step env run_id step_key label sequence_no db
          else ok (step, db)
    ]

unfoldable pub save_step : Step → Session (Unit {0})
save_step s db = ok (tt, record db { steps = save step_key_of s db.steps })

-- The new row: a change of status, or of the summary alone.
unfoldable pub reported_step : Env → StepStatus → Option String → Step → Result Error Step
reported_step env desired summary step =
    if step.status == desired
    then ok (elim summary [ none ↦ step | some s ↦ record step { summary = some s } ])
    else transition_step_status env.utcnow step desired summary

-- Any status but `running` and `completed` is published as a failure.
unfoldable pub step_event_name : StepStatus → String
step_event_name desired =
    if desired == StepStatus.running
    then "run.step.started"
    else if desired == StepStatus.completed
    then "run.step.completed"
    else "run.step.failed"

unfoldable pub step_event : ℕ → String → String → StepStatus → ℕ → Option String → Step → NewEvent
step_event run_id step_key label desired sequence_no summary step = record {
  event_name = step_event_name desired;
  run_id = run_id;
  step_id = some step.id;
  actor = "runtime";
  correlation_id = none;
  fields =
      ("step_id", uuid step.id)
      ∷ ("step_key", text step_key)
      ∷ ("label", text label)
      ∷ ("status", text (step_status_value desired))
      ∷ ("sequence_no", num sequence_no)
      ∷ ("summary", opt_text summary)
      ∷ [];
}

unfoldable pub report_run_step :
    Env → ℕ → String → String → String → ℕ → Option String → Session Step
report_run_step env run_id step_key label status sequence_no summary = do
  desired ← lift (step_status_of status)
  step ← target_step env run_id step_key label desired sequence_no
  step' ← lift (reported_step env desired summary step)
  save_step step'
  publish env (step_event run_id step_key label desired sequence_no summary step')
  pure step'
