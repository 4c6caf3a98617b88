-- ===== src/Runtime/Status.antt =====
-- The status machines of core/runtime_execution.py: `RUN_STATUS_TRANSITIONS`,
-- `STEP_STATUS_TRANSITIONS`, `transition_run_status` and `transition_step_status`.
use xyn_seed.Base.{
  ℕ, String, Bool, Option, none, some, List, [], ◌∷◌, any, coalesce, ◌==◌, if◌then◌else◌, Result,
  ok, err,
}
use xyn_seed.Models.{Run, Step, RunStatus, StepStatus, run_status_eq, step_status_eq}

-- The exceptions that the runtime raises.
pub data Error : Type 0 where
  invalid_run_transition : RunStatus → RunStatus → Error
  invalid_step_transition : StepStatus → StepStatus → Error
  no_result_found invalid_payload invalid_step_status no_execution_worker not_assigned
        unknown_artifact_type :
      Error

abbrev pub run_terminal_statuses : List RunStatus
run_terminal_statuses =
    RunStatus.completed ∷ RunStatus.failed ∷ RunStatus.blocked ∷ RunStatus.cancelled ∷ []

abbrev pub step_terminal_statuses : List StepStatus
step_terminal_statuses = StepStatus.completed ∷ StepStatus.failed ∷ []

abbrev pub run_status_transitions : RunStatus → List RunStatus
run_status_transitions RunStatus.queued =
    RunStatus.running ∷ RunStatus.blocked ∷ RunStatus.cancelled ∷ []
run_status_transitions RunStatus.running =
    RunStatus.completed ∷ RunStatus.failed ∷ RunStatus.blocked ∷ RunStatus.cancelled
    ∷ RunStatus.queued ∷ []
run_status_transitions RunStatus.failed = RunStatus.queued ∷ []
run_status_transitions RunStatus.blocked = RunStatus.queued ∷ []
run_status_transitions RunStatus.completed = []
run_status_transitions RunStatus.cancelled = []
run_status_transitions RunStatus.created = RunStatus.running ∷ RunStatus.cancelled ∷ []

abbrev pub step_status_transitions : StepStatus → List StepStatus
step_status_transitions StepStatus.queued = StepStatus.running ∷ StepStatus.failed ∷ []
step_status_transitions StepStatus.created = StepStatus.running ∷ StepStatus.failed ∷ []
step_status_transitions StepStatus.running = StepStatus.completed ∷ StepStatus.failed ∷ []
step_status_transitions StepStatus.completed = []
step_status_transitions StepStatus.failed = []
step_status_transitions StepStatus.skipped = []

abbrev pub elem_run_status : RunStatus → List RunStatus → Bool
elem_run_status s = any (λ t. s == t)

abbrev pub elem_step_status : StepStatus → List StepStatus → Bool
elem_step_status s = any (λ t. s == t)

-- The keyword arguments `summary`, `failure_reason` and `escalation_reason`.
pub record Reasons : Type 0 where
  pub summary : Option String
  pub failure_reason : Option String
  pub escalation_reason : Option String

abbrev pub no_reasons : Reasons
no_reasons = record { summary = none; failure_reason = none; escalation_reason = none }

-- The assignments of `transition_run_status`, once the test has passed.
unfoldable pub enter_run_status : ℕ → RunStatus → Reasons → Run → Run
enter_run_status now next r run = record run {
  status = next;
  started_at =
      if next == RunStatus.running then coalesce run.started_at (some now) else run.started_at;
  completed_at = if elem_run_status next run_terminal_statuses then some now else run.completed_at;
  summary = coalesce r.summary run.summary;
  failure_reason = coalesce r.failure_reason run.failure_reason;
  escalation_reason = coalesce r.escalation_reason run.escalation_reason;
}

unfoldable pub transition_run_status : ℕ → Run → RunStatus → Reasons → Result Error Run
transition_run_status now run next r =
    if elem_run_status next (run_status_transitions run.status)
    then ok (enter_run_status now next r run)
    else err (invalid_run_transition run.status next)

unfoldable pub enter_step_status : ℕ → StepStatus → Option String → Step → Step
enter_step_status now next summary step = record step {
  status = next;
  started_at =
      if next == StepStatus.running then coalesce step.started_at (some now) else step.started_at;
  completed_at =
      if elem_step_status next step_terminal_statuses then some now else step.completed_at;
  summary = coalesce summary step.summary;
}

unfoldable pub transition_step_status : ℕ → Step → StepStatus → Option String → Result Error Step
transition_step_status now step next summary =
    if elem_step_status next (step_status_transitions step.status)
    then ok (enter_step_status now next summary step)
    else err (invalid_step_transition step.status next)
