-- ===== src/Scenarios/Repeats.antt =====
-- The theorems on submissions, retries, pauses and steps, on the sessions of RunStates.
use xyn_seed.Base.{
  ℕ, true, false, Option, none, some, [], ◌∷◌, ◌++◌, ◌≡◌, refl, ok, All, ◌<◌, ◌==◌, nat_eq,
}
use xyn_seed.Base.Sort.{sort}
use xyn_seed.Base.Table.{lookup, save}
use xyn_seed.Base.Text.{strip}
use xyn_seed.Models.{Run, RunStatus, RunPayload, Step, StepStatus, Db, empty_db}
use xyn_seed.Runtime.Api.{continue_runtime_run}
use xyn_seed.Runtime.Controls.{request_pause_run, pause_requested}
use xyn_seed.Runtime.Dispatch.{
  is_dispatchable, run_precedes, queued_runs, accepting_driver, idle_worker, assign_run,
  try_dispatch, dispatch_loop, dispatch_queued_run,
}
use xyn_seed.Runtime.Events.{publish_runtime_event}
use xyn_seed.Runtime.Reruns.{submit_runtime_run_twice, retry_runtime_run_adds, pause_then_continue}
use xyn_seed.Runtime.Runs.{
  submit_runtime_run, create_runtime_run, runtime_run, validated_payload, retry_runtime_run,
  fresh_uuid,
}
use xyn_seed.Runtime.Session.{
  find_run, put_run, save_run, change_run_status, busy_worker, publish, one_run,
}
use xyn_seed.Runtime.Status.{
  enter_run_status, transition_run_status, transition_step_status, enter_step_status,
}
use xyn_seed.Runtime.Steps.{
  report_run_step, step_status_of, target_step, latest_with_key, steps_of_run, new_step, next_idx,
  reported_step, save_step,
}
use xyn_seed.Runtime.Steps.Numbering.{next_idx_later, report_run_step_again}
use xyn_seed.Runtime.Workers.{
  register_worker, find_worker, save_worker, update_worker, mark_worker_busy, get_worker_driver,
  can_accept, list_healthy_workers, is_healthy,
}
use xyn_seed.Scenarios.RunStates.{
  env_at, payload_of, session_of, with_worker, with_run, with_runs, with_started, run_in, with_step,
}

submit_runtime_run_twice_example :
    submit_runtime_run (env_at 2000) (payload_of 700) "bob" with_run
    ≡ ok (run_in 700 with_run, with_run)
unfolding with_run with_worker register_worker find_worker lookup submit_runtime_run find_run
    create_runtime_run runtime_run
submit_runtime_run_twice_example =
    submit_runtime_run_twice (env_at 1000) (env_at 2000) (payload_of 700) "ann" "bob" with_worker
      with_run (run_in 700 with_run) refl

abbrev retried : Db
retried = session_of with_run (retry_runtime_run (env_at 2000) 700 "bob" with_run)

retry_runtime_run_adds_example :
    (q : Run) × (p : RunPayload) × (find_run 700 with_run ≡ some q)
    × (q.prompt_payload ≡ some p)
    × ((run_in 2 retried).prompt_payload ≡ some (record p { run_id = 2 }))
    × ((run_in 2 retried).status ≡ RunStatus.queued)
    × ((run_in 2 retried).attempt ≡ 0)
    × (find_run 2 retried ≡ some (run_in 2 retried))
    × ((r : ℕ) (x : Run) → find_run r with_run ≡ some x → find_run r retried ≡ some x)
unfolding with_run with_worker register_worker find_worker lookup submit_runtime_run find_run
    create_runtime_run runtime_run retry_runtime_run one_run validated_payload fresh_uuid
retry_runtime_run_adds_example =
    retry_runtime_run_adds (env_at 2000) 700 "bob" with_run retried (run_in 2 retried) refl refl

pause_then_continue_example :
    (q₁ q₂ : Run) × (db₁ db₂ : Db) × (request_pause_run (env_at 1005) 700 "ann" with_run
      ≡ ok (q₁, db₁))
    × (is_dispatchable q₁ ≡ false)
    × (pause_requested q₁ ≡ true)
    × (continue_runtime_run (env_at 1006) 700 db₁ ≡ ok (q₂, db₂))
    × (find_run 700 db₂ ≡ some q₂)
    × (is_dispatchable q₂ ≡ is_dispatchable (run_in 700 with_run))
    × (pause_requested q₂ ≡ false)
    × (q₂.prompt_payload ≡ (run_in 700 with_run).prompt_payload)
    × (q₂.attempt ≡ (run_in 700 with_run).attempt)
    × (q₂.locked_by ≡ none)
unfolding with_run with_worker register_worker find_worker lookup submit_runtime_run find_run
    create_runtime_run runtime_run
pause_then_continue_example =
    pause_then_continue (env_at 1005) (env_at 1006) 700 "ann" with_run (run_in 700 with_run) refl
      refl

next_idx_later_example :
    All (λ s. (s.run_id == 700) ≡ true → s.idx < next_idx 700 0 with_step) with_step.steps
next_idx_later_example = next_idx_later 700 0 with_step

abbrev build_step : Option Step → Step
build_step none = new_step (env_at 0) 0 "" "" 0 empty_db
build_step (some s) = s

report_run_step_again_example :
    (t : Step) × (db' : Db) × (report_run_step
        (env_at 1013)
        700
        "build"
        "Build"
        "running"
        0
        none
        with_step
      ≡ ok (t, db'))
    × (db'.steps ≡ with_step.steps ++ t ∷ [])
    × (t.status ≡ StepStatus.running)
    × (t.started_at ≡ some 1013)
    × (t.run_id ≡ 700)
    × (t.step_key ≡ some "build")
    × (t.idx ≡ next_idx 700 0 with_step)
unfolding with_step with_worker with_run with_runs with_started register_worker find_worker lookup
    submit_runtime_run find_run create_runtime_run runtime_run dispatch_queued_run queued_runs
    is_dispatchable run_precedes sort dispatch_loop try_dispatch validated_payload accepting_driver
    get_worker_driver strip can_accept idle_worker list_healthy_workers is_healthy assign_run
    change_run_status transition_run_status save_run busy_worker publish mark_worker_busy
    update_worker save_worker save publish_runtime_event put_run enter_run_status report_run_step
    step_status_of target_step latest_with_key steps_of_run new_step next_idx reported_step
    save_step transition_step_status enter_step_status
report_run_step_again_example =
    report_run_step_again (env_at 1013) 700 "build" "Build" 0 none with_step
      (build_step (latest_with_key 700 "build" with_step)) refl refl refl
