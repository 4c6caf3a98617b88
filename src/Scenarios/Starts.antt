-- ===== src/Scenarios/Starts.antt =====
-- The sessions of RunStates are reached; the theorems on reachable sessions and on dispatches.
use xyn_seed.Base.{String, true, none, some, ◌≡◌, refl, arith, All, eq_iff}
use xyn_seed.Base.Sort.{sort}
use xyn_seed.Base.Table.{lookup, save}
use xyn_seed.Base.Text.{strip}
use xyn_seed.Models.{Run, RunStatus, empty_db}
use xyn_seed.Runtime.Dispatch.{
  is_dispatchable, run_precedes, queued_runs, accepting_driver, idle_worker, assign_run,
  try_dispatch, dispatch_loop, dispatch_queued_run,
}
use xyn_seed.Runtime.Dispatch.Choice.{
  StartsFirst, dispatch_queued_run-StartsFirst, dispatch_none_available,
}
use xyn_seed.Runtime.Dispatch.Selection.{available_worker}
use xyn_seed.Runtime.Events.{publish_runtime_event}
use xyn_seed.Runtime.Moves.{registers, submits, dispatches, Reach, stay, step}
use xyn_seed.Runtime.Moves.Safety.{active_run_is_running, one_worker_per_run}
use xyn_seed.Runtime.Runs.{submit_runtime_run, create_runtime_run, runtime_run, validated_payload}
use xyn_seed.Runtime.Session.{find_run, put_run, save_run, change_run_status, busy_worker, publish}
use xyn_seed.Runtime.Status.{enter_run_status, transition_run_status}
use xyn_seed.Runtime.Workers.{
  register_worker, find_worker, save_worker, update_worker, mark_worker_busy, get_worker_driver,
  can_accept, list_healthy_workers, is_healthy,
}
use xyn_seed.Scenarios.RunStates.{
  env_at, codex_info, payload_of, with_worker, with_run, with_runs, with_started, run_in,
}

pub started_reached : Reach empty_db with_started
unfolding with_worker with_run with_runs with_started register_worker find_worker lookup
    submit_runtime_run find_run create_runtime_run runtime_run dispatch_queued_run queued_runs
    is_dispatchable run_precedes sort dispatch_loop try_dispatch validated_payload accepting_driver
    get_worker_driver strip can_accept idle_worker list_healthy_workers is_healthy assign_run
    change_run_status transition_run_status save_run busy_worker publish
started_reached =
    step
      (step
        (step (step stay (registers codex_info (ground (arith, eq_iff "w1" "")) refl))
          (submits (env_at 1000) (payload_of 700) "ann" _ refl))
        (submits (env_at 1001) (payload_of 600) "bob" _ refl))
      (dispatches (env_at 1010) 1010 90 _ refl)

active_run_is_running_example :
    (q : Run) × (find_run 700 with_started ≡ some q)
    × (q.status ≡ RunStatus.running)
    × (q.locked_by ≡ some "w1")
unfolding with_worker with_run with_runs with_started register_worker find_worker lookup
    submit_runtime_run find_run create_runtime_run runtime_run dispatch_queued_run queued_runs
    is_dispatchable run_precedes sort dispatch_loop try_dispatch validated_payload accepting_driver
    get_worker_driver strip can_accept idle_worker list_healthy_workers is_healthy assign_run
    change_run_status transition_run_status save_run busy_worker publish mark_worker_busy
    update_worker save_worker save publish_runtime_event put_run enter_run_status
active_run_is_running_example =
    active_run_is_running with_started "w1" _ 700 started_reached refl refl

one_worker_per_run_example : ◌≡◌ {A = String} "w1" "w1"
unfolding with_worker with_run with_runs with_started register_worker find_worker lookup
    submit_runtime_run find_run create_runtime_run runtime_run dispatch_queued_run queued_runs
    is_dispatchable run_precedes sort dispatch_loop try_dispatch validated_payload accepting_driver
    get_worker_driver strip can_accept idle_worker list_healthy_workers is_healthy assign_run
    change_run_status transition_run_status save_run busy_worker publish mark_worker_busy
    update_worker save_worker save publish_runtime_event put_run enter_run_status
one_worker_per_run_example =
    one_worker_per_run with_started "w1" "w1" _ _ 700 started_reached refl refl refl refl

-- The run of id 700 was submitted first, and is started first.
dispatch_queued_run-StartsFirst_example :
    StartsFirst (env_at 1010) 1010 90 with_runs with_started (run_in 700 with_started)
unfolding with_worker with_run with_runs with_started register_worker find_worker lookup
    submit_runtime_run find_run create_runtime_run runtime_run dispatch_queued_run queued_runs
    is_dispatchable run_precedes sort dispatch_loop try_dispatch validated_payload accepting_driver
    get_worker_driver strip can_accept idle_worker list_healthy_workers is_healthy assign_run
    change_run_status transition_run_status save_run busy_worker publish mark_worker_busy
    update_worker save_worker save publish_runtime_event put_run enter_run_status
dispatch_queued_run-StartsFirst_example =
    dispatch_queued_run-StartsFirst (env_at 1010) 1010 90 with_runs with_started
      (run_in 700 with_started) ((ground arith, tt), (tt, tt)) refl

-- The only worker is occupied, so the run of id 600 waits.
dispatch_none_available_example :
    (with_started ≡ with_started)
    × All
        (λ p.
          is_dispatchable p ≡ true → available_worker (env_at 1020) 1020 90 with_started p ≡ none)
        with_started.runs
unfolding with_worker with_run with_runs with_started register_worker find_worker lookup
    submit_runtime_run find_run create_runtime_run runtime_run dispatch_queued_run queued_runs
    is_dispatchable run_precedes sort dispatch_loop try_dispatch validated_payload accepting_driver
    get_worker_driver strip can_accept idle_worker list_healthy_workers is_healthy assign_run
    change_run_status transition_run_status save_run busy_worker publish mark_worker_busy
    update_worker save_worker save publish_runtime_event put_run enter_run_status
dispatch_none_available_example =
    dispatch_none_available (env_at 1020) 1020 90 with_started with_started refl
