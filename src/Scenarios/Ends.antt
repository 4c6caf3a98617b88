-- ===== src/Scenarios/Ends.antt =====
-- The theorems on runs that end, that lose their worker, or that are cancelled, on the sessions of
-- RunStates.
use xyn_seed.Scenarios.Starts.{started_reached}
use xyn_seed.Base.{map, false, none, some, List, [], ◌∷◌, ◌≡◌, refl, arith, err}
use xyn_seed.Base.Members.{Distinct}
use xyn_seed.Base.Sort.{sort}
use xyn_seed.Base.Table.{lookup, save}
use xyn_seed.Base.Text.{strip}
use xyn_seed.Models.{Run, RunStatus, Db, empty_db}
use xyn_seed.Runtime.Api.{cancel_run, cancelled}
use xyn_seed.Runtime.Assignment.{IsConsistent}
use xyn_seed.Runtime.Controls.{request_pause_run, pausing}
use xyn_seed.Runtime.Dispatch.{
  is_dispatchable, run_precedes, queued_runs, accepting_driver, idle_worker, assign_run,
  try_dispatch, dispatch_loop, dispatch_queued_run,
}
use xyn_seed.Runtime.Events.{publish_runtime_event}
use xyn_seed.Runtime.Heartbeats.{
  is_stale, expire_runs, expire_run, stale_result, handle_stale_heartbeats,
}
use xyn_seed.Runtime.Heartbeats.Retries.{
  sweep_leaves_none_stale, Round, lost_rounds, retries_exhausted,
}
use xyn_seed.Runtime.Heartbeats.Sweep.{Sweeps, handle_stale_heartbeats-Sweeps}
use xyn_seed.Runtime.Moves.{completes, pauses, step, begins, moves}
use xyn_seed.Runtime.Moves.Cancelling.{cancel_run_leaves_worker}
use xyn_seed.Runtime.Moves.Finality.{final_runs_stay}
use xyn_seed.Runtime.Moves.Safety.{Reach-IsSound, empty_db-IsSound}
use xyn_seed.Runtime.Moves.Untouched.{Kept}
use xyn_seed.Runtime.Runs.{
  submit_runtime_run, create_runtime_run, runtime_run, validated_payload, complete_run,
}
use xyn_seed.Runtime.Session.{
  run_key, find_run, put_run, save_run, change_run_status, busy_worker, publish, release_worker,
  released, one_run,
}
use xyn_seed.Runtime.Soundness.{IsSound}
use xyn_seed.Runtime.Status.{enter_run_status, transition_run_status, invalid_run_transition}
use xyn_seed.Runtime.Workers.{
  register_worker, find_worker, save_worker, update_worker, mark_worker_busy, mark_worker_idle,
  get_worker_driver, can_accept, list_healthy_workers, is_healthy,
}
use xyn_seed.Scenarios.RunStates.{
  worker_in, env_at, with_worker, with_run, with_runs, with_started, run_in, with_swept,
  with_completed, with_late_pause,
}

Distinct-started : Distinct (map run_key with_started.runs)
unfolding with_worker with_run with_runs with_started register_worker find_worker lookup
    submit_runtime_run find_run create_runtime_run runtime_run dispatch_queued_run queued_runs
    is_dispatchable run_precedes sort dispatch_loop try_dispatch validated_payload accepting_driver
    get_worker_driver strip can_accept idle_worker list_healthy_workers is_healthy assign_run
    change_run_status transition_run_status save_run busy_worker publish mark_worker_busy
    update_worker save_worker save publish_runtime_event put_run enter_run_status
Distinct-started = ((ground arith, tt), (tt, tt))

handle_stale_heartbeats-Sweeps_example : Sweeps (env_at 5000) 5000 90 with_started
handle_stale_heartbeats-Sweeps_example =
    handle_stale_heartbeats-Sweeps (env_at 5000) 5000 90 with_started Distinct-started

sweep_leaves_none_stale_example : is_stale 5000 90 (run_in 700 with_swept) ≡ false
unfolding with_swept with_worker with_run with_runs with_started register_worker find_worker lookup
    submit_runtime_run find_run create_runtime_run runtime_run dispatch_queued_run queued_runs
    is_dispatchable run_precedes sort dispatch_loop try_dispatch validated_payload accepting_driver
    get_worker_driver strip can_accept idle_worker list_healthy_workers is_healthy assign_run
    change_run_status transition_run_status save_run busy_worker publish mark_worker_busy
    update_worker save_worker save publish_runtime_event put_run enter_run_status
    handle_stale_heartbeats is_stale expire_runs expire_run stale_result release_worker released
    mark_worker_idle
sweep_leaves_none_stale_example =
    sweep_leaves_none_stale (env_at 5000) 5000 90 with_started with_swept _ Distinct-started refl
      700 (run_in 700 with_swept) refl

abbrev two_rounds : List Round
two_rounds =
    record { started_at = 1010; swept_at = 1200; worker_id = "w1" }
    ∷ record { started_at = 1210; swept_at = 1400; worker_id = "w1" }
    ∷ []

-- One retry is allowed: after the second loss the run is blocked for a review.
retries_exhausted_example :
    ((lost_rounds (env_at 1000) 90 two_rounds (run_in 700 with_run)).attempt ≡ 2)
    × ((lost_rounds (env_at 1000) 90 two_rounds (run_in 700 with_run)).status ≡ RunStatus.blocked)
unfolding with_run with_worker register_worker find_worker lookup submit_runtime_run find_run
    create_runtime_run runtime_run
retries_exhausted_example =
    retries_exhausted (env_at 1000) 90 two_rounds (run_in 700 with_run) refl (ground arith)
      (ground arith)

completed-IsSound : IsSound with_completed
unfolding with_completed with_worker with_run with_runs with_started register_worker find_worker
    lookup submit_runtime_run find_run create_runtime_run runtime_run dispatch_queued_run
    queued_runs is_dispatchable run_precedes sort dispatch_loop try_dispatch validated_payload
    accepting_driver get_worker_driver strip can_accept idle_worker list_healthy_workers is_healthy
    assign_run change_run_status transition_run_status save_run busy_worker publish mark_worker_busy
    update_worker save_worker save publish_runtime_event put_run enter_run_status complete_run
    one_run release_worker
completed-IsSound =
    Reach-IsSound empty_db with_completed empty_db-IsSound
      (step started_reached (completes (env_at 1050) 700 (some "done") _ refl))

final_runs_stay_example : Kept 700 (run_in 700 with_completed) with_late_pause
unfolding with_late_pause with_completed with_worker with_run with_runs with_started register_worker
    find_worker lookup submit_runtime_run find_run create_runtime_run runtime_run
    dispatch_queued_run queued_runs is_dispatchable run_precedes sort dispatch_loop try_dispatch
    validated_payload accepting_driver get_worker_driver strip can_accept idle_worker
    list_healthy_workers is_healthy assign_run change_run_status transition_run_status save_run
    busy_worker publish mark_worker_busy update_worker save_worker save publish_runtime_event
    put_run enter_run_status complete_run one_run request_pause_run release_worker released
    mark_worker_idle pausing
final_runs_stay_example =
    final_runs_stay with_completed with_late_pause 700 (run_in 700 with_completed)
      (moves begins (pauses (env_at 1060) 700 "ann" _ refl)) completed-IsSound.distinct refl refl

-- The session after a cancellation of the run of id 700 through the API.
abbrev with_cancelled : Db
with_cancelled = put_run (cancelled (run_in 700 with_started)) with_started

cancel_run_leaves_worker_example :
    (q : Run) × (find_run 700 with_started ≡ some q)
    × (find_run 700 with_cancelled ≡ some (record q { status = RunStatus.cancelled }))
    × (find_worker "w1" with_cancelled ≡ some (worker_in "w1" with_started))
    × (IsConsistent with_cancelled → ⊥)
    × (complete_run (env_at 1050) 700 none with_cancelled
        ≡ err (invalid_run_transition RunStatus.cancelled RunStatus.completed))
unfolding cancel_run with_worker with_run with_runs with_started register_worker find_worker lookup
    submit_runtime_run find_run create_runtime_run runtime_run dispatch_queued_run queued_runs
    is_dispatchable run_precedes sort dispatch_loop try_dispatch validated_payload accepting_driver
    get_worker_driver strip can_accept idle_worker list_healthy_workers is_healthy assign_run
    change_run_status transition_run_status save_run busy_worker publish mark_worker_busy
    update_worker save_worker save publish_runtime_event put_run enter_run_status
cancel_run_leaves_worker_example =
    cancel_run_leaves_worker (env_at 1050) 700 none with_started with_cancelled
      (cancelled (run_in 700 with_started)) "w1" (worker_in "w1" with_started) refl refl refl
