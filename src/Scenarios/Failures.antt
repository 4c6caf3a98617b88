-- ===== src/Scenarios/Failures.antt =====
-- A failure of the run that the worker "w1" runs, reported by "w1" and by another worker.
use xyn_seed.Base.{none, [], refl, arith, eq_iff}
use xyn_seed.Runtime.Moves.Safety.{Reach-IsSound, empty_db-IsSound}
use xyn_seed.Models.{empty_db}
use xyn_seed.Codex.{ArtifactStore, Bench}
use xyn_seed.Codex.Ends.{EndsWell, TakesRun, ends-IsConsistent, handle_failure-TakesRun}
use xyn_seed.Scenarios.RunStates.{env_at, with_started, run_in, worker_in}
use xyn_seed.Scenarios.Starts.{started_reached}
use xyn_seed.Base.Sort.{sort}
use xyn_seed.Base.Table.{lookup, save}
use xyn_seed.Base.Text.{strip}
use xyn_seed.Runtime.Dispatch.{
  is_dispatchable, run_precedes, queued_runs, accepting_driver, idle_worker, assign_run,
  try_dispatch, dispatch_loop, dispatch_queued_run,
}
use xyn_seed.Runtime.Events.{publish_runtime_event}
use xyn_seed.Runtime.Runs.{submit_runtime_run, create_runtime_run, runtime_run, validated_payload}
use xyn_seed.Runtime.Session.{find_run, put_run, save_run, change_run_status, busy_worker, publish}
use xyn_seed.Runtime.Status.{enter_run_status, transition_run_status}
use xyn_seed.Runtime.Workers.{
  register_worker, find_worker, save_worker, update_worker, mark_worker_busy, get_worker_driver,
  can_accept, list_healthy_workers, is_healthy,
}
use xyn_seed.Scenarios.RunStates.{with_worker, with_run, with_runs}

abbrev store : ArtifactStore
store = record { store_bytes = λ id content. ("key", none); provider = "local" }

abbrev bench : Bench
bench = record { db = with_started; artifacts = [] }

ends-IsConsistent_example :
    EndsWell store
      (env_at 1040)
      700
      "w1"
      "no Codex"
      "worker_crashed"
      ""
      bench
      (run_in 700 with_started)
unfolding with_worker with_run with_runs with_started register_worker find_worker lookup
    submit_runtime_run find_run create_runtime_run runtime_run dispatch_queued_run queued_runs
    is_dispatchable run_precedes sort dispatch_loop try_dispatch validated_payload accepting_driver
    get_worker_driver strip can_accept idle_worker list_healthy_workers is_healthy assign_run
    change_run_status transition_run_status save_run busy_worker publish mark_worker_busy
    update_worker save_worker save publish_runtime_event put_run enter_run_status
ends-IsConsistent_example =
    ends-IsConsistent store (env_at 1040) 700 "w1" "no Codex" "worker_crashed" "" bench
      (run_in 700 with_started) refl
      (Reach-IsSound empty_db with_started empty_db-IsSound started_reached).consistent refl refl

handle_failure-TakesRun_example :
    TakesRun store
      (env_at 1040)
      700
      "w2"
      "w1"
      "no Codex"
      "worker_crashed"
      ""
      bench
      (run_in 700 with_started)
      (worker_in "w1" with_started)
unfolding with_worker with_run with_runs with_started register_worker find_worker lookup
    submit_runtime_run find_run create_runtime_run runtime_run dispatch_queued_run queued_runs
    is_dispatchable run_precedes sort dispatch_loop try_dispatch validated_payload accepting_driver
    get_worker_driver strip can_accept idle_worker list_healthy_workers is_healthy assign_run
    change_run_status transition_run_status save_run busy_worker publish mark_worker_busy
    update_worker save_worker save publish_runtime_event put_run enter_run_status
handle_failure-TakesRun_example =
    handle_failure-TakesRun store (env_at 1040) 700 "w2" "w1" "no Codex" "worker_crashed" "" bench
      (run_in 700 with_started) (worker_in "w1" with_started)
      (λ e. ground (arith, eq_iff "w2" "w1", e)) refl refl refl
