-- ===== src/Scenarios/Blocks.antt =====
-- A run of a worker, its lease, and a step in it.
use xyn_seed.Base.{ℕ, none, some, [], ◌∷◌, ◌++◌, ◌≡◌, ◌≢◌, refl, arith, ok, err, Result, eq_iff}
use xyn_seed.Base.Table.{lookup, save}
use xyn_seed.Base.Json.{text}
use xyn_seed.Models.{Db, RunStatus, Step, empty_db}
use xyn_seed.Runtime.Session.{find_run, put_run}
use xyn_seed.Runtime.Steps.{steps_of_run}
use xyn_seed.Queue.Runner.{enqueue_run, enqueued, is_owned, blueprint_failed, QueueError}
use xyn_seed.Queue.StepBlocks.{
  Work, Block, Body, commit, created_step, insert_step, step_fields, create_step, boundary,
  start_step, emit_in_step, update_step, fail_block, complete_block, end_block, run_block,
  step_block,
}
use xyn_seed.Queue.StepEnds.{Completes, step_block_lost, step_block-Completes}
use xyn_seed.Scenarios.RunStates.{env_at, run_in}

-- The lease ends at 200.
unfoldable with_lease : Db
with_lease =
    let made = enqueue_run (env_at 100) "slow" [] "ann" (some "c") none 100 none empty_db in
    put_run
      (record made.0 {
        status = RunStatus.running;
        locked_by = some "worker-1";
        lease_expires_at = some 200;
      })
      made.1

abbrev nothing_done : Body
nothing_done step s = record { raised = none; work = s }

abbrev conflict : QueueError
conflict = blueprint_failed "IntegrityError" "duplicate key"

abbrev block_until : ℕ → Block
block_until time =
    step_block (env_at 150) (env_at time) (λ db. db) conflict (some "worker-1")
      (run_in 0 with_lease) "build" "action_task" nothing_done (commit with_lease)

step_block-Completes_example :
    Completes
      (env_at 150)
      (env_at 180)
      (λ db. db)
      (some "worker-1")
      (run_in 0 with_lease)
      "build"
      "action_task"
      nothing_done
      (commit with_lease)
      (block_until 180).work
unfolding with_lease enqueue_run enqueued find_run put_run lookup save step_block create_step
    steps_of_run run_block boundary is_owned emit_in_step update_step end_block complete_block
    fail_block
step_block-Completes_example =
    step_block-Completes (env_at 150) (env_at 180) (λ db. db) conflict (some "worker-1")
      (run_in 0 with_lease) "build" "action_task" nothing_done (commit with_lease)
      (ground (arith, eq_iff "worker-1" ""))

abbrev build_step : Step
build_step = created_step (env_at 150) (run_in 0 with_lease) "build" "action_task" with_lease

abbrev work_or : Work → Result QueueError Work → Work
work_or s (ok t) = t
work_or s (err e) = s

-- The session after the start of the step.
abbrev begun : Work
begun = work_or (commit with_lease) (
    boundary (env_at 150) (some "worker-1") (run_in 0 with_lease) build_step (start_step 150)
      "step.started" (step_fields build_step ++ ("step_kind", text "action_task") ∷ [])
      (insert_step build_step (commit with_lease)))

step_block_lost_example :
    ((block_until 250).raised ≢ none) × ((block_until 250).work ≡ commit begun.committed)
unfolding with_lease enqueue_run enqueued find_run put_run lookup save create_step steps_of_run
    boundary is_owned emit_in_step update_step
step_block_lost_example =
    step_block_lost (env_at 150) (env_at 250) (λ db. db) conflict (some "worker-1")
      (run_in 0 with_lease) "build" "action_task" nothing_done (commit with_lease)
      (insert_step build_step (commit with_lease)) begun build_step refl
      (ground (arith, eq_iff "worker-1" "")) (ground (arith, eq_iff "worker-1" ""))
