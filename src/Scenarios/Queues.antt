-- ===== src/Scenarios/Queues.antt =====
-- A queue with two runs, and the workers that claim them.
use xyn_seed.Base.{String, false, none, some, [], ◌≡◌, refl, arith, err, eq_iff}
use xyn_seed.Base.Sort.{sort}
use xyn_seed.Base.Table.{lookup, save}
use xyn_seed.Models.{Db, empty_db}
use xyn_seed.Queue.{Worker, is_claimable, claim_precedes, candidates, claimed, claim_all, claim_run}
use xyn_seed.Queue.Claims.{ClaimsFirst, claim_run-ClaimsFirst}
use xyn_seed.Queue.Executions.{WorkerEnd, execute_run_by_worker_raises}
use xyn_seed.Queue.Leases.{claims, lease_protects}
use xyn_seed.Queue.Runner.{QueueError, enqueue_run, enqueued}
use xyn_seed.Queue.Execution.{returned, Blueprint, StatementDriver, execute_run}
use xyn_seed.Runtime.Session.{find_run, put_run}
use xyn_seed.Scenarios.RunStates.{env_at, run_in}

abbrev queue_worker : String → Worker
queue_worker name = record { worker_id = name; lease_duration_seconds = 60; batch_size = 1 }

unfoldable with_one : Db
with_one = (enqueue_run (env_at 100) "slow" [] "ann" none none 100 none empty_db).1

-- The second run has a higher priority.
unfoldable with_two : Db
with_two = (enqueue_run (env_at 101) "fast" [] "ann" (some "c") none 5 none with_one).1

unfoldable with_claim : Db
with_claim = (claim_run (λ run. false) 110 (queue_worker "worker-1") with_two).1

claim_run-ClaimsFirst_example :
    ClaimsFirst
      (λ run. false)
      110
      (queue_worker "worker-1")
      with_two
      (run_in 2 with_claim)
      with_claim
unfolding with_one with_two with_claim enqueue_run enqueued claim_run candidates is_claimable
    claim_precedes claim_all claimed sort find_run put_run lookup save
claim_run-ClaimsFirst_example =
    claim_run-ClaimsFirst (λ run. false) 110 (queue_worker "worker-1") with_two
      (run_in 2 with_claim) with_claim refl ((ground arith, tt), (tt, tt)) refl

-- A driver that sends both statements.
abbrev sending : StatementDriver
sending = record { completion_error = λ outputs. none; failure_error = λ e. none }

-- The other worker claims the run that is left, within the lease of the first one.
lease_protects_example :
    find_run 2 (claim_run (λ run. false) 150 (queue_worker "worker-2") with_claim).1
    ≡ some (run_in 2 with_claim)
unfolding with_one with_two with_claim enqueue_run enqueued claim_run candidates is_claimable
    claim_precedes claim_all claimed sort find_run put_run lookup save
lease_protects_example =
    lease_protects sending 150 170 (queue_worker "worker-2") "worker-1" 2 (run_in 2 with_claim)
      with_claim (claim_run (λ run. false) 150 (queue_worker "worker-2") with_claim).1
      ((ground arith, tt), (tt, tt)) refl refl refl refl (ground arith)
      (ground (arith, eq_iff "worker-1" "worker-2")) (claims (λ run. false) _ _ refl)

abbrev no_work : Blueprint
no_work run db = returned [] db

execute_run_by_worker_raises_example :
    ((e : QueueError) × ((execute_run sending
          (env_at 111)
          (env_at 112)
          (λ name. some no_work)
          (some "worker-1")
          2
          with_claim).result
        ≡ err e))
    × WorkerEnd sending
        (env_at 111)
        (env_at 112)
        (λ name. some no_work)
        "worker-1"
        2
        with_claim
        (execute_run sending
          (env_at 111)
          (env_at 112)
          (λ name. some no_work)
          (some "worker-1")
          2
          with_claim)
execute_run_by_worker_raises_example =
    execute_run_by_worker_raises sending (env_at 111) (env_at 112) (λ name. some no_work) "worker-1"
      2 with_claim (ground (arith, eq_iff "worker-1" ""))
