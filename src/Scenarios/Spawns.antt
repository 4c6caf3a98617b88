-- ===== src/Scenarios/Spawns.antt =====
-- A run of a queue that spawns a child of a key, and waits for a run.
use xyn_seed.Base.{
  String, ℕ, none, some, true, List, [], ◌∷◌, ◌++◌, ◌≡◌, refl, arith, ok, eq_iff, select,
}
use xyn_seed.Base.Table.{lookup, save}
use xyn_seed.Runtime.Session.{find_run, put_run}
use xyn_seed.Queue.Runner.{emit_event, enqueue_run, enqueued, is_owned}
use xyn_seed.Queue.Children.{
  RunGraph, ChildRequest, Spawn, add_child, announce_child, conflicting_edge, existing_edge,
  insert_child, spawn_run, RunEdge, is_child,
}
use xyn_seed.Queue.Spawns.{spawn_run_again, KeysOnce, spawn_run-OneChild}
use xyn_seed.Queue.Waiting.{Moment, Waited, wait_runs, poll_runs, evaluate, all_policy}
use xyn_seed.Queue.Joins.{AllCompleted, wait_runs-AllCompleted}
use xyn_seed.Scenarios.RunStates.{env_at, run_in}
use xyn_seed.Models.{Db, empty_db, RunStatus}

abbrev child_named : String → ChildRequest
child_named blueprint_ref = record {
  blueprint_ref = blueprint_ref;
  inputs = [];
  child_key = some "migrations";
  priority = none;
  run_at = none;
}

unfoldable with_parent : Db
with_parent = (enqueue_run (env_at 100) "slow" [] "ann" (some "c") none 100 none empty_db).1

unfoldable parent_graph : RunGraph
parent_graph = record { db = with_parent; edges = [] }

unfoldable first_spawn : Spawn
first_spawn =
    spawn_run (env_at 115) (λ g. g) none (run_in 0 with_parent) (child_named "migrate") parent_graph

spawn_run_again_example :
    spawn_run
      (env_at 120)
      (λ g. g)
      none
      (run_in 0 with_parent)
      (child_named "other")
      first_spawn.graph
    ≡ record { result = ok 1; graph = first_spawn.graph }
unfolding first_spawn with_parent parent_graph spawn_run existing_edge insert_child conflicting_edge
    add_child announce_child emit_event is_owned enqueue_run enqueued find_run put_run lookup save
spawn_run_again_example =
    spawn_run_again (env_at 115) (env_at 120) (λ g. g) (λ g. g) none none (run_in 0 with_parent)
      (child_named "migrate") (child_named "other") "migrations" parent_graph 1
      (ground (arith, eq_iff "migrations" "")) refl refl (ground (arith, eq_iff "migrations" ""))

spawn_run-OneChild_example :
    ((e : RunEdge) × (select (is_child 0 "migrations") first_spawn.graph.edges ≡ e ∷ [])
      × (e.child_run_id ≡ 1))
    × KeysOnce first_spawn.graph.edges
unfolding first_spawn with_parent parent_graph spawn_run existing_edge insert_child conflicting_edge
    add_child announce_child emit_event is_owned enqueue_run enqueued find_run put_run lookup save
spawn_run-OneChild_example =
    spawn_run-OneChild (env_at 115) (λ g. g) none (run_in 0 with_parent) (child_named "migrate")
      "migrations" parent_graph 1 (ground (arith, eq_iff "migrations" "")) refl
      (λ parent key. omega arith) (λ parent key. omega arith)
      (ground (arith, eq_iff "migrations" ""))

abbrev moment : ℕ → Db → Moment
moment time db = record { env = env_at time; elapsed = time; db = db }

-- The run, completed.
unfoldable with_completed : Db
with_completed =
    put_run (record (run_in 0 with_parent) { status = RunStatus.completed }) with_parent

abbrev waited : Waited
waited = record { completed = 0 ∷ []; failed = []; policy_met = true }

wait_runs-AllCompleted_example :
    (before : List Moment) × (m : Moment) × (after : List Moment) × (moment 1 with_parent
        ∷ moment 2 with_completed
        ∷ []
      ≡ before ++ m ∷ after)
    × (wait_runs none (run_in 0 with_parent) (0 ∷ []) "all" none before ≡ none)
    × AllCompleted (0 ∷ []) m.db.runs
unfolding with_completed with_parent enqueue_run enqueued find_run put_run lookup save wait_runs
    poll_runs evaluate all_policy is_owned
wait_runs-AllCompleted_example =
    wait_runs-AllCompleted none (run_in 0 with_parent) (0 ∷ []) none
      (moment 1 with_parent ∷ moment 2 with_completed ∷ []) waited
      ((λ i. ground arith), ((λ i. ground arith), tt)) (ground arith)
