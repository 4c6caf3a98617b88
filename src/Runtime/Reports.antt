-- ===== src/Runtime/Reports.antt =====
-- Heartbeats and reports of steps keep the workers and the runs consistent.
use xyn_seed.Base.{
  ℕ, String, Option, some, ◌==◌, ◌≡◌, arith, refl, ok, nat_eq, string_eq, ◌⊎◌, inl, inr, Bool-cases,
  option_eq, Option-cases,
}
use xyn_seed.Models.{Run, Step, Db}
use xyn_seed.Runtime.Workers.{Env, find_worker, heartbeat, beating}
use xyn_seed.Runtime.Session.{find_run, put_run, save_run, publish}
use xyn_seed.Runtime.Rows.{
  run_ids, run_ids-put_run, run_ids-publish, run_ids-update_worker, id_of_find_run,
  find_run-update_worker,
}
use xyn_seed.Runtime.Soundness.{IsSound}
use xyn_seed.Runtime.Assignment.{
  IsConsistent-publish, IsConsistent-put_run_same_lock, IsConsistent-heartbeat,
}
use xyn_seed.Runtime.Events.{publish_runtime_event}
use xyn_seed.Runtime.Heartbeats.{record_run_heartbeat, locked_run, renewed, heartbeat_event}
use xyn_seed.Runtime.Steps.{report_run_step, target_step, save_step}

-- A heartbeat changes at most the times of a run.
pub record_run_heartbeat_inv :
    (env : Env) (w : String) (run_id : ℕ) (db db' : Db) (found : Option Run)
    → record_run_heartbeat env w run_id db ≡ ok (found, db')
    → let beaten = (heartbeat env w db).1 in
      (db' ≡ beaten)
      ⊎ ((q : Run) × (find_run run_id db ≡ some q)
          × (db'
              ≡ publish_runtime_event env.utcnow
                  (heartbeat_event env w (renewed env q))
                  (put_run (renewed env q) beaten)))
unfolding record_run_heartbeat locked_run save_run publish heartbeat
record_run_heartbeat_inv env w run_id db db' found h =
    let kept = find_run-update_worker (beating env) w run_id db in
    elim (Option-cases (find_run run_id db)) [
      | inl gone ↦ inl (ground (arith, kept))
      | inr (q, here) ↦ elim (Option-cases (heartbeat env w db).0) [
        | inl unknown ↦ inl (ground (arith, kept))
        | inr (x, known) ↦ elim (Bool-cases (q.locked_by == some w)) [
          | inl own ↦ inr (q, here, ground (arith, kept))
          | inr other ↦ inl (ground (arith, kept))
        ]
      ]
    ]

pub record_run_heartbeat-IsSound :
    (env : Env) (w : String) (run_id : ℕ) (db db' : Db) (found : Option Run)
    → IsSound db
    → record_run_heartbeat env w run_id db ≡ ok (found, db')
    → IsSound db'
unfolding heartbeat
record_run_heartbeat-IsSound env w run_id db db' found s h =
    let beaten = (heartbeat env w db).1 in
    let c = IsConsistent-heartbeat env w db s.consistent in
    let same : run_ids beaten ≡ run_ids db = run_ids-update_worker (beating env) w db in
    elim (record_run_heartbeat_inv env w run_id db db' found h) [
      | inl eq ↦ rw eq (record { consistent = c; distinct = rw same s.distinct })
      | inr (q, here, eq) ↦
          let e = heartbeat_event env w (renewed env q) in
          rw eq (record {
            consistent = IsConsistent-publish env.utcnow e _ (
                IsConsistent-put_run_same_lock q (renewed env q) beaten c
                  (ground (
                    arith,
                    find_run-update_worker (beating env) w q.id db,
                    id_of_find_run run_id db {q = q} here,
                  ))
                  refl refl refl);
            distinct =
                rw (run_ids-publish env.utcnow e (put_run (renewed env q) beaten))
                  (rw (run_ids-put_run (renewed env q) beaten) (rw same s.distinct));
          })
    ]

-- A report of a step changes no run and no worker.
pub report_run_step_inv :
    (env : Env) (run_id : ℕ) (step_key label status : String) (n : ℕ) (summary : Option String)
    (db db' : Db) (t : Step)
    → report_run_step env run_id step_key label status n summary db ≡ ok (t, db')
    → (db'.runs ≡ db.runs) × (db'.workers ≡ db.workers)
unfolding report_run_step target_step save_step publish publish_runtime_event
report_run_step_inv env run_id step_key label status n summary db db' t h = ground arith

pub report_run_step-IsSound :
    (env : Env) (run_id : ℕ) (step_key label status : String) (n : ℕ) (summary : Option String)
    (db db' : Db) (t : Step)
    → IsSound db
    → report_run_step env run_id step_key label status n summary db ≡ ok (t, db')
    → IsSound db'
unfolding find_run find_worker
report_run_step-IsSound env run_id step_key label status n summary db db' t s h =
    let (runs, workers) =
      report_run_step_inv env run_id step_key label status n summary db db' t h in
    record {
      consistent = record {
        active = rw (runs, workers) s.consistent.active;
        named = rw workers s.consistent.named;
      };
      distinct = rw runs s.distinct;
    }
