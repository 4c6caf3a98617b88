-- ===== src/Runtime/Consistency.antt =====
-- Every operation of the runtime keeps the workers and the runs consistent.
use xyn_seed.Base.{
  ℕ, String, Option, some, ◌≡◌, ◌≢◌, arith, refl, ok, nat_eq, string_eq, ◌⊎◌, inl, inr,
}
use xyn_seed.Models.{Run, RunStatus, run_status_eq, Db}
use xyn_seed.Runtime.Status.{Reasons, enter_run_status}
use xyn_seed.Runtime.Events.{NewEvent, publish_runtime_event}
use xyn_seed.Runtime.Workers.{Env}
use xyn_seed.Runtime.Session.{find_run, put_run, released}
use xyn_seed.Runtime.Runs.{complete_run, completed_event, fail_run, failure_event}
use xyn_seed.Runtime.Assignment.{
  IsConsistent, IsConsistent-publish, IsConsistent-released, IsConsistent-put_run_not_running,
  IsConsistent-put_run_same_lock,
}
use xyn_seed.Runtime.Rows.{id_of_find_run, find_run-put_run}
use xyn_seed.Runtime.Outcomes.{
  complete_run-eq, fail_run-eq, request_pause_run-eq, continue_blocked_run-eq, resumed,
}
use xyn_seed.Runtime.Controls.{request_pause_run, paused_event, pausing, continuing}
use xyn_seed.Runtime.Api.{continue_runtime_run}

found_by_id :
    (run_id : ℕ) (db : Db) (q : Run) → find_run run_id db ≡ some q → find_run q.id db ≡ some q
found_by_id run_id db q h = ground (arith, id_of_find_run run_id db {q = q} h)

-- The shape of an operation that ends a run.
IsConsistent-of_end :
    (env : Env) (q q' : Run) (e : NewEvent) (run_id : ℕ) (db db' : Db)
    → IsConsistent db
    → find_run run_id db ≡ some q
    → q'.id ≡ q.id
    → db' ≡ publish_runtime_event env.utcnow e (released env q.locked_by (put_run q' db))
    → IsConsistent db'
IsConsistent-of_end env q q' e run_id db db' h found same eq = rw eq (
    IsConsistent-publish env.utcnow e _
      (IsConsistent-released env q q' db h (found_by_id run_id db q found) same))

pub complete_run_inv :
    (env : Env) (run_id : ℕ) (summary : Option String) (db db' : Db) (q' : Run)
    → complete_run env run_id summary db ≡ ok (q', db')
    → (q : Run) × (find_run run_id db ≡ some q)
      × (q'.id ≡ q.id)
      × (db'
          ≡ publish_runtime_event env.utcnow
              (completed_event q' summary)
              (released env q.locked_by (put_run q' db)))
unfolding enter_run_status
complete_run_inv env run_id summary db db' q' h =
    ground (arith, complete_run-eq env run_id summary db)

pub complete_run-IsConsistent :
    (env : Env) (run_id : ℕ) (summary : Option String) (db db' : Db) (q' : Run)
    → IsConsistent db
    → complete_run env run_id summary db ≡ ok (q', db')
    → IsConsistent db'
complete_run-IsConsistent env run_id summary db db' q' c h =
    let (q, found, same, eq) = complete_run_inv env run_id summary db db' q' h in
    IsConsistent-of_end env q q' (completed_event q' summary) run_id db db' c found same eq

pub fail_run_inv :
    (env : Env) (run_id : ℕ) (r : Reasons) (db db' : Db) (q' : Run)
    → fail_run env run_id r db ≡ ok (q', db')
    → (q : Run) × (find_run run_id db ≡ some q)
      × (q'.id ≡ q.id)
      × (db'
          ≡ publish_runtime_event env.utcnow
              (failure_event q' r)
              (released env q.locked_by (put_run q' db)))
unfolding enter_run_status
fail_run_inv env run_id r db db' q' h = ground (arith, fail_run-eq env run_id r db)

pub fail_run-IsConsistent :
    (env : Env) (run_id : ℕ) (r : Reasons) (db db' : Db) (q' : Run)
    → IsConsistent db
    → fail_run env run_id r db ≡ ok (q', db')
    → IsConsistent db'
fail_run-IsConsistent env run_id r db db' q' c h =
    let (q, found, same, eq) = fail_run_inv env run_id r db db' q' h in
    IsConsistent-of_end env q q' (failure_event q' r) run_id db db' c found same eq

-- A pause ends in one of two ways.
pub request_pause_run_inv :
    (env : Env) (run_id : ℕ) (actor : String) (db db' : Db) (q' : Run)
    → request_pause_run env run_id actor db ≡ ok (q', db')
    → (q : Run) × (find_run run_id db ≡ some q)
      × (q'.id ≡ q.id)
      × ((q.status ≡ RunStatus.queued)
            × (db' ≡ publish_runtime_event env.utcnow (paused_event actor q') (put_run q' db))
          ⊎ (q'.status ≡ q.status) × (q'.locked_by ≡ q.locked_by) × (db' ≡ put_run q' db))
unfolding enter_run_status pausing
request_pause_run_inv env run_id actor db db' q' h =
    ground (arith, request_pause_run-eq env run_id actor db)

pub request_pause_run-IsConsistent :
    (env : Env) (run_id : ℕ) (actor : String) (db db' : Db) (q' : Run)
    → IsConsistent db
    → request_pause_run env run_id actor db ≡ ok (q', db')
    → IsConsistent db'
request_pause_run-IsConsistent env run_id actor db db' q' c h =
    let (q, found, same, ends) = request_pause_run_inv env run_id actor db db' q' h in
    let here = found_by_id run_id db q found in
    elim ends [
      | inl (waiting, eq) ↦ rw eq (
          IsConsistent-publish env.utcnow (paused_event actor q') _
            (IsConsistent-put_run_not_running q q' db c here same (λ runs. cc)))
      | inr (s, l, eq) ↦ rw eq (IsConsistent-put_run_same_lock q q' db c here same s l)
    ]

-- Two rows written after one another under one id.
put_twice :
    (q q₁ q₂ : Run) (db : Db)
    → IsConsistent db
    → find_run q.id db ≡ some q
    → q₁.id ≡ q.id
    → q₂.id ≡ q.id
    → q.status ≢ RunStatus.running
    → q₁.status ≢ RunStatus.running
    → IsConsistent (put_run q₂ (put_run q₁ db))
put_twice q q₁ q₂ db c here same₁ same₂ idle idle₁ =
    IsConsistent-put_run_not_running q₁ q₂ (put_run q₁ db)
      (IsConsistent-put_run_not_running q q₁ db c here same₁ idle)
      (ground (arith, find_run-put_run q₁ q₁.id db)) (ground arith) idle₁

-- The handler tests that the run is blocked before it calls `continue_blocked_run`.
pub continue_runtime_run_inv :
    (env : Env) (run_id : ℕ) (db db' : Db) (q' : Run)
    → continue_runtime_run env run_id db ≡ ok (q', db')
    → (q : Run) × (find_run run_id db ≡ some q)
      × (q.status ≡ RunStatus.blocked)
      × (q'.id ≡ q.id)
      × (db' ≡ put_run q' (put_run (resumed env "api" q) db))
unfolding continue_runtime_run enter_run_status continuing
continue_runtime_run_inv env run_id db db' q' h =
    ground (arith, continue_blocked_run-eq env run_id "api" db)

resumed_queued :
    (env : Env) (q : Run)
    → ((resumed env "api" q).id ≡ q.id) × ((resumed env "api" q).status ≡ RunStatus.queued)
unfolding enter_run_status continuing
resumed_queued env q = (refl, refl)

pub continue_runtime_run-IsConsistent :
    (env : Env) (run_id : ℕ) (db db' : Db) (q' : Run)
    → IsConsistent db
    → continue_runtime_run env run_id db ≡ ok (q', db')
    → IsConsistent db'
continue_runtime_run-IsConsistent env run_id db db' q' c h =
    let (q, found, blocked, same, eq) = continue_runtime_run_inv env run_id db db' q' h in
    let (same₁, waits) = resumed_queued env q in
    rw eq (
      put_twice q (resumed env "api" q) q' db c (found_by_id run_id db q found) same₁ same
        (λ runs. cc) (λ runs. cc))
