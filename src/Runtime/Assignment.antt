-- ===== src/Runtime/Assignment.antt =====
-- Who works on what: the column `active_run_id` of a worker against `status` and `locked_by` of
-- the run that it names.
use xyn_seed.Base.{
  ℕ, String, Bool, true, false, Option, none, some, ◌==◌, ◌&&◌, nat_eq, string_eq, option_eq, ◌≡◌,
  ◌≢◌, arith, eq_iff, option_beq_iff, Option-cases, refl, inl, inr,
}
use xyn_seed.Models.{Run, RunStatus, run_status_eq, run_status_beq_iff, RuntimeWorker, Db}
use xyn_seed.Runtime.Workers.{
  Env, find_worker, mark_worker_idle, mark_worker_busy, heartbeat, idled, occupied, beating,
}
use xyn_seed.Runtime.Session.{find_run, put_run, released}
use xyn_seed.Runtime.Events.{NewEvent, publish_runtime_event}
use xyn_seed.Runtime.Rows.{
  find_run-put_run, find_worker-put_run, find_run-publish, find_worker-publish,
  find_run-update_worker, find_worker-update_worker,
}

abbrev pub runs_on : String → Option Run → Bool
runs_on w none = false
runs_on w (some q) = q.status == RunStatus.running && q.locked_by == some w

-- A worker that names a run works on it: the run is running, and is locked by that worker.
pub record IsConsistent (db : Db) : Type 0 where
  pub active :
      (w : String) (x : RuntimeWorker) (r : ℕ)
      → find_worker w db ≡ some x
      → x.active_run_id ≡ some r
      → runs_on w (find_run r db) ≡ true
  pub named : find_worker "" db ≡ none

pub IsConsistent-publish :
    (now : ℕ) (e : NewEvent) (db : Db)
    → IsConsistent db
    → IsConsistent (publish_runtime_event now e db)
IsConsistent-publish now e db h = record {
  active =
      λ w x r. rw (find_run-publish now e r db, find_worker-publish now e w db) (h.active w x r);
  named = rw (find_worker-publish now e "" db) h.named;
}

-- A run that was not running may change in any way.
pub IsConsistent-put_run_not_running :
    (q q' : Run) (db : Db)
    → IsConsistent db
    → find_run q.id db ≡ some q
    → q'.id ≡ q.id
    → q.status ≢ RunStatus.running
    → IsConsistent (put_run q' db)
IsConsistent-put_run_not_running q q' db h found same idle = record {
  active = λ w x r here names. ground (
    arith,
    find_run-put_run q' r db,
    find_worker-put_run q' w db,
    h.active w x r,
    run_status_beq_iff q.status RunStatus.running,
  );
  named = ground (arith, h.named, find_worker-put_run q' "" db);
}

-- A run that keeps its status and its lock may change otherwise.
pub IsConsistent-put_run_same_lock :
    (q q' : Run) (db : Db)
    → IsConsistent db
    → find_run q.id db ≡ some q
    → q'.id ≡ q.id
    → q'.status ≡ q.status
    → q'.locked_by ≡ q.locked_by
    → IsConsistent (put_run q' db)
IsConsistent-put_run_same_lock q q' db h found same s l = record {
  active = λ w x r here names.
      ground (arith, find_run-put_run q' r db, find_worker-put_run q' w db, h.active w x r);
  named = ground (arith, h.named, find_worker-put_run q' "" db);
}

pub find_run-released :
    (env : Env) (v : Option String) (r : ℕ) (db : Db)
    → find_run r (released env v db) ≡ find_run r db
unfolding released mark_worker_idle
find_run-released env none r db = refl
find_run-released env (some v) r db = ground (arith, find_run-update_worker (idled env) v r db)

-- The worker of a run that stops is freed: whoever names a run afterwards is another one.
pub freed :
    (env : Env) (v : Option String) (w : String) (db : Db) (x : RuntimeWorker) (r : ℕ)
    → find_worker "" db ≡ none
    → find_worker w (released env v db) ≡ some x
    → x.active_run_id ≡ some r
    → (find_worker w db ≡ some x) × (v ≢ some w)
unfolding released mark_worker_idle
freed env none w db x r named here names = ground arith
freed env (some v) w db x r named here names =
    ground
      (arith, find_worker-update_worker (idled env) (λ _. refl) v w db, eq_iff v "", eq_iff v w)

pub named_after :
    (env : Env) (v : Option String) (db : Db)
    → find_worker "" db ≡ none
    → find_worker "" (released env v db) ≡ none
unfolding released mark_worker_idle
named_after env none db named = named
named_after env (some v) db named =
    ground (arith, find_worker-update_worker (idled env) (λ _. refl) v "" db)

-- A run that is running may become anything, if its worker is released with it.
pub IsConsistent-released :
    (env : Env) (q q' : Run) (db : Db)
    → IsConsistent db
    → find_run q.id db ≡ some q
    → q'.id ≡ q.id
    → IsConsistent (released env q.locked_by (put_run q' db))
IsConsistent-released env q q' db h found same =
    let db' = put_run q' db in
    let v = q.locked_by in
    record {
      active = λ w x r here names. ground (
        arith,
        freed env v w db' x r,
        find_worker-put_run q' w db,
        find_worker-put_run q' "" db,
        find_run-released env v r db',
        find_run-put_run q' r db,
        h.active w x r,
        eq_iff w w,
        option_beq_iff q.locked_by (some w),
      );
      named = named_after env v db' (rw (find_worker-put_run q' "" db) h.named);
    }

-- A run that was not running is given to a worker.
pub IsConsistent-assigned :
    (env : Env) (q q' : Run) (v : String) (db : Db)
    → IsConsistent db
    → find_run q.id db ≡ some q
    → q'.id ≡ q.id
    → q.status ≢ RunStatus.running
    → q'.status ≡ RunStatus.running
    → q'.locked_by ≡ some v
    → IsConsistent (mark_worker_busy env v q'.id (put_run q' db)).1
unfolding mark_worker_busy
IsConsistent-assigned env q q' v db h found same waiting runs l = record {
  active = λ w x r here names. ground (
    arith,
    find_worker-update_worker (occupied env q'.id) (λ _. refl) v w (put_run q' db),
    find_run-update_worker (occupied env q'.id) v r (put_run q' db),
    find_run-put_run q' r db,
    find_worker-put_run q' w db,
    h.active w x r,
    run_status_beq_iff q.status RunStatus.running,
    eq_iff v w,
  );
  named = ground (
    arith,
    h.named,
    find_worker-update_worker (occupied env q'.id) (λ _. refl) v "" (put_run q' db),
    find_worker-put_run q' "" db,
  );
}

-- A heartbeat changes no assignment.
pub IsConsistent-heartbeat :
    (env : Env) (v : String) (db : Db) → IsConsistent db → IsConsistent (heartbeat env v db).1
unfolding heartbeat
IsConsistent-heartbeat env v db h = record {
  active = λ w x r here names. elim (Option-cases (find_worker w db)) [
    | inl gone ↦ ground (arith, find_worker-update_worker (beating env) (λ _. refl) v w db)
    | inr (old, found) ↦ ground (
      arith,
      find_worker-update_worker (beating env) (λ _. refl) v w db,
      find_run-update_worker (beating env) v r db,
      h.active w old r,
    )
  ];
  named = ground (arith, h.named, find_worker-update_worker (beating env) (λ _. refl) v "" db);
}
