-- ===== src/Runtime/Rows.antt =====
-- What a read of a run or of a worker finds after each write.
use xyn_seed.Base.{
  ℕ, String, Option, none, some, ◌==◌, nat_eq, string_eq, option_eq, ◌≡◌, refl, arith,
  if◌then◌else◌, eq_iff, Option-cases, inl, inr,
}
use mathlib.Core.Option
use mathlib.Core.List.{List, map}
use xyn_seed.Base.Table.{replace, lookup-save, save-save, key_of_lookup, keys-save}
use xyn_seed.Models.{Run, RuntimeWorker, Db}
use xyn_seed.Runtime.Events.{NewEvent, publish_runtime_event}
use xyn_seed.Runtime.Workers.{
  Env, worker_key, find_worker, save_worker, update_worker, mark_worker_idle, idled,
}
use xyn_seed.Runtime.Session.{find_run, put_run, released, run_key}

pub find_run-put_run :
    (q : Run) (r : ℕ) (db : Db)
    → find_run r (put_run q db) ≡ (if q.id == r then replace q (find_run r db) else find_run r db)
unfolding find_run put_run
find_run-put_run q r db = lookup-save run_key q r db.runs

pub find_worker-put_run :
    (q : Run) (w : String) (db : Db) → find_worker w (put_run q db) ≡ find_worker w db
unfolding find_worker put_run
find_worker-put_run q w db = refl

pub find_run-publish :
    (now : ℕ) (e : NewEvent) (r : ℕ) (db : Db)
    → find_run r (publish_runtime_event now e db) ≡ find_run r db
unfolding find_run publish_runtime_event
find_run-publish now e r db = refl

pub find_worker-publish :
    (now : ℕ) (e : NewEvent) (w : String) (db : Db)
    → find_worker w (publish_runtime_event now e db) ≡ find_worker w db
unfolding find_worker publish_runtime_event
find_worker-publish now e w db = refl

pub id_of_find_run : (r : ℕ) (db : Db) {q : Run} → find_run r db ≡ some q → q.id ≡ r
unfolding find_run
id_of_find_run r db h = key_of_lookup run_key r db.runs h

pub id_of_find_worker :
    (w : String) (db : Db) {x : RuntimeWorker} → find_worker w db ≡ some x → x.worker_id ≡ w
unfolding find_worker
id_of_find_worker w db h = key_of_lookup worker_key w db.workers h

find_worker-save_worker :
    (x : RuntimeWorker) (w : String) (db : Db)
    → find_worker w (save_worker x db)
      ≡ (if x.worker_id == w then replace x (find_worker w db) else find_worker w db)
unfolding find_worker save_worker
find_worker-save_worker x w db = lookup-save worker_key x w db.workers

find_run-save_worker :
    (x : RuntimeWorker) (r : ℕ) (db : Db) → find_run r (save_worker x db) ≡ find_run r db
unfolding find_run save_worker
find_run-save_worker x r db = refl

module _ (change : RuntimeWorker → RuntimeWorker) where
  pub find_run-update_worker :
      (v : String) (r : ℕ) (db : Db) → find_run r (update_worker change v db).1 ≡ find_run r db
  unfolding update_worker
  find_run-update_worker v r db = elim (Option-cases (find_worker v db)) [
    | inl h ↦ rw (h, update_worker)
    | inr (x, h) ↦ rw (h, update_worker) (find_run-save_worker (change x) r db)
  ]

  pub find_worker-update_worker :
      ((x : RuntimeWorker) → (change x).worker_id ≡ x.worker_id)
      → (v w : String) (db : Db)
      → find_worker w (update_worker change v db).1
        ≡ (if v == w then Option.map change (find_worker w db) else find_worker w db)
  unfolding update_worker
  find_worker-update_worker keeps v w db = elim (Option-cases (find_worker v db)) [
    | inl h ↦ rw (h, update_worker) (ground (arith, eq_iff v w, h))
    | inr (x, h) ↦
        rw (h, update_worker)
          (ground (
            arith,
            h,
            keeps x,
            id_of_find_worker v db {x = x} h,
            find_worker-save_worker (change x) w db,
            eq_iff v w,
          ))
  ]

-- The later of two rows written under one id stays.
pub put_run-put_run :
    (q q' : Run) (db : Db) → q'.id ≡ q.id → put_run q' (put_run q db) ≡ put_run q' db
unfolding put_run
put_run-put_run q q' db same = ground (arith, save-save run_key q q' db.runs same)

abbrev pub run_ids : Db → List ℕ
run_ids db = map run_key db.runs

pub run_ids-put_run : (q : Run) (db : Db) → run_ids (put_run q db) ≡ run_ids db
unfolding put_run
run_ids-put_run q db = keys-save run_key q db.runs

pub run_ids-publish :
    (now : ℕ) (e : NewEvent) (db : Db) → run_ids (publish_runtime_event now e db) ≡ run_ids db
unfolding publish_runtime_event
run_ids-publish now e db = refl

pub run_ids-update_worker :
    (change : RuntimeWorker → RuntimeWorker) (w : String) (db : Db)
    → run_ids (update_worker change w db).1 ≡ run_ids db
unfolding update_worker save_worker
run_ids-update_worker change w db = elim (Option-cases (find_worker w db)) [
  | inl h ↦ rw (h, update_worker)
  | inr (x, h) ↦ rw (h, update_worker)
]

pub run_ids-released :
    (env : Env) (v : Option String) (db : Db) → run_ids (released env v db) ≡ run_ids db
unfolding released mark_worker_idle
run_ids-released env none db = refl
run_ids-released env (some v) db = ground (arith, run_ids-update_worker (idled env) v db)
