-- ===== src/Runtime/Session.antt =====
-- Reading and writing the rows of a session: `db.query(...)`, `db.add`, `db.flush`, and the calls
-- that the operations of core/runtime_execution.py share.
use xyn_seed.Base.{
  ℕ, String, Option, none, some, nat_eq, string_eq, ◌==◌, Exec, ok, err, ◌>>=◌, ◌>>◌, pure, lift,
  if◌then◌else◌,
}
use xyn_seed.Base.Table.{lookup, save}
use xyn_seed.Models.{Run, RunStatus, Db}
use xyn_seed.Runtime.Status.{Error, no_result_found, Reasons, transition_run_status}
use xyn_seed.Runtime.Workers.{Env, mark_worker_busy, mark_worker_idle}
use xyn_seed.Runtime.Events.{NewEvent, publish_runtime_event}

abbrev pub Session : Type 0 → Type 0
Session A = Exec Db Error A

abbrev pub run_key : Run → ℕ
run_key r = r.id

unfoldable pub find_run : ℕ → Db → Option Run
find_run run_id db = lookup run_key run_id db.runs

-- `.one()`.
unfoldable pub one_run : ℕ → Session Run
one_run run_id db = elim (find_run run_id db) [ none ↦ err no_result_found | some r ↦ ok (r, db) ]

unfoldable pub put_run : Run → Db → Db
put_run r db = record db { runs = save run_key r db.runs }

unfoldable pub save_run : Run → Session (Unit {0})
save_run r db = ok (tt, put_run r db)

-- `transition_run_status`, with its flush.
unfoldable pub change_run_status : Env → Run → RunStatus → Reasons → Session Run
change_run_status env run next r = do
  run' ← lift (transition_run_status env.utcnow run next r)
  save_run run'
  pure run'

unfoldable pub publish : Env → NewEvent → Session (Unit {0})
publish env e db = ok (tt, publish_runtime_event env.utcnow e db)

-- `if run.worker_id: mark_worker_idle(db, run.worker_id)`. The empty text is false.
unfoldable pub released : Env → Option String → Db → Db
released env none db = db
released env (some w) db = if w == "" then db else (mark_worker_idle env w db).1

unfoldable pub release_worker : Env → Option String → Session (Unit {0})
release_worker env w db = ok (tt, released env w db)

-- `mark_worker_busy`, its result unused.
unfoldable pub busy_worker : Env → String → ℕ → Session (Unit {0})
busy_worker env worker_id run_id db = ok (tt, (mark_worker_busy env worker_id run_id db).1)

-- `run.worker_id or "runtime"`.
unfoldable pub worker_or_runtime : Option String → String
worker_or_runtime none = "runtime"
worker_or_runtime (some w) = if w == "" then "runtime" else w
