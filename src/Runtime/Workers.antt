-- ===== src/Runtime/Workers.antt =====
-- core/runtime_workers.py: the registered workers and the registry of drivers.
use xyn_seed.Base.{
  ℕ, suc, ◌-◌, String, Bool, not, Option, none, some, List, [], ◌∷◌, ◌++◌, ◌==◌, ◌&&◌, nat_eq,
  string_eq, leb, if◌then◌else◌, select,
}
use xyn_seed.Base.Sort.{sort}
use xyn_seed.Base.Table.{lookup, save}
use xyn_seed.Base.Text.{strip, text_le}
use xyn_seed.Models.{
  RunPayload, WorkerInfo, RuntimeWorker, idle, busy, offline, worker_status_eq, Db,
}

-- What the process finds around it while one operation runs: the clock, whether the Codex CLI can
-- be used (`check_codex_availability`), and how `str` writes a UUID.
pub record Env : Type 0 where
  pub utcnow : ℕ
  pub codex_available : Bool
  pub uuid_text : ℕ → String

abbrev pub default_health_window_seconds : ℕ
default_health_window_seconds = 90

-- `_DRIVERS` holds one driver.
pub data Driver : Type 0 where
  codex_local : Driver

unfoldable pub get_worker_driver : String → Option Driver
get_worker_driver worker_type =
    if strip worker_type == "codex_local" then some codex_local else none

unfoldable pub can_accept : Env → Driver → RunPayload → Bool
can_accept env codex_local p = p.worker_type == "codex_local" && env.codex_available

abbrev pub worker_key : RuntimeWorker → String
worker_key w = w.worker_id

unfoldable pub find_worker : String → Db → Option RuntimeWorker
find_worker worker_id db = lookup worker_key worker_id db.workers

unfoldable pub save_worker : RuntimeWorker → Db → Db
save_worker w db = record db { workers = save worker_key w db.workers }

abbrev pub registered : WorkerInfo → RuntimeWorker → RuntimeWorker
registered info w = record w {
  worker_type = info.worker_type;
  runtime_environment = info.runtime_environment;
  status = info.status;
  last_heartbeat = info.last_heartbeat;
  capabilities = info.capabilities;
}

-- A new row has the column defaults until `registered` sets it.
abbrev pub new_worker : WorkerInfo → Db → RuntimeWorker
new_worker info db = record {
  id = db.next_uuid;
  worker_id = info.worker_id;
  worker_type = info.worker_type;
  runtime_environment = info.runtime_environment;
  status = idle;
  last_heartbeat = info.last_heartbeat;
  capabilities = [];
  active_run_id = none;
}

unfoldable pub register_worker : WorkerInfo → Db → RuntimeWorker × Db
register_worker info db = elim (find_worker info.worker_id db) [
  | some w ↦ (registered info w, save_worker (registered info w) db)
  | none ↦
      let w = registered info (new_worker info db) in
      (w, record db { workers = db.workers ++ w ∷ []; next_uuid = suc db.next_uuid })
]

-- A change of one worker, if there is one: `None` is returned for a worker that is not registered.
unfoldable pub update_worker :
    (RuntimeWorker → RuntimeWorker) → String → Db → Option RuntimeWorker × Db
update_worker change worker_id db = elim (find_worker worker_id db) [
  | none ↦ (none, db)
  | some w ↦ (some (change w), save_worker (change w) db)
]

abbrev pub beating : Env → RuntimeWorker → RuntimeWorker
beating env w = record w {
  last_heartbeat = env.utcnow;
  status = if w.status == offline then idle else w.status;
}

abbrev pub occupied : Env → ℕ → RuntimeWorker → RuntimeWorker
occupied env run_id w = record w {
  status = busy;
  active_run_id = some run_id;
  last_heartbeat = env.utcnow;
}

abbrev pub idled : Env → RuntimeWorker → RuntimeWorker
idled env w = record w {
  status = if w.worker_type == "codex_local" && not env.codex_available then offline else idle;
  active_run_id = none;
  last_heartbeat = env.utcnow;
}

unfoldable pub heartbeat : Env → String → Db → Option RuntimeWorker × Db
heartbeat env = update_worker (beating env)

unfoldable pub mark_worker_busy : Env → String → ℕ → Db → Option RuntimeWorker × Db
mark_worker_busy env worker_id run_id = update_worker (occupied env run_id) worker_id

unfoldable pub mark_worker_idle : Env → String → Db → Option RuntimeWorker × Db
mark_worker_idle env = update_worker (idled env)

unfoldable pub is_healthy : String → ℕ → ℕ → RuntimeWorker → Bool
is_healthy worker_type now timeout w =
    w.worker_type == worker_type
    && not (w.status == offline)
    && leb (now - timeout) w.last_heartbeat

unfoldable pub list_healthy_workers : String → ℕ → ℕ → Db → List RuntimeWorker
list_healthy_workers worker_type now timeout db =
    sort (λ v w. text_le (worker_key v) (worker_key w))
      (select (is_healthy worker_type now timeout) db.workers)
