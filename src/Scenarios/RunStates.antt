-- ===== src/Scenarios/RunStates.antt =====
-- Sessions with one worker and two runs, each a step further than the one before.
use xyn_seed.Base.{ℕ, String, true, none, some, [], ◌∷◌, Result, ok, err, or_else}
use xyn_seed.Models.{Run, RunPayload, report, RuntimeWorker, WorkerInfo, idle, Db, empty_db}
use xyn_seed.Runtime.Status.{Error}
use xyn_seed.Runtime.Workers.{Env, register_worker, find_worker, new_worker}
use xyn_seed.Runtime.Runs.{submit_runtime_run, runtime_run, complete_run}
use xyn_seed.Runtime.Session.{find_run}
use xyn_seed.Runtime.Heartbeats.{handle_stale_heartbeats}
use xyn_seed.Runtime.Controls.{request_pause_run}
use xyn_seed.Runtime.Steps.{report_run_step}
use xyn_seed.Runtime.Dispatch.{dispatch_queued_run}

abbrev pub env_at : ℕ → Env
env_at now = record { utcnow = now; codex_available = true; uuid_text = λ n. "uuid" }

abbrev pub codex_info : WorkerInfo
codex_info = record {
  worker_id = "w1";
  worker_type = "codex_local";
  runtime_environment = "local";
  status = idle;
  last_heartbeat = 1000;
  capabilities = "repo" ∷ [];
}

abbrev pub payload_of : ℕ → RunPayload
payload_of id = record {
  run_id = id;
  work_item_id = "item";
  worker_type = "codex_local";
  target = record { repo = "seed"; branch = none; workspace_id = none; artifact_id = none };
  prompt = record { title = "Tidy"; body = "Tidy the code." };
  context = record { epic_id = none; attachments = []; metadata = [] };
  policy = record {
    auto_continue = true;
    max_retries = 1;
    require_human_review_on_failure = true;
    timeout_seconds = none;
  };
  requested_outputs = report ∷ [];
}

-- The session that a call leaves.
abbrev pub session_of : {A : Type 0} → Db → Result Error (A × Db) → Db
session_of old (ok (a, db)) = db
session_of old (err e) = old

unfoldable pub with_worker : Db
with_worker = (register_worker codex_info empty_db).1

-- Two runs wait; the one of id 700 was submitted first.
unfoldable pub with_run : Db
with_run =
    session_of with_worker (submit_runtime_run (env_at 1000) (payload_of 700) "ann" with_worker)

unfoldable pub with_runs : Db
with_runs = session_of with_run (submit_runtime_run (env_at 1001) (payload_of 600) "bob" with_run)

-- The run of id 700 runs on the worker.
unfoldable pub with_started : Db
with_started = session_of with_runs (dispatch_queued_run (env_at 1010) 1010 90 with_runs)

-- The row of an id, or that of the run of id 700 when it was submitted.
abbrev pub run_in : ℕ → Db → Run
run_in r db = elim (find_run r db) [
  | none ↦ runtime_run (env_at 1000) (payload_of 700) "ann" "uuid"
  | some q ↦ q
]

-- The worker of the run of id 700 is silent, and a sweep queues the run again.
unfoldable pub with_swept : Db
with_swept = session_of with_started (handle_stale_heartbeats (env_at 5000) 5000 90 with_started)

-- The run of id 700 is completed.
unfoldable pub with_completed : Db
with_completed = session_of with_started (complete_run (env_at 1050) 700 (some "done") with_started)

-- A pause of the run of id 700, which is completed.
unfoldable pub with_late_pause : Db
with_late_pause =
    session_of with_completed (request_pause_run (env_at 1060) 700 "ann" with_completed)

-- A step of the run of id 700 is reported until it is completed.
unfoldable pub with_step : Db
with_step =
    let begun =
      session_of with_started
        (report_run_step (env_at 1011) 700 "build" "Build" "running" 0 none with_started) in
    session_of begun (report_run_step (env_at 1012) 700 "build" "Build" "completed" 0 none begun)

-- The row of a worker, or a new one.
abbrev pub worker_in : String → Db → RuntimeWorker
worker_in w db = or_else (find_worker w db) (new_worker codex_info empty_db)
