-- ===== src/Runtime/Api.antt =====
-- core/api/runs.py: the handlers that cancel, pause, continue and retry a run. The capability check
-- of the route comes before them; see Access.
use xyn_seed.Base.{ℕ, none, some, List, [], ◌∷◌, ◌==◌, Exec, ok, err, ◌>>=◌, raise, if◌then◌else◌}
use xyn_seed.Models.{Run, RunStatus, run_status_eq, Db}
use xyn_seed.Runtime.Status.{Error, elem_run_status}
use xyn_seed.Runtime.Workers.{Env}
use xyn_seed.Runtime.Session.{Session, find_run, put_run}
use xyn_seed.Runtime.Runs.{retry_runtime_run}
use xyn_seed.Runtime.Controls.{request_pause_run, continue_blocked_run}

-- `HTTPException` with its status code, or an exception of the runtime.
pub data ApiError : Type 0 where
  http : ℕ → ApiError
  runtime : Error → ApiError

abbrev pub Handler : Type 0 → Type 0
Handler A = Exec Db ApiError A

abbrev pub run_service : Session Run → Handler Run
run_service m db = elim (m db) [ ok r ↦ ok r | err e ↦ err (runtime e) ]

-- `.first()`, with 404 for a run that is not there.
get_or_404 : ℕ → Handler Run
get_or_404 run_id db = elim (find_run run_id db) [ none ↦ err (http 404) | some r ↦ ok (r, db) ]

-- The one assignment of the handler: no time is set and no worker is released.
abbrev pub cancelled : Run → Run
cancelled run = record run { status = RunStatus.cancelled }

save_cancelled : Run → Handler Run
save_cancelled run db = ok (cancelled run, put_run (cancelled run) db)

unfoldable pub cancel_run : ℕ → Handler Run
unfolding get_or_404 save_cancelled
cancel_run run_id = do
  run ← get_or_404 run_id
  if elem_run_status run.status (RunStatus.created ∷ RunStatus.running ∷ [])
      then save_cancelled run
      else raise (http 400)

unfoldable pub pause_runtime_run : Env → ℕ → Handler Run
unfolding get_or_404
pause_runtime_run env run_id = do
  run ← get_or_404 run_id
  run_service (request_pause_run env run_id "api")

unfoldable pub continue_runtime_run : Env → ℕ → Handler Run
unfolding get_or_404
continue_runtime_run env run_id = do
  run ← get_or_404 run_id
  if run.status == RunStatus.blocked
      then run_service (continue_blocked_run env run_id "api")
      else raise (http 409)

abbrev retryable_statuses : List RunStatus
retryable_statuses =
    RunStatus.failed ∷ RunStatus.blocked ∷ RunStatus.completed ∷ RunStatus.cancelled ∷ []

unfoldable pub retry_run : Env → ℕ → Handler Run
unfolding get_or_404
retry_run env run_id = do
  run ← get_or_404 run_id
  if elem_run_status run.status retryable_statuses
      then run_service (retry_runtime_run env run_id "api_retry")
      else raise (http 409)
