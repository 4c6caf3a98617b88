-- ===== src/Codex/Ends.antt =====
-- core/codex_local_worker.py: the end of a run, for the worker that holds it and for another one.
use xyn_seed.Base.{
  ℕ, String, false, some, ◌∙◌, ◌==◌, string_eq, option_eq, nat_eq, ok, ◌≡◌, ◌≢◌, arith,
}
use xyn_seed.Models.{Run, run_status_eq, RuntimeWorker, Db}
use xyn_seed.Runtime.Assignment.{IsConsistent, runs_on}
use xyn_seed.Runtime.Session.{find_run}
use xyn_seed.Runtime.Workers.{Env, find_worker}
use xyn_seed.Codex.{
  ArtifactStore, Bench, failure_result, handle_failure, blocked_result, mark_blocked,
}
use xyn_seed.Codex.Sessions.{
  handle_failure-eq, failure_result-stops, at_end, at_end-found, at_end-other, at_end-IsConsistent,
  blocked_end, mark_blocked-eq, blocked_end-IsConsistent, blocked_end-found,
}

-- Both ends return, the run has the result, and who is assigned to what stays consistent.
abbrev pub EndsWell :
    ArtifactStore → Env → ℕ → String → String → String → String → Bench → Run → Type 0
EndsWell store env run_id worker_id summary reason log_text s q =
    ((t : Bench) × (handle_failure store env run_id worker_id summary reason log_text s
        ≡ ok (failure_result env summary reason q, t))
      × IsConsistent t.db
      × (find_run run_id t.db ≡ some (failure_result env summary reason q)))
    × ((db' : Db) × (mark_blocked env run_id worker_id summary reason s.db
          ≡ ok (blocked_result env summary reason q, db'))
        × IsConsistent db'
        × (find_run run_id db' ≡ some (blocked_result env summary reason q)))

-- The failure of one worker is written to a run that the worker `w` names.
abbrev pub TakesRun :
    ArtifactStore
    → Env
    → ℕ
    → String
    → String
    → String
    → String
    → String
    → Bench
    → Run
    → RuntimeWorker
    → Type 0
TakesRun store env run_id worker_id w summary reason log_text s q x =
    (t : Bench) × (handle_failure store env run_id worker_id summary reason log_text s
      ≡ ok (failure_result env summary reason q, t))
    × (find_run run_id t.db ≡ some (failure_result env summary reason q))
    × (find_worker w t.db ≡ some x)
    × (IsConsistent t.db → ⊥)

-- A worker with a name that is not empty reports the end of the run that it holds, as a failure or
-- as a block: both return, the run has the result of the report, and if every worker that named a
-- run worked on it before, so it is after.
pub ends-IsConsistent :
    (store : ArtifactStore) (env : Env) (run_id : ℕ) (worker_id summary reason log_text : String)
    (s : Bench) (q : Run)
    → (worker_id == "") ≡ false
    → IsConsistent s.db
    → find_run run_id s.db ≡ some q
    → q.locked_by ≡ some worker_id
    → EndsWell store env run_id worker_id summary reason log_text s q
ends-IsConsistent store env run_id worker_id summary reason log_text s q filled h found held = (
  (
    at_end store env run_id worker_id summary reason log_text s q found,
    handle_failure-eq store env worker_id summary reason log_text run_id s q found,
    at_end-IsConsistent store env run_id worker_id summary reason log_text s q found filled h held,
    at_end-found store env run_id worker_id summary reason log_text s q found,
  ),
  (
    blocked_end store env run_id worker_id summary reason log_text s q found,
    mark_blocked-eq store env run_id worker_id summary reason log_text s q found,
    blocked_end-IsConsistent store env run_id worker_id summary reason log_text s q found filled h
        held,
    blocked_end-found store env run_id worker_id summary reason log_text s q found,
  ),
)

taken_by :
    {db : Db} {x : RuntimeWorker} {run_id : ℕ} {q : Run} (w : String)
    → IsConsistent db
    → find_run run_id db ≡ some q
    → find_worker w db ≡ some x
    → x.active_run_id ≡ some run_id
    → runs_on w (some q) ≡ false
    → ⊥
taken_by {x = x} {run_id = run_id} w c there kept names stops =
    ground (arith, c.active w x run_id kept names, there, stops)

-- The failure that one worker reports is written also to a run that another worker names: the run
-- gets the result of the failure, and the other worker still names the run, which is not running
-- any more.
pub handle_failure-TakesRun :
    (store : ArtifactStore) (env : Env) (run_id : ℕ) (worker_id w summary reason log_text : String)
    (s : Bench) (q : Run) (x : RuntimeWorker)
    → worker_id ≢ w
    → find_run run_id s.db ≡ some q
    → find_worker w s.db ≡ some x
    → x.active_run_id ≡ some run_id
    → TakesRun store env run_id worker_id w summary reason log_text s q x
handle_failure-TakesRun store env run_id worker_id w summary reason log_text s q x other found at
      names =
    let there = at_end-found store env run_id worker_id summary reason log_text s q found in
    let kept =
      at_end-other store env run_id worker_id summary reason log_text s q found w other ∙ at in
    (
      at_end store env run_id worker_id summary reason log_text s q found,
      handle_failure-eq store env worker_id summary reason log_text run_id s q found,
      there,
      kept,
      (λ c. taken_by w c there kept names (failure_result-stops env summary reason w q)),
    )
