-- ===== src/Codex/Sessions.antt =====
-- core/codex_local_worker.py: the sessions that the two ends of a run leave.
use xyn_seed.Base.{
  ℕ, suc, String, false, some, [], ◌∷◌, ◌++◌, ◌∙◌, ap, ◌==◌, string_eq, option_eq, nat_eq, ok, ◌≡◌,
  ◌≢◌, refl, arith, eq_iff, nat_beq_iff,
}
use xyn_seed.Base.Json.{text}
use xyn_seed.Models.{Run, run_status_eq, Db}
use xyn_seed.Runtime.Assignment.{IsConsistent, IsConsistent-publish, IsConsistent-released, runs_on}
use xyn_seed.Runtime.Events.{NewEvent, publish_runtime_event}
use xyn_seed.Runtime.Rows.{
  find_run-put_run, find_worker-put_run, find_run-publish, find_worker-publish, id_of_find_run,
  find_run-update_worker, find_worker-update_worker,
}
use xyn_seed.Runtime.Session.{find_run, one_run, put_run, save_run, publish, released}
use xyn_seed.Runtime.Workers.{Env, find_worker, mark_worker_idle, idled}
use xyn_seed.Codex.{
  ArtifactStore, Bench, on_db, add_artifact, new_artifact, artifact_event, capture_run_artifact,
  failed_event, failure_result, free_worker, handle_failure, blocked_result, blocked_event,
  mark_blocked, or_text,
}

-- The tables after an artifact was captured.
abbrev pub captured : Env → NewEvent → Db → Db
captured env e db = publish_runtime_event env.utcnow e (record db { next_uuid = suc db.next_uuid })

-- The worker is idle again, and the run has its result.
abbrev pub ended : Env → String → Run → Db → Db
ended env worker_id run db = (mark_worker_idle env worker_id (put_run run db)).1

pub IsConsistent-captured :
    (env : Env) (e : NewEvent) (db : Db) → IsConsistent db → IsConsistent (captured env e db)
unfolding find_run find_worker
IsConsistent-captured env e db h =
    IsConsistent-publish env.utcnow e (record db { next_uuid = suc db.next_uuid })
      (record { active = h.active; named = h.named })

module _ (store : ArtifactStore) (env : Env)
    (worker_id summary failure_reason log_text : String) where
  abbrev pub announced : Run → Db → Db
  announced run db =
      publish_runtime_event env.utcnow (failed_event worker_id summary failure_reason run) db

  abbrev pub capture : ℕ → String → String → String → Bench → Bench
  capture run_id kind label content s =
      let a =
        new_artifact store env run_id kind label content
          (("failure_reason", text failure_reason) ∷ []) s.db.next_uuid in
      record { db = captured env (artifact_event a) s.db; artifacts = s.artifacts ++ a ∷ [] }

  abbrev pub both_captured : ℕ → Bench → Bench
  both_captured run_id s =
      capture run_id "log" "build_logs.txt" (or_text (some log_text) summary)
        (capture run_id "summary" "final_summary.md" summary s)

  abbrev pub failed_bench : ℕ → Run → Bench → Bench
  failed_bench run_id run s =
      let s' = both_captured run_id (record s { db = announced run s.db }) in
      record s' { db = ended env worker_id (failure_result env summary failure_reason run) s'.db }

  pub handle_failure-eq :
      (run_id : ℕ) (s : Bench) (q : Run)
      → find_run run_id s.db ≡ some q
      → handle_failure store env run_id worker_id summary failure_reason log_text s
        ≡ ok (failure_result env summary failure_reason q, failed_bench run_id q s)
  unfolding handle_failure capture_run_artifact add_artifact on_db publish one_run save_run
      free_worker
  handle_failure-eq run_id s q found = ground (arith, found)

  pub both_captured-IsConsistent :
      (run_id : ℕ) (s : Bench) → IsConsistent s.db → IsConsistent (both_captured run_id s).db
  both_captured-IsConsistent run_id s h =
      IsConsistent-captured env _ _ (IsConsistent-captured env _ s.db h)

  pub find_run-both_captured :
      (run_id r : ℕ) (s : Bench) → find_run r (both_captured run_id s).db ≡ find_run r s.db
  unfolding find_run publish_runtime_event
  find_run-both_captured run_id r s = refl

  pub find_worker-both_captured :
      (run_id : ℕ) (w : String) (s : Bench)
      → find_worker w (both_captured run_id s).db ≡ find_worker w s.db
  unfolding find_worker publish_runtime_event
  find_worker-both_captured run_id w s = refl

pub released-filled :
    (env : Env) (worker_id : String) (db : Db)
    → (worker_id == "") ≡ false
    → released env (some worker_id) db ≡ (mark_worker_idle env worker_id db).1
unfolding released
released-filled env worker_id db filled = rw filled refl

-- An end of a run that its worker reports.
pub ended-IsConsistent :
    (env : Env) (worker_id : String) (q q' : Run) (db : Db)
    → IsConsistent db
    → find_run q.id db ≡ some q
    → q.locked_by ≡ some worker_id
    → q'.id ≡ q.id
    → (worker_id == "") ≡ false
    → IsConsistent (ended env worker_id q' db)
ended-IsConsistent env worker_id q q' db h found held same filled =
    rw (← released-filled env worker_id (put_run q' db) filled, ← held)
      (IsConsistent-released env q q' db h found same)

-- The worker that another one names is not changed.
pub ended-other :
    (env : Env) (worker_id w : String) (q' : Run) (db : Db)
    → worker_id ≢ w
    → find_worker w (ended env worker_id q' db) ≡ find_worker w db
unfolding mark_worker_idle
ended-other env worker_id w q' db other = ground (
  arith,
  other,
  find_worker-update_worker (idled env) (λ _. refl) worker_id w (put_run q' db),
  find_worker-put_run q' w db,
  eq_iff worker_id w,
)

pub ended-found :
    (env : Env) (worker_id : String) (q' : Run) (db : Db) (run_id : ℕ) (q : Run)
    → q'.id ≡ run_id
    → find_run run_id db ≡ some q
    → find_run run_id (ended env worker_id q' db) ≡ some q'
unfolding mark_worker_idle
ended-found env worker_id q' db run_id q same found = ground (
  arith,
  found,
  same,
  find_run-update_worker (idled env) worker_id run_id (put_run q' db),
  find_run-put_run q' run_id db,
  nat_beq_iff q'.id run_id,
)

pub failure_result-id :
    (env : Env) (summary failure_reason : String) (q : Run)
    → (failure_result env summary failure_reason q).id ≡ q.id
unfolding failure_result
failure_result-id env summary failure_reason q = ground arith

pub failure_result-stops :
    (env : Env) (summary failure_reason w : String) (q : Run)
    → runs_on w (some (failure_result env summary failure_reason q)) ≡ false
unfolding failure_result
failure_result-stops env summary failure_reason w q = ground arith

module _ (store : ArtifactStore) (env : Env) (run_id : ℕ)
    (worker_id summary reason log_text : String) (s : Bench) (q : Run)
    (found : find_run run_id s.db ≡ some q) where
  abbrev pub result : Run
  result = failure_result env summary reason q

  abbrev pub after_event : Bench
  after_event = record s { db = announced store env worker_id summary reason log_text q s.db }

  abbrev pub before_end : Bench
  before_end = both_captured store env worker_id summary reason log_text run_id after_event

  abbrev pub at_end : Bench
  at_end = failed_bench store env worker_id summary reason log_text run_id q s

  pub before_end-found : find_run run_id before_end.db ≡ some q
  before_end-found =
      find_run-both_captured store env worker_id summary reason log_text run_id run_id after_event
      ∙ find_run-publish env.utcnow (failed_event worker_id summary reason q) run_id s.db
      ∙ found

  pub result-id : result.id ≡ run_id
  result-id = failure_result-id env summary reason q ∙ id_of_find_run run_id s.db found

  pub at_end-found : find_run run_id at_end.db ≡ some result
  at_end-found = ended-found env worker_id result before_end.db run_id q result-id before_end-found

  pub at_end-other : (w : String) → worker_id ≢ w → find_worker w at_end.db ≡ find_worker w s.db
  at_end-other w other =
      ended-other env worker_id w result before_end.db other
      ∙ find_worker-both_captured store env worker_id summary reason log_text run_id w after_event
      ∙ find_worker-publish env.utcnow (failed_event worker_id summary reason q) w s.db

  pub at_end-IsConsistent :
      (worker_id == "") ≡ false
      → IsConsistent s.db
      → q.locked_by ≡ some worker_id
      → IsConsistent at_end.db
  at_end-IsConsistent filled h held =
      ended-IsConsistent env worker_id q result before_end.db
        (both_captured-IsConsistent store env worker_id summary reason log_text run_id after_event
          (IsConsistent-publish env.utcnow (failed_event worker_id summary reason q) s.db h))
        (ap (λ r. find_run r before_end.db) (id_of_find_run run_id s.db found) ∙ before_end-found)
        held (failure_result-id env summary reason q) filled

  abbrev pub blocked_end : Db
  blocked_end =
      publish_runtime_event env.utcnow (blocked_event worker_id summary reason q)
        (ended env worker_id (blocked_result env summary reason q) s.db)

  pub mark_blocked-eq :
      mark_blocked env run_id worker_id summary reason s.db
      ≡ ok (blocked_result env summary reason q, blocked_end)
  unfolding mark_blocked one_run save_run free_worker publish
  mark_blocked-eq = ground (arith, found)

  pub blocked_end-IsConsistent :
      (worker_id == "") ≡ false
      → IsConsistent s.db
      → q.locked_by ≡ some worker_id
      → IsConsistent blocked_end
  unfolding blocked_result
  blocked_end-IsConsistent filled h held =
      IsConsistent-publish env.utcnow (blocked_event worker_id summary reason q) _ (
        ended-IsConsistent env worker_id q (blocked_result env summary reason q) s.db h
          (ap (λ r. find_run r s.db) (id_of_find_run run_id s.db found) ∙ found) held refl filled)

  pub blocked_end-found : find_run run_id blocked_end ≡ some (blocked_result env summary reason q)
  unfolding blocked_result
  blocked_end-found =
      find_run-publish env.utcnow (blocked_event worker_id summary reason q) run_id _
      ∙ ended-found env worker_id (blocked_result env summary reason q) s.db run_id q
          (id_of_find_run run_id s.db found) found
