-- ===== src/Codex/Reported.antt =====
-- core/codex_local_worker.py: an end that a worker reports of the run that it works on, and the other
-- rows.
use xyn_seed.Base.{
  ℕ, String, true, some, [], ◌≡◌, ◌≢◌, ◌∙◌, arith, ok, nat_eq, string_eq, option_eq, eq_iff, sym,
  ap, refl, nat_beq_iff, option_beq_iff,
}
use xyn_seed.Models.{Run, RunStatus, run_status_eq, run_status_beq_iff, Db}
use xyn_seed.Runtime.Status.{run_status_transitions}
use xyn_seed.Runtime.Workers.{Env, mark_worker_idle, idled}
use xyn_seed.Runtime.Session.{find_run, put_run, one_run, save_run, publish}
use xyn_seed.Runtime.Events.{publish_runtime_event}
use xyn_seed.Runtime.Rows.{
  run_ids, run_ids-put_run, run_ids-update_worker, find_run-put_run, find_run-update_worker,
  find_run-publish, id_of_find_run,
}
use xyn_seed.Runtime.Assignment.{IsConsistent, IsConsistent-publish, runs_on}
use xyn_seed.Codex.{
  ArtifactStore, Bench, handle_failure, blocked_result, blocked_event, mark_blocked, free_worker,
}
use xyn_seed.Codex.Sessions.{
  ended, at_end, at_end-IsConsistent, handle_failure-eq, before_end, result, result-id,
  ended-IsConsistent,
}

run_ids-ended :
    (env : Env) (worker_id : String) (q' : Run) (db : Db)
    → run_ids (ended env worker_id q' db) ≡ run_ids db
unfolding mark_worker_idle
run_ids-ended env worker_id q' db =
    rw (run_ids-update_worker (idled env) worker_id (put_run q' db), run_ids-put_run q' db)

find_run-ended :
    (env : Env) (worker_id : String) (q' : Run) (r : ℕ) (db : Db)
    → q'.id ≢ r
    → find_run r (ended env worker_id q' db) ≡ find_run r db
unfolding mark_worker_idle
find_run-ended env worker_id q' r db other = ground (
  arith,
  find_run-update_worker (idled env) worker_id r (put_run q' db),
  find_run-put_run q' r db,
  nat_beq_iff q'.id r,
)

-- A run that a worker works on is not one whose status has no transition.
not_final :
    (w : String) (run_id r : ℕ) (q p : Run) (db : Db)
    → find_run run_id db ≡ some q
    → runs_on w (some q) ≡ true
    → find_run r db ≡ some p
    → run_status_transitions p.status ≡ []
    → run_id ≢ r
not_final w run_id r q p db found on there final same =
    ground (arith, run_status_beq_iff q.status RunStatus.running)

module _ (env : Env) (run_id : ℕ) (worker_id summary reason : String) (q q' : Run)
    (named : worker_id ≢ "") (on : runs_on worker_id (some q) ≡ true) where
  module _ (store : ArtifactStore) (log_text : String) (s t : Bench)
      (found : find_run run_id s.db ≡ some q)
      (h : handle_failure store env run_id worker_id summary reason log_text s ≡ ok (q', t)) where
    failed_session : t ≡ at_end store env run_id worker_id summary reason log_text s q found
    failed_session =
        ground
          (arith, handle_failure-eq store env worker_id summary reason log_text run_id s q found)

    pub failed-IsConsistent : IsConsistent s.db → IsConsistent t.db
    failed-IsConsistent c = rw failed_session (
        at_end-IsConsistent store env run_id worker_id summary reason log_text s q found
          (ground (arith, eq_iff worker_id "")) c
          (ground (arith, option_beq_iff q.locked_by (some worker_id))))

    pub run_ids-failed : run_ids t.db ≡ run_ids s.db
    unfolding publish_runtime_event
    run_ids-failed =
        let before = before_end store env run_id worker_id summary reason log_text s q found in
        let q'' = result store env run_id worker_id summary reason log_text s q found in
        rw failed_session (run_ids-ended env worker_id q'' before.db)

    pub kept_by_failure :
        (r : ℕ) (p : Run)
        → find_run r s.db ≡ some p
        → run_status_transitions p.status ≡ []
        → find_run r t.db ≡ some p
    unfolding publish_runtime_event find_run
    kept_by_failure r p there final =
        let before = before_end store env run_id worker_id summary reason log_text s q found in
        let q'' = result store env run_id worker_id summary reason log_text s q found in
        let same = result-id store env run_id worker_id summary reason log_text s q found in
        let other = not_final worker_id run_id r q p s.db found on there final in
        rw failed_session
          (find_run-ended env worker_id q'' r before.db (λ e. other (sym same ∙ e)) ∙ there)

  module _ (db db' : Db) (found : find_run run_id db ≡ some q)
      (h : mark_blocked env run_id worker_id summary reason db ≡ ok (q', db')) where
    blocked_session :
        db'
        ≡ publish_runtime_event env.utcnow
            (blocked_event worker_id summary reason q)
            (ended env worker_id (blocked_result env summary reason q) db)
    unfolding mark_blocked one_run save_run free_worker publish
    blocked_session = ground (arith, found)

    pub blocked-IsConsistent : IsConsistent db → IsConsistent db'
    unfolding blocked_result
    blocked-IsConsistent c = rw blocked_session (
        IsConsistent-publish env.utcnow (blocked_event worker_id summary reason q) _ (
          ended-IsConsistent env worker_id q (blocked_result env summary reason q) db c
            (ap (λ r. find_run r db) (id_of_find_run run_id db found) ∙ found)
            (ground (arith, option_beq_iff q.locked_by (some worker_id))) refl
            (ground (arith, eq_iff worker_id ""))))

    pub run_ids-blocked : run_ids db' ≡ run_ids db
    unfolding publish_runtime_event
    run_ids-blocked =
        rw blocked_session (run_ids-ended env worker_id (blocked_result env summary reason q) db)

    pub kept_by_block :
        (r : ℕ) (p : Run)
        → find_run r db ≡ some p
        → run_status_transitions p.status ≡ []
        → find_run r db' ≡ some p
    unfolding blocked_result
    kept_by_block r p there final =
        let other = not_final worker_id run_id r q p db found on there final in
        let q'' = blocked_result env summary reason q in
        let same : q''.id ≡ run_id = id_of_find_run run_id db {q = q} found in
        rw blocked_session (
          find_run-publish env.utcnow (blocked_event worker_id summary reason q) r
            (ended env worker_id q'' db)
          ∙ find_run-ended env worker_id q'' r db (λ e. other (sym same ∙ e))
          ∙ there)
