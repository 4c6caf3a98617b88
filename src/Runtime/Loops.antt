-- ===== src/Runtime/Loops.antt =====
-- The dispatcher, the sweep and the heartbeats keep the workers and the runs consistent.
use xyn_seed.Base.{
  ℕ, String, true, Option, none, some, ◌==◌, ◌≡◌, arith, refl, ok, nat_eq, string_eq, List, [], ◌∷◌,
  inl, inr, All, Bool-cases, Result-cases, select, map, eq_iff, option_beq_iff, option_eq,
}
use xyn_seed.Base.Members.{Distinct, All-select, lookup-All}
use xyn_seed.Base.Selections.{select-Distinct}
use xyn_seed.Models.{Run, RunStatus, run_status_eq, RuntimeWorker, Db}
use xyn_seed.Runtime.Status.{no_reasons, enter_run_status}
use xyn_seed.Runtime.Events.{publish_runtime_event}
use xyn_seed.Runtime.Workers.{Env}
use xyn_seed.Runtime.Session.{find_run, put_run, released, run_key}
use xyn_seed.Runtime.Rows.{
  run_ids, put_run-put_run, find_run-put_run, find_run-publish, find_worker-publish,
  find_worker-put_run,
}
use xyn_seed.Runtime.Assignment.{
  IsConsistent, IsConsistent-publish, IsConsistent-assigned, freed, named_after, find_run-released,
}
use xyn_seed.Runtime.Dispatch.{is_dispatchable, started_event, dispatch_queued_run}
use xyn_seed.Runtime.Dispatch.Selection.{started_run, started_db}
use xyn_seed.Runtime.Dispatch.Choice.{dispatch_queued_run-StartsFirst, dispatch_none_available}
use xyn_seed.Runtime.Heartbeats.{
  is_stale, stale_result, timeout_event, review_event, expire_runs, handle_stale_heartbeats,
}
use xyn_seed.Runtime.Heartbeats.Sweep.{swept_db, untouched, id-stale_result}
use xyn_seed.Runtime.Outcomes.{expire_run-eq, expired_db}

started_run_fields :
    (env : Env) (current timeout : ℕ) (w : String) (q : Run)
    → let q' = started_run env current timeout w q in
      (q'.id ≡ q.id) × (q'.status ≡ RunStatus.running) × (q'.locked_by ≡ some w)
unfolding enter_run_status
started_run_fields env current timeout w q = (refl, refl, refl)

module _ (env : Env) (current timeout : ℕ) (db : Db) where
  started_db-IsConsistent :
      (q : Run) (w : RuntimeWorker)
      → IsConsistent db
      → find_run q.id db ≡ some q
      → is_dispatchable q ≡ true
      → IsConsistent (started_db env current timeout db q w)
  unfolding is_dispatchable enter_run_status
  started_db-IsConsistent q w c found waiting =
      let q' = started_run env current timeout w.worker_id q in
      let started = enter_run_status env.utcnow RunStatus.running no_reasons q in
      IsConsistent-publish env.utcnow (started_event q' w.worker_id) _ (
        rw (put_run-put_run started q' db refl) (
          IsConsistent-assigned env q q' w.worker_id db c found refl (λ runs. ground arith) refl
            refl))

  pub dispatch_queued_run-IsConsistent :
      (db' : Db) (found : Option Run)
      → IsConsistent db
      → Distinct (run_ids db)
      → dispatch_queued_run env current timeout db ≡ ok (found, db')
      → IsConsistent db'
  dispatch_queued_run-IsConsistent db' none c d h =
      rw (dispatch_none_available env current timeout db db' h).0 c
  dispatch_queued_run-IsConsistent db' (some q') c d h =
      let (q, w, found, waiting, _, _, session, _) =
        dispatch_queued_run-StartsFirst env current timeout db db' q' d h in
      rw session (started_db-IsConsistent q w c found waiting)

module _ (env : Env) (current : ℕ) where
  -- A stale run gets its new row after its worker is released.
  expired_db-IsConsistent :
      (q : Run) (db : Db)
      → IsConsistent db
      → find_run q.id db ≡ some q
      → IsConsistent (expired_db env current q db)
  expired_db-IsConsistent q db c found =
      let noted = record q { failure_reason = some "worker_unresponsive" } in
      let told = publish_runtime_event env.utcnow (timeout_event q) (put_run noted db) in
      let v = q.locked_by in
      record {
        active = λ w x r here names. ground (
          arith,
          freed env v w told x r,
          find_worker-put_run (stale_result current q) w (released env v told),
          find_run-put_run (stale_result current q) r (released env v told),
          id-stale_result env current q,
          find_run-released env v r told,
          find_run-publish env.utcnow (timeout_event q) r (put_run noted db),
          find_worker-publish env.utcnow (timeout_event q) w (put_run noted db),
          find_worker-publish env.utcnow (timeout_event q) "" (put_run noted db),
          find_worker-put_run noted w db,
          find_worker-put_run noted "" db,
          find_run-put_run noted r db,
          c.named,
          c.active w x r,
          eq_iff w w,
          option_beq_iff q.locked_by (some w),
        );
        named = rw (find_worker-put_run (stale_result current q) "" (released env v told)) (
            named_after env v told (
              rw (find_worker-publish env.utcnow (timeout_event q) "" (put_run noted db))
                (rw (find_worker-put_run noted "" db) c.named)));
      }

  swept_db-IsConsistent :
      (q : Run) (db : Db)
      → IsConsistent db
      → find_run q.id db ≡ some q
      → IsConsistent (swept_db env current q db)
  swept_db-IsConsistent q db c found =
      let settled = expired_db-IsConsistent q db c found in
      elim (Bool-cases ((stale_result current q).status == RunStatus.blocked)) [
        | inl t ↦
            rw t (IsConsistent-publish env.utcnow (review_event (stale_result current q)) _ settled)
        | inr t ↦ rw t settled
      ]

  pub expire_runs_cons :
      (q : Run) (rest : List Run) (db db' : Db) (updated : List Run)
      → expire_runs env current (q ∷ rest) db ≡ ok (updated, db')
      → (later : List Run) × (expire_runs env current rest (swept_db env current q db)
          ≡ ok (later, db'))
  unfolding expire_runs
  expire_runs_cons q rest db db' updated h =
      elim (Result-cases (expire_runs env current rest (swept_db env current q db))) [
        | inl ((later, db''), runs) ↦ (later, ground (arith, runs, expire_run-eq env current q db))
        | inr (e, fails) ↦ absurd (ground (arith, fails, expire_run-eq env current q db))
      ]

  expire_runs-IsConsistent :
      (qs : List Run) (db db' : Db) (updated : List Run)
      → IsConsistent db
      → Distinct (map run_key qs)
      → All (λ p. find_run p.id db ≡ some p) qs
      → expire_runs env current qs db ≡ ok (updated, db')
      → IsConsistent db'
  unfolding expire_runs
  expire_runs-IsConsistent [] db db' updated c d a h =
      let same : db' ≡ db = ground arith in rw same c
  expire_runs-IsConsistent (q ∷ rest) db db' updated c d a h =
      let turn = swept_db env current q db in
      let (later, runs) = expire_runs_cons q rest db db' updated h in
      expire_runs-IsConsistent rest turn db' later (swept_db-IsConsistent q db c a.0) d.1
        (untouched env current q rest db d.0 a.1) runs

pub handle_stale_heartbeats-IsConsistent :
    (env : Env) (current stale_after : ℕ) (db db' : Db) (updated : List Run)
    → IsConsistent db
    → Distinct (run_ids db)
    → handle_stale_heartbeats env current stale_after db ≡ ok (updated, db')
    → IsConsistent db'
unfolding handle_stale_heartbeats find_run
handle_stale_heartbeats-IsConsistent env current stale_after db db' updated c d h =
    let p = is_stale current stale_after in
    expire_runs-IsConsistent env current (select p db.runs) db db' updated c
      (select-Distinct run_key p db.runs d) (All-select _ p db.runs (lookup-All run_key db.runs d))
      h
