-- ===== src/Runtime/Moves/Safety.antt =====
-- What holds after any sequence of the operations of the runtime.
use xyn_seed.Base.{
  ℕ, String, some, ◌≡◌, refl, arith, nat_eq, string_eq, option_eq, option_beq_iff, Option-cases,
  inl, inr,
}
use xyn_seed.Base.Table.{lookup}
use xyn_seed.Models.{Run, RunStatus, run_status_eq, run_status_beq_iff, RuntimeWorker, Db, empty_db}
use xyn_seed.Runtime.Workers.{find_worker}
use xyn_seed.Runtime.Session.{find_run}
use xyn_seed.Runtime.Rows.{run_ids}
use xyn_seed.Runtime.Assignment.{IsConsistent}
use xyn_seed.Runtime.Soundness.{IsSound}
use xyn_seed.Runtime.Consistency.{
  complete_run-IsConsistent, fail_run-IsConsistent, request_pause_run-IsConsistent,
  continue_runtime_run-IsConsistent,
}
use xyn_seed.Runtime.Loops.{dispatch_queued_run-IsConsistent, handle_stale_heartbeats-IsConsistent}
use xyn_seed.Runtime.Identities.{
  run_ids-complete_run, run_ids-fail_run, run_ids-request_pause_run, run_ids-continue_runtime_run,
  run_ids-dispatch_queued_run, run_ids-handle_stale_heartbeats,
}
use xyn_seed.Runtime.Additions.{
  submit_runtime_run-IsSound, retry_runtime_run-IsSound, register_worker-IsSound,
}
use xyn_seed.Runtime.Reports.{record_run_heartbeat-IsSound, report_run_step-IsSound}
use xyn_seed.Codex.{Bench}
use xyn_seed.Codex.Reported.{
  failed-IsConsistent, run_ids-failed, blocked-IsConsistent, run_ids-blocked,
}
use xyn_seed.Runtime.Moves.{
  Move, registers, submits, retries, dispatches, beats, reports, completes, fails, pauses,
  continues, sweeps, codex_fails, codex_blocks, Reach, stay, step,
}

-- Consistency of the new session, and the ids that it has.
sound : (db db' : Db) → IsConsistent db' → run_ids db' ≡ run_ids db → IsSound db → IsSound db'
sound db db' c same s = record { consistent = c; distinct = rw same s.distinct }

-- Every transaction keeps the tables sound.
pub Move-IsSound : (db db' : Db) → Move db db' → IsSound db → IsSound db'
Move-IsSound db db' (registers info named eq) s = rw eq (register_worker-IsSound info db named s)
Move-IsSound db db' (submits env p actor q h) s =
    submit_runtime_run-IsSound env p actor db db' q s h
Move-IsSound db db' (retries env r actor q h) s = retry_runtime_run-IsSound env r actor db db' q s h
Move-IsSound db db' (dispatches env current timeout found h) s =
    sound db db'
      (dispatch_queued_run-IsConsistent env current timeout db db' found s.consistent s.distinct h)
      (run_ids-dispatch_queued_run env current timeout db db' found s.distinct h) s
Move-IsSound db db' (beats env w r found h) s =
    record_run_heartbeat-IsSound env w r db db' found s h
Move-IsSound db db' (reports env r key label status n summary t h) s =
    report_run_step-IsSound env r key label status n summary db db' t s h
Move-IsSound db db' (completes env r summary q h) s =
    sound db db' (complete_run-IsConsistent env r summary db db' q s.consistent h)
      (run_ids-complete_run env r summary db db' q h) s
Move-IsSound db db' (fails env r reasons q h) s =
    sound db db' (fail_run-IsConsistent env r reasons db db' q s.consistent h)
      (run_ids-fail_run env r reasons db db' q h) s
Move-IsSound db db' (pauses env r actor q h) s =
    sound db db' (request_pause_run-IsConsistent env r actor db db' q s.consistent h)
      (run_ids-request_pause_run env r actor db db' q h) s
Move-IsSound db db' (continues env r q h) s =
    sound db db' (continue_runtime_run-IsConsistent env r db db' q s.consistent h)
      (run_ids-continue_runtime_run env r db db' q h) s
Move-IsSound db db' (sweeps env current stale_after updated h) s =
    sound db db'
      (handle_stale_heartbeats-IsConsistent env current stale_after db db' updated s.consistent
        s.distinct h)
      (run_ids-handle_stale_heartbeats env current stale_after db db' updated h) s
Move-IsSound db db'
      (codex_fails store env r w summary reason log_text artifacts t q q' named found on h eq) s =
    let b : Bench = record { db = db; artifacts = artifacts } in
    rw eq (
      sound db t.db
        (failed-IsConsistent env r w summary reason q q' named on store log_text b t found h
          s.consistent)
        (run_ids-failed env r w summary reason q q' named on store log_text b t found h) s)
Move-IsSound db db' (codex_blocks env r w summary reason q q' named found on h) s =
    sound db db'
      (blocked-IsConsistent env r w summary reason q q' named on db db' found h s.consistent)
      (run_ids-blocked env r w summary reason q q' named on db db' found h) s

pub Reach-IsSound : (start db : Db) → IsSound start → Reach start db → IsSound db
Reach-IsSound start db s stay = s
Reach-IsSound start db' s (step {db = db} before last) =
    Move-IsSound db db' last (Reach-IsSound start db s before)

pub empty_db-IsSound : IsSound empty_db
unfolding find_worker lookup
empty_db-IsSound = record {
  consistent = record { active = λ w x r h names. absurd (ground arith); named = refl };
  distinct = tt;
}

-- After any sequence of the transactions of Runtime/Moves from an empty database, a worker that
-- names a run works on it: the run exists, is running, and is locked by that worker. The
-- transactions are those of the runtime and the ends that a Codex worker reports of a run that it
-- works on; cancellations through the API, ends reported by another worker, and the claims and ends
-- of the run queue on the same table are not among them.
pub active_run_is_running :
    (db : Db) (w : String) (x : RuntimeWorker) (r : ℕ)
    → Reach empty_db db
    → find_worker w db ≡ some x
    → x.active_run_id ≡ some r
    → (q : Run) × (find_run r db ≡ some q) × (q.status ≡ RunStatus.running) × (q.locked_by ≡ some w)
active_run_is_running db w x r reach at names =
    let s = Reach-IsSound empty_db db empty_db-IsSound reach in
    let works = s.consistent.active w x r at names in
    elim (Option-cases (find_run r db)) [
      | inl gone ↦ absurd (ground arith)
      | inr (q, found) ↦ (
        q,
        found,
        ground (arith, run_status_beq_iff q.status RunStatus.running),
        ground (arith, option_beq_iff q.locked_by (some w)),
      )
    ]

-- After any sequence of the transactions of Runtime/Moves from an empty database, no two workers
-- name one run. The transactions are those of the runtime and the ends that a Codex worker reports
-- of a run that it works on; cancellations through the API, ends reported by another worker, and
-- the claims and ends of the run queue on the same table are not among them.
pub one_worker_per_run :
    (db : Db) (v w : String) (x y : RuntimeWorker) (r : ℕ)
    → Reach empty_db db
    → find_worker v db ≡ some x
    → find_worker w db ≡ some y
    → x.active_run_id ≡ some r
    → y.active_run_id ≡ some r
    → v ≡ w
one_worker_per_run db v w x y r reach at_v at_w names_x names_y =
    let (q, found, _, by_v) = active_run_is_running db v x r reach at_v names_x in
    let (p, again, _, by_w) = active_run_is_running db w y r reach at_w names_y in ground arith
