-- ===== src/Runtime/Moves/Finality.antt =====
-- A run that is completed or cancelled stays so.
use xyn_seed.Base.{ℕ, suc, some, [], ◌≡◌, ◌∙◌, refl, arith, nat_eq, nat_beq_iff, ok, ℕ}
use xyn_seed.Models.{Run, run_status_eq, Db}
use xyn_seed.Runtime.Status.{run_status_transitions}
use xyn_seed.Runtime.Session.{find_run}
use xyn_seed.Base.Members.{Distinct}
use xyn_seed.Runtime.Additions.{retry_runtime_run_inv, find_run-register_worker}
use xyn_seed.Runtime.Reports.{report_run_step_inv}
use xyn_seed.Runtime.Moves.{
  Move, registers, submits, retries, dispatches, beats, reports, completes, fails, pauses,
  continues, sweeps, codex_fails, codex_blocks, Course, begins, moves, cancels,
}
use xyn_seed.Runtime.Moves.Identities.{Move-Distinct}
use xyn_seed.Runtime.Rows.{run_ids, run_ids-put_run, find_run-put_run, id_of_find_run}
use xyn_seed.Runtime.Api.{cancel_run, cancelled}
use xyn_seed.Runtime.Moves.Cancelling.{cancel_run_inv}
use xyn_seed.Codex.{Bench}
use xyn_seed.Codex.Reported.{kept_by_failure, kept_by_block}
use xyn_seed.Runtime.Moves.Untouched.{
  Kept, kept_by_submit, kept_by_end, kept_by_failed_run, Kept-by_pause, kept_by_continuation,
  Kept-by_heartbeat,
}
use xyn_seed.Runtime.Moves.Passed.{kept_by_dispatch, kept_by_sweep}

-- A transaction of the runtime leaves a run that is completed or cancelled with its status and its
-- end time: those statuses have no transition.
Move-Kept :
    (db db' : Db) (r : ℕ) (q : Run)
    → Move db db'
    → Distinct (run_ids db)
    → find_run r db ≡ some q
    → run_status_transitions q.status ≡ []
    → Kept r q db'
unfolding find_run
Move-Kept db db' r q (registers info named eq) d found final =
    (q, ground (arith, eq, find_run-register_worker info r db), refl, refl)
Move-Kept db db' r q (submits env p actor q' h) d found final =
    (q, kept_by_submit r q db db' found env p actor q' h, refl, refl)
Move-Kept db db' r q (retries env run_id actor q' h) d found final =
    let (_, p, _, _, runs) = retry_runtime_run_inv env run_id actor db db' q' h in
    let taken = record db { next_uuid = suc db.next_uuid } in
    (
      q,
      kept_by_submit r q taken db' found env (record p { run_id = db.next_uuid }) actor q' runs,
      refl,
      refl,
    )
Move-Kept db db' r q (dispatches env current timeout started h) d found final =
    (q, kept_by_dispatch r q db db' found env current timeout started d final h, refl, refl)
Move-Kept db db' r q (beats env w run_id beaten h) d found final =
    Kept-by_heartbeat r q db db' found env w run_id beaten h
Move-Kept db db' r q (reports env run_id key label status n summary t h) d found final =
    let (runs, _) = report_run_step_inv env run_id key label status n summary db db' t h in
    (q, rw runs found, refl, refl)
Move-Kept db db' r q (completes env run_id summary q' h) d found final =
    (q, kept_by_end r q db db' found env run_id summary q' final h, refl, refl)
Move-Kept db db' r q (fails env run_id reasons q' h) d found final =
    (q, kept_by_failed_run r q db db' found env run_id reasons q' final h, refl, refl)
Move-Kept db db' r q (pauses env run_id actor q' h) d found final =
    Kept-by_pause r q db db' found env run_id actor q' final h
Move-Kept db db' r q (continues env run_id q' h) d found final =
    (q, kept_by_continuation r q db db' found env run_id q' final h, refl, refl)
Move-Kept db db' r q (sweeps env current stale_after updated h) d found final =
    (q, kept_by_sweep r q db db' found env current stale_after updated d final h, refl, refl)
Move-Kept db db' r q
      (codex_fails store env run_id w summary reason log_text artifacts t p p' named here on h eq) d
      found final =
    let b : Bench = record { db = db; artifacts = artifacts } in
    (
      q,
      rw eq (
          kept_by_failure env run_id w summary reason p p' named on store log_text b t here h r q
            found final),
      refl,
      refl,
    )
Move-Kept db db' r q (codex_blocks env run_id w summary reason p p' named here on h) d found final =
    (
      q,
      kept_by_block env run_id w summary reason p p' named on db db' here h r q found final,
      refl,
      refl,
    )

-- A run that is cancelled was not completed or cancelled before.
kept_by_cancellation :
    (db db' : Db) (r run_id : ℕ) (q p : Run)
    → cancel_run run_id db ≡ ok (p, db')
    → find_run r db ≡ some q
    → run_status_transitions q.status ≡ []
    → find_run r db' ≡ some q
unfolding cancel_run
kept_by_cancellation db db' r run_id q p h found final =
    let (old, there, same, eq) = cancel_run_inv run_id db db' p h in
    ground (
      arith,
      there,
      id_of_find_run run_id db {q = old} there,
      find_run-put_run (cancelled old) r db,
      nat_beq_iff old.id r,
    )

run_ids-cancel_run :
    (db db' : Db) (run_id : ℕ) (p : Run)
    → cancel_run run_id db ≡ ok (p, db')
    → run_ids db' ≡ run_ids db
run_ids-cancel_run db db' run_id p h =
    let (_, _, _, eq) = cancel_run_inv run_id db db' p h in rw (eq, run_ids-put_run p db)

Course-Distinct : (db db' : Db) → Course db db' → Distinct (run_ids db) → Distinct (run_ids db')
Course-Distinct db _ begins d = d
Course-Distinct db db' (moves {db = mid} before last) d =
    Move-Distinct mid db' last (Course-Distinct db mid before d)
Course-Distinct db db' (cancels {db = mid} run_id p before h) d =
    rw (run_ids-cancel_run mid db' run_id p h) (Course-Distinct db mid before d)

-- After any sequence of the transactions of Runtime/Moves and of cancellations through the API, a
-- run that was completed or cancelled has still that status and that end time. The ids of the runs
-- are distinct before. Not among the transactions are ends that a Codex worker reports of a run
-- that it does not work on any more, and the claims and ends of the run queue.
pub final_runs_stay :
    (db db' : Db) (r : ℕ) (q : Run)
    → Course db db'
    → Distinct (run_ids db)
    → find_run r db ≡ some q
    → run_status_transitions q.status ≡ []
    → Kept r q db'
final_runs_stay db _ r q begins d found final = (q, found, refl, refl)
final_runs_stay db db' r q (moves {db = mid} before last) d found final =
    let (p, there, status, ended) = final_runs_stay db mid r q before d found final in
    let ends : run_status_transitions p.status ≡ [] = rw status final in
    let (q', now, status', ended') =
      Move-Kept mid db' r p last (Course-Distinct db mid before d) there ends in
    (q', now, status' ∙ status, ended' ∙ ended)
final_runs_stay db db' r q (cancels {db = mid} run_id c before h) d found final =
    let (p, there, status, ended) = final_runs_stay db mid r q before d found final in
    let ends : run_status_transitions p.status ≡ [] = rw status final in
    (p, kept_by_cancellation mid db' r run_id p c h there ends, status, ended)
