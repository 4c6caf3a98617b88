-- ===== src/Runtime/Moves/Identities.antt =====
-- Every transaction keeps the ids of the runs distinct, on whatever session it is made.
use xyn_seed.Base.{
  ℕ, suc, String, Option, [], ◌∷◌, ◌++◌, ◌≡◌, arith, ok, nat_eq, Option-cases, inl, inr,
}
use xyn_seed.Base.Members.{Distinct, Distinct-append}
use xyn_seed.Models.{Run, RunPayload, Db}
use xyn_seed.Runtime.Workers.{Env, heartbeat, beating}
use xyn_seed.Runtime.Session.{find_run, put_run, run_key}
use xyn_seed.Runtime.Rows.{run_ids, run_ids-put_run, run_ids-publish, run_ids-update_worker}
use xyn_seed.Runtime.Runs.{runtime_run, submit_runtime_run}
use xyn_seed.Runtime.Additions.{
  submit_runtime_run-eq, retry_runtime_run_inv, run_ids-register_worker,
}
use xyn_seed.Runtime.Reports.{record_run_heartbeat_inv, report_run_step_inv}
use xyn_seed.Runtime.Heartbeats.{record_run_heartbeat, renewed, heartbeat_event}
use xyn_seed.Runtime.Identities.{
  run_ids-complete_run, run_ids-fail_run, run_ids-request_pause_run, run_ids-continue_runtime_run,
  run_ids-dispatch_queued_run, run_ids-handle_stale_heartbeats,
}
use xyn_seed.Codex.{Bench}
use xyn_seed.Codex.Reported.{run_ids-failed, run_ids-blocked}
use xyn_seed.Runtime.Moves.{
  Move, registers, submits, retries, dispatches, beats, reports, completes, fails, pauses,
  continues, sweeps, codex_fails, codex_blocks,
}

submitted-Distinct :
    (env : Env) (p : RunPayload) (actor : String) (db db' : Db) (q' : Run)
    → Distinct (run_ids db)
    → submit_runtime_run env p actor db ≡ ok (q', db')
    → Distinct (run_ids db')
unfolding runtime_run find_run
submitted-Distinct env p actor db db' q' d h = elim (Option-cases (find_run p.run_id db)) [
  | inl new ↦
      let q = runtime_run env p actor (env.uuid_text db.next_uuid) in
      let eq : db' ≡ record db { runs = db.runs ++ q ∷ []; next_uuid = suc db.next_uuid } =
        ground (arith, submit_runtime_run-eq env p actor db) in
      rw eq (Distinct-append run_key db.runs q d new)
  | inr (old, found) ↦
      let eq : db' ≡ db = ground (arith, submit_runtime_run-eq env p actor db) in rw eq d
]

run_ids-record_run_heartbeat :
    (env : Env) (w : String) (run_id : ℕ) (db db' : Db) (found : Option Run)
    → record_run_heartbeat env w run_id db ≡ ok (found, db')
    → run_ids db' ≡ run_ids db
unfolding heartbeat
run_ids-record_run_heartbeat env w run_id db db' found h =
    let beaten = (heartbeat env w db).1 in
    let same : run_ids beaten ≡ run_ids db = run_ids-update_worker (beating env) w db in
    elim (record_run_heartbeat_inv env w run_id db db' found h) [
      | inl eq ↦ rw eq same
      | inr (q, here, eq) ↦
          rw
            (
              eq,
              run_ids-publish env.utcnow (heartbeat_event env w (renewed env q))
                  (put_run (renewed env q) beaten),
              run_ids-put_run (renewed env q) beaten,
            )
            same
    ]

pub Move-Distinct : (db db' : Db) → Move db db' → Distinct (run_ids db) → Distinct (run_ids db')
Move-Distinct db db' (registers info named eq) d = rw eq (rw (run_ids-register_worker info db) d)
Move-Distinct db db' (submits env p actor q h) d = submitted-Distinct env p actor db db' q d h
Move-Distinct db db' (retries env r actor q h) d =
    let (_, p, _, _, runs) = retry_runtime_run_inv env r actor db db' q h in
    submitted-Distinct env (record p { run_id = db.next_uuid }) actor
      (record db { next_uuid = suc db.next_uuid }) db' q d runs
Move-Distinct db db' (dispatches env current timeout found h) d =
    rw (run_ids-dispatch_queued_run env current timeout db db' found d h) d
Move-Distinct db db' (beats env w r found h) d =
    rw (run_ids-record_run_heartbeat env w r db db' found h) d
Move-Distinct db db' (reports env r key label status n summary t h) d =
    let (runs, _) = report_run_step_inv env r key label status n summary db db' t h in rw runs d
Move-Distinct db db' (completes env r summary q h) d =
    rw (run_ids-complete_run env r summary db db' q h) d
Move-Distinct db db' (fails env r reasons q h) d = rw (run_ids-fail_run env r reasons db db' q h) d
Move-Distinct db db' (pauses env r actor q h) d =
    rw (run_ids-request_pause_run env r actor db db' q h) d
Move-Distinct db db' (continues env r q h) d = rw (run_ids-continue_runtime_run env r db db' q h) d
Move-Distinct db db' (sweeps env current stale_after updated h) d =
    rw (run_ids-handle_stale_heartbeats env current stale_after db db' updated h) d
Move-Distinct db db'
      (codex_fails store env r w summary reason log_text artifacts t q q' named found on h eq) d =
    let b : Bench = record { db = db; artifacts = artifacts } in
    rw eq (rw (run_ids-failed env r w summary reason q q' named on store log_text b t found h) d)
Move-Distinct db db' (codex_blocks env r w summary reason q q' named found on h) d =
    rw (run_ids-blocked env r w summary reason q q' named on db db' found h) d
