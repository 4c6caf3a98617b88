-- ===== src/Runtime/Moves/Untouched.antt =====
-- What each operation of the runtime does to a run that is completed or cancelled.
use xyn_seed.Base.{
  ℕ, suc, String, Option, some, [], ◌≡◌, ◌≢◌, refl, arith, ok, ◌==◌, nat_eq, Option-cases, inl, inr,
  nat_beq_iff, Bool-cases,
}
use xyn_seed.Models.{Run, RunStatus, run_status_eq, run_status_beq_iff, RunPayload, Db}
use xyn_seed.Runtime.Status.{Reasons, no_reasons, enter_run_status, run_status_transitions}
use xyn_seed.Runtime.Workers.{Env, beating, heartbeat}
use xyn_seed.Runtime.Session.{find_run, put_run, released}
use xyn_seed.Runtime.Rows.{
  id_of_find_run, find_run-put_run, find_run-publish, find_run-update_worker,
}
use xyn_seed.Runtime.Assignment.{find_run-released}
use xyn_seed.Runtime.Runs.{
  runtime_run, submit_runtime_run, complete_run, completed_event, fail_run, failure_event,
  failure_status,
}
use xyn_seed.Runtime.Additions.{submit_runtime_run-eq}
use xyn_seed.Runtime.Reruns.{find_run-added}
use xyn_seed.Runtime.Reports.{record_run_heartbeat_inv}
use xyn_seed.Runtime.Controls.{request_pause_run, pausing, paused_event, pause_noted, continuing}
use xyn_seed.Runtime.Heartbeats.{record_run_heartbeat, renewed, heartbeat_event}
use xyn_seed.Runtime.Outcomes.{complete_run-eq, fail_run-eq, request_pause_run-eq, resumed}
use xyn_seed.Runtime.Consistency.{continue_runtime_run_inv, request_pause_run_inv}
use xyn_seed.Runtime.Api.{continue_runtime_run}

-- The row is there, with the same status and end time.
abbrev pub Kept : ℕ → Run → Db → Type 0
Kept r q db =
    (q' : Run) × (find_run r db ≡ some q')
    × (q'.status ≡ q.status)
    × (q'.completed_at ≡ q.completed_at)

-- A row of another run is written.
kept_other :
    (p : Run) (r : ℕ) (q : Run) (db : Db)
    → find_run r db ≡ some q
    → p.id ≢ r
    → find_run r (put_run p db) ≡ some q
kept_other p r q db found other = ground (arith, find_run-put_run p r db, nat_beq_iff p.id r)

module _ (r : ℕ) (q : Run) (db db' : Db) (found : find_run r db ≡ some q) where
  pub kept_by_submit :
      (env : Env) (p : RunPayload) (actor : String) (q' : Run)
      → submit_runtime_run env p actor db ≡ ok (q', db')
      → find_run r db' ≡ some q
  kept_by_submit env p actor q' h =
      let made = runtime_run env p actor (env.uuid_text db.next_uuid) in
      ground
        (arith, submit_runtime_run-eq env p actor db, find_run-added made (suc db.next_uuid) r db)

  pub kept_by_end :
      (env : Env) (run_id : ℕ) (summary : Option String) (q' : Run)
      → run_status_transitions q.status ≡ []
      → complete_run env run_id summary db ≡ ok (q', db')
      → find_run r db' ≡ some q
  unfolding enter_run_status
  kept_by_end env run_id summary q' final h = elim (Option-cases (find_run run_id db)) [
    | inl gone ↦ absurd (ground (arith, complete_run-eq env run_id summary db))
    | inr (p, there) ↦
        let p' =
          enter_run_status env.utcnow RunStatus.completed (record no_reasons { summary = summary })
            p in
        ground (
          arith,
          complete_run-eq env run_id summary db,
          run_status_beq_iff p.status RunStatus.running,
          id_of_find_run run_id db {q = p} there,
          find_run-publish env.utcnow (completed_event p' summary) r
              (released env p.locked_by (put_run p' db)),
          find_run-released env p.locked_by r (put_run p' db),
          find_run-put_run p' r db,
          nat_beq_iff p.id r,
        )
  ]

  pub kept_by_failed_run :
      (env : Env) (run_id : ℕ) (reasons : Reasons) (q' : Run)
      → run_status_transitions q.status ≡ []
      → fail_run env run_id reasons db ≡ ok (q', db')
      → find_run r db' ≡ some q
  unfolding enter_run_status
  kept_by_failed_run env run_id reasons q' final h = elim (Option-cases (find_run run_id db)) [
    | inl gone ↦ absurd (ground (arith, fail_run-eq env run_id reasons db))
    | inr (p, there) ↦
        let p' = enter_run_status env.utcnow (failure_status reasons.escalation_reason) reasons p in
        ground (
          arith,
          fail_run-eq env run_id reasons db,
          id_of_find_run run_id db {q = p} there,
          find_run-publish env.utcnow (failure_event p' reasons) r
              (released env p.locked_by (put_run p' db)),
          find_run-released env p.locked_by r (put_run p' db),
          find_run-put_run p' r db,
          nat_beq_iff p.id r,
        )
  ]

  pub Kept-by_pause :
      (env : Env) (run_id : ℕ) (actor : String) (q' : Run)
      → run_status_transitions q.status ≡ []
      → request_pause_run env run_id actor db ≡ ok (q', db')
      → Kept r q db'
  unfolding pausing
  Kept-by_pause env run_id actor q' final h =
      let (p, there, same, ends) = request_pause_run_inv env run_id actor db db' q' h in
      elim (Bool-cases (p.id == r)) [
        | inl one ↦
            let noted = pause_noted (pausing env actor q) in
            (
              noted,
              ground (
                arith,
                request_pause_run-eq env run_id actor db,
                nat_beq_iff p.id r,
                id_of_find_run run_id db {q = p} there,
                id_of_find_run r db {q = q} found,
                find_run-put_run noted r db,
              ),
              refl,
              refl,
            )
        | inr other ↦ (
          q,
          elim ends [
            | inl (_, eq) ↦ ground (
              arith,
              eq,
              find_run-publish env.utcnow (paused_event actor q') r (put_run q' db),
              find_run-put_run q' r db,
            )
            | inr (_, _, eq) ↦ ground (arith, eq, find_run-put_run q' r db)
          ],
          refl,
          refl,
        )
      ]

  pub kept_by_continuation :
      (env : Env) (run_id : ℕ) (q' : Run)
      → run_status_transitions q.status ≡ []
      → continue_runtime_run env run_id db ≡ ok (q', db')
      → find_run r db' ≡ some q
  unfolding enter_run_status continuing
  kept_by_continuation env run_id q' final h =
      let (p, there, blocked, same, eq) = continue_runtime_run_inv env run_id db db' q' h in
      ground (
        arith,
        id_of_find_run run_id db {q = p} there,
        find_run-put_run q' r (put_run (resumed env "api" p) db),
        find_run-put_run (resumed env "api" p) r db,
        nat_beq_iff p.id r,
      )

  pub Kept-by_heartbeat :
      (env : Env) (w : String) (run_id : ℕ) (beaten : Option Run)
      → record_run_heartbeat env w run_id db ≡ ok (beaten, db')
      → Kept r q db'
  unfolding heartbeat
  Kept-by_heartbeat env w run_id beaten h =
      let db₁ = (heartbeat env w db).1 in
      let same = find_run-update_worker (beating env) w r db in
      elim (record_run_heartbeat_inv env w run_id db db' beaten h) [
        | inl eq ↦ (q, ground (arith, eq, same), refl, refl)
        | inr (p, there, eq) ↦
            let told =
              find_run-publish env.utcnow (heartbeat_event env w (renewed env p)) r
                (put_run (renewed env p) db₁) in
            let put = find_run-put_run (renewed env p) r db₁ in
            elim (Bool-cases (p.id == r)) [
              | inl one ↦ (
                renewed env q,
                ground (
                  arith,
                  eq,
                  same,
                  told,
                  put,
                  nat_beq_iff p.id r,
                  id_of_find_run run_id db {q = p} there,
                ),
                refl,
                refl,
              )
              | inr other ↦ (q, ground (arith, eq, same, told, put), refl, refl)
            ]
      ]
