-- ===== src/Runtime/Reruns.antt =====
-- Submitting a run again, retrying it, and pausing and continuing it.
use xyn_seed.Base.{
  ℕ, suc, String, true, false, none, some, [], ◌∷◌, ◌++◌, ◌≡◌, refl, arith, ok, ◌==◌, nat_eq,
  if◌then◌else◌, nat_beq_iff,
}
use xyn_seed.Base.Members.{lookup-append}
use xyn_seed.Base.Table.{lookup}
use xyn_seed.Models.{Run, RunStatus, run_status_eq, RunPayload, Db}
use xyn_seed.Runtime.Status.{enter_run_status}
use xyn_seed.Runtime.Events.{publish_runtime_event}
use xyn_seed.Runtime.Workers.{Env}
use xyn_seed.Runtime.Session.{find_run, run_key, put_run}
use xyn_seed.Runtime.Rows.{id_of_find_run, find_run-put_run, find_run-publish}
use xyn_seed.Runtime.Runs.{runtime_run, validated_payload, submit_runtime_run, retry_runtime_run}
use xyn_seed.Runtime.Additions.{submit_runtime_run-eq, retry_runtime_run_inv}
use xyn_seed.Runtime.Controls.{
  request_pause_run, pausing, paused_event, pause_reasons, pause_requested, continuing, requeued,
  runtime_controls, set_runtime_controls,
}
use xyn_seed.Runtime.Dispatch.{is_dispatchable}
use xyn_seed.Runtime.Outcomes.{request_pause_run-eq, continue_blocked_run-eq, resumed}
use xyn_seed.Runtime.Api.{continue_runtime_run}

pub find_run-added :
    (q : Run) (n r : ℕ) (db : Db)
    → find_run r (record db { runs = db.runs ++ q ∷ []; next_uuid = n })
      ≡ elim (find_run r db) [ some x ↦ some x | none ↦ if q.id == r then some q else none ]
unfolding find_run lookup
find_run-added q n r db = ground (arith, lookup-append run_key r db.runs (q ∷ []))

-- A submission that succeeded can be repeated: the second one, by whoever and whenever, returns
-- the run of the first and changes nothing.
pub submit_runtime_run_twice :
    (env env' : Env) (p : RunPayload) (actor actor' : String) (db db' : Db) (q : Run)
    → submit_runtime_run env p actor db ≡ ok (q, db')
    → submit_runtime_run env' p actor' db' ≡ ok (q, db')
unfolding validated_payload runtime_run
submit_runtime_run_twice env env' p actor actor' db db' q h =
    let made = runtime_run env p actor (env.uuid_text db.next_uuid) in
    ground (
      arith,
      submit_runtime_run-eq env p actor db,
      submit_runtime_run-eq env' p actor' db',
      find_run-added made (suc db.next_uuid) p.run_id db,
      nat_beq_iff p.run_id p.run_id,
    )

-- A retry queues a new run with the payload of the old one and no attempt yet, under an id that no
-- run had, and leaves every run as it was. No run is taken to have the next UUID already.
pub retry_runtime_run_adds :
    (env : Env) (run_id : ℕ) (actor : String) (db db' : Db) (q' : Run)
    → find_run db.next_uuid db ≡ none
    → retry_runtime_run env run_id actor db ≡ ok (q', db')
    → (q : Run) × (p : RunPayload) × (find_run run_id db ≡ some q)
      × (q.prompt_payload ≡ some p)
      × (q'.prompt_payload ≡ some (record p { run_id = db.next_uuid }))
      × (q'.status ≡ RunStatus.queued)
      × (q'.attempt ≡ 0)
      × (find_run db.next_uuid db' ≡ some q')
      × ((r : ℕ) (x : Run) → find_run r db ≡ some x → find_run r db' ≡ some x)
unfolding runtime_run find_run
retry_runtime_run_adds env run_id actor db db' q' fresh h =
    let (q, p, found, given, runs) = retry_runtime_run_inv env run_id actor db db' q' h in
    let p' = record p { run_id = db.next_uuid } in
    let taken = record db { next_uuid = suc db.next_uuid } in
    let made = runtime_run env p' actor (env.uuid_text taken.next_uuid) in
    let added = record taken { runs = taken.runs ++ made ∷ []; next_uuid = suc taken.next_uuid } in
    let eq = submit_runtime_run-eq env p' actor taken in
    let row : q' ≡ made = ground (arith, eq) in
    let session : db' ≡ added = ground (arith, eq) in
    (
      q,
      p,
      found,
      given,
      rw row,
      rw row,
      rw row,
      rw (session, row)
          (ground (
            arith,
            find_run-added made (suc taken.next_uuid) db.next_uuid taken,
            nat_beq_iff db.next_uuid db.next_uuid,
          )),
      λ r x there. rw session (ground (arith, find_run-added made (suc taken.next_uuid) r taken)),
    )

-- A queued run that is paused and then continued is queued again, with the request withdrawn, with
-- no worker, with the same payload and attempts, and ready for a dispatch if it was before; both
-- calls succeed, and the pause alone takes it out of the queue.
pub pause_then_continue :
    (env env' : Env) (run_id : ℕ) (actor : String) (db : Db) (q : Run)
    → find_run run_id db ≡ some q
    → q.status ≡ RunStatus.queued
    → (q₁ q₂ : Run) × (db₁ db₂ : Db) × (request_pause_run env run_id actor db ≡ ok (q₁, db₁))
      × (is_dispatchable q₁ ≡ false)
      × (pause_requested q₁ ≡ true)
      × (continue_runtime_run env' run_id db₁ ≡ ok (q₂, db₂))
      × (find_run run_id db₂ ≡ some q₂)
      × (is_dispatchable q₂ ≡ is_dispatchable q)
      × (pause_requested q₂ ≡ false)
      × (q₂.prompt_payload ≡ q.prompt_payload)
      × (q₂.attempt ≡ q.attempt)
      × (q₂.locked_by ≡ none)
unfolding continue_runtime_run enter_run_status pausing continuing pause_requested is_dispatchable
    runtime_controls set_runtime_controls
pause_then_continue env env' run_id actor db q found waiting =
    let q₁ = enter_run_status env.utcnow RunStatus.blocked pause_reasons (pausing env actor q) in
    let db₁ = publish_runtime_event env.utcnow (paused_event actor q₁) (put_run q₁ db) in
    let q₂ = requeued env' (resumed env' "api" q₁) in
    let db₂ = put_run q₂ (put_run (resumed env' "api" q₁) db₁) in
    let id : q.id ≡ run_id = id_of_find_run run_id db {q = q} found in
    let first : find_run run_id db₁ ≡ some q₁ = ground (
      arith,
      find_run-publish env.utcnow (paused_event actor q₁) run_id (put_run q₁ db),
      find_run-put_run q₁ run_id db,
      nat_beq_iff q.id run_id,
    ) in
    (
      q₁,
      q₂,
      db₁,
      db₂,
      ground (arith, request_pause_run-eq env run_id actor db),
      refl,
      refl,
      ground (arith, continue_blocked_run-eq env' run_id "api" db₁),
      ground (
        arith,
        find_run-put_run q₂ run_id (put_run (resumed env' "api" q₁) db₁),
        find_run-put_run (resumed env' "api" q₁) run_id db₁,
        nat_beq_iff q.id run_id,
      ),
      rw waiting,
      refl,
      refl,
      refl,
      refl,
    )
