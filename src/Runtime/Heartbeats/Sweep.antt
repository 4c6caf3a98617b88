-- ===== src/Runtime/Heartbeats/Sweep.antt =====
-- What `handle_stale_heartbeats` does to every run.
use mathlib.Core.List.{map}
use xyn_seed.Base.{
  ℕ, Option, none, some, List, [], ◌∷◌, ◌≡◌, ◌≢◌, refl, arith, ok, All, inl, inr, if◌then◌else◌,
  ◌==◌, nat_eq, nat_beq_iff, select, Bool-cases,
}
use xyn_seed.Base.Members.{Distinct, All-select, lookup-All}
use xyn_seed.Base.Selections.{lookup_absent, select-Distinct, lookup-select}
use xyn_seed.Base.Table.{lookup, replace}
use xyn_seed.Models.{Run, RunStatus, run_status_eq, Db}
use xyn_seed.Runtime.Events.{publish_runtime_event}
use xyn_seed.Runtime.Workers.{Env}
use xyn_seed.Runtime.Session.{find_run, put_run, run_key, released}
use xyn_seed.Runtime.Heartbeats.{
  is_stale, stale_result, expire_runs, handle_stale_heartbeats, timeout_event, review_event,
}
use xyn_seed.Runtime.Outcomes.{expire_run-eq, expired_db}
use xyn_seed.Runtime.Rows.{find_run-put_run, find_run-publish}
use xyn_seed.Runtime.Assignment.{find_run-released}

module _ (env : Env) (current : ℕ) where
  -- The session after one turn of the loop.
  abbrev pub swept_db : Run → Db → Db
  swept_db q db =
      if (stale_result current q).status == RunStatus.blocked
      then publish_runtime_event env.utcnow (review_event (stale_result current q))
          (expired_db env current q db)
      else expired_db env current q db

  pub id-stale_result : (q : Run) → (stale_result current q).id ≡ q.id
  unfolding stale_result
  id-stale_result q = ground arith

  find_run-expired_db :
      (q : Run) (r : ℕ) (db : Db)
      → find_run r (expired_db env current q db)
        ≡ (if q.id == r then replace (stale_result current q) (find_run r db) else find_run r db)
  find_run-expired_db q r db =
      let noted = record q { failure_reason = some "worker_unresponsive" } in
      let told = publish_runtime_event env.utcnow (timeout_event q) (put_run noted db) in
      ground (
        arith,
        id-stale_result q,
        find_run-put_run (stale_result current q) r (released env q.locked_by told),
        find_run-released env q.locked_by r told,
        find_run-publish env.utcnow (timeout_event q) r (put_run noted db),
        find_run-put_run noted r db,
      )

  find_run-swept_db :
      (q : Run) (r : ℕ) (db : Db)
      → find_run r (swept_db q db)
        ≡ (if q.id == r then replace (stale_result current q) (find_run r db) else find_run r db)
  find_run-swept_db q r db =
      elim (Bool-cases ((stale_result current q).status == RunStatus.blocked)) [
        | inl t ↦
            rw (t, find_run-publish env.utcnow (review_event (stale_result current q)) r _)
              (find_run-expired_db q r db)
        | inr t ↦ rw t (find_run-expired_db q r db)
      ]

  -- The rows that are still to come are not touched by a turn.
  pub untouched :
      (q : Run) (rest : List Run) (db : Db)
      → All (λ j. j ≢ q.id) (map run_key rest)
      → All (λ p. find_run p.id db ≡ some p) rest
      → All (λ p. find_run p.id (swept_db q db) ≡ some p) rest
  untouched q [] db d h = tt
  untouched q (p ∷ rest) db d h =
      (ground (arith, find_run-swept_db q p.id db), untouched q rest db d.1 h.1)

  abbrev pub swept : ℕ → List Run → Option Run → Option Run
  swept r qs old = elim (lookup run_key r qs) [
    | none ↦ old
    | some q ↦ some (stale_result current q)
  ]

  pub find_run-expire_runs :
      (qs : List Run) (db : Db)
      → Distinct (map run_key qs)
      → All (λ p. find_run p.id db ≡ some p) qs
      → (updated : List Run) × (db' : Db) × (expire_runs env current qs db ≡ ok (updated, db'))
        × ((r : ℕ) → find_run r db' ≡ swept r qs (find_run r db))
  unfolding expire_runs lookup
  find_run-expire_runs [] db d h = ([], db, refl, λ r. refl)
  find_run-expire_runs (q ∷ rest) db d h =
      let (updated, db', runs, later) =
        find_run-expire_runs rest (swept_db q db) d.1 (untouched q rest db d.0 h.1) in
      (
        stale_result current q ∷ updated,
        db',
        ground (arith, expire_run-eq env current q db, runs),
        λ r. elim (Bool-cases (q.id == r)) [
          | inl here ↦
              let absent = lookup_absent run_key r rest (rw (← (nat_beq_iff q.id r).0 here) d.0) in
              ground (arith, later r, find_run-swept_db q r db, absent)
          | inr there ↦ ground (arith, later r, find_run-swept_db q r db)
        ],
      )

-- A sweep that returns, and changes exactly the stale runs.
abbrev pub Sweeps : Env → ℕ → ℕ → Db → Type 0
Sweeps env current stale_after db =
    (updated : List Run) × (db' : Db) × (handle_stale_heartbeats env current stale_after db
      ≡ ok (updated, db'))
    × ((r : ℕ)
        → find_run r db' ≡ elim (find_run r db) [
          | none ↦ none
          | some q ↦ some (if is_stale current stale_after q then stale_result current q else q)
        ])

-- A sweep returns, and gives every stale run its result and leaves every other run as it was. The
-- ids of the runs are taken to be distinct.
pub handle_stale_heartbeats-Sweeps :
    (env : Env) (current stale_after : ℕ) (db : Db)
    → Distinct (map run_key db.runs)
    → Sweeps env current stale_after db
unfolding handle_stale_heartbeats find_run
handle_stale_heartbeats-Sweeps env current stale_after db d =
    let p = is_stale current stale_after in
    let (updated, db', runs, swept) =
      find_run-expire_runs env current (select p db.runs) db (select-Distinct run_key p db.runs d)
        (All-select _ p db.runs (lookup-All run_key db.runs d)) in
    (updated, db', runs, λ r. ground (arith, swept r, lookup-select run_key p r db.runs d))
