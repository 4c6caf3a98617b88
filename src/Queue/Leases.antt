-- ===== src/Queue/Leases.antt =====
-- A run whose lease is alive belongs to its worker.
use xyn_seed.Base.{
  ℕ, ◌≤◌, String, Bool, true, Option, some, ok, ◌≡◌, ◌≢◌, arith, map, nat_eq, string_eq, option_eq,
  option_beq_iff, nat_beq_iff, Option-cases, inl, inr, ◌∙◌, sym, ap,
}
use mathlib.Core.List.{head?}
use xyn_seed.Base.Dict.{Dict}
use xyn_seed.Base.Json.{Json}
use xyn_seed.Base.Members.{Distinct, All-map}
use xyn_seed.Models.{Run, RunStatus, run_status_eq, Db}
use xyn_seed.Runtime.Session.{find_run, run_key}
use xyn_seed.Runtime.Rows.{find_run-put_run, id_of_find_run}
use xyn_seed.Queue.{
  Worker, is_claimable, candidates, claim_all, claim_run, renew_lease, renewed_lease,
}
use xyn_seed.Queue.Claims.{candidates_free, find_run-claim_all, is_free}
use xyn_seed.Queue.Runner.{QueueError, may_finish}
use xyn_seed.Queue.Execution.{StatementDriver, finish_run, mark_failed, completed_row, failed_row}

-- A statement that a worker sends at a time.
pub data Statement (driver : StatementDriver) (now : ℕ) (w : Worker) (db : Db) : Db → Type 0 where
  claims :
      (is_locked : Run → Bool) (found : Option Run) (db' : Db)
      → claim_run is_locked now w db ≡ (found, db')
      → Statement driver now w db db'
  renews :
      (run_id : ℕ) (kept : Bool) (db' : Db)
      → renew_lease now w run_id db ≡ (kept, db')
      → Statement driver now w db db'
  finishes :
      (run_id : ℕ) (outputs : Dict Json) (db' : Db)
      → finish_run driver now (some w.worker_id) run_id outputs db ≡ ok (some db')
      → Statement driver now w db db'
  marks_failed :
      (run_id : ℕ) (e : QueueError) (db' : Db)
      → mark_failed driver now (some w.worker_id) run_id e db ≡ ok (some db')
      → Statement driver now w db db'

claim_run-session :
    (is_locked : Run → Bool) (now : ℕ) (w : Worker) (db db' : Db) (found : Option Run)
    → claim_run is_locked now w db ≡ (found, db')
    → db' ≡ claim_all now w (candidates is_locked now w.batch_size db) db
unfolding claim_run
claim_run-session is_locked now w db db' found h =
    elim (Option-cases (head? (candidates is_locked now w.batch_size db))) [
      | inl nobody ↦ ground (arith, nobody)
      | inr (q, first) ↦ ground (arith, first)
    ]

-- A run that is free to claim is not a running run with a live lease.
free_not_alive :
    (is_locked : Run → Bool) (now t r : ℕ) (p q : Run) (db : Db)
    → find_run r db ≡ some q
    → q.status ≡ RunStatus.running
    → q.lease_expires_at ≡ some t
    → now ≤ t
    → (find_run p.id db ≡ some p) × (is_free is_locked now p ≡ true)
    → p.id ≢ r
unfolding is_claimable
free_not_alive is_locked now t r p q db found running lease alive (there, free) same =
    let again : find_run r db ≡ some p = ap (λ k. find_run k db) (sym same) ∙ there in
    let one : p ≡ q = cc in ground (arith, one)

-- While the lease of a running run is not over, no statement of another worker changes the run:
-- it is not claimed, its lease is not renewed, and it is not completed or failed by another worker
-- than the one that holds it. The ids of the runs are taken to be distinct.
pub lease_protects :
    (driver : StatementDriver) (now t : ℕ) (w : Worker) (v : String) (r : ℕ) (q : Run) (db db' : Db)
    → Distinct (map run_key db.runs)
    → find_run r db ≡ some q
    → q.status ≡ RunStatus.running
    → q.locked_by ≡ some v
    → q.lease_expires_at ≡ some t
    → now ≤ t
    → v ≢ w.worker_id
    → Statement driver now w db db'
    → find_run r db' ≡ some q
unfolding is_claimable renew_lease finish_run mark_failed may_finish
lease_protects driver now t w v r q db db' d found running held lease alive other
      (claims is_locked taken _ h) =
    let none_is =
      All-map (λ p s same. free_not_alive is_locked now t r p q db found running lease alive s same)
        (candidates is_locked now w.batch_size db)
        (candidates_free is_locked now db w.batch_size d) in
    rw (claim_run-session is_locked now w db db' taken h)
      (find_run-claim_all now w r (candidates is_locked now w.batch_size db) db none_is ∙ found)
lease_protects driver now t w v r q db db' d found running held lease alive other
      (renews run_id kept _ h) =
    elim (Option-cases (find_run run_id db)) [
      | inl gone ↦ ground arith
      | inr (p, there) ↦ ground (
        arith,
        id_of_find_run run_id db {q = p} there,
        find_run-put_run (renewed_lease now w p) r db,
        nat_beq_iff p.id r,
        option_beq_iff q.locked_by (some w.worker_id),
      )
    ]
lease_protects driver now t w v r q db db' d found running held lease alive other
      (finishes run_id outputs _ h) =
    elim (Option-cases (find_run run_id db)) [
      | inl gone ↦ absurd (ground arith)
      | inr (p, there) ↦ ground (
        arith,
        id_of_find_run run_id db {q = p} there,
        find_run-put_run (completed_row now outputs p) r db,
        nat_beq_iff p.id r,
        option_beq_iff q.locked_by (some w.worker_id),
      )
    ]
lease_protects driver now t w v r q db db' d found running held lease alive other
      (marks_failed run_id e _ h) =
    elim (Option-cases (find_run run_id db)) [
      | inl gone ↦ absurd (ground arith)
      | inr (p, there) ↦ ground (
        arith,
        id_of_find_run run_id db {q = p} there,
        find_run-put_run (failed_row now e p) r db,
        nat_beq_iff p.id r,
        option_beq_iff q.locked_by (some w.worker_id),
      )
    ]
