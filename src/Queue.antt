-- ===== src/Queue.antt =====
-- core/worker.py: the run queue and its leases; core/blueprints/runner.py is in Runner and
-- Execution. One call is
-- one SQL statement or one transaction, and `NOW()` is its time.
pub mod Runner
pub mod Execution
pub mod Leases
pub mod Claims
pub mod Endings
pub mod Executions
pub mod Children
pub mod Spawns
pub mod StepBlocks
pub mod StepEnds
pub mod Waiting
pub mod Joins
use xyn_seed.Base.{
  ℕ, suc, zero, ◌+◌, String, Bool, true, false, not, Option, none, some, List, [], ◌∷◌, ◌++◌, ◌==◌,
  ◌&&◌, ◌||◌, nat_eq, string_eq, option_eq, if◌then◌else◌, or_else, coalesce, is_some, select, ltb,
  leb,
}
use mathlib.Core.List.{head?}
use xyn_seed.Base.Order.{Ordering, compare_numbers, compare_nulls_last, then_by, not_after}
use xyn_seed.Base.Sort.{sort}
use xyn_seed.Models.{Run, RunStatus, run_status_eq, Db}
use xyn_seed.Runtime.Session.{find_run, put_run}

-- `WORKER_ID`, `LEASE_DURATION_SECONDS` and `WORKER_BATCH_SIZE`.
pub record Worker : Type 0 where
  pub worker_id : String
  pub lease_duration_seconds : ℕ
  pub batch_size : ℕ

-- `COALESCE(run_at, queued_at, created_at, NOW()) <= NOW()`.
abbrev pub is_due : ℕ → Run → Bool
is_due now run = leb (or_else (coalesce run.run_at run.queued_at) run.created_at) now

-- `lease_expires_at IS NOT NULL AND lease_expires_at < NOW()`.
abbrev pub has_expired : ℕ → Option ℕ → Bool
has_expired now none = false
has_expired now (some t) = ltb t now

unfoldable pub is_claimable : ℕ → Run → Bool
is_claimable now run =
    run.status == RunStatus.queued && is_due now run
    || run.status == RunStatus.running && has_expired now run.lease_expires_at

-- `CASE WHEN status = 'RUNNING' THEN 0 ELSE 1 END`.
abbrev pub reclaim_rank : Run → ℕ
reclaim_rank run = if run.status == RunStatus.running then 0 else 1

-- The `ORDER BY`: rows that it leaves equal keep the order of the table.
abbrev pub claim_order : Run → Run → Ordering
claim_order a b = then_by (compare_numbers a.priority b.priority) (
    then_by (compare_numbers (reclaim_rank a) (reclaim_rank b)) (
      then_by (compare_nulls_last a.run_at b.run_at) (
        then_by (compare_nulls_last a.queued_at b.queued_at)
          (compare_numbers a.created_at b.created_at))))

unfoldable pub claim_precedes : Run → Run → Bool
claim_precedes a b = not_after (claim_order a b)

abbrev pub limit : ℕ → List Run → List Run
limit zero runs = []
limit (suc n) [] = []
limit (suc n) (run ∷ runs) = run ∷ limit n runs

-- The candidates: rows that another transaction has locked are skipped.
unfoldable pub candidates : (Run → Bool) → ℕ → ℕ → Db → List Run
candidates is_locked now batch_size db =
    limit batch_size
      (sort claim_precedes (select (λ run. is_claimable now run && not (is_locked run)) db.runs))

-- The `SET` of the claim.
unfoldable pub claimed : ℕ → Worker → Run → Run
claimed now w run = record run {
  status = RunStatus.running;
  locked_at = some now;
  locked_by = some w.worker_id;
  lease_expires_at = some (now + w.lease_duration_seconds);
  started_at = coalesce run.started_at (some now);
}

unfoldable pub claim_all : ℕ → Worker → List Run → Db → Db
claim_all now w [] db = db
claim_all now w (run ∷ runs) db = claim_all now w runs (put_run (claimed now w run) db)

-- The first row of `RETURNING` is taken to be the first candidate.
unfoldable pub claim_run : (Run → Bool) → ℕ → Worker → Db → Option Run × Db
claim_run is_locked now w db =
    let runs = candidates is_locked now w.batch_size db in
    let db' = claim_all now w runs db in
    elim (head? runs) [ none ↦ (none, db') | some run ↦ (find_run run.id db', db') ]

-- `status = 'RUNNING' AND locked_by = :worker_id`.
abbrev pub is_locked_by : String → Run → Bool
is_locked_by worker_id run = run.status == RunStatus.running && run.locked_by == some worker_id

abbrev pub renewed_lease : ℕ → Worker → Run → Run
renewed_lease now w run = record run { lease_expires_at = some (now + w.lease_duration_seconds) }

unfoldable pub renew_lease : ℕ → Worker → ℕ → Db → Bool × Db
renew_lease now w run_id db = elim (find_run run_id db) [
  | none ↦ (false, db)
  | some run ↦
      if is_locked_by w.worker_id run
      then (true, put_run (renewed_lease now w run) db)
      else (false, db)
]
