-- ===== src/Runtime/Heartbeats/Retries.antt =====
-- How often a run whose worker dies is started again.
use mathlib.Core.List.{map}
use xyn_seed.Base.{
  ℕ, ◌+◌, ◌≤◌, String, false, some, List, [], ◌∷◌, ◌≡◌, arith, ok, if◌then◌else◌, length, leb,
  nat_eq, inl, inr, Option-cases,
}
use xyn_seed.Base.Members.{Distinct}
use xyn_seed.Models.{Run, RunStatus, run_status_eq, Db}
use xyn_seed.Runtime.Status.{enter_run_status}
use xyn_seed.Runtime.Workers.{Env}
use xyn_seed.Runtime.Session.{find_run, run_key}
use xyn_seed.Runtime.Dispatch.Selection.{started_run}
use xyn_seed.Runtime.Heartbeats.{
  is_stale, stale_result, max_retries, require_review, handle_stale_heartbeats,
}
use xyn_seed.Runtime.Heartbeats.Sweep.{handle_stale_heartbeats-Sweeps}

not_stale_after :
    (current stale_after : ℕ) (q : Run)
    → is_stale current stale_after (stale_result current q) ≡ false
unfolding is_stale stale_result
not_stale_after current stale_after q = ground arith

-- After a sweep no run is stale, as long as the ids of the runs are distinct.
pub sweep_leaves_none_stale :
    (env : Env) (current stale_after : ℕ) (db db' : Db) (updated : List Run)
    → Distinct (map run_key db.runs)
    → handle_stale_heartbeats env current stale_after db ≡ ok (updated, db')
    → (r : ℕ) (q : Run) → find_run r db' ≡ some q
    → is_stale current stale_after q ≡ false
sweep_leaves_none_stale env current stale_after db db' updated d h r q found =
    let (_, swept, runs, at) = handle_stale_heartbeats-Sweeps env current stale_after db d in
    elim (Option-cases (find_run r db)) [
      | inl gone ↦ ground (arith, at r)
      | inr (old, here) ↦ ground (arith, at r, not_stale_after current stale_after old)
    ]

-- A start on some worker, at some time, and the sweep that finds the worker dead.
pub record Round : Type 0 where
  pub started_at : ℕ
  pub swept_at : ℕ
  pub worker_id : String

module _ (env : Env) (timeout : ℕ) where
  unfoldable pub lost_rounds : List Round → Run → Run
  lost_rounds [] q = q
  lost_rounds (r ∷ rs) q =
      lost_rounds rs (stale_result r.swept_at (started_run env r.started_at timeout r.worker_id q))

  lost_round :
      (r : Round) (q : Run)
      → let q' = stale_result r.swept_at (started_run env r.started_at timeout r.worker_id q) in
        (q'.attempt ≡ q.attempt + 1)
        × (q'.execution_policy ≡ q.execution_policy)
        × (q'.status ≡ (
            if leb (q.attempt + 1) (max_retries q)
            then RunStatus.queued
            else if require_review q
            then RunStatus.blocked
            else RunStatus.failed))
  unfolding stale_result enter_run_status
  lost_round r q = ground arith

  -- A queued run that loses its worker in every round is queued again after each of them, until
  -- its attempts have passed the retries that its policy allows; then it is failed, or blocked
  -- where the policy asks for a review.
  pub retries_exhausted :
      (rs : List Round) (q : Run)
      → q.status ≡ RunStatus.queued
      → q.attempt ≤ max_retries q
      → q.attempt + length rs ≤ max_retries q + 1
      → ((lost_rounds rs q).attempt ≡ q.attempt + length rs)
        × ((lost_rounds rs q).status ≡ (
            if leb (q.attempt + length rs) (max_retries q)
            then RunStatus.queued
            else if require_review q
            then RunStatus.blocked
            else RunStatus.failed))
  unfolding lost_rounds
  retries_exhausted [] q h low fits = ground arith
  retries_exhausted (r ∷ []) q h low fits = ground (arith, lost_round r q)
  retries_exhausted (r ∷ s ∷ rs) q h low fits =
      let q' = stale_result r.swept_at (started_run env r.started_at timeout r.worker_id q) in
      ground (arith, lost_round r q, retries_exhausted (s ∷ rs) q')
