-- ===== src/Queue/Waiting.antt =====
-- core/blueprints/runner.py: `RunContext.wait_runs`, outside of a step: the progress that is sent
-- while a step is open is left out.
use xyn_seed.Base.{
  ℕ, String, Bool, true, false, not, Option, none, some, List, [], ◌∷◌, ◌+◌, ◌==◌, ◌&&◌, ◌||◌,
  nat_eq, string_eq, if◌then◌else◌, any, select, map, length, ltb, Result, ok, err,
}
use xyn_seed.Models.{Run, RunStatus, run_status_eq, Db}
use xyn_seed.Runtime.Session.{run_key}
use xyn_seed.Runtime.Workers.{Env}
use xyn_seed.Queue.Runner.{QueueError, lost_lease, is_owned, not_owned_text}

-- One turn of the loop: its time, the time since the start of the wait, and the rows that it reads.
pub record Moment : Type 0 where
  pub env : Env
  pub elapsed : ℕ
  pub db : Db

pub data WaitError : Type 0 where
  wait_lost : QueueError → WaitError
  timeout_error : WaitError
  children_failed all_children_failed : List ℕ → WaitError

pub record Waited : Type 0 where
  pub completed : List ℕ
  pub failed : List ℕ
  pub policy_met : Bool

-- `models.Run.id.in_(run_ids)`.
abbrev pub is_waited : List ℕ → Run → Bool
is_waited run_ids run = any (λ i. i == run.id) run_ids

abbrev pub has_completed : Run → Bool
has_completed run = run.status == RunStatus.completed

abbrev pub has_failed : Run → Bool
has_failed run = run.status == RunStatus.failed || run.status == RunStatus.cancelled

-- The identifiers of the rows that are waited for and in a state.
abbrev pub ids_in : (Run → Bool) → List ℕ → Db → List ℕ
ids_in p run_ids db = map run_key (select (λ run. is_waited run_ids run && p run) db.runs)

-- `if timeout and (time.time() - start_time) > timeout`: a timeout of 0 is none.
abbrev pub has_timed_out : Option ℕ → ℕ → Bool
has_timed_out none elapsed = false
has_timed_out (some t) elapsed = not (t == 0) && ltb t elapsed

abbrev pub is_empty : List ℕ → Bool
is_empty [] = true
is_empty (i ∷ ids) = false

-- The policy 'all': `none` is another turn.
unfoldable pub all_policy : List ℕ → List ℕ → List ℕ → Option (Result WaitError Waited)
all_policy run_ids completed failed =
    if not (is_empty failed)
    then some (err (children_failed failed))
    else if length completed + length failed == length run_ids
    then some (ok (record { completed = completed; failed = []; policy_met = true }))
    else none

-- The policy 'any'.
unfoldable pub any_policy : List ℕ → List ℕ → List ℕ → Option (Result WaitError Waited)
any_policy run_ids completed failed =
    if not (is_empty completed)
    then some (ok (record { completed = completed; failed = failed; policy_met = true }))
    else if length failed == length run_ids
    then some (err (all_children_failed failed))
    else none

-- Another policy is never met.
unfoldable pub evaluate : String → List ℕ → List ℕ → List ℕ → Option (Result WaitError Waited)
evaluate policy run_ids completed failed =
    if policy == "all"
    then all_policy run_ids completed failed
    else if policy == "any"
    then any_policy run_ids completed failed
    else none

unfoldable pub poll_runs :
    Option String → Run → List ℕ → String → Option ℕ → Moment → Option (Result WaitError Waited)
poll_runs worker_id run run_ids policy timeout m =
    if not (is_owned m.env.utcnow worker_id run.id m.db)
    then some (err (wait_lost (lost_lease (not_owned_text m.env worker_id run))))
    else if has_timed_out timeout m.elapsed
    then some (err timeout_error)
    else evaluate policy run_ids (ids_in has_completed run_ids m.db)
        (ids_in has_failed run_ids m.db)

-- The loop, on the turns that it takes; `none` is a wait that has not ended after them.
unfoldable pub wait_runs :
    Option String
    → Run
    → List ℕ
    → String
    → Option ℕ
    → List Moment
    → Option (Result WaitError Waited)
wait_runs worker_id run run_ids policy timeout [] = none
wait_runs worker_id run run_ids policy timeout (m ∷ moments) =
    let rest = wait_runs worker_id run run_ids policy timeout moments in
    elim (poll_runs worker_id run run_ids policy timeout m) [ none ↦ rest | some r ↦ some r ]
