-- ===== src/Runtime/Dispatch/Selection.antt =====
-- Which run `dispatch_queued_run` starts, on which worker, and when it starts none.
use xyn_seed.Base.{
  ℕ, String, true, Option, none, some, List, [], ◌∷◌, ◌≡◌, ◌≢◌, arith, ok, err, All, inl, inr,
  Option-cases, select,
}
use xyn_seed.Base.Members.{All-sort, All-select_self, All-map}
use xyn_seed.Base.Sorted.{Sorted}
use xyn_seed.Models.{Run, RunStatus, run_status_eq, run_status_beq_iff, RuntimeWorker, Db}
use xyn_seed.Runtime.Status.{invalid_payload, no_reasons, enter_run_status}
use xyn_seed.Runtime.Events.{publish_runtime_event}
use xyn_seed.Runtime.Workers.{Env, mark_worker_busy}
use xyn_seed.Runtime.Session.{put_run}
use xyn_seed.Runtime.Runs.{validated_payload}
use xyn_seed.Runtime.Dispatch.{
  is_dispatchable, run_precedes, queued_runs, accepting_driver, idle_worker, assigned,
  started_event, try_dispatch, dispatch_loop,
}
use xyn_seed.Runtime.Outcomes.{assign_run-eq}

-- The row of a run that is started.
abbrev pub started_run : Env → ℕ → ℕ → String → Run → Run
started_run env current timeout worker_id q =
    assigned current timeout worker_id (enter_run_status env.utcnow RunStatus.running no_reasons q)

module _ (env : Env) (current timeout : ℕ) (db : Db) where
  -- The worker that a run could be given to: an idle and healthy one of its type, if a driver
  -- takes its payload.
  abbrev pub available_worker : Run → Option RuntimeWorker
  available_worker q = elim q.prompt_payload [
    | none ↦ none
    | some p ↦ elim (accepting_driver env q p) [
      | none ↦ none
      | some d ↦ idle_worker current timeout q db
    ]
  ]

  -- The session after a start.
  abbrev pub started_db : Run → RuntimeWorker → Db
  started_db q w =
      publish_runtime_event env.utcnow
        (started_event (started_run env current timeout w.worker_id q) w.worker_id)
        (mark_worker_busy env w.worker_id (started_run env current timeout w.worker_id q).id (
          put_run (started_run env current timeout w.worker_id q)
            (put_run (enter_run_status env.utcnow RunStatus.running no_reasons q) db))).1

  try_dispatch-eq :
      (q : Run)
      → q.status ≡ RunStatus.queued
      → try_dispatch env current timeout q db ≡ elim q.prompt_payload [
        | none ↦ err invalid_payload
        | some p ↦ elim (available_worker q) [
          | none ↦ ok (none, db)
          | some w ↦ ok (some (started_run env current timeout w.worker_id q), started_db q w)
        ]
      ]
  unfolding try_dispatch validated_payload
  try_dispatch-eq q h = elim (Option-cases (idle_worker current timeout q db)) [
    | inl nobody ↦ ground arith
    | inr (w, found) ↦ ground (arith, assign_run-eq env current timeout q w db h)
  ]

  -- A start found in the loop, for any property of the runs that were waiting: the run had the
  -- property, it was started on the worker that was available, and it precedes all runs that
  -- could have been started.
  pub record Start (P : Run → Type 0) (waiting : List Run) (q' : Run) (db' : Db) : Type 0 where
    pub run : Run
    pub worker : RuntimeWorker
    pub was_waiting : P run
    pub is_available : available_worker run ≡ some worker
    pub row : q' ≡ started_run env current timeout worker.worker_id run
    pub session : db' ≡ started_db run worker
    pub precedes : All (λ p. available_worker p ≢ none → run_precedes run p ≡ true) waiting

  precedes_self : (q : Run) → run_precedes q q ≡ true
  unfolding run_precedes
  precedes_self q = ground arith

  -- One turn of the loop.
  dispatch_loop-cons :
      (q : Run) (rest : List Run)
      → q.status ≡ RunStatus.queued
      → dispatch_loop env current timeout (q ∷ rest) db ≡ elim q.prompt_payload [
        | none ↦ err invalid_payload
        | some p ↦ elim (available_worker q) [
          | none ↦ dispatch_loop env current timeout rest db
          | some w ↦ ok (some (started_run env current timeout w.worker_id q), started_db q w)
        ]
      ]
  unfolding dispatch_loop
  dispatch_loop-cons q rest h = ground (arith, try_dispatch-eq q h)

  pub dispatch_loop_starts :
      (P : Run → Type 0) (waiting : List Run) (q' : Run) (db' : Db)
      → All P waiting
      → All (λ q. q.status ≡ RunStatus.queued) waiting
      → Sorted run_precedes waiting
      → dispatch_loop env current timeout waiting db ≡ ok (some q', db')
      → Start P waiting q' db'
  dispatch_loop_starts P [] q' db' a s o h = absurd (unfold dispatch_loop in cc)
  dispatch_loop_starts P (q ∷ rest) q' db' a s o h = elim (Option-cases (available_worker q)) [
    | inl nobody ↦
        let later =
          dispatch_loop_starts P rest q' db' a.1 s.1 o.1
            (ground (arith, dispatch_loop-cons q rest s.0, nobody)) in
        record {
          run = later.run;
          worker = later.worker;
          was_waiting = later.was_waiting;
          is_available = later.is_available;
          row = later.row;
          session = later.session;
          precedes = ((λ busy. absurd (busy nobody)), later.precedes);
        }
    | inr (w, found) ↦ record {
      run = q;
      worker = w;
      was_waiting = a.0;
      is_available = found;
      row = ground (arith, dispatch_loop-cons q rest s.0, found);
      session = ground (arith, dispatch_loop-cons q rest s.0, found);
      precedes = ((λ _. precedes_self q), All-map (λ p t _. t) rest o.0);
    }
  ]

  pub dispatch_loop-none :
      (waiting : List Run) (db' : Db)
      → All (λ q. q.status ≡ RunStatus.queued) waiting
      → dispatch_loop env current timeout waiting db ≡ ok (none, db')
      → (db' ≡ db) × All (λ q. available_worker q ≡ none) waiting
  dispatch_loop-none [] db' s h = (unfold dispatch_loop in ground arith, tt)
  dispatch_loop-none (q ∷ rest) db' s h = elim (Option-cases (available_worker q)) [
    | inl nobody ↦
        let (same, others) =
          dispatch_loop-none rest db' s.1 (ground (arith, dispatch_loop-cons q rest s.0, nobody)) in
        (same, (nobody, others))
    | inr (w, found) ↦ absurd (ground (arith, dispatch_loop-cons q rest s.0, found))
  ]

  pub queued_dispatchable : All (λ q. q.status ≡ RunStatus.queued) (queued_runs db)
  unfolding queued_runs is_dispatchable
  queued_dispatchable = All-sort _ run_precedes (select is_dispatchable db.runs) (
      All-map (λ q t. ground (arith, run_status_beq_iff q.status RunStatus.queued))
        (select is_dispatchable db.runs) (All-select_self is_dispatchable db.runs))
