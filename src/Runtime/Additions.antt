-- ===== src/Runtime/Additions.antt =====
-- New runs and new workers keep the workers and the runs consistent.
use xyn_seed.Base.{
  ℕ, suc, String, none, some, ◌==◌, ◌≡◌, ◌≢◌, arith, if◌then◌else◌, ok, err, nat_eq, string_eq,
  List, [], ◌∷◌, ◌++◌, inl, inr, or_else, option_eq, Option-cases, eq_iff,
}
use xyn_seed.Base.Members.{Distinct-append, lookup-append}
use xyn_seed.Base.Table.{lookup, lookup-save}
use xyn_seed.Models.{Run, RunPayload, WorkerInfo, Step, Db}
use xyn_seed.Runtime.Workers.{
  Env, register_worker, save_worker, find_worker, worker_key, registered, new_worker,
}
use xyn_seed.Runtime.Session.{find_run, run_key, one_run}
use xyn_seed.Runtime.Rows.{run_ids, id_of_find_worker}
use xyn_seed.Runtime.Soundness.{IsSound}
use xyn_seed.Runtime.Runs.{
  runtime_run, create_runtime_run, validated_payload, submit_runtime_run, fresh_uuid,
  retry_runtime_run,
}

-- The session with one more run, under an id that no run has.
added-IsSound :
    (q : Run) (n : ℕ) (db : Db)
    → IsSound db
    → find_run q.id db ≡ none
    → IsSound (record db { runs = db.runs ++ q ∷ []; next_uuid = n })
unfolding find_run find_worker
added-IsSound q n db s new = record {
  consistent = record {
    active = λ w x r here names.
        ground
          (arith, s.consistent.active w x r here names, lookup-append run_key r db.runs (q ∷ []));
    named = s.consistent.named;
  };
  distinct = Distinct-append run_key db.runs q s.distinct new;
}

-- A session that differs only in its steps and in the next UUID.
same_rows-IsSound :
    (n : ℕ) (steps : List Step) (db : Db)
    → IsSound db
    → IsSound (record db { steps = steps; next_uuid = n })
unfolding find_run find_worker
same_rows-IsSound n steps db s = record {
  consistent = record { active = s.consistent.active; named = s.consistent.named };
  distinct = s.distinct;
}

-- A submission returns the run that has the id, or adds one.
pub submit_runtime_run-eq :
    (env : Env) (p : RunPayload) (actor : String) (db : Db)
    → submit_runtime_run env p actor db ≡ elim (find_run p.run_id db) [
      | some existing ↦ elim (validated_payload existing) [
        | err e ↦ err e
        | ok _ ↦ ok (existing, db)
      ]
      | none ↦
          let q = runtime_run env p actor (env.uuid_text db.next_uuid) in
          ok (q, record db { runs = db.runs ++ q ∷ []; next_uuid = suc db.next_uuid })
    ]
unfolding submit_runtime_run create_runtime_run
submit_runtime_run-eq env p actor db = elim (Option-cases (find_run p.run_id db)) [
  | inl h ↦ rw (h, submit_runtime_run)
  | inr (q, h) ↦ rw (h, submit_runtime_run) (ground arith)
]

pub submit_runtime_run-IsSound :
    (env : Env) (p : RunPayload) (actor : String) (db db' : Db) (q' : Run)
    → IsSound db
    → submit_runtime_run env p actor db ≡ ok (q', db')
    → IsSound db'
unfolding runtime_run
submit_runtime_run-IsSound env p actor db db' q' s h = elim (Option-cases (find_run p.run_id db)) [
  | inl new ↦
      let q = runtime_run env p actor (env.uuid_text db.next_uuid) in
      let eq : db' ≡ record db { runs = db.runs ++ q ∷ []; next_uuid = suc db.next_uuid } =
        ground (arith, submit_runtime_run-eq env p actor db) in
      rw eq (added-IsSound q (suc db.next_uuid) db s new)
  | inr (old, found) ↦
      let eq : db' ≡ db = ground (arith, submit_runtime_run-eq env p actor db) in rw eq s
]

pub retry_runtime_run_inv :
    (env : Env) (run_id : ℕ) (actor : String) (db db' : Db) (q' : Run)
    → retry_runtime_run env run_id actor db ≡ ok (q', db')
    → (q : Run) × (p : RunPayload) × (find_run run_id db ≡ some q)
      × (q.prompt_payload ≡ some p)
      × (submit_runtime_run env
            (record p { run_id = db.next_uuid })
            actor
            (record db { next_uuid = suc db.next_uuid })
          ≡ ok (q', db'))
unfolding retry_runtime_run one_run validated_payload fresh_uuid
retry_runtime_run_inv env run_id actor db db' q' h = elim (Option-cases (find_run run_id db)) [
  | inl gone ↦ absurd (ground arith)
  | inr (q, found) ↦ elim (Option-cases q.prompt_payload) [
    | inl bad ↦ absurd (ground arith)
    | inr (p, given) ↦ (q, p, found, given, ground arith)
  ]
]

pub retry_runtime_run-IsSound :
    (env : Env) (run_id : ℕ) (actor : String) (db db' : Db) (q' : Run)
    → IsSound db
    → retry_runtime_run env run_id actor db ≡ ok (q', db')
    → IsSound db'
retry_runtime_run-IsSound env run_id actor db db' q' s h =
    let (q, p, _, _, runs) = retry_runtime_run_inv env run_id actor db db' q' h in
    submit_runtime_run-IsSound env (record p { run_id = db.next_uuid }) actor
      (record db { next_uuid = suc db.next_uuid }) db' q'
      (same_rows-IsSound (suc db.next_uuid) db.steps db s) runs

pub run_ids-register_worker :
    (info : WorkerInfo) (db : Db) → run_ids (register_worker info db).1 ≡ run_ids db
unfolding register_worker save_worker
run_ids-register_worker info db = elim (Option-cases (find_worker info.worker_id db)) [
  | inl h ↦ rw (h, register_worker)
  | inr (x, h) ↦ rw (h, register_worker)
]

pub find_run-register_worker :
    (info : WorkerInfo) (r : ℕ) (db : Db) → find_run r (register_worker info db).1 ≡ find_run r db
unfolding register_worker save_worker find_run
find_run-register_worker info r db = elim (Option-cases (find_worker info.worker_id db)) [
  | inl h ↦ rw (h, register_worker)
  | inr (x, h) ↦ rw (h, register_worker)
]

-- A registration changes the row of the worker that it names, and keeps the run that it names.
pub find_worker-register_worker :
    (info : WorkerInfo) (w : String) (db : Db)
    → find_worker w (register_worker info db).1 ≡ (
        if info.worker_id == w
        then some (registered info (or_else (find_worker w db) (new_worker info db)))
        else find_worker w db)
unfolding register_worker save_worker find_worker lookup
find_worker-register_worker info w db = elim (Option-cases (find_worker info.worker_id db)) [
  | inl h ↦
      let x = registered info (new_worker info db) in
      rw (h, register_worker)
        (ground (arith, h, eq_iff info.worker_id w, lookup-append worker_key w db.workers (x ∷ [])))
  | inr (x, h) ↦
      rw (h, register_worker)
        (ground (
          arith,
          h,
          eq_iff info.worker_id w,
          id_of_find_worker info.worker_id db {x = x} h,
          lookup-save worker_key (registered info x) w db.workers,
        ))
]

-- A worker registers under a name that is not empty.
pub register_worker-IsSound :
    (info : WorkerInfo) (db : Db)
    → info.worker_id ≢ ""
    → IsSound db
    → IsSound (register_worker info db).1
register_worker-IsSound info db named s = record {
  consistent = record {
    active = λ w x r here names. elim (Option-cases (find_worker w db)) [
      | inl gone ↦
          absurd (ground (arith, find_worker-register_worker info w db, new_worker info db))
      | inr (old, found) ↦ ground (
        arith,
        find_worker-register_worker info w db,
        find_run-register_worker info r db,
        s.consistent.active w old r found,
      )
    ];
    named = ground (
      arith,
      s.consistent.named,
      find_worker-register_worker info "" db,
      eq_iff info.worker_id "",
    );
  };
  distinct = rw (run_ids-register_worker info db) s.distinct;
}
