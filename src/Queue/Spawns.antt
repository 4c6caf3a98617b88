-- ===== src/Queue/Spawns.antt =====
-- What `RunContext.spawn_run` does to the edges of a run.
use xyn_seed.Base.{
  ℕ, String, true, Option, none, some, List, [], ◌∷◌, ◌++◌, ◌≡◌, ◌≢◌, ◌≤◌, ◌+◌, refl, arith, ok,
  nat_eq, string_eq, option_eq, nat_beq_iff, option_beq_iff, eq_iff, Option-cases, Result-cases,
  Bool-cases, inl, inr, or_else, find, select, length, Bool,
}
use xyn_seed.Models.{Run}
use xyn_seed.Runtime.Workers.{Env}
use xyn_seed.Queue.Runner.{emit_event, enqueue_run}
use xyn_seed.Queue.Children.{
  RunEdge, RunGraph, ChildRequest, is_child, existing_edge, conflicting_edge, add_child,
  announce_child, insert_child, spawn_run, child_edge, spawned_fields,
}

module _ {ℓ} {A : Type ℓ} (p : A → Bool) where
  find-append_last :
      (xs : List A) (x : A) → find p xs ≡ none → p x ≡ true → find p (xs ++ x ∷ []) ≡ some x
  find-append_last [] x none_yet good = ground arith
  find-append_last (y ∷ ys) x none_yet good = ground (arith, find-append_last ys x)

  -- No element found, none selected.
  select_of_none : (xs : List A) → find p xs ≡ none → select p xs ≡ []
  select_of_none [] h = refl
  select_of_none (x ∷ xs) h = ground (arith, select_of_none xs)

  -- One selected at most, and one found.
  select_of_found :
      (xs : List A) (x : A) → find p xs ≡ some x → length (select p xs) ≤ 1 → select p xs ≡ x ∷ []
  select_of_found [] x found one = absurd (ground arith)
  select_of_found (y ∷ ys) x found one = elim (Bool-cases (p y)) [
    | inl good ↦ ground (arith, good, nothing (select p ys))
    | inr bad ↦ ground (arith, bad, select_of_found ys x)
  ]
    where
      nothing : {B : Type ℓ} (zs : List B) → length zs ≤ 0 → zs ≡ []
      nothing [] h = refl
      nothing (z ∷ zs) h = absurd (omega arith)

  length-select-append :
      (xs ys : List A) → length (select p (xs ++ ys)) ≡ length (select p xs) + length (select p ys)
  length-select-append [] ys = omega arith
  length-select-append (x ∷ xs) ys = ground (arith, length-select-append xs ys)

-- The edge of a key that is in use, and the child it leads to.
abbrev Leads : ℕ → String → ℕ → List RunEdge → Type 0
Leads parent key c edges =
    (e : RunEdge) × (find (is_child parent key) edges ≡ some e) × (e.child_run_id ≡ c)

child_edge-is_child :
    (env : Env) (run : Run) (c id : ℕ) (key : String)
    → is_child run.id key (child_edge env run c (some key) id) ≡ true
child_edge-is_child env run c id key = ground (arith, nat_beq_iff run.id run.id, eq_iff key key)

announce_child-edges :
    (env : Env) (worker_id : Option String) (run : Run) (r : ChildRequest) (child : Run)
    (g : RunGraph)
    → (announce_child env worker_id run r (child, g)).graph.edges ≡ g.edges
unfolding announce_child
announce_child-edges env worker_id run r child g =
    elim (Result-cases
      (emit_event env worker_id run "run.spawned" (spawned_fields run child r) g.db)) [
        | inl (db, sent) ↦ ground (arith, sent)
        | inr (e, lost) ↦ ground (arith, lost)
      ]

announce_child-result :
    (env : Env) (worker_id : Option String) (run : Run) (r : ChildRequest) (child : Run)
    (g : RunGraph) (c : ℕ)
    → (announce_child env worker_id run r (child, g)).result ≡ ok c
    → child.id ≡ c
unfolding announce_child
announce_child-result env worker_id run r child g c h =
    elim (Result-cases
      (emit_event env worker_id run "run.spawned" (spawned_fields run child r) g.db)) [
        | inl (db, sent) ↦ ground (arith, sent)
        | inr (e, lost) ↦ ground (arith, lost)
      ]

-- The edge of a new child leads to it.
add_child-Leads :
    (env : Env) (run : Run) (r : ChildRequest) (key : String) (g : RunGraph)
    → r.child_key ≡ some key
    → find (is_child run.id key) g.edges ≡ none
    → Leads run.id key (add_child env run r g).0.id (add_child env run r g).1.edges
unfolding add_child
add_child-Leads env run r key g keyed free =
    let c = (add_child env run r g).0.id in
    let id =
      (enqueue_run env r.blueprint_ref r.inputs run.actor (some run.correlation_id) r.run_at
        (or_else r.priority run.priority) none g.db).1.next_uuid in
    (
      child_edge env run c r.child_key id,
      find-append_last (is_child run.id key) g.edges (child_edge env run c r.child_key id) free
          (rw keyed (child_edge-is_child env run c id key)),
      refl,
    )

-- The insertion of a child with a key leaves an edge that leads to the child it returns.
insert_child-Leads :
    (env : Env) (worker_id : Option String) (run : Run) (r : ChildRequest) (key : String)
    (g : RunGraph) (c : ℕ)
    → key ≢ ""
    → r.child_key ≡ some key
    → (insert_child env worker_id run r g).result ≡ ok c
    → Leads run.id key c (insert_child env worker_id run r g).graph.edges
unfolding insert_child conflicting_edge existing_edge
insert_child-Leads env worker_id run r key g c named keyed h =
    elim (Option-cases (find (is_child run.id key) g.edges)) [
      | inl free ↦
          let (child, g') = add_child env run r g in
          let (e, found, leads) = add_child-Leads env run r key g keyed free in
          (
            e,
            ground (arith, keyed, free, found, announce_child-edges env worker_id run r child g'),
            ground
                (arith, keyed, free, leads, announce_child-result env worker_id run r child g' c),
          )
      | inr (e, taken) ↦
          (e, ground (arith, taken, keyed), ground (arith, taken, keyed, eq_iff key ""))
    ]

spawn_run-Leads :
    (env : Env) (others : RunGraph → RunGraph) (worker_id : Option String) (run : Run)
    (r : ChildRequest) (key : String) (g : RunGraph) (c : ℕ)
    → key ≢ ""
    → r.child_key ≡ some key
    → (spawn_run env others worker_id run r g).result ≡ ok c
    → Leads run.id key c (spawn_run env others worker_id run r g).graph.edges
unfolding spawn_run existing_edge
spawn_run-Leads env others worker_id run r key g c named keyed h =
    elim (Option-cases (find (is_child run.id key) g.edges)) [
      | inl free ↦
          let inserted : spawn_run env others worker_id run r g
              ≡ insert_child env worker_id run r (others g) =
            ground (arith, free, keyed, eq_iff key "") in
          let (e, found, leads) =
            insert_child-Leads env worker_id run r key (others g) c named keyed
              (rw (← inserted) h) in
          (e, rw inserted found, leads)
      | inr (e, taken) ↦ (
        e,
        ground (arith, taken, keyed, eq_iff key ""),
        ground (arith, taken, keyed, eq_iff key ""),
      )
    ]

-- A spawn with a key that returned a child has the same effect once as twice: whatever a later
-- call with the key asks for, and whoever makes it, it returns the same child and writes nothing.
-- The key is not the empty text.
pub spawn_run_again :
    (env env' : Env) (others others' : RunGraph → RunGraph) (worker_id worker_id' : Option String)
    (run : Run) (r r' : ChildRequest) (key : String) (g : RunGraph) (c : ℕ)
    → key ≢ ""
    → r.child_key ≡ some key
    → r'.child_key ≡ some key
    → (spawn_run env others worker_id run r g).result ≡ ok c
    → spawn_run env' others' worker_id' run r' (spawn_run env others worker_id run r g).graph
      ≡ record { result = ok c; graph = (spawn_run env others worker_id run r g).graph }
unfolding existing_edge
spawn_run_again env env' others others' worker_id worker_id' run r r' key g c named keyed keyed' h =
    let (e, found, leads) = spawn_run-Leads env others worker_id run r key g c named keyed h in
    unfold spawn_run in ground (arith, found, leads, keyed', eq_iff key "")

-- A parent has at most one child of a key.
abbrev pub KeysOnce : List RunEdge → Type 0
KeysOnce edges = (parent : ℕ) (key : String) → length (select (is_child parent key) edges) ≤ 1

-- An edge that the unique index lets in.
append-KeysOnce :
    (e : RunEdge) (edges : List RunEdge)
    → conflicting_edge e.parent_run_id e.child_key edges ≡ none
    → KeysOnce edges
    → KeysOnce (edges ++ e ∷ [])
unfolding conflicting_edge
append-KeysOnce e edges free once parent key =
    let total = length-select-append (is_child parent key) edges (e ∷ []) in
    elim (Bool-cases (is_child parent key e)) [
      | inl this ↦ ground (
        arith,
        total,
        this,
        free,
        nat_beq_iff e.parent_run_id parent,
        option_beq_iff e.child_key (some key),
        select_of_none (is_child parent key) edges,
      )
      | inr other ↦ ground (arith, total, other, once parent key)
    ]

add_child-KeysOnce :
    (env : Env) (run : Run) (r : ChildRequest) (g : RunGraph)
    → conflicting_edge run.id r.child_key g.edges ≡ none
    → KeysOnce g.edges
    → KeysOnce (add_child env run r g).1.edges
unfolding add_child
add_child-KeysOnce env run r g free once =
    let c = (add_child env run r g).0.id in
    let id =
      (enqueue_run env r.blueprint_ref r.inputs run.actor (some run.correlation_id) r.run_at
        (or_else r.priority run.priority) none g.db).1.next_uuid in
    append-KeysOnce (child_edge env run c r.child_key id) g.edges free once

insert_child-KeysOnce :
    (env : Env) (worker_id : Option String) (run : Run) (r : ChildRequest) (g : RunGraph)
    → KeysOnce g.edges
    → KeysOnce (insert_child env worker_id run r g).graph.edges
unfolding insert_child
insert_child-KeysOnce env worker_id run r g once parent key =
    elim (Option-cases (conflicting_edge run.id r.child_key g.edges)) [
      | inl free ↦
          let (child, g') = add_child env run r g in
          ground (
            arith,
            free,
            announce_child-edges env worker_id run r child g',
            add_child-KeysOnce env run r g free once parent key,
          )
      | inr (e, taken) ↦ ground (arith, taken, once parent key)
    ]

-- A spawn keeps it, also when it raises.
spawn_run-KeysOnce :
    (env : Env) (others : RunGraph → RunGraph) (worker_id : Option String) (run : Run)
    (r : ChildRequest) (g : RunGraph)
    → KeysOnce g.edges
    → KeysOnce (others g).edges
    → KeysOnce (spawn_run env others worker_id run r g).graph.edges
unfolding spawn_run
spawn_run-KeysOnce env others worker_id run r g once kept parent key =
    elim (Option-cases (existing_edge run.id r.child_key g.edges)) [
      | inl free ↦
          ground (arith, free, insert_child-KeysOnce env worker_id run r (others g) kept parent key)
      | inr (e, taken) ↦ ground (arith, taken, once parent key)
    ]

-- A spawn with a key that returns a child leaves one edge of the parent and the key, and that edge
-- leads to the child, whatever other transactions commit between its query and its commit, as long
-- as they leave a parent at most one edge of a key. Every parent has then still at most one edge of
-- a key. The key is not the empty text.
pub spawn_run-OneChild :
    (env : Env) (others : RunGraph → RunGraph) (worker_id : Option String) (run : Run)
    (r : ChildRequest) (key : String) (g : RunGraph) (c : ℕ)
    → key ≢ ""
    → r.child_key ≡ some key
    → KeysOnce g.edges
    → KeysOnce (others g).edges
    → (spawn_run env others worker_id run r g).result ≡ ok c
    → ((e : RunEdge) × (select
            (is_child run.id key)
            (spawn_run env others worker_id run r g).graph.edges
          ≡ e ∷ [])
        × (e.child_run_id ≡ c))
      × KeysOnce (spawn_run env others worker_id run r g).graph.edges
spawn_run-OneChild env others worker_id run r key g c named keyed once kept h =
    let edges = (spawn_run env others worker_id run r g).graph.edges in
    let still = spawn_run-KeysOnce env others worker_id run r g once kept in
    let (e, found, leads) = spawn_run-Leads env others worker_id run r key g c named keyed h in
    ((e, select_of_found (is_child run.id key) edges e found (still run.id key), leads), still)
