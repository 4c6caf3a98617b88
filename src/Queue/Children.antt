-- ===== src/Queue/Children.antt =====
-- core/blueprints/runner.py: `RunContext.spawn_run` and the table of `core/models.py` that it writes.
use xyn_seed.Base.{
  ℕ, suc, String, Bool, Option, none, some, List, [], ◌∷◌, ◌++◌, ◌==◌, ◌&&◌, nat_eq, string_eq,
  option_eq, if◌then◌else◌, or_else, find, Result, ok, err,
}
use xyn_seed.Base.Dict.{Dict}
use xyn_seed.Base.Json.{Json, text, uuid, num, opt_text}
use xyn_seed.Models.{Run, Db}
use xyn_seed.Runtime.Workers.{Env}
use xyn_seed.Runtime.Session.{put_run}
use xyn_seed.Queue.Runner.{QueueError, enqueue_run, emit_event}

pub record RunEdge : Type 0 where
  pub id : ℕ
  pub parent_run_id : ℕ
  pub child_run_id : ℕ
  pub relation : String
  pub child_key : Option String
  pub created_at : ℕ

-- The tables of the runs and of their edges.
pub record RunGraph : Type 0 where
  pub db : Db
  pub edges : List RunEdge

pub data SpawnError : Type 0 where
  integrity_error : SpawnError
  event_failed : QueueError → SpawnError

-- What a call returns or raises, and what it leaves committed.
pub record Spawn : Type 0 where
  pub result : Result SpawnError ℕ
  pub graph : RunGraph

-- The arguments of a call.
pub record ChildRequest : Type 0 where
  pub blueprint_ref : String
  pub inputs : Dict Json
  pub child_key : Option String
  pub priority : Option ℕ
  pub run_at : Option ℕ

-- `parent_run_id == self.run.id, child_key == child_key`.
abbrev pub is_child : ℕ → String → RunEdge → Bool
is_child parent key e = e.parent_run_id == parent && e.child_key == some key

-- The query, under `if child_key:`, for which the empty text is false.
unfoldable pub existing_edge : ℕ → Option String → List RunEdge → Option RunEdge
existing_edge parent none edges = none
existing_edge parent (some key) edges = if key == "" then none else find (is_child parent key) edges

-- The row that the unique index `uq_run_edges_parent_child_key` of the migrations, on the parent and
-- a key that is not null, has already.
unfoldable pub conflicting_edge : ℕ → Option String → List RunEdge → Option RunEdge
conflicting_edge parent none edges = none
conflicting_edge parent (some key) edges = find (is_child parent key) edges

abbrev pub child_edge : Env → Run → ℕ → Option String → ℕ → RunEdge
child_edge env run child_run_id child_key id = record {
  id = id;
  parent_run_id = run.id;
  child_run_id = child_run_id;
  relation = "child";
  child_key = child_key;
  created_at = env.utcnow;
}

-- The transaction: the child with its pointer to the parent, and the edge.
unfoldable pub add_child : Env → Run → ChildRequest → RunGraph → Run × RunGraph
add_child env run r g =
    let (child, db) =
      enqueue_run env r.blueprint_ref r.inputs run.actor (some run.correlation_id) r.run_at
        (or_else r.priority run.priority) none g.db in
    let child' = record child { parent_run_id = some run.id } in
    let db' = put_run child' db in
    (
      child',
      record {
        db = record db' { next_uuid = suc db.next_uuid };
        edges = g.edges ++ child_edge env run child.id r.child_key db.next_uuid ∷ [];
      },
    )

abbrev pub spawned_fields : Run → Run → ChildRequest → Dict Json
spawned_fields run child r =
    ("parent_run_id", uuid run.id)
    ∷ ("child_run_id", uuid child.id)
    ∷ ("child_key", opt_text r.child_key)
    ∷ ("blueprint_ref", text r.blueprint_ref)
    ∷ ("priority", num (or_else r.priority run.priority))
    ∷ []

-- The event, after the commit: when it raises, the child stays.
unfoldable pub announce_child : Env → Option String → Run → ChildRequest → Run × RunGraph → Spawn
announce_child env worker_id run r (child, g) =
    elim (emit_event env worker_id run "run.spawned" (spawned_fields run child r) g.db) [
      | ok db ↦ record { result = ok child.id; graph = record g { db = db } }
      | err e ↦ record { result = err (event_failed e); graph = g }
    ]

abbrev pub edge_or_raise : Option RunEdge → Result SpawnError ℕ
edge_or_raise none = err integrity_error
edge_or_raise (some e) = ok e.child_run_id

-- The insertion, on the tables as the other transactions leave them.
unfoldable pub insert_child : Env → Option String → Run → ChildRequest → RunGraph → Spawn
insert_child env worker_id run r g = elim (conflicting_edge run.id r.child_key g.edges) [
  | none ↦ announce_child env worker_id run r (add_child env run r g)
  | some e ↦ record { result = edge_or_raise (existing_edge run.id r.child_key g.edges); graph = g }
]

-- `others` is what other transactions commit between the query and the commit of this one.
unfoldable pub spawn_run :
    Env → (RunGraph → RunGraph) → Option String → Run → ChildRequest → RunGraph → Spawn
spawn_run env others worker_id run r g = elim (existing_edge run.id r.child_key g.edges) [
  | some e ↦ record { result = ok e.child_run_id; graph = g }
  | none ↦ insert_child env worker_id run r (others g)
]
