-- ===== src/Runtime/Events.antt =====
-- core/runtime_events.py: an event of the runtime carries the context of its run.
use xyn_seed.Base.{ℕ, suc, String, Option, none, some, [], ◌∷◌, ◌++◌, nat_eq}
use xyn_seed.Base.Dict.{Dict, get, update}
use xyn_seed.Base.Json.{Json, null, uuid, text, opt_text}
use xyn_seed.Base.Table.{lookup}
use xyn_seed.Models.{Run, RunPayload, RunStatus, Db}

-- `RunStatus.value`.
abbrev pub run_status_value : RunStatus → String
run_status_value RunStatus.queued = "queued"
run_status_value RunStatus.created = "created"
run_status_value RunStatus.running = "running"
run_status_value RunStatus.completed = "completed"
run_status_value RunStatus.failed = "failed"
run_status_value RunStatus.blocked = "blocked"
run_status_value RunStatus.cancelled = "cancelled"

json_or_null : Option Json → Json
json_or_null none = null
json_or_null (some j) = j

-- The part of the context that is read from the payload; all `None` where there is none.
payload_context : Option RunPayload → Dict Json
payload_context none =
    ("workspace_id", null)
    ∷ ("thread_id", null)
    ∷ ("artifact_id", null)
    ∷ ("repo", null)
    ∷ ("branch", null)
    ∷ ("epic_id", null)
    ∷ []
payload_context (some p) =
    ("workspace_id", opt_text p.target.workspace_id)
    ∷ ("thread_id", json_or_null (get p.context.metadata "thread_id"))
    ∷ ("artifact_id", opt_text p.target.artifact_id)
    ∷ ("repo", text p.target.repo)
    ∷ ("branch", opt_text p.target.branch)
    ∷ ("epic_id", opt_text p.context.epic_id)
    ∷ []

context_of : Option Run → Dict Json
context_of none = []
context_of (some run) =
    ("run_id", uuid run.id)
    ∷ ("work_item_id", opt_text run.work_item_id)
    ∷ ("worker_type", opt_text run.worker_type)
    ∷ ("status", text (run_status_value run.status))
    ∷ payload_context run.prompt_payload

unfoldable pub run_context : Db → ℕ → Dict Json
unfolding context_of payload_context json_or_null
run_context db run_id = context_of (lookup (λ (r : Run). r.id) run_id db.runs)

-- The keyword arguments of `publish_runtime_event`.
pub record NewEvent : Type 0 where
  pub event_name : String
  pub run_id : ℕ
  pub step_id : Option ℕ
  pub actor : String
  pub correlation_id : Option String
  pub fields : Dict Json

unfoldable pub publish_runtime_event : ℕ → NewEvent → Db → Db
publish_runtime_event now e db = record db {
  events =
      db.events
      ++ record {
        id = db.next_uuid;
        event_name = e.event_name;
        occurred_at = now;
        env_id = "local-dev";
        actor = e.actor;
        correlation_id = e.correlation_id;
        run_id = some e.run_id;
        step_id = e.step_id;
        fields = update (run_context db e.run_id) e.fields;
      }
        ∷ [];
  next_uuid = suc db.next_uuid;
}
