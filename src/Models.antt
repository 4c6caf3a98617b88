-- ===== src/Models.antt =====
-- core/models.py: the rows that the run queue, the runtime and the lifecycle service read and
-- write, and the session that holds them. A UUID is the number that it is; a `datetime` is a
-- number of seconds; a JSON column that the code reads by keys is a record of these keys.
mod Statuses
mod Payload
pub use Statuses.*
pub use Payload.*
use xyn_seed.Base.{ℕ, String, Option, List, []}
use xyn_seed.Base.Json.{Json}
use xyn_seed.Base.Dict.{Dict}

-- `Run`. `worker_id` is another name of `locked_by`, and `attempt_count` of `attempt`.
pub record Run : Type 0 where
  pub id : ℕ
  pub name : String
  pub status : RunStatus
  pub actor : String
  pub correlation_id : String
  pub inputs : Dict Json
  pub outputs : Option (Dict Json)
  pub error : Option (Dict Json)
  pub queued_at : Option ℕ
  pub locked_at : Option ℕ
  pub locked_by : Option String
  pub lease_expires_at : Option ℕ
  pub heartbeat_at : Option ℕ
  pub run_at : Option ℕ
  pub priority : ℕ
  pub attempt : ℕ
  pub max_attempts : Option ℕ
  pub work_item_id : Option String
  pub worker_type : Option String
  pub prompt_payload : Option RunPayload
  pub execution_policy : ExecutionPolicy
  pub summary : Option String
  pub escalation_reason : Option String
  pub failure_reason : Option String
  pub created_at : ℕ
  pub started_at : Option ℕ
  pub completed_at : Option ℕ
  pub parent_run_id : Option ℕ

-- `Step`. `sequence_no` is another name of `idx`.
pub record Step : Type 0 where
  pub id : ℕ
  pub run_id : ℕ
  pub name : String
  pub idx : ℕ
  pub kind : String
  pub status : StepStatus
  pub error : Option (Dict Json)
  pub step_key : Option String
  pub label : Option String
  pub summary : Option String
  pub created_at : ℕ
  pub started_at : Option ℕ
  pub completed_at : Option ℕ

pub record RuntimeWorker : Type 0 where
  pub id : ℕ
  pub worker_id : String
  pub worker_type : String
  pub runtime_environment : String
  pub status : RuntimeWorkerStatus
  pub last_heartbeat : ℕ
  pub capabilities : List String
  pub active_run_id : Option ℕ

-- `Event`, whose column `data` is `fields` here.
pub record Event : Type 0 where
  pub id : ℕ
  pub event_name : String
  pub occurred_at : ℕ
  pub env_id : String
  pub actor : String
  pub correlation_id : Option String
  pub run_id : Option ℕ
  pub step_id : Option ℕ
  pub fields : Dict Json

-- The rows of the tables in a session. `next_uuid` is the UUID that the next `uuid4()` returns.
pub record Db : Type 0 where
  pub runs : List Run
  pub steps : List Step
  pub workers : List RuntimeWorker
  pub events : List Event
  pub next_uuid : ℕ

abbrev pub empty_db : Db
empty_db = record { runs = []; steps = []; workers = []; events = []; next_uuid = 0 }
