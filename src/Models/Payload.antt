-- ===== src/Models/Payload.antt =====
-- core/runtime_contract.py: the payload of a run and of a worker, as pydantic has validated them.
use xyn_seed.Base.{ℕ, String, Bool, Option, List}
use xyn_seed.Base.Json.{Json}
use xyn_seed.Base.Dict.{Dict}
use xyn_seed.Models.Statuses.{RuntimeWorkerStatus}

pub data RequestedOutput : Type 0 where
  patch log report code summary : RequestedOutput

pub record RunTarget : Type 0 where
  pub repo : String
  pub branch : Option String
  pub workspace_id : Option String
  pub artifact_id : Option String

pub record RunPrompt : Type 0 where
  pub title : String
  pub body : String

pub record RunContextAttachment : Type 0 where
  pub kind : String
  pub uri : String
  pub label : Option String

pub record RunContext : Type 0 where
  pub epic_id : Option String
  pub attachments : List RunContextAttachment
  pub metadata : Dict Json

pub record RunPolicy : Type 0 where
  pub auto_continue : Bool
  pub max_retries : ℕ
  pub require_human_review_on_failure : Bool
  pub timeout_seconds : Option ℕ

pub record RunPayload : Type 0 where
  pub run_id : ℕ
  pub work_item_id : String
  pub worker_type : String
  pub target : RunTarget
  pub prompt : RunPrompt
  pub context : RunContext
  pub policy : RunPolicy
  pub requested_outputs : List RequestedOutput

pub record WorkerInfo : Type 0 where
  pub worker_id : String
  pub worker_type : String
  pub runtime_environment : String
  pub status : RuntimeWorkerStatus
  pub last_heartbeat : ℕ
  pub capabilities : List String

-- The keys of the column `execution_policy`; `none` where a key is missing. They are those of
-- `RunPolicy`, and the controls that a pause or a continuation writes.
pub record RuntimeControls : Type 0 where
  pub pause_requested : Option Bool
  pub pause_requested_by : Option String
  pub pause_requested_at : Option ℕ

pub record ExecutionPolicy : Type 0 where
  pub auto_continue : Option Bool
  pub max_retries : Option ℕ
  pub require_human_review_on_failure : Option Bool
  pub timeout_seconds : Option ℕ
  pub runtime_controls : Option RuntimeControls
