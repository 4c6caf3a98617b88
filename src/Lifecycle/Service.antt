-- ===== src/Lifecycle/Service.antt =====
-- core/lifecycle/service.py: validated transitions and their history. A UUID that is written as
-- text and read back stays the number that it is.
use xyn_seed.Base.{
  ℕ, String, Option, none, some, List, [], ◌∷◌, ◌++◌, ◌==◌, string_eq, if◌then◌else◌, Result, ok,
  err, Exec, ◌>>=◌, ◌>>◌, pure, lift,
}
use xyn_seed.Base.Dict.{Dict}
use xyn_seed.Base.Json.{Json}
use xyn_seed.Base.Text.{strip, lower}
use xyn_seed.Lifecycle.{
  LifecycleDefinition, LifecycleError, missing_state, invalid_transition, allows,
  get_lifecycle_definition,
}

-- `text or None`.
abbrev none_if_empty : String → Option String
none_if_empty s = if s == "" then none else some s

unfoldable pub normalize_state : Option String → Option String
normalize_state none = none
normalize_state (some value) = none_if_empty (lower (strip value))

-- `str(value or "").strip() or None`.
abbrev stripped : Option String → Option String
stripped none = none
stripped (some value) = none_if_empty (strip value)

pub record TransitionRequest : Type 0 where
  pub lifecycle : String
  pub object_type : String
  pub object_id : String
  pub from_state : Option String
  pub to_state : String
  pub workspace_id : Option ℕ
  pub actor : Option String
  pub reason : Option String
  pub metadata : Dict Json
  pub correlation_id : Option String
  pub run_id : Option ℕ
  pub requested_at : ℕ

-- The keyword arguments that only describe a transition.
pub record Details : Type 0 where
  pub workspace_id : Option ℕ
  pub actor : Option String
  pub reason : Option String
  pub metadata : Dict Json
  pub correlation_id : Option String
  pub run_id : Option ℕ

unfoldable pub build_transition_request :
    ℕ
    → String
    → String
    → String
    → Option String
    → Option String
    → Details
    → Result LifecycleError TransitionRequest
build_transition_request now lifecycle object_type object_id from_state to_state d =
    elim (normalize_state to_state) [
      | none ↦ err missing_state
      | some normalized ↦ ok (record {
        lifecycle = lower (strip lifecycle);
        object_type = lower (strip object_type);
        object_id = strip object_id;
        from_state = normalize_state from_state;
        to_state = normalized;
        workspace_id = d.workspace_id;
        actor = stripped d.actor;
        reason = stripped d.reason;
        metadata = d.metadata;
        correlation_id = stripped d.correlation_id;
        run_id = d.run_id;
        requested_at = now;
      })
    ]

check_definition : TransitionRequest → LifecycleDefinition → Result LifecycleError (Unit {0})
check_definition r d =
    if r.object_type == ""
    then err missing_state
    else if r.object_id == ""
    then err missing_state
    else if allows d r.from_state r.to_state
    then ok tt
    else err invalid_transition

unfoldable pub validate_transition :
    Dict LifecycleDefinition → TransitionRequest → Result LifecycleError (Unit {0})
unfolding check_definition
validate_transition registry r = elim (get_lifecycle_definition registry r.lifecycle) [
  | err e ↦ err e
  | ok d ↦ check_definition r d
]

-- A row of `LifecycleTransition`, without its own id.
pub record LifecycleTransition : Type 0 where
  pub workspace_id : Option ℕ
  pub lifecycle_name : String
  pub object_type : String
  pub object_id : String
  pub from_state : Option String
  pub to_state : String
  pub actor : Option String
  pub reason : Option String
  pub metadata_json : Dict Json
  pub correlation_id : Option String
  pub run_id : Option ℕ
  pub created_at : ℕ

abbrev pub row_of : TransitionRequest → LifecycleTransition
row_of r = record {
  workspace_id = r.workspace_id;
  lifecycle_name = r.lifecycle;
  object_type = r.object_type;
  object_id = r.object_id;
  from_state = r.from_state;
  to_state = r.to_state;
  actor = r.actor;
  reason = r.reason;
  metadata_json = r.metadata;
  correlation_id = r.correlation_id;
  run_id = r.run_id;
  created_at = r.requested_at;
}

abbrev pub History : Type 0 → Type 0
History A = Exec (List LifecycleTransition) LifecycleError A

unfoldable pub record_transition : TransitionRequest → History LifecycleTransition
record_transition r rows = ok (row_of r, rows ++ row_of r ∷ [])

pub record TransitionResult : Type 0 where
  pub lifecycle : String
  pub object_type : String
  pub object_id : String
  pub from_state : Option String
  pub to_state : String
  pub created_at : ℕ

abbrev result_of : LifecycleTransition → TransitionResult
result_of row = record {
  lifecycle = row.lifecycle_name;
  object_type = row.object_type;
  object_id = row.object_id;
  from_state = row.from_state;
  to_state = row.to_state;
  created_at = row.created_at;
}

unfoldable pub apply_transition :
    Dict LifecycleDefinition
    → ℕ
    → String
    → String
    → String
    → Option String
    → Option String
    → Details
    → History TransitionResult
apply_transition registry now lifecycle object_type object_id from_state to_state d = do
  request ←
      lift (build_transition_request now lifecycle object_type object_id from_state to_state d)
  lift (validate_transition registry request)
  row ← record_transition request
  pure (result_of row)

-- What the service reads and sets of a model object: `str(id)`, `workspace_id` and its status.
pub record ModelObject : Type 0 where
  pub object_id : String
  pub workspace_id : Option ℕ
  pub status : Option String

-- The object comes back with its new status.
unfoldable pub transition_model_status :
    Dict LifecycleDefinition
    → ℕ
    → ModelObject
    → String
    → String
    → Option String
    → Details
    → History (TransitionResult × ModelObject)
transition_model_status registry now obj lifecycle object_type next_state d = do
  result ←
      apply_transition registry now lifecycle object_type obj.object_id obj.status next_state
        (record d { workspace_id = obj.workspace_id })
  pure (result, record obj { status = some result.to_state })
