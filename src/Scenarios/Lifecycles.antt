-- ===== src/Scenarios/Lifecycles.antt =====
-- A draft that is made ready, then asked for a state that it may not take, then archived.
use xyn_seed.Base.{none, some, List, [], ◌∷◌, ◌++◌, ◌≡◌, refl}
use xyn_seed.Base.Dict.{get}
use xyn_seed.Base.Text.{strip, lower}
use xyn_seed.Lifecycle.{
  compat_fallback_definitions, draft_definition, get_lifecycle_definition, allows,
}
use xyn_seed.Lifecycle.Paths.{Ask, Route, after, history_is_path, last_state_stays}
use xyn_seed.Lifecycle.Service.{
  ModelObject, LifecycleTransition, Details, normalize_state, transition_model_status,
  apply_transition, build_transition_request, validate_transition, record_transition,
}

abbrev no_details : Details
no_details = record {
  workspace_id = none;
  actor = some "ann";
  reason = none;
  metadata = [];
  correlation_id = none;
  run_id = none;
}

abbrev asks : List Ask
asks =
    record { now = 1; next_state = some " Ready "; details = no_details }
    ∷ record { now = 2; next_state = some "published"; details = no_details }
    ∷ record { now = 3; next_state = some "archived"; details = no_details }
    ∷ []

abbrev draft : ModelObject
draft = record { object_id = "d1"; workspace_id = some 7; status = some "draft" }

abbrev archived : ModelObject
archived = record { object_id = "d1"; workspace_id = some 7; status = some "archived" }

-- The draft ends archived, by two rows of history.
archived_at_last :
    (after compat_fallback_definitions "draft" "draft" asks (draft, [])).0.status ≡ some "archived"
unfolding after transition_model_status apply_transition build_transition_request
    validate_transition record_transition normalize_state get_lifecycle_definition allows get strip
    lower
archived_at_last = refl

history_is_path_example :
    (added : List LifecycleTransition) × ((after compat_fallback_definitions "draft" "draft" asks
        (draft, [])).1
      ≡ [] ++ added)
    × Route draft_definition
        (some "draft")
        added
        (after compat_fallback_definitions "draft" "draft" asks (draft, [])).0.status
unfolding get_lifecycle_definition get normalize_state strip lower
history_is_path_example =
    history_is_path compat_fallback_definitions "draft" "draft" draft_definition refl asks draft []
      (refl, (refl, (refl, (refl, tt)))) refl

last_state_stays_example :
    after compat_fallback_definitions "draft" "draft" asks (archived, []) ≡ (archived, [])
unfolding get_lifecycle_definition get normalize_state strip lower
last_state_stays_example =
    last_state_stays compat_fallback_definitions "draft" "draft" draft_definition asks archived
      "archived" [] refl refl refl refl
