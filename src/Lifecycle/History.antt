-- ===== src/Lifecycle/History.antt =====
-- The history of an object is a path of its lifecycle.
use xyn_seed.Base.{
  ℕ, String, true, Option, some, List, [], ◌∷◌, ◌++◌, ◌≡◌, arith, ok, err, string_eq, Result-cases,
  Option-cases, inl, inr,
}
use xyn_seed.Base.Dict.{Dict}
use xyn_seed.Base.Text.{strip, lower}
use xyn_seed.Lifecycle.{LifecycleDefinition, allows, get_lifecycle_definition}
use xyn_seed.Lifecycle.Service.{
  normalize_state, Details, build_transition_request, validate_transition, LifecycleTransition,
  row_of, record_transition, TransitionResult, apply_transition, ModelObject,
  transition_model_status,
}

-- One transition, in one equation: the tests in the order of the code, then the row and the status.
pub transition_model_status-eq :
    (registry : Dict LifecycleDefinition) (now : ℕ) (obj : ModelObject)
    (lifecycle object_type : String) (next_state : Option String) (d : Details)
    (rows : List LifecycleTransition)
    → transition_model_status registry now obj lifecycle object_type next_state d rows
      ≡ elim (build_transition_request now lifecycle object_type obj.object_id obj.status next_state
          (record d { workspace_id = obj.workspace_id })) [
            | err e ↦ err e
            | ok r ↦ elim (validate_transition registry r) [
              | err e ↦ err e
              | ok _ ↦ ok (
                (
                  record {
                    lifecycle = r.lifecycle;
                    object_type = r.object_type;
                    object_id = r.object_id;
                    from_state = r.from_state;
                    to_state = r.to_state;
                    created_at = r.requested_at;
                  },
                  record obj { status = some r.to_state },
                ),
                rows ++ row_of r ∷ [],
              )
            ]
          ]
unfolding transition_model_status apply_transition record_transition
transition_model_status-eq registry now obj lifecycle object_type next_state d rows = ground arith

pub transition_model_status_inv :
    (registry : Dict LifecycleDefinition) (now : ℕ) (obj obj' : ModelObject)
    (lifecycle object_type : String) (next_state : Option String) (d : Details)
    (rows rows' : List LifecycleTransition) (result : TransitionResult) (def : LifecycleDefinition)
    → get_lifecycle_definition registry (lower (strip lifecycle)) ≡ ok def
    → transition_model_status registry now obj lifecycle object_type next_state d rows
      ≡ ok ((result, obj'), rows')
    → (row : LifecycleTransition) × (rows' ≡ rows ++ row ∷ [])
      × (row.from_state ≡ normalize_state obj.status)
      × (allows def row.from_state row.to_state ≡ true)
      × (obj'.status ≡ some row.to_state)
      × (obj'.object_id ≡ obj.object_id)
unfolding build_transition_request validate_transition
transition_model_status_inv registry now obj obj' lifecycle object_type next_state d rows rows'
      result def known h =
    elim (Result-cases (
      build_transition_request now lifecycle object_type obj.object_id obj.status next_state
        (record d { workspace_id = obj.workspace_id }))) [
          | inr (e, bad) ↦ absurd (
              ground (
                arith,
                transition_model_status-eq registry now obj lifecycle object_type next_state d rows,
              ))
          | inl (r, built) ↦ (
            row_of r,
            ground (
              arith,
              transition_model_status-eq registry now obj lifecycle object_type next_state d rows,
            ),
            ground arith,
            ground (
              arith,
              transition_model_status-eq registry now obj lifecycle object_type next_state d rows,
            ),
            ground (
              arith,
              transition_model_status-eq registry now obj lifecycle object_type next_state d rows,
            ),
            ground (
              arith,
              transition_model_status-eq registry now obj lifecycle object_type next_state d rows,
            ),
          )
        ]

-- The state that is asked for is the one that is set.
pub transition_model_status-state :
    (registry : Dict LifecycleDefinition) (now : ℕ) (obj obj' : ModelObject)
    (lifecycle object_type : String) (next_state : Option String) (d : Details)
    (rows rows' : List LifecycleTransition) (result : TransitionResult)
    → transition_model_status registry now obj lifecycle object_type next_state d rows
      ≡ ok ((result, obj'), rows')
    → obj'.status ≡ normalize_state next_state
unfolding build_transition_request
transition_model_status-state registry now obj obj' lifecycle object_type next_state d rows rows'
      result h =
    elim (Option-cases (normalize_state next_state)) [
      | inl missing ↦ absurd (
          ground (
            arith,
            missing,
            transition_model_status-eq registry now obj lifecycle object_type next_state d rows,
          ))
      | inr (s, given) ↦ ground (
        arith,
        given,
        transition_model_status-eq registry now obj lifecycle object_type next_state d rows,
      )
    ]
