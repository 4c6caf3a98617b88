-- ===== src/Lifecycle/Paths.antt =====
-- A sequence of transitions of one object.
use mathlib.Core.Path.{subst}
use mathlib.Core.List.{append-nil, append_assoc}
use xyn_seed.Base.{
  sym, ◌∙◌, ℕ, String, true, Option, some, List, [], ◌∷◌, ◌++◌, ◌≡◌, refl, arith, ok, err, All,
  ◌==◌, string_eq, eq_iff, Result-cases, Bool-cases, inl, inr, ◌⊎◌,
}
use xyn_seed.Base.Dict.{Dict}
use xyn_seed.Base.Text.{strip, lower}
use xyn_seed.Lifecycle.{LifecycleDefinition, allows, is_in, get_lifecycle_definition, next_states}
use xyn_seed.Lifecycle.Service.{
  normalize_state, Details, LifecycleTransition, ModelObject, transition_model_status,
}
use xyn_seed.Lifecycle.History.{transition_model_status_inv}

-- A call of `transition_model_status` on the object: the time, the state and the details.
pub record Ask : Type 0 where
  pub now : ℕ
  pub next_state : Option String
  pub details : Details

-- Every row starts in the state that the row before it left, and its step is allowed.
abbrev pub Route :
    LifecycleDefinition → Option String → List LifecycleTransition → Option String → Type 0
Route def s [] t = s ≡ t
Route def s (r ∷ rs) t =
    (r.from_state ≡ s) × (allows def s r.to_state ≡ true) × Route def (some r.to_state) rs t

-- The states of a definition are written the way `normalize_state` writes them.
abbrev pub IsNormal : LifecycleDefinition → Type 0
IsNormal def = All (λ s. normalize_state (some s) ≡ some s) def.states

normal_state :
    (t : String) (states : List String)
    → All (λ s. normalize_state (some s) ≡ some s) states
    → is_in t states ≡ true
    → normalize_state (some t) ≡ some t
normal_state t [] h k = absurd (ground arith)
normal_state t (s ∷ states) h k = elim (Bool-cases (t == s)) [
  | inl same ↦ rw ((eq_iff t s).0 same) h.0
  | inr other ↦ normal_state t states h.1 (ground arith)
]

module _ (registry : Dict LifecycleDefinition) (lifecycle object_type : String) where
  -- A call that raises is rolled back.
  step_once : Ask → ModelObject × List LifecycleTransition → ModelObject × List LifecycleTransition
  step_once a (obj, rows) =
      elim (transition_model_status registry a.now obj lifecycle object_type a.next_state a.details
        rows) [ ok ((result, obj'), rows') ↦ (obj', rows') | err e ↦ (obj, rows) ]

  unfoldable pub after :
      List Ask → ModelObject × List LifecycleTransition → ModelObject × List LifecycleTransition
  unfolding step_once
  after [] st = st
  after (a ∷ asks) st = after asks (step_once a st)

  after_one :
      (a : Ask) (asks : List Ask) (st st' : ModelObject × List LifecycleTransition)
      → step_once a st ≡ st'
      → after (a ∷ asks) st ≡ after asks st'
  unfolding after
  after_one a asks st st' h = rw h

  module _ (def : LifecycleDefinition)
      (known : get_lifecycle_definition registry (lower (strip lifecycle)) ≡ ok def) where
    one_step :
        (a : Ask) (obj : ModelObject) (rows : List LifecycleTransition)
        → (step_once a (obj, rows) ≡ (obj, rows))
          ⊎ ((row : LifecycleTransition) × (obj' : ModelObject) × (step_once a (obj, rows)
                ≡ (obj', rows ++ row ∷ []))
              × (row.from_state ≡ normalize_state obj.status)
              × (allows def row.from_state row.to_state ≡ true)
              × (obj'.status ≡ some row.to_state))
    unfolding step_once
    one_step a obj rows =
        elim (Result-cases (
          transition_model_status registry a.now obj lifecycle object_type a.next_state a.details
            rows)) [
              | inr (e, h) ↦ inl (rw (h, step_once))
              | inl (((result, obj'), rows'), h) ↦
                  let (row, added, from, allowed, status, _) =
                    transition_model_status_inv registry a.now obj obj' lifecycle object_type
                      a.next_state a.details rows rows' result def known h in
                  inr (row, obj', ground (arith, h, added), from, allowed, status)
            ]

    -- Whatever is asked of an object, in whatever order and also in vain, the rows that are added
    -- to the history lead from its state to its new state by steps that the lifecycle allows, each
    -- from the state where the one before it ended. The states of the lifecycle and of the object
    -- are taken to be normalized.
    pub history_is_path :
        (asks : List Ask) (obj : ModelObject) (rows : List LifecycleTransition)
        → IsNormal def
        → normalize_state obj.status ≡ obj.status
        → (added : List LifecycleTransition) × ((after asks (obj, rows)).1 ≡ rows ++ added)
          × Route def obj.status added (after asks (obj, rows)).0.status
    unfolding after allows
    history_is_path [] obj rows n s = ([], sym (append-nil rows), refl)
    history_is_path (a ∷ asks) obj rows n s = elim (one_step a obj rows) [
      | inl kept ↦
          rw (after_one a asks (obj, rows) (obj, rows) kept) (history_is_path asks obj rows n s)
      | inr (row, obj', taken, from, allowed, status) ↦
          let normal : normalize_state obj'.status ≡ obj'.status =
            rw status (normal_state row.to_state def.states n (ground arith)) in
          let (added, grown, path) = history_is_path asks obj' (rows ++ row ∷ []) n normal in
          let start : row.from_state ≡ obj.status = from ∙ s in
          rw (after_one a asks (obj, rows) (obj', rows ++ row ∷ []) taken) (
            row ∷ added,
            grown ∙ append_assoc rows (row ∷ []) added,
            (
              start,
              rw (← start) allowed,
              subst (λ x. Route def x added (after asks (obj', rows ++ row ∷ [])).0.status) status
                  path,
            ),
          )
    ]

-- An object whose state has no next state is never changed again, and nothing is added to the
-- history, whatever is asked of it. The states are taken to be normalized.
pub last_state_stays :
    (registry : Dict LifecycleDefinition) (lifecycle object_type : String)
    (def : LifecycleDefinition) (asks : List Ask) (obj : ModelObject) (s : String)
    (rows : List LifecycleTransition)
    → get_lifecycle_definition registry (lower (strip lifecycle)) ≡ ok def
    → normalize_state (some s) ≡ some s
    → obj.status ≡ some s
    → next_states def s ≡ []
    → after registry lifecycle object_type asks (obj, rows) ≡ (obj, rows)
unfolding after allows
last_state_stays registry lifecycle object_type def [] obj s rows known n at last = refl
last_state_stays registry lifecycle object_type def (a ∷ asks) obj s rows known n at last =
    elim (one_step registry lifecycle object_type def known a obj rows) [
      | inl kept ↦
          rw kept
            (last_state_stays registry lifecycle object_type def asks obj s rows known n at last)
      | inr (row, obj', taken, from, allowed, status) ↦ absurd (ground (arith, n))
    ]
