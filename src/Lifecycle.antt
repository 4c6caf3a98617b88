-- ===== src/Lifecycle.antt =====
-- core/lifecycle/definitions.py: the lifecycle definitions. Where `xyn_orchestrator` cannot be
-- imported its registry is the fallback; the functions here take the registry as an argument.
pub mod Service
pub mod History
pub mod Paths
use xyn_seed.Base.{
  String, Bool, true, false, Option, none, some, List, [], ◌∷◌, any, ◌==◌, string_eq, if◌then◌else◌,
  Result, ok, err, or_else, map,
}
use xyn_seed.Base.Dict.{Dict, get}
use xyn_seed.Base.Sort.{sort}
use xyn_seed.Base.Text.{strip, lower, text_le}

pub record LifecycleDefinition : Type 0 where
  pub name : String
  pub states : List String
  pub initial_state : String
  pub transitions : Dict (List String)
  pub terminal_states : List String

abbrev pub is_in : String → List String → Bool
is_in s = any (λ t. s == t)

-- `self.transitions.get(from_state, ())`.
abbrev pub next_states : LifecycleDefinition → String → List String
next_states d from_state = or_else (get d.transitions from_state) []

abbrev allowed_from : LifecycleDefinition → String → Option String → Bool
allowed_from d to_state none = to_state == d.initial_state
allowed_from d to_state (some s) = is_in to_state (next_states d s)

unfoldable pub allows : LifecycleDefinition → Option String → String → Bool
allows d from_state to_state =
    if is_in to_state d.states then allowed_from d to_state from_state else false

abbrev pub draft_definition : LifecycleDefinition
draft_definition = record {
  name = "draft";
  states = "draft" ∷ "ready" ∷ "submitted" ∷ "archived" ∷ [];
  initial_state = "draft";
  transitions =
      ("draft", "ready" ∷ "submitted" ∷ "archived" ∷ [])
      ∷ ("ready", "draft" ∷ "submitted" ∷ "archived" ∷ [])
      ∷ ("submitted", "archived" ∷ [])
      ∷ ("archived", [])
      ∷ [];
  terminal_states = "archived" ∷ [];
}

abbrev pub job_definition : LifecycleDefinition
job_definition = record {
  name = "job";
  states = "queued" ∷ "running" ∷ "succeeded" ∷ "failed" ∷ [];
  initial_state = "queued";
  transitions =
      ("queued", "running" ∷ "failed" ∷ [])
      ∷ ("running", "succeeded" ∷ "failed" ∷ [])
      ∷ ("succeeded", [])
      ∷ ("failed", "queued" ∷ [])
      ∷ [];
  terminal_states = "succeeded" ∷ [];
}

abbrev pub compat_fallback_definitions : Dict LifecycleDefinition
compat_fallback_definitions = ("draft", draft_definition) ∷ ("job", job_definition) ∷ []

-- The exceptions of core/lifecycle/service.py; `unknown_lifecycle` is the `KeyError`, too.
pub data LifecycleError : Type 0 where
  unknown_lifecycle missing_state invalid_transition : LifecycleError

unfoldable pub get_lifecycle_definition :
    Dict LifecycleDefinition → String → Result LifecycleError LifecycleDefinition
get_lifecycle_definition registry name =
    let key = lower (strip name) in
    if key == ""
    then err unknown_lifecycle
    else elim (get registry key) [ none ↦ err unknown_lifecycle | some d ↦ ok d ]

unfoldable pub supported_lifecycles : Dict LifecycleDefinition → List String
supported_lifecycles registry = sort text_le (map (λ e. e.0) registry)
