-- ===== src/Scenarios/Routes.antt =====
-- A record that is a draft, and the statuses of the gate that it has to pass.
use xyn_seed.Base.{[], ◌∷◌, ◌≡◌, refl}
use xyn_seed.Transitions.{
  Transitions, scan, search, reached, nowhere, targets_of, path_from, allowed_transition_path,
}
use xyn_seed.Transitions.Paths.{IsAnswer, allowed_transition_path-IsAnswer}
use xyn_seed.Base.Dict.{get}
use xyn_seed.Base.Text.{strip}

abbrev transitions : Transitions
transitions =
    ("draft", "closed" ∷ " submitted" ∷ [])
    ∷ ("closed", "draft" ∷ [])
    ∷ ("submitted", "approved" ∷ "draft" ∷ [])
    ∷ []

found_path :
    allowed_transition_path "draft " ("approved" ∷ "" ∷ []) transitions
    ≡ reached ("submitted" ∷ "approved" ∷ [])
unfolding allowed_transition_path path_from search scan get strip
found_path = refl

no_path : allowed_transition_path "draft" ("paid" ∷ []) transitions ≡ nowhere
unfolding allowed_transition_path path_from search scan get strip
no_path = refl

allowed_transition_path-IsAnswer_example :
    IsAnswer
      (strip "draft ")
      (targets_of ("approved" ∷ "" ∷ []))
      transitions
      (allowed_transition_path "draft " ("approved" ∷ "" ∷ []) transitions)
unfolding strip
allowed_transition_path-IsAnswer_example =
    allowed_transition_path-IsAnswer "draft " ("approved" ∷ "" ∷ []) transitions refl
