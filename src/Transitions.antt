-- ===== src/Transitions.antt =====
-- core/app_jobs.py: `_allowed_transition_path`, the breadth-first search for the statuses through
-- which a record gets to one that a policy allows.
use xyn_seed.Base.{
  ℕ, zero, suc, String, Bool, true, false, not, ◌||◌, Option, none, some, List, [], ◌∷◌, ◌++◌, map,
  ◌==◌, string_eq, if◌then◌else◌, any, or_else, select, length,
}
use xyn_seed.Base.Dict.{Dict, get}
use xyn_seed.Base.Text.{strip}
pub mod Walks
pub mod Scans
pub mod Paths

abbrev pub contains : String → List String → Bool
contains x xs = any (λ y. y == x) xs

-- `allowed_transitions`, of each status the list of the next ones.
abbrev pub Transitions : Type 0
Transitions = Dict (List String)

abbrev pub candidates_of : Transitions → String → List String
candidates_of allowed state = or_else (get allowed state) []

-- A status in the queue, with the statuses on the way to it.
abbrev pub Entry : Type 0
Entry = String × List String

-- What the loop over the candidates of one status does: it returns a path, or goes on.
pub data Scan : Type 0 where
  found : List String → Scan
  searching : (queue : List Entry) (seen : List String) → Scan

-- `for candidate in allowed_transitions.get(state, [])`.
unfoldable pub scan : List String → List String → List Entry → List String → List String → Scan
scan targets path queue seen [] = searching queue seen
scan targets path queue seen (candidate ∷ candidates) =
    let next_state = strip candidate in
    let next_path = path ++ next_state ∷ [] in
    let skipped = scan targets path queue seen candidates in
    let pushed =
      scan targets path (queue ++ (next_state, next_path) ∷ []) (next_state ∷ seen) candidates in
    if next_state == "" || contains next_state seen
    then skipped
    else if contains next_state targets
    then found next_path
    else pushed

-- The result of the search: `unfinished` where the fuel has run out.
pub data Search : Type 0 where
  unfinished nowhere : Search
  reached : List String → Search

-- `while queue`.
unfoldable pub search : List String → Transitions → ℕ → List Entry → List String → Search
search targets allowed fuel [] seen = nowhere
search targets allowed zero (entry ∷ queue) seen = unfinished
search targets allowed (suc fuel) ((state, path) ∷ queue) seen =
    elim (scan targets path queue seen (candidates_of allowed state)) [
      | found path' ↦ reached path'
      | searching queue' seen' ↦ search targets allowed fuel queue' seen'
    ]

-- One turn of the loop for the start and for every candidate.
abbrev pub candidates_in : Transitions → List String
candidates_in [] = []
candidates_in ((state, candidates) ∷ allowed) = candidates ++ candidates_in allowed

-- `{str(value).strip() for value in allowed_statuses if str(value).strip()}`.
abbrev pub targets_of : List String → List String
targets_of allowed_statuses = select (λ value. not (value == "")) (map strip allowed_statuses)

unfoldable pub path_from : String → List String → Transitions → ℕ → Search
path_from current [] allowed fuel = nowhere
path_from current (t ∷ ts) allowed fuel =
    if current == ""
    then nowhere
    else if contains current (t ∷ ts)
    then reached []
    else search (t ∷ ts) allowed fuel ((current, []) ∷ []) (current ∷ [])

unfoldable pub allowed_transition_path : String → List String → Transitions → Search
allowed_transition_path current_status allowed_statuses allowed =
    path_from (strip current_status) (targets_of allowed_statuses) allowed
      (suc (length (candidates_in allowed)))
