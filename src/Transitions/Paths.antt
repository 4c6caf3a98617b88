-- ===== src/Transitions/Paths.antt =====
-- core/app_jobs.py: what `_allowed_transition_path` decides.
use mathlib.Core.Logic.{◌⊎◌, inl, inr}
use xyn_seed.Base.{
  ℕ, zero, suc, ◌+◌, ◌≤◌, ◌<◌, String, true, false, not, List, [], ◌∷◌, map, ◌==◌, string_eq,
  length, All, Bool-cases, ◌≡◌, refl, arith, eq_iff, length-select-le,
}
use xyn_seed.Base.Text.{strip}
use xyn_seed.Transitions.{
  contains, Transitions, candidates_of, Entry, Scan, found, searching, scan, Search, unfinished,
  nowhere, reached, search, candidates_in, targets_of, path_from, allowed_transition_path,
}
use xyn_seed.Transitions.Scans.{
  IsEntry, ScanSound, Scanned, IsScanned, IsSmaller, scan_sound, scan-IsScanned, scan-IsSmaller,
}
use xyn_seed.Transitions.Walks.{is_next, Walk, end_of, unseen, offers-all, state_of}

-- The question that the search answers: is there a walk to one of the targets.
abbrev pub IsAnswer : String → List String → Transitions → Search → Type 0
IsAnswer current targets allowed unfinished = ⊥
IsAnswer current targets allowed nowhere =
    (path : List String)
    → Walk allowed current path
    → contains (end_of current path) targets ≡ false
IsAnswer current targets allowed (reached path) =
    Walk allowed current path × (contains (end_of current path) targets ≡ true)

module _ (targets : List String) (allowed : Transitions) (current : String) where
  -- What was seen is no target, and its next statuses are seen or wait in the queue.
  record Closed (queue : List Entry) (seen : List String) : Type 0 where
    start : contains current seen ≡ true
    safe : (x : String) → contains x seen ≡ true → contains x targets ≡ false
    closed :
        (x y : String)
        → contains x seen ≡ true
        → is_next allowed x y ≡ true
        → (contains x (map state_of queue) ≡ true) ⊎ (contains y seen ≡ true)

  walks_stay :
      (seen : List String)
      → Closed [] seen
      → (x : String) (path : List String) → contains x seen ≡ true
      → Walk allowed x path
      → contains (end_of x path) targets ≡ false
  walks_stay seen c x [] there w = c.safe x there
  walks_stay seen c x (y ∷ path) there w = elim (c.closed x y there w.0) [
    | inl waits ↦ ground (arith, waits)
    | inr there' ↦ walks_stay seen c y path there' w.1
  ]

  Closed-Scanned :
      (state : String) (path : List String) (queue queue' : List Entry) (seen seen' : List String)
      → Closed ((state, path) ∷ queue) seen
      → Scanned targets (candidates_of allowed state) queue seen queue' seen'
      → Closed queue' seen'
  Closed-Scanned state path queue queue' seen seen' c h = record {
    start = h.kept current c.start;
    safe = λ x there. elim (h.safe x there) [ inl old ↦ c.safe x old | inr out ↦ out ];
    closed = λ x y there next. elim (h.fresh x there) [
      | inr waits ↦ inl waits
      | inl old ↦ elim (c.closed x y old next) [
        | inr there' ↦ inr (h.kept y there')
        | inl waits ↦ elim (Bool-cases (state == x)) [
          | inl same ↦ inr (
              h.covers y (ground (arith, next))
                (rw ((eq_iff state x).0 same) (ground (arith, next))))
          | inr other ↦ inl (h.waiting x (ground (arith, other, waits)))
        ]
      ]
    ];
  }

  after_scan :
      (fuel n : ℕ) (candidates : List String) (queue : List Entry) (seen : List String) (r : Scan)
      → ((queue' : List Entry) (seen' : List String)
          → All (IsEntry allowed current) queue'
          → Scanned targets candidates queue seen queue' seen'
          → length queue' + unseen seen' (candidates_in allowed) ≤ n
          → IsAnswer current targets allowed (search targets allowed fuel queue' seen'))
      → ScanSound targets allowed current r
      → IsScanned targets candidates queue seen r
      → IsSmaller n (candidates_in allowed) r
      → IsAnswer current targets allowed (elim r [
        | found path ↦ reached path
        | searching queue' seen' ↦ search targets allowed fuel queue' seen'
      ])
  after_scan fuel n candidates queue seen (found path) next sound scanned smaller = sound
  after_scan fuel n candidates queue seen (searching queue' seen') next sound scanned smaller =
      next queue' seen' sound scanned smaller

  search-IsAnswer :
      (fuel : ℕ) (queue : List Entry) (seen : List String)
      → length queue + unseen seen (candidates_in allowed) ≤ fuel
      → All (IsEntry allowed current) queue
      → Closed queue seen
      → IsAnswer current targets allowed (search targets allowed fuel queue seen)
  unfolding search
  search-IsAnswer fuel [] seen le entries c = λ path w. walks_stay seen c current path c.start w
  search-IsAnswer zero (entry ∷ queue) seen le entries c = omega (arith, le)
  search-IsAnswer (suc fuel) ((state, path) ∷ queue) seen le entries c =
      let candidates = candidates_of allowed state in
      after_scan fuel (length queue + unseen seen (candidates_in allowed)) candidates queue seen
        (scan targets path queue seen candidates)
        (λ queue' seen' entries' scanned smaller.
          search-IsAnswer fuel queue' seen' (omega (arith, le, smaller)) entries'
            (Closed-Scanned state path queue queue' seen seen' c scanned))
        (scan_sound targets path allowed current state entries.0.0 entries.0.1 queue seen candidates
          (λ t h. h) entries.1)
        (scan-IsScanned targets path queue seen candidates)
        (scan-IsSmaller targets path (candidates_in allowed) queue seen candidates
          (λ t h. offers-all state t allowed h))

  start-Closed : contains current targets ≡ false → Closed ((current, []) ∷ []) (current ∷ [])
  start-Closed out = record {
    start = ground (arith, eq_iff current current);
    safe = λ x there. rw (← (eq_iff current x).0 (ground (arith, there))) out;
    closed = λ x y there next. inl there;
  }

path_from-IsAnswer :
    (targets : List String) (allowed : Transitions) (current : String) (fuel : ℕ)
    → (current == "") ≡ false
    → length (candidates_in allowed) < fuel
    → IsAnswer current targets allowed (path_from current targets allowed fuel)
unfolding path_from
path_from-IsAnswer [] allowed current fuel filled le = λ path w. refl
path_from-IsAnswer (t ∷ ts) allowed current fuel filled le =
    elim (Bool-cases (contains current (t ∷ ts))) [
      | inl e ↦ rw (filled, e) (tt, e)
      | inr e ↦
          rw (filled, e)
            (search-IsAnswer (t ∷ ts) allowed current fuel ((current, []) ∷ []) (current ∷ [])
              (omega (
                arith,
                le,
                length-select-le (λ c. not (contains (strip c) (current ∷ [])))
                    (candidates_in allowed),
              ))
              ((tt, refl), tt) (start-Closed (t ∷ ts) allowed current e))
    ]

-- The search for a path of statuses always ends with an answer, for a record that has a status: a
-- path that it returns is one of allowed steps from the status of the record to an allowed status,
-- and when it returns none, every path of allowed steps from there ends in a status that is not
-- allowed. It is never out of fuel.
pub allowed_transition_path-IsAnswer :
    (current_status : String) (allowed_statuses : List String) (allowed : Transitions)
    → (strip current_status == "") ≡ false
    → IsAnswer
        (strip current_status)
        (targets_of allowed_statuses)
        allowed
        (allowed_transition_path current_status allowed_statuses allowed)
unfolding allowed_transition_path
allowed_transition_path-IsAnswer current_status allowed_statuses allowed filled =
    path_from-IsAnswer (targets_of allowed_statuses) allowed (strip current_status)
      (suc (length (candidates_in allowed))) filled (omega arith)
