-- ===== src/Transitions/Scans.antt =====
-- The loop over the candidates of one status, and what is left to see after it.
use mathlib.Core.Logic.{◌⊎◌, inl, inr}
use xyn_seed.Base.{
  ℕ, ◌+◌, ◌≤◌, String, true, false, ◌||◌, List, [], ◌∷◌, ◌++◌, map, ◌==◌, string_eq, length, All,
  Bool-cases, ◌≡◌, arith, eq_iff, ap, ◌∙◌, length-append,
}
use xyn_seed.Base.Members.{All-append}
use xyn_seed.Base.Text.{strip}
use xyn_seed.Transitions.{contains, Transitions, candidates_of, Entry, Scan, found, searching, scan}
use xyn_seed.Transitions.Walks.{
  offers, is_next, Walk, end_of, contains-append, map-append, Walk-snoc, end_of-snoc, unseen,
  unseen-grow, state_of,
}

offers-rest :
    (c : String) (candidates : List String) (u : String)
    → offers candidates u ≡ true
    → offers (c ∷ candidates) u ≡ true
offers-rest c candidates u h = ground (arith, h)

-- A path in the queue is one from the start to its status.
abbrev pub IsEntry : Transitions → String → Entry → Type 0
IsEntry allowed current (state, path) = Walk allowed current path × (end_of current path ≡ state)

abbrev pub ScanSound : List String → Transitions → String → Scan → Type 0
ScanSound targets allowed current (found path) =
    Walk allowed current path × (contains (end_of current path) targets ≡ true)
ScanSound targets allowed current (searching queue seen) = All (IsEntry allowed current) queue

-- What the loop adds to the queue and to `seen`.
pub record Scanned (targets candidates : List String) (queue : List Entry) (seen : List String)
    (queue' : List Entry) (seen' : List String) : Type 0 where
  pub kept : (x : String) → contains x seen ≡ true → contains x seen' ≡ true
  pub waiting :
      (x : String)
      → contains x (map state_of queue) ≡ true
      → contains x (map state_of queue') ≡ true
  pub fresh :
      (x : String)
      → contains x seen' ≡ true
      → (contains x seen ≡ true) ⊎ (contains x (map state_of queue') ≡ true)
  pub safe :
      (x : String)
      → contains x seen' ≡ true
      → (contains x seen ≡ true) ⊎ (contains x targets ≡ false)
  pub covers :
      (x : String) → (x == "") ≡ false → offers candidates x ≡ true → contains x seen' ≡ true

abbrev pub IsScanned : List String → List String → List Entry → List String → Scan → Type 0
IsScanned targets candidates queue seen (found path) = Unit
IsScanned targets candidates queue seen (searching queue' seen') =
    Scanned targets candidates queue seen queue' seen'

-- The measure of the search.
abbrev pub IsSmaller : ℕ → List String → Scan → Type 0
IsSmaller n all (found path) = Unit
IsSmaller n all (searching queue seen) = length queue + unseen seen all ≤ n

module _ (targets path : List String) (allowed : Transitions) (current state : String)
    (walk : Walk allowed current path) (end : end_of current path ≡ state) where
  next_entry :
      (t : String)
      → is_next allowed state t ≡ true
      → Walk allowed current (path ++ t ∷ []) × (end_of current (path ++ t ∷ []) ≡ t)
  next_entry t h = (Walk-snoc allowed current t path walk (rw end h), end_of-snoc current t path)

  pub scan_sound :
      (queue : List Entry) (seen candidates : List String)
      → ((t : String) → offers candidates t ≡ true → offers (candidates_of allowed state) t ≡ true)
      → All (IsEntry allowed current) queue
      → ScanSound targets allowed current (scan targets path queue seen candidates)
  unfolding scan
  scan_sound queue seen [] among entries = entries
  scan_sound queue seen (c ∷ candidates) among entries =
      let t = strip c in
      elim (Bool-cases (t == "" || contains t seen)) [
        | inl e ↦ rw e (
            scan_sound queue seen candidates (λ u h. among u (offers-rest c candidates u h))
              entries)
        | inr e ↦
            let next = next_entry t (ground (arith, e, among t (ground (arith, eq_iff t t)))) in
            elim (Bool-cases (contains t targets)) [
              | inl f ↦ rw (e, f) (next.0, ap (λ x. contains x targets) next.1 ∙ f)
              | inr f ↦
                  rw (e, f)
                    (scan_sound (queue ++ (t, path ++ t ∷ []) ∷ []) (t ∷ seen) candidates
                      (λ u h. among u (offers-rest c candidates u h))
                      (All-append (IsEntry allowed current) queue ((t, path ++ t ∷ []) ∷ []) entries
                        (next, tt)))
            ]
      ]

IsScanned-skip :
    (targets : List String) (c : String) (candidates : List String) (queue : List Entry)
    (seen : List String) (r : Scan)
    → (strip c == "" || contains (strip c) seen) ≡ true
    → IsScanned targets candidates queue seen r
    → IsScanned targets (c ∷ candidates) queue seen r
IsScanned-skip targets c candidates queue seen (found path) e h = tt
IsScanned-skip targets c candidates queue seen (searching queue' seen') e h = record {
  kept = h.kept;
  waiting = h.waiting;
  fresh = h.fresh;
  safe = h.safe;
  covers = λ x filled offered. elim (Bool-cases (strip c == x)) [
    | inl same ↦
        let equal = (eq_iff (strip c) x).0 same in
        h.kept x (rw (← equal) (ground (arith, e, filled, ap (λ y. y == "") equal)))
    | inr other ↦ h.covers x filled (ground (arith, other, offered))
  ];
}

IsScanned-push :
    (targets : List String) (c : String) (candidates path : List String) (queue : List Entry)
    (seen : List String) (r : Scan)
    → contains (strip c) targets ≡ false
    → IsScanned targets candidates (queue ++ (strip c, path) ∷ []) (strip c ∷ seen) r
    → IsScanned targets (c ∷ candidates) queue seen r
IsScanned-push targets c candidates path queue seen (found path') f h = tt
IsScanned-push targets c candidates path queue seen (searching queue' seen') f h =
    let t = strip c in
    record {
      kept = λ x old. h.kept x (ground (arith, old));
      waiting = λ x old. h.waiting x (
          rw
            (
              map-append state_of queue ((t, path) ∷ []),
              contains-append x (map state_of queue) (t ∷ []),
            )
            (ground (arith, old)));
      fresh = λ x new. elim (h.fresh x new) [
        | inl old ↦ elim (Bool-cases (t == x)) [
          | inl same ↦ inr (
              h.waiting x (
                rw
                  (
                    map-append state_of queue ((t, path) ∷ []),
                    contains-append x (map state_of queue) (t ∷ []),
                  )
                  (ground (arith, same))))
          | inr other ↦ inl (ground (arith, other, old))
        ]
        | inr there ↦ inr there
      ];
      safe = λ x new. elim (h.safe x new) [
        | inl old ↦ elim (Bool-cases (t == x)) [
          | inl same ↦ inr (rw (← (eq_iff t x).0 same) f)
          | inr other ↦ inl (ground (arith, other, old))
        ]
        | inr out ↦ inr out
      ];
      covers = λ x filled offered. elim (Bool-cases (t == x)) [
        | inl same ↦ h.kept x (ground (arith, same))
        | inr other ↦ h.covers x filled (ground (arith, other, offered))
      ];
    }

IsSmaller-le :
    (n m : ℕ) (all : List String) (r : Scan) → n ≤ m → IsSmaller n all r → IsSmaller m all r
IsSmaller-le n m all (found path) le h = tt
IsSmaller-le n m all (searching queue seen) le h = omega (arith, le, h)

module _ (targets path : List String) where
  pub scan-IsScanned :
      (queue : List Entry) (seen candidates : List String)
      → IsScanned targets candidates queue seen (scan targets path queue seen candidates)
  unfolding scan
  scan-IsScanned queue seen [] = record {
    kept = λ x h. h;
    waiting = λ x h. h;
    fresh = λ x h. inl h;
    safe = λ x h. inl h;
    covers = λ x f h. ground (arith, h);
  }
  scan-IsScanned queue seen (c ∷ candidates) =
      let t = strip c in
      elim (Bool-cases (t == "" || contains t seen)) [
        | inl e ↦ rw e (
            IsScanned-skip targets c candidates queue seen (scan targets path queue seen candidates)
              e (scan-IsScanned queue seen candidates))
        | inr e ↦ elim (Bool-cases (contains t targets)) [
          | inl f ↦ rw (e, f) tt
          | inr f ↦
              rw (e, f)
                (IsScanned-push targets c candidates (path ++ t ∷ []) queue seen
                  (scan targets path (queue ++ (t, path ++ t ∷ []) ∷ []) (t ∷ seen) candidates) f
                  (scan-IsScanned (queue ++ (t, path ++ t ∷ []) ∷ []) (t ∷ seen) candidates))
        ]
      ]

  pub scan-IsSmaller :
      (all : List String) (queue : List Entry) (seen candidates : List String)
      → ((t : String) → offers candidates t ≡ true → offers all t ≡ true)
      → IsSmaller (length queue + unseen seen all) all (scan targets path queue seen candidates)
  unfolding scan
  scan-IsSmaller all queue seen [] among = omega arith
  scan-IsSmaller all queue seen (c ∷ candidates) among =
      let t = strip c in
      elim (Bool-cases (t == "" || contains t seen)) [
        | inl e ↦ rw e (
            scan-IsSmaller all queue seen candidates
              (λ u h. among u (offers-rest c candidates u h)))
        | inr e ↦ elim (Bool-cases (contains t targets)) [
          | inl f ↦ rw (e, f) tt
          | inr f ↦
              rw (e, f)
                (IsSmaller-le (length (queue ++ (t, path ++ t ∷ []) ∷ []) + unseen (t ∷ seen) all)
                  (length queue + unseen seen all) all
                  (scan targets path (queue ++ (t, path ++ t ∷ []) ∷ []) (t ∷ seen) candidates)
                  (omega (
                    arith,
                    length-append queue ((t, path ++ t ∷ []) ∷ []),
                    unseen-grow t seen all (ground (arith, e))
                        (among t (ground (arith, eq_iff t t))),
                  ))
                  (scan-IsSmaller all (queue ++ (t, path ++ t ∷ []) ∷ []) (t ∷ seen) candidates
                    (λ u h. among u (offers-rest c candidates u h))))
        ]
      ]
