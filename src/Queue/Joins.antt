-- ===== src/Queue/Joins.antt =====
-- What a wait for children shows when it ends.
use xyn_seed.Base.{
  ℕ, String, Bool, true, false, Option, none, some, List, [], ◌∷◌, ◌++◌, ap, ◌≡◌, ◌≤◌, ◌+◌, ◌&&◌,
  ◌||◌, ◌==◌, refl, arith, ok, nat_eq, string_eq, Option-cases, Bool-cases, inl, inr, any, select,
  length, map, nat_beq_iff, All,
}
use xyn_seed.Models.{Run}
use xyn_seed.Runtime.Session.{run_key}
use xyn_seed.Queue.Waiting.{
  Moment, Waited, is_waited, has_completed, has_failed, ids_in, all_policy, evaluate, poll_runs,
  wait_runs,
}

module _ {ℓ} {A : Type ℓ} where
  length-select-or :
      (p q r : A → Bool) (xs : List A)
      → length (select (λ x. (p x || q x) && r x) xs)
        ≤ length (select (λ x. p x && r x) xs) + length (select (λ x. q x && r x) xs)
  length-select-or p q r [] = omega arith
  length-select-or p q r (x ∷ xs) = ground (arith, length-select-or p q r xs)

  length-select-and :
      (p q : A → Bool) (xs : List A) → length (select (λ x. p x && q x) xs) ≤ length (select p xs)
  length-select-and p q [] = omega arith
  length-select-and p q (x ∷ xs) = ground (arith, length-select-and p q xs)

  length-select_none : (p : A → Bool) (xs : List A) → any p xs ≡ false → length (select p xs) ≡ 0
  length-select_none p [] h = refl
  length-select_none p (x ∷ xs) h = ground (arith, length-select_none p xs)

  length-map : {B : Type ℓ} (f : A → B) (xs : List A) → length (map f xs) ≡ length xs
  length-map f [] = refl
  length-map f (x ∷ xs) = ground (arith, length-map f xs)

  length-select-false : (p : A → Bool) (xs : List A) → length (select (λ x. false && p x) xs) ≡ 0
  length-select-false p [] = refl
  length-select-false p (x ∷ xs) = length-select-false p xs

-- An identifier has at most one row.
abbrev pub OneRow : List Run → Type 0
OneRow runs = (i : ℕ) → length (select (λ run. i == run.id) runs) ≤ 1

module _ (p : Run → Bool) (runs : List Run) (one : OneRow runs) where
  abbrev waited : List ℕ → List Run
  waited ids = select (λ run. is_waited ids run && p run) runs

  length-waited : (ids : List ℕ) → length (waited ids) ≤ length ids
  length-waited [] = omega (arith, length-select-false p runs)
  length-waited (i ∷ ids) = omega (
    arith,
    length-select-or (λ run. i == run.id) (is_waited ids) p runs,
    length-select-and (λ run. i == run.id) p runs,
    one i,
    length-waited ids,
  )

  -- An identifier without such a row is missed.
  length-waited_short :
      (x : ℕ) (ids : List ℕ)
      → any (λ i. i == x) ids ≡ true
      → any (λ run. x == run.id && p run) runs ≡ false
      → length (waited ids) + 1 ≤ length ids
  length-waited_short x [] there gone = ground arith
  length-waited_short x (i ∷ ids) there gone = elim (Bool-cases (i == x)) [
    | inl this ↦ omega (
      arith,
      length-select-or (λ run. i == run.id) (is_waited ids) p runs,
      length-select_none (λ run. i == run.id && p run) runs (rw ((nat_beq_iff i x).0 this) gone),
      length-waited ids,
    )
    | inr other ↦ omega (
      arith,
      length-select-or (λ run. i == run.id) (is_waited ids) p runs,
      length-select-and (λ run. i == run.id) p runs,
      one i,
      length-waited_short x ids (ground (arith, there, other)) gone,
    )
  ]

-- Every identifier has a row that is completed.
abbrev pub AllCompleted : List ℕ → List Run → Type 0
AllCompleted run_ids runs =
    (x : ℕ)
    → any (λ i. i == x) run_ids ≡ true
    → any (λ run. x == run.id && has_completed run) runs ≡ true

all_policy-counts :
    (run_ids completed failed : List ℕ) (w : Waited)
    → all_policy run_ids completed failed ≡ some (ok w)
    → length completed ≡ length run_ids
unfolding all_policy
all_policy-counts run_ids completed [] w h =
    ground (arith, nat_beq_iff (length completed + 0) (length run_ids))
all_policy-counts run_ids completed (i ∷ failed) w h = ground arith

poll_runs-AllCompleted :
    (worker_id : Option String) (run : Run) (run_ids : List ℕ) (timeout : Option ℕ) (m : Moment)
    (w : Waited)
    → OneRow m.db.runs
    → poll_runs worker_id run run_ids "all" timeout m ≡ some (ok w)
    → AllCompleted run_ids m.db.runs
unfolding poll_runs evaluate
poll_runs-AllCompleted worker_id run run_ids timeout m w one h x there =
    elim (Bool-cases (any (λ q. x == q.id && has_completed q) m.db.runs)) [
      | inl there_is ↦ there_is
      | inr missing ↦
          let met : all_policy run_ids (ids_in has_completed run_ids m.db)
                (ids_in has_failed run_ids m.db)
              ≡ some (ok w) =
            ground arith in
          absurd (
            omega (
              arith,
              all_policy-counts run_ids _ _ w met,
              length-map run_key (select (λ q. is_waited run_ids q && has_completed q) m.db.runs),
              length-waited_short has_completed m.db.runs one x run_ids there missing,
            ))
    ]

-- A wait under the policy 'all' that returns does so at the first turn that ends it, and at that
-- turn every run that is waited for is there and completed. An identifier has at most one row.
pub wait_runs-AllCompleted :
    (worker_id : Option String) (run : Run) (run_ids : List ℕ) (timeout : Option ℕ)
    (moments : List Moment) (w : Waited)
    → All (λ m. OneRow m.db.runs) moments
    → wait_runs worker_id run run_ids "all" timeout moments ≡ some (ok w)
    → (before : List Moment) × (m : Moment) × (after : List Moment) × (moments
        ≡ before ++ m ∷ after)
      × (wait_runs worker_id run run_ids "all" timeout before ≡ none)
      × AllCompleted run_ids m.db.runs
unfolding wait_runs
wait_runs-AllCompleted worker_id run run_ids timeout [] w one h = absurd (ground arith)
wait_runs-AllCompleted worker_id run run_ids timeout (m ∷ moments) w one h =
    elim (Option-cases (poll_runs worker_id run run_ids "all" timeout m)) [
      | inl goes_on ↦
          let (before, n, after, split, still, done) =
            wait_runs-AllCompleted worker_id run run_ids timeout moments w one.1
              (ground (arith, goes_on)) in
          (m ∷ before, n, after, ap (λ l. m ∷ l) split, ground (arith, goes_on, still), done)
      | inr (r, ends) ↦ (
        [],
        m,
        moments,
        refl,
        refl,
        poll_runs-AllCompleted worker_id run run_ids timeout m w one.0 (ground (arith, ends)),
      )
    ]
