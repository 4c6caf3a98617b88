-- ===== src/Base/Selections.antt =====
-- Searches in a selection of the rows of a table with distinct keys.
use mathlib.Core.Bool.{Bool, true}
use mathlib.Core.List.{List, [], ◌∷◌, map}
use mathlib.Core.Logic.{◌≢◌, inl, inr}
use mathlib.Core.Option.{Option, none, some}
use mathlib.Core.Path.{◌≡◌, refl}
use native.Mathlib.Omega.{arith}
use xyn_seed.Base.Equality.{Comparable, ◌==◌}
use xyn_seed.Base.Lists.{select, All}
use xyn_seed.Base.Members.{Distinct}
use xyn_seed.Base.Sort.{insert, sort}
use xyn_seed.Base.Table.{lookup}
use xyn_seed.Base.Tests.{if◌then◌else◌, Bool-cases}

-- A row that passes a test.
abbrev pub passing {ℓ} : {A : Type ℓ} → (A → Bool) → Option A → Option A
passing p none = none
passing p (some x) = if p x then some x else none

module _ {ℓ} {K A : Type ℓ} ⦃e : Comparable K⦄ (key : A → K) where
  pub lookup_absent : (k : K) (xs : List A) → All (λ j. j ≢ k) (map key xs) → lookup key k xs ≡ none
  unfolding lookup
  lookup_absent k [] h = refl
  lookup_absent k (x ∷ xs) h = ground (arith, lookup_absent k xs h.1, e.same_iff (key x) k)

module _ {ℓ} {K A : Type ℓ} ⦃e : Comparable K⦄ (key : A → K) (p : A → Bool) where
  other_keys :
      (k : K) (xs : List A)
      → All (λ j. j ≢ k) (map key xs)
      → All (λ j. j ≢ k) (map key (select p xs))
  other_keys k [] h = tt
  other_keys k (x ∷ xs) h = elim (Bool-cases (p x)) [
    | inl t ↦ rw t (h.0, other_keys k xs h.1)
    | inr t ↦ rw t (other_keys k xs h.1)
  ]

  pub select-Distinct : (xs : List A) → Distinct (map key xs) → Distinct (map key (select p xs))
  select-Distinct [] d = tt
  select-Distinct (x ∷ xs) d = elim (Bool-cases (p x)) [
    | inl t ↦ rw t (other_keys (key x) xs d.0, select-Distinct xs d.1)
    | inr t ↦ rw t (select-Distinct xs d.1)
  ]

  -- A search in the selection finds the row of the table, if it passes the test.
  pub lookup-select :
      (k : K) (xs : List A)
      → Distinct (map key xs)
      → lookup key k (select p xs) ≡ passing p (lookup key k xs)
  unfolding lookup
  lookup-select k [] d = refl
  lookup-select k (x ∷ xs) d = elim (Bool-cases (key x == k)) [
    | inl t ↦ ground (
      arith,
      lookup-select k xs d.1,
      lookup_absent key k xs (rw (← (e.same_iff (key x) k).0 t) d.0),
    )
    | inr t ↦ ground (arith, lookup-select k xs d.1)
  ]

-- A stable sort keeps the order of elements that it takes for equal.
module _ {ℓ} {A : Type ℓ} (le : A → A → Bool) (p : A → Bool)
    (alike : (x y : A) → p x ≡ true → p y ≡ true → le x y ≡ true) where
  select-insert :
      (a : A) (xs : List A)
      → select p (insert le a xs) ≡ (if p a then a ∷ select p xs else select p xs)
  unfolding insert
  select-insert a [] = refl
  select-insert a (x ∷ xs) = ground (arith, select-insert a xs, alike a x)

  pub select-sort : (xs : List A) → select p (sort le xs) ≡ select p xs
  unfolding sort
  select-sort [] = refl
  select-sort (x ∷ xs) = ground (arith, select-insert x (sort le xs), select-sort xs)
