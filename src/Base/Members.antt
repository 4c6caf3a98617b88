-- ===== src/Base/Members.antt =====
-- What holds of every element of a list; distinct keys.
use mathlib.Core.Bool.{Bool, true}
use mathlib.Core.List.{List, [], ◌∷◌, ◌++◌, map}
use mathlib.Core.Logic.{◌≢◌, inl, inr}
use mathlib.Core.Option.{none, some}
use mathlib.Core.Path.{◌≡◌, refl}
use native.Mathlib.Omega.{arith}
use xyn_seed.Base.Equality.{Comparable}
use xyn_seed.Base.Lists.{select, All}
use xyn_seed.Base.Sort.{insert, sort}
use xyn_seed.Base.Table.{lookup}
use xyn_seed.Base.Tests.{Bool-cases}

module _ {ℓ κ} {A : Type ℓ} (P : A → Type κ) where
  pub All-intro : ((a : A) → P a) → (xs : List A) → All P xs
  All-intro h [] = tt
  All-intro h (x ∷ xs) = (h x, All-intro h xs)

  pub All-append : (xs ys : List A) → All P xs → All P ys → All P (xs ++ ys)
  All-append [] ys h k = k
  All-append (x ∷ xs) ys h k = (h.0, All-append xs ys h.1 k)

  pub All-insert :
      (le : A → A → Bool) (a : A) (xs : List A) → P a → All P xs → All P (insert le a xs)
  unfolding insert
  All-insert le a [] p h = (p, tt)
  All-insert le a (x ∷ xs) p h = elim (Bool-cases (le a x)) [
    | inl e ↦ rw e (p, (h.0, h.1))
    | inr e ↦ rw e (h.0, All-insert le a xs p h.1)
  ]

  pub All-sort : (le : A → A → Bool) (xs : List A) → All P xs → All P (sort le xs)
  unfolding sort
  All-sort le [] h = tt
  All-sort le (x ∷ xs) h = All-insert le x (sort le xs) h.0 (All-sort le xs h.1)

  All-of_insert :
      (le : A → A → Bool) (a : A) (xs : List A) → All P (insert le a xs) → P a × All P xs
  unfolding insert
  All-of_insert le a [] h = h
  All-of_insert le a (x ∷ xs) h = elim (Bool-cases (le a x)) [
    | inl e ↦ rw e at h
    | inr e ↦
        let (first, rest) = rw e at h in let (p, r) = All-of_insert le a xs rest in (p, (first, r))
  ]

  pub All-of_sort : (le : A → A → Bool) (xs : List A) → All P (sort le xs) → All P xs
  unfolding sort
  All-of_sort le [] h = tt
  All-of_sort le (x ∷ xs) h =
      let (p, r) = All-of_insert le x (sort le xs) h in (p, All-of_sort le xs r)

  pub All-select : (p : A → Bool) (xs : List A) → All P xs → All P (select p xs)
  All-select p [] h = tt
  All-select p (x ∷ xs) h = elim (Bool-cases (p x)) [
    | inl e ↦ rw e (h.0, All-select p xs h.1)
    | inr e ↦ rw e (All-select p xs h.1)
  ]

  pub All-of_select :
      (p : A → Bool) (xs : List A) → All P (select p xs) → All (λ a. p a ≡ true → P a) xs
  All-of_select p [] h = tt
  All-of_select p (x ∷ xs) h = elim (Bool-cases (p x)) [
    | inl e ↦ let (first, rest) = rw e at h in ((λ _. first), All-of_select p xs rest)
    | inr e ↦ ((λ t. absurd (cc)), All-of_select p xs (rw e at h))
  ]

module _ {ℓ κ μ} {A : Type ℓ} {P : A → Type κ} {Q : A → Type μ} where
  pub All-map : ((a : A) → P a → Q a) → (xs : List A) → All P xs → All Q xs
  All-map f [] h = tt
  All-map f (x ∷ xs) h = (f x h.0, All-map f xs h.1)

module _ {ℓ κ μ} {A : Type ℓ} (P : A → Type κ) (Q : A → Type μ) where
  pub All-both : (xs : List A) → All P xs → All Q xs → All (λ a. P a × Q a) xs
  All-both [] h k = tt
  All-both (x ∷ xs) h k = ((h.0, k.0), All-both xs h.1 k.1)

-- A selection satisfies its test.
pub All-select_self {ℓ} :
    {A : Type ℓ} (p : A → Bool) (xs : List A) → All (λ a. p a ≡ true) (select p xs)
All-select_self p [] = tt
All-select_self p (x ∷ xs) = elim (Bool-cases (p x)) [
  | inl e ↦ rw e (e, All-select_self p xs)
  | inr e ↦ rw e (All-select_self p xs)
]

abbrev pub Distinct {ℓ} : {K : Type ℓ} → List K → Type ℓ
Distinct [] = Unit
Distinct (k ∷ ks) = All (λ j. j ≢ k) ks × Distinct ks

module _ {ℓ} {K A : Type ℓ} ⦃e : Comparable K⦄ (key : A → K) where
  skip_first :
      (x : A) (xs ys : List A)
      → All (λ j. j ≢ key x) (map key ys)
      → All (λ y. lookup key (key y) xs ≡ some y) ys
      → All (λ y. lookup key (key y) (x ∷ xs) ≡ some y) ys
  unfolding lookup
  skip_first x xs [] d h = tt
  skip_first x xs (y ∷ ys) d h =
      (ground (arith, e.same_iff (key x) (key y)), skip_first x xs ys d.1 h.1)

  -- With distinct keys every row is found by its key.
  pub lookup-All :
      (xs : List A) → Distinct (map key xs) → All (λ x. lookup key (key x) xs ≡ some x) xs
  lookup-All [] d = tt
  lookup-All (x ∷ xs) d = (
    unfold lookup in ground (arith, e.same_iff (key x) (key x)),
    skip_first x xs xs d.0 (lookup-All xs d.1),
  )

module _ {ℓ} {K A : Type ℓ} ⦃e : Comparable K⦄ (key : A → K) where
  -- A row under a new key is put behind the others.
  pub Distinct-append :
      (xs : List A) (y : A)
      → Distinct (map key xs)
      → lookup key (key y) xs ≡ none
      → Distinct (map key (xs ++ y ∷ []))
  unfolding lookup
  Distinct-append [] y d h = (tt, tt)
  Distinct-append (x ∷ xs) y d h = (
    not_first x xs y d.0 (ground (arith, e.same_iff (key x) (key y))),
    Distinct-append xs y d.1 (ground arith),
  )
    where
      not_first :
          (x : A) (xs : List A) (y : A)
          → All (λ j. j ≢ key x) (map key xs)
          → key y ≢ key x
          → All (λ j. j ≢ key x) (map key (xs ++ y ∷ []))
      not_first x [] y h k = (k, tt)
      not_first x (z ∷ zs) y h k = (h.0, not_first x zs y h.1 k)

  pub lookup-append :
      (k : K) (xs ys : List A)
      → lookup key k (xs ++ ys)
        ≡ elim (lookup key k xs) [ none ↦ lookup key k ys | some x ↦ some x ]
  unfolding lookup
  lookup-append k [] ys = refl
  lookup-append k (x ∷ xs) ys = ground (arith, lookup-append k xs ys)
