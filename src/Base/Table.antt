-- ===== src/Base/Table.antt =====
-- A table of the database as a list of rows, read and written by a key.
use mathlib.Core.List.{List, [], ◌∷◌, map}
use mathlib.Core.Option.{Option, none, some}
use mathlib.Core.Path.{◌≡◌, refl}
use native.Mathlib.Omega.{arith}
use xyn_seed.Base.Equality.{Comparable, ◌==◌}
use xyn_seed.Base.Tests.{if◌then◌else◌}

module _ {ℓ} {K A : Type ℓ} ⦃e : Comparable K⦄ (key : A → K) where
  -- `query.filter(key == k).first()`, on a table where a key has one row.
  unfoldable pub lookup : K → List A → Option A
  lookup k [] = none
  lookup k (x ∷ xs) = if key x == k then some x else lookup k xs

  -- The changed row is written back.
  unfoldable pub save : A → List A → List A
  save a [] = []
  save a (x ∷ xs) = (if key x == key a then a else x) ∷ save a xs

abbrev pub replace {ℓ} : {A : Type ℓ} → A → Option A → Option A
replace a none = none
replace a (some _) = some a

module _ {ℓ} {K A : Type ℓ} ⦃e : Comparable K⦄ (key : A → K) where
  pub lookup-save :
      (a : A) (k : K) (xs : List A)
      → lookup key k (save key a xs)
        ≡ (if key a == k then replace a (lookup key k xs) else lookup key k xs)
  unfolding lookup save
  lookup-save a k [] = ground arith
  lookup-save a k (x ∷ xs) = ground (
    arith,
    lookup-save a k xs,
    e.same_iff (key x) (key a),
    e.same_iff (key a) k,
    e.same_iff (key x) k,
  )

  -- Writing a row back changes no key.
  pub keys-save : (a : A) (xs : List A) → map key (save key a xs) ≡ map key xs
  unfolding save
  keys-save a [] = refl
  keys-save a (x ∷ xs) = ground (arith, keys-save a xs, e.same_iff (key x) (key a))

  pub key_of_lookup : (k : K) (xs : List A) {a : A} → lookup key k xs ≡ some a → key a ≡ k
  unfolding lookup
  key_of_lookup k [] h = ground arith
  key_of_lookup k (x ∷ xs) {a} h = ground (arith, key_of_lookup k xs {a = a}, e.same_iff (key x) k)

module _ {ℓ} {K A : Type ℓ} ⦃e : Comparable K⦄ (key : A → K) where
  -- The later of two writes under one key stays.
  pub save-save :
      (a b : A) (xs : List A) → key b ≡ key a → save key b (save key a xs) ≡ save key b xs
  unfolding save
  save-save a b [] same = refl
  save-save a b (x ∷ xs) same =
      ground (arith, save-save a b xs same, e.same_iff (key x) (key a), e.same_iff (key a) (key b))
