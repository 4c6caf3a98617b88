-- ===== src/Base/Totals.antt =====
-- A sum over the rows of a table, and what a write does to it.
use Prim.Native.Nat.{ℕ, ◌+◌}
use mathlib.Core.List.{List, [], ◌∷◌, ◌++◌, map}
use mathlib.Core.Option.{some}
use mathlib.Core.Path.{◌≡◌, refl}
use mathlib.Core.Logic.{◌≢◌, inl, inr}
use native.Mathlib.Omega.{arith}
use xyn_seed.Base.Equality.{Comparable, ◌==◌}
use xyn_seed.Base.Lists.{All}
use xyn_seed.Base.Members.{Distinct}
use xyn_seed.Base.Table.{lookup, save}
use xyn_seed.Base.Tests.{Bool-cases}

module _ {ℓ} {A : Type ℓ} where
  abbrev pub total : (A → ℕ) → List A → ℕ
  total w [] = 0
  total w (x ∷ xs) = w x + total w xs

  pub total-append : (w : A → ℕ) (xs ys : List A) → total w (xs ++ ys) ≡ total w xs + total w ys
  total-append w [] ys = omega arith
  total-append w (x ∷ xs) ys = omega (arith, total-append w xs ys)

module _ {ℓ} {K A : Type ℓ} ⦃e : Comparable K⦄ (key : A → K) where
  save_absent : (a : A) (xs : List A) → All (λ j. j ≢ key a) (map key xs) → save key a xs ≡ xs
  unfolding save
  save_absent a [] h = refl
  save_absent a (x ∷ xs) h = ground (arith, save_absent a xs h.1, e.same_iff (key x) (key a))

  -- The row under the key is exchanged for the one that is written.
  pub total-save :
      (w : A → ℕ) (a x : A) (xs : List A)
      → Distinct (map key xs)
      → lookup key (key a) xs ≡ some x
      → total w (save key a xs) + w x ≡ total w xs + w a
  unfolding save lookup
  total-save w a x [] d h = absurd (ground arith)
  total-save w a x (y ∷ ys) d h = elim (Bool-cases (key y == key a)) [
    | inl this ↦ ground (arith, save_absent a ys (rw (← (e.same_iff (key y) (key a)).0 this) d.0))
    | inr other ↦ ground (arith, total-save w a x ys d.1)
  ]
