-- ===== src/Base/Sorted.antt =====
-- The result of a sort by a total and transitive order is in order.
use mathlib.Core.Bool.{Bool, true, false}
use mathlib.Core.List.{List, [], ◌∷◌}
use mathlib.Core.Logic.{inl, inr}
use mathlib.Core.Path.{◌≡◌}
use xyn_seed.Base.Lists.{All}
use xyn_seed.Base.Members.{All-insert, All-map}
use xyn_seed.Base.Sort.{insert, sort}
use xyn_seed.Base.Tests.{Bool-cases}

pub record IsOrder {ℓ} {A : Type ℓ} (le : A → A → Bool) : Type ℓ where
  pub trans : (a b c : A) → le a b ≡ true → le b c ≡ true → le a c ≡ true
  pub total : (a b : A) → le a b ≡ false → le b a ≡ true

-- Each element precedes all that follow it.
abbrev pub Sorted {ℓ} : {A : Type ℓ} → (A → A → Bool) → List A → Type ℓ
Sorted le [] = Unit
Sorted le (x ∷ xs) = All (λ y. le x y ≡ true) xs × Sorted le xs

module _ {ℓ} {A : Type ℓ} {le : A → A → Bool} (o : IsOrder le) where
  insert-Sorted : (a : A) (xs : List A) → Sorted le xs → Sorted le (insert le a xs)
  unfolding insert
  insert-Sorted a [] s = (tt, tt)
  insert-Sorted a (x ∷ xs) s = elim (Bool-cases (le a x)) [
    | inl e ↦ rw e ((e, All-map (λ y. o.trans a x y e) xs s.0), (s.0, s.1))
    | inr e ↦
        rw e (All-insert (λ y. le x y ≡ true) le a xs (o.total a x e) s.0, insert-Sorted a xs s.1)
  ]

  pub sort-Sorted : (xs : List A) → Sorted le (sort le xs)
  unfolding sort
  sort-Sorted [] = tt
  sort-Sorted (x ∷ xs) = insert-Sorted x (sort le xs) (sort-Sorted xs)
