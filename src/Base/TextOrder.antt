-- ===== src/Base/TextOrder.antt =====
-- The order of texts is total, transitive and antisymmetric.
use Prim.Native.Char.{code}
use Prim.Native.Nat.{ℕ, Ordering, compare as compare_ℕ}
use Prim.Native.String.compare
use Prim.Native.String.{String, [], ◌∷◌, compare, then}
use mathlib.Core.Bool.{true}
use mathlib.Core.Path.{◌≡◌}
use native.Mathlib.Omega.{arith}
use text.Mathlib.TextEquality.{path_by_compare}
use text.Mathlib.TextPositions.{compare_refl}
use xyn_seed.Base.Order.{Chains}
use xyn_seed.Base.Sorted.{IsOrder}
use xyn_seed.Base.Text.{text_le}

abbrev flipped : Ordering → Ordering
flipped Ordering.lt = Ordering.gt
flipped Ordering.eq = Ordering.eq
flipped Ordering.gt = Ordering.lt

numbers_flip : (a b : ℕ) → compare_ℕ b a ≡ flipped (compare_ℕ a b)
numbers_flip a b = ground arith

then_flip :
    (o r o' r' : Ordering) → o' ≡ flipped o → r' ≡ flipped r → then o' r' ≡ flipped (then o r)
then_flip o r o' r' h k = ground arith

compare-flip : (s t : String) → compare t s ≡ flipped (compare s t)
compare-flip [] [] = ground (arith, compare_refl [])
compare-flip [] (d ∷ t) = rw (compare.nil-cons d t, compare.cons-nil d t)
compare-flip (c ∷ s) [] = rw (compare.nil-cons c s, compare.cons-nil c s)
compare-flip (c ∷ s) (d ∷ t) =
    rw (compare.cons-cons c d s t, compare.cons-cons d c t s)
      (then_flip (compare_ℕ (code c) (code d)) (compare s t) (compare_ℕ (code d) (code c))
        (compare t s) (numbers_flip (code c) (code d)) (compare-flip s t))

then-Chains :
    (x x' y y' z z' : Ordering)
    → Chains x y z
    → Chains x' y' z'
    → Chains (then x x') (then y y') (then z z')
then-Chains x x' y y' z z' h k p q = ground arith

numbers-Chains : (a b c : ℕ) → Chains (compare_ℕ a b) (compare_ℕ b c) (compare_ℕ a c)
numbers-Chains a b c p q = ground arith

compare-Chains : (s t u : String) → Chains (compare s t) (compare t u) (compare s u)
compare-Chains [] t [] p q = ground (arith, compare_refl [], compare-flip [] t)
compare-Chains [] [] (e ∷ u) p q = ground (arith, compare_refl [])
compare-Chains [] (d ∷ t) (e ∷ u) p q = ground (arith, compare.nil-cons d t, compare.nil-cons e u)
compare-Chains (c ∷ s) [] u p q = ground (arith, compare.cons-nil c s)
compare-Chains (c ∷ s) (d ∷ t) [] p q = ground (arith, compare.cons-nil d t)
compare-Chains (c ∷ s) (d ∷ t) (e ∷ u) p q =
    rw (compare.cons-cons c e s u, compare.cons-cons c d s t, compare.cons-cons d e t u)
      (then-Chains _ _ _ _ _ _ (numbers-Chains (code c) (code d) (code e)) (compare-Chains s t u)
        (rw (compare.cons-cons c d s t) at p) (rw (compare.cons-cons d e t u) at q))

pub text_le-IsOrder : IsOrder text_le
text_le-IsOrder = record {
  trans = λ s t u h k. ground (arith, compare-Chains s t u);
  total = λ s t h. ground (arith, compare-flip s t);
}

pub text_le_antisym : (s t : String) → text_le s t ≡ true → text_le t s ≡ true → s ≡ t
text_le_antisym s t h k = path_by_compare s t (ground (arith, compare-flip s t))
