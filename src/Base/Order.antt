-- ===== src/Base/Order.antt =====
-- `ORDER BY` on several columns: an order of numbers, with nulls last, and one order after another.
use Prim.Native.Nat.{compare}
pub use Prim.Native.Nat.{Ordering}
use Prim.Native.Nat.{ℕ}
use mathlib.Core.Bool.{Bool, true, false}
use mathlib.Core.Option.{Option, none, some}
use mathlib.Core.Path.{◌≡◌}
use native.Mathlib.Omega.{arith}

abbrev pub compare_numbers : ℕ → ℕ → Ordering
compare_numbers = compare

abbrev pub compare_nulls_last : Option ℕ → Option ℕ → Ordering
compare_nulls_last none none = Ordering.eq
compare_nulls_last none (some b) = Ordering.gt
compare_nulls_last (some a) none = Ordering.lt
compare_nulls_last (some a) (some b) = compare a b

abbrev pub then_by : Ordering → Ordering → Ordering
then_by Ordering.lt o = Ordering.lt
then_by Ordering.eq o = o
then_by Ordering.gt o = Ordering.gt

abbrev pub not_after : Ordering → Bool
not_after Ordering.gt = false
not_after _ = true

-- Three comparisons of `a` with `b`, of `b` with `c`, and of `a` with `c`: the last one is what the
-- first two say of it.
abbrev pub Chains : Ordering → Ordering → Ordering → Type 0
Chains x y z = not_after x ≡ true → not_after y ≡ true → z ≡ then_by x y

pub then_by-Chains :
    (x x' y y' z z' : Ordering)
    → Chains x y z
    → Chains x' y' z'
    → Chains (then_by x x') (then_by y y') (then_by z z')
then_by-Chains x x' y y' z z' h k p q = ground arith

pub compare_numbers-Chains :
    (a b c : ℕ) → Chains (compare_numbers a b) (compare_numbers b c) (compare_numbers a c)
compare_numbers-Chains a b c p q = ground arith

pub compare_nulls_last-Chains :
    (a b c : Option ℕ)
    → Chains (compare_nulls_last a b) (compare_nulls_last b c) (compare_nulls_last a c)
compare_nulls_last-Chains a b c p q = ground arith

pub not_after-Chains :
    (x y z : Ordering) → Chains x y z → not_after x ≡ true → not_after y ≡ true → not_after z ≡ true
not_after-Chains x y z h p q = ground arith
