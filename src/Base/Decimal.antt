-- ===== src/Base/Decimal.antt =====
-- Python's `int` of a text in the digits of ASCII, and `str` of a number.
use Prim.Native.Char.{Char, char, code, IsScalar}
use Prim.Native.Nat.{ℕ, zero, suc, ◌+◌, ◌-◌, ◌*◌, ◌/◌, ◌%◌, ◌≤◌, compare, Ordering}
use Prim.Native.String.{String, [], ◌∷◌}
use mathlib.Core.Bool.{Bool, true, false, ◌&&◌}
use mathlib.Core.Option.{Option, none, some}
use mathlib.Core.Path.{◌≡◌, refl, ◌∙◌}
use native.Mathlib.Omega.{arith}
use xyn_seed.Base.Equality.{◌==◌, nat_eq, string_eq}
use text.Mathlib.TextEquality.{eq_iff}
use mathlib.Core.Logic.{inl, inr, ◌≢◌}
use mathlib.Core.Path.{ap}
use xyn_seed.Base.Tests.{leb, ltb, if◌then◌else◌, Bool-cases}
use xyn_seed.Base.Text.Stripping.{solid, is_solid-digit, strip-solid}
use xyn_seed.Base.Text.{strip}

pub data Integer : Type 0 where
  natural negated : ℕ → Integer

abbrev is_digit : ℕ → Bool
is_digit c = leb b'0' c && leb c b'9'

-- Digits, with single underscores between them. `after` says that a digit stands before.
unfoldable pub read_digits : Bool → ℕ → String → Option ℕ
read_digits after n [] = if after then some n else none
read_digits after n (c ∷ s) =
    let digit = read_digits true (n * 10 + (code c - b'0')) s in
    let skipped = read_digits false n s in
    if is_digit (code c) then digit else if code c == b'_' && after then skipped else none

abbrev signed : (ℕ → Integer) → Option ℕ → Option Integer
signed sign none = none
signed sign (some n) = some (sign n)

unfoldable pub read_integer : String → Option Integer
unfolding read_digits
read_integer [] = none
read_integer (c ∷ s) =
    if code c == b'-'
    then signed negated (read_digits false 0 s)
    else if code c == b'+'
    then signed natural (read_digits false 0 s)
    else signed natural (read_digits false 0 (c ∷ s))

-- `int(s)`, `none` where it raises a `ValueError`.
unfoldable pub int : String → Option Integer
int s = read_integer (strip s)

pub digit-IsScalar : (n : ℕ) → IsScalar (n % 10 + 48)
digit-IsScalar n = let e : compare (n % 10 + 48) 55296 ≡ Ordering.lt = ground arith in rw e tt

-- The last digit of a number.
abbrev pub last_digit : ℕ → Char
last_digit n = char (n % 10 + 48) (digit-IsScalar n)

push : String → Char → String
push [] d = d ∷ []
push (c ∷ s) d = c ∷ push s d

str_within : ℕ → ℕ → String
unfolding push
str_within zero n = last_digit n ∷ []
str_within (suc fuel) n =
    let rest = str_within fuel (n / 10) in
    if ltb n 10 then last_digit n ∷ [] else push rest (last_digit n)

-- `str(n)`: a number has at most as many digits as it says.
unfoldable pub str : ℕ → String
unfolding str_within
str n = str_within n n

str_runs : str 1406 ≡ "1406"
unfolding str str_within push
str_runs = refl

read_digits-push :
    (after : Bool) (n m k : ℕ) (s : String)
    → read_digits after n s ≡ some m
    → read_digits after n (push s (last_digit k)) ≡ some (m * 10 + k % 10)
unfolding read_digits push
read_digits-push true n m k [] h = ground (arith, h)
read_digits-push false n m k [] h = ground (arith, h)
read_digits-push after n m k (c ∷ s) h =
    ground (
      arith,
      h,
      read_digits-push true (n * 10 + (code c - 48)) m k s,
      read_digits-push false n m k s,
    )

read_digits-str_within : (fuel n : ℕ) → n ≤ fuel → read_digits false 0 (str_within fuel n) ≡ some n
unfolding read_digits str_within
read_digits-str_within zero n le = ground (arith, le)
read_digits-str_within (suc fuel) n le = elim (Bool-cases (ltb n 10)) [
  | inl small ↦ rw small (ground (arith, small))
  | inr large ↦
      let below : n / 10 ≤ fuel = ground (arith, large, le) in
      rw large (
        read_digits-push false 0 (n / 10) n (str_within fuel (n / 10))
          (read_digits-str_within fuel (n / 10) below)
        ∙ ap (λ k. some k) (omega arith))
]

-- A text that reads as digits has no space and no sign.
solid-read_digits :
    (after : Bool) (n m : ℕ) (s : String) → read_digits after n s ≡ some m → solid s ≡ true
unfolding read_digits solid
solid-read_digits after n m [] h = refl
solid-read_digits after n m (c ∷ s) h = ground (
  arith,
  h,
  is_solid-digit c,
  solid-read_digits true (n * 10 + (code c - 48)) m s,
  solid-read_digits false n m s,
)

read_integer-digits :
    (m : ℕ) (s : String) → read_digits false 0 s ≡ some m → read_integer s ≡ some (natural m)
unfolding read_integer read_digits
read_integer-digits m [] h = ground (arith, h)
read_integer-digits m (c ∷ s) h = ground (arith, h)

pub strip-str : (n : ℕ) → strip (str n) ≡ str n
unfolding str
strip-str n =
    strip-solid (str_within n n)
      (solid-read_digits false 0 n (str_within n n) (read_digits-str_within n n (omega arith)))

-- A number that is printed reads as itself.
pub int-str : (n : ℕ) → int (str n) ≡ some (natural n)
unfolding int str
int-str n =
    rw (strip-str n)
      (read_integer-digits n (str_within n n) (read_digits-str_within n n (omega arith)))

no_digits : (n : ℕ) → read_digits false 0 "" ≢ some n
unfolding read_digits
no_digits n h = ground (arith, h)

pub str-non_blank : (n : ℕ) → (str n == "") ≡ false
unfolding str
str-non_blank n = elim (Bool-cases (str n == "")) [
  | inr e ↦ e
  | inl e ↦
      let same = (eq_iff (str n) "").0 e in
      absurd (no_digits n (rw (← same) (read_digits-str_within n n (omega arith))))
]
