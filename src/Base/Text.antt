-- ===== src/Base/Text.antt =====
-- Python's `str.strip` and `str.lower`. `lower` changes the capitals of ASCII and keeps all else,
-- so a text is meant to have no capital of another script.
pub mod Stripping
use Prim.Native.Char.{Char, char, code, IsScalar}
use Prim.Native.Nat.{ℕ, ◌+◌, compare, Ordering}
use Prim.Native.String.{String, [], ◌∷◌, compare as text_compare}
use mathlib.Core.Bool.{Bool, true, false, ◌&&◌, ◌||◌}
use mathlib.Core.Path.{◌≡◌, refl, ap₂}
use native.Mathlib.Omega.{arith}
use text.Mathlib.TextEquality.{Char-path}
use xyn_seed.Base.Tests.{leb, if◌then◌else◌}
use xyn_seed.Base.Equality.{◌==◌, nat_eq, string_eq}

-- The white space of Unicode, as `str.isspace` has it.
is_space : ℕ → Bool
is_space c =
    leb 9 c && leb c 13
    || leb 28 c && leb c 32
    || c == 0x85
    || c == 0xa0
    || c == 0x1680
    || leb 0x2000 c && leb c 0x200a
    || c == 0x2028
    || c == 0x2029
    || c == 0x202f
    || c == 0x205f
    || c == 0x3000

lstrip : String → String
lstrip [] = []
lstrip (c ∷ s) = let rest = lstrip s in if is_space (code c) then rest else c ∷ s

is_empty : String → Bool
is_empty [] = true
is_empty (c ∷ s) = false

pub rstrip : String → String
rstrip [] = []
rstrip (c ∷ s) = let rest = rstrip s in if is_space (code c) && is_empty rest then [] else c ∷ rest

unfoldable pub strip : String → String
unfolding lstrip rstrip is_space is_empty
strip s = rstrip (lstrip s)

abbrev pub is_capital : ℕ → Bool
is_capital c = leb b'A' c && leb c b'Z'

pub lower-IsScalar : (n : ℕ) → is_capital n ≡ true → IsScalar (n + 32)
lower-IsScalar n h = let e : compare (n + 32) 55296 ≡ Ordering.lt = ground arith in rw e tt

lowered : (c : Char) (b : Bool) → is_capital (code c) ≡ b → Char
lowered c true h = char (code c + 32) (lower-IsScalar (code c) h)
lowered c false h = c

lower_char : Char → Char
unfolding lowered
lower_char c = lowered c (is_capital (code c)) refl

unfoldable pub lower : String → String
unfolding lower_char
lower [] = []
lower (c ∷ s) = lower_char c ∷ lower s

lower_runs : lower (strip "  Ready-2 ") ≡ "ready-2"
unfolding lower strip
lower_runs = refl

code-lowered :
    (c : Char) (b : Bool) (h : is_capital (code c) ≡ b)
    → code (lowered c b h) ≡ (if b then code c + 32 else code c)
unfolding lowered
code-lowered c true h = refl
code-lowered c false h = refl

code-lower_char :
    (c : Char) → code (lower_char c) ≡ (if is_capital (code c) then code c + 32 else code c)
unfolding lower_char
code-lower_char c = code-lowered c (is_capital (code c)) refl

lower_char_idem : (c : Char) → lower_char (lower_char c) ≡ lower_char c
lower_char_idem c =
    Char-path _ _ (ground (arith, code-lower_char (lower_char c), code-lower_char c))

pub lower_idem : (s : String) → lower (lower s) ≡ lower s
unfolding lower
lower_idem [] = refl
lower_idem (c ∷ s) = ap₂ ◌∷◌ (lower_char_idem c) (lower_idem s)

-- The order of texts by code points, which is that of their UTF-8 bytes.
abbrev pub text_le : String → String → Bool
text_le s t = elim (text_compare s t) [ Ordering.gt ↦ false | _ ↦ true ]
