-- ===== src/Base/Text/Stripping.antt =====
-- `strip` leaves a text without space at its ends as it is.
use Prim.Native.Char.{Char, code}
use Prim.Native.String.{String, [], ◌∷◌}
use mathlib.Core.Bool.{Bool, true, ◌&&◌, not}
use mathlib.Core.Path.{◌≡◌, refl}
use native.Mathlib.Omega.{arith}
use xyn_seed.Base.Equality.{nat_eq}
use xyn_seed.Base.Tests.{leb}
use xyn_seed.Base.Text.{is_space, lstrip, rstrip, is_empty, strip}

rstrip_idem : (s : String) → rstrip (rstrip s) ≡ rstrip s
unfolding rstrip is_empty
rstrip_idem [] = refl
rstrip_idem (c ∷ s) = ground (arith, rstrip_idem s)

lstrip-rstrip : (s : String) → lstrip (rstrip (lstrip s)) ≡ rstrip (lstrip s)
unfolding rstrip lstrip is_empty
lstrip-rstrip [] = refl
lstrip-rstrip (c ∷ s) = ground (arith, lstrip-rstrip s)

pub strip_idem : (s : String) → strip (strip s) ≡ strip s
unfolding strip
strip_idem s = rw (lstrip-rstrip s) (rstrip_idem (lstrip s))

pub is_solid : Char → Bool
unfolding is_space
is_solid c = not (is_space (code c))

-- No character is white space.
unfoldable pub solid : String → Bool
solid [] = true
solid (c ∷ s) = is_solid c && solid s

pub is_solid-digit : (c : Char) → (leb 48 (code c) && leb (code c) 95) ≡ true → is_solid c ≡ true
unfolding is_solid is_space
is_solid-digit c h = ground (arith, h)

rstrip-solid : (s : String) → solid s ≡ true → rstrip s ≡ s
unfolding rstrip solid is_solid
rstrip-solid [] h = refl
rstrip-solid (c ∷ s) h = ground (arith, h, rstrip-solid s)

pub strip-solid : (s : String) → solid s ≡ true → strip s ≡ s
unfolding strip lstrip solid is_solid
strip-solid [] h = rstrip-solid [] h
strip-solid (c ∷ s) h = ground (arith, h, rstrip-solid (c ∷ s) h)
