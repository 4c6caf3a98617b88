-- ===== src/Locks/Numbers.antt =====
-- When two keys have one lock.
use xyn_seed.Base.{
  ℕ, zero, suc, ◌+◌, ◌*◌, ◌<◌, ◌≤◌, String, List, [], ◌∷◌, ◌≡◌, refl, arith, All, length, ap, sym,
  ◌∙◌,
}
use mathlib.Core.Path.{ap₂}
use native.Mathlib.Nat.{mul-le-mul_right, mul_assoc}
use xyn_seed.Locks.{take, from_bytes_after, from_bytes, to_signed, hash_lock_key}

-- 256 ^ n.
abbrev power : ℕ → ℕ
power zero = 1
power (suc n) = 256 * power n

below_power :
    (n : ℕ) (bs : List ℕ)
    → All (λ b. b < 256) bs
    → from_bytes_after n bs + 1 ≤ (n + 1) * power (length bs)
unfolding from_bytes_after
below_power n [] h = omega arith
below_power n (b ∷ bs) h =
    let p = power (length bs) in
    let smaller : (n * 256 + b + 1) * p ≤ (n + 1) * 256 * p =
      mul-le-mul_right {m = n * 256 + b + 1} {n = (n + 1) * 256} p (omega (arith, h.0)) in
    omega (arith, below_power (n * 256 + b) bs h.1, smaller, mul_assoc (n + 1) 256 p)

to_signed_injective :
    (a b : ℕ)
    → a < 18446744073709551616
    → b < 18446744073709551616
    → to_signed a ≡ to_signed b
    → a ≡ b
unfolding to_signed
to_signed_injective a b small small' h = ground arith

from_bytes_after_injective :
    (m n : ℕ) (xs ys : List ℕ)
    → length xs ≡ length ys
    → All (λ b. b < 256) xs
    → All (λ b. b < 256) ys
    → from_bytes_after m xs ≡ from_bytes_after n ys
    → (m ≡ n) × (xs ≡ ys)
unfolding from_bytes_after
from_bytes_after_injective m n [] [] l hx hy e = (e, refl)
from_bytes_after_injective m n [] (y ∷ ys) l hx hy e = absurd (ground arith)
from_bytes_after_injective m n (x ∷ xs) [] l hx hy e = absurd (ground arith)
from_bytes_after_injective m n (x ∷ xs) (y ∷ ys) l hx hy e =
    let (heads, tails) =
      from_bytes_after_injective (m * 256 + x) (n * 256 + y) xs ys (ground arith) hx.1 hy.1 e in
    (omega (arith, heads, hx.0, hy.0), ap₂ ◌∷◌ (omega (arith, heads, hx.0, hy.0)) tails)

take-length : (n : ℕ) (xs : List ℕ) → n ≤ length xs → length (take n xs) ≡ n
take-length zero xs h = refl
take-length (suc n) [] h = absurd (omega (arith, h))
take-length (suc n) (x ∷ xs) h = omega (arith, take-length n xs (omega (arith, h)))

take-All : (n : ℕ) (xs : List ℕ) → All (λ b. b < 256) xs → All (λ b. b < 256) (take n xs)
take-All zero xs h = tt
take-All (suc n) [] h = tt
take-All (suc n) (x ∷ xs) h = (h.0, take-All n xs h.1)

-- A digest of at least eight bytes.
abbrev pub IsDigest : List ℕ → Type 0
IsDigest bs = (8 ≤ length bs) × All (λ b. b < 256) bs

below_2_64 : (bs : List ℕ) → IsDigest bs → from_bytes (take 8 bs) < 18446744073709551616
unfolding from_bytes
below_2_64 bs d =
    let eight = take-length 8 bs d.0 in
    let bound = below_power 0 (take 8 bs) (take-All 8 bs d.1) in
    let fits : from_bytes_after 0 (take 8 bs) + 1 ≤ 18446744073709551616 =
      omega (arith, bound, ap power eight) in
    omega (arith, fits)

-- Two keys that have one lock have digests with the same first eight bytes. A digest is taken to
-- have at least eight bytes.
pub hash_lock_key_injective :
    (digest : String → List ℕ) (k l : String)
    → IsDigest (digest k)
    → IsDigest (digest l)
    → hash_lock_key digest k ≡ hash_lock_key digest l
    → take 8 (digest k) ≡ take 8 (digest l)
unfolding hash_lock_key from_bytes
hash_lock_key_injective digest k l dk dl e =
    let same =
      to_signed_injective (from_bytes (take 8 (digest k))) (from_bytes (take 8 (digest l)))
        (below_2_64 (digest k) dk) (below_2_64 (digest l) dl) e in
    (from_bytes_after_injective 0 0 (take 8 (digest k)) (take 8 (digest l))
      (take-length 8 (digest k) dk.0 ∙ sym (take-length 8 (digest l) dl.0))
      (take-All 8 (digest k) dk.1) (take-All 8 (digest l) dl.1) same).1
