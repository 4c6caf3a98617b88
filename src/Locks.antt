-- ===== src/Locks.antt =====
-- core/advisory_locks.py: the number of an advisory lock. `digest` is SHA-256: 32 bytes of a key.
pub mod Numbers
use xyn_seed.Base.{
  ℕ, zero, suc, ◌+◌, ◌-◌, ◌*◌, ◌^◌, ◌<◌, ◌≤◌, String, Bool, true, false, List, [], ◌∷◌,
  if◌then◌else◌, ltb,
}

-- Python's `int`: a number, or the negative of the next number.
pub data ℤ : Type 0 where
  pos negsuc : ℕ → ℤ

abbrev pub take : ℕ → List ℕ → List ℕ
take zero xs = []
take (suc n) [] = []
take (suc n) (x ∷ xs) = x ∷ take n xs

-- `int.from_bytes(..., byteorder='big')`, from the value of the bytes before.
unfoldable pub from_bytes_after : ℕ → List ℕ → ℕ
from_bytes_after n [] = n
from_bytes_after n (b ∷ bs) = from_bytes_after (n * 256 + b) bs

unfoldable pub from_bytes : List ℕ → ℕ
from_bytes = from_bytes_after 0

-- `if lock_id >= 2**63: lock_id -= 2**64`, for a number below 2**64.
unfoldable pub to_signed : ℕ → ℤ
to_signed n = if ltb n 9223372036854775808 then pos n else negsuc (18446744073709551616 - n - 1)

unfoldable pub hash_lock_key : (String → List ℕ) → String → ℤ
hash_lock_key digest key = to_signed (from_bytes (take 8 (digest key)))
