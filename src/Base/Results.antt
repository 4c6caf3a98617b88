-- ===== src/Base/Results.antt =====
-- Python's exceptions as values, and state with exceptions. The error type is the module's own.
use mathlib.Core.Path.{◌≡◌, refl}
use mathlib.Core.Logic.{◌⊎◌, inl, inr}
use native.Mathlib.Omega.{arith}

pub data Result {ℓ} (E : Type ℓ) (A : Type ℓ) : Type ℓ where
  ok : A → Result E A
  err : E → Result E A

-- A transaction: it returns and hands on the state, or it raises, and its changes are dropped.
abbrev pub Exec {ℓ} : Type ℓ → Type ℓ → Type ℓ → Type ℓ
Exec S E A = S → Result E (A × S)

infixl 5 ◌>>=◌ ◌>>◌
abbrev pub ◌>>=◌ {ℓ} : {S E A B : Type ℓ} → Exec S E A → (A → Exec S E B) → Exec S E B
◌>>=◌ m f s = elim (m s) [ ok (a, t) ↦ f a t | err e ↦ err e ]

abbrev pub ◌>>◌ {ℓ} : {S E A B : Type ℓ} → Exec S E A → Exec S E B → Exec S E B
m >> k = m >>= λ _. k

abbrev pub pure {ℓ} : {S E A : Type ℓ} → A → Exec S E A
pure a s = ok (a, s)

abbrev pub raise {ℓ} : {S E A : Type ℓ} → E → Exec S E A
raise e s = err e

abbrev pub lift {ℓ} : {S E A : Type ℓ} → Result E A → Exec S E A
lift (ok a) s = ok (a, s)
lift (err e) s = err e

pub Result-cases {ℓ} :
    {E A : Type ℓ} (r : Result E A) → ((a : A) × (r ≡ ok a)) ⊎ ((e : E) × (r ≡ err e))
Result-cases (ok a) = inl (a, refl)
Result-cases (err e) = inr (e, refl)

-- A chain that returns: its first part has returned.
pub >>=-eq-ok {ℓ} :
    {S E A B : Type ℓ} (m : Exec S E A) (f : A → Exec S E B) (s : S) {r : B × S}
    → (m >>= f) s ≡ ok r
    → (a : A) × (t : S) × (m s ≡ ok (a, t)) × (f a t ≡ ok r)
>>=-eq-ok m f s h = elim (Result-cases (m s)) [
  | inl ((a, t), done) ↦ (a, t, done, ground (arith, done))
  | inr (e, failed) ↦ absurd (ground (arith, failed))
]
