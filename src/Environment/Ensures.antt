-- ===== src/Environment/Ensures.antt =====
-- core/env_config.py: what holds of every value that a loader returns, and of the values of `_env`.
use xyn_seed.Base.{
  String, Bool, false, Option, none, some, List, [], ◌∷◌, ◌==◌, string_eq, nat_eq, ◌≡◌, refl, ◌⊎◌,
  inl, inr, arith, Bool-cases, Option-cases,
}
use xyn_seed.Base.Dict.{get}
use xyn_seed.Base.Text.{strip}
use xyn_seed.Base.Text.Stripping.{strip_idem}
use xyn_seed.Environment.{
  Process, Loaded, returned, raised, Loader, ◌>>=◌, ◌>>◌, pure, raise, raise_if, non_blank,
  env_alias, env,
}

-- What a loader returns, from any process, satisfies a predicate.
pub record Ensures {A : Type 0} (P : A → Type 0) (m : Loader A) : Type 0 where
  pub holds : (p q : Process) (a : A) → m p ≡ returned a q → P a

Loaded-cases :
    {A : Type 0} (l : Loaded A)
    → ((a : A) × (q : Process) × (l ≡ returned a q))
      ⊎ ((e : String) × (q : Process) × (l ≡ raised e q))
Loaded-cases (returned a q) = inl (a, q, refl)
Loaded-cases (raised e q) = inr (e, q, refl)

module _ {A : Type 0} (P : A → Type 0) where
  pub Ensures-pure : (a : A) → P a → Ensures P (pure a)
  unfolding pure
  Ensures-pure a h = record { holds = λ p q b e. ground (arith, h, e) }

  pub Ensures-raise : (message : String) → Ensures P (raise message)
  unfolding raise
  Ensures-raise message = record { holds = λ p q a e. absurd (ground (arith, e)) }

pub Ensures-bind :
    {A B : Type 0} {m : Loader A} {f : A → Loader B} {P : A → Type 0} (Q : B → Type 0)
    → Ensures P m
    → ((a : A) → P a → Ensures Q (f a))
    → Ensures Q (m >>= f)
unfolding ◌>>=◌
Ensures-bind {m = m} {f = f} Q h k = record {
  holds = λ p q b e. elim (Loaded-cases (m p)) [
    | inl (a, r, done) ↦
        let next : f a r ≡ returned b q = ground (arith, done, e) in
        (k a (h.holds p r a done)).holds r q b next
    | inr (x, r, failed) ↦ absurd (ground (arith, failed, e))
  ];
}

pub Ensures-weaken :
    {A : Type 0} {m : Loader A} {P : A → Type 0} (Q : A → Type 0)
    → ((a : A) → P a → Q a)
    → Ensures P m
    → Ensures Q m
Ensures-weaken Q h k = record { holds = λ p q a e. h a (k.holds p q a e) }

pub raise_if-Ensures : (b : Bool) (message : String) → Ensures (λ _. b ≡ false) (raise_if b message)
unfolding raise_if raise pure
raise_if-Ensures b message = record { holds = λ p q a e. ground (arith, e) }

-- No space at the ends; and not empty.
abbrev pub IsStripped : String → Type 0
IsStripped v = strip v ≡ v

abbrev pub IsKept : String → Type 0
IsKept v = IsStripped v × ((v == "") ≡ false)

non_blank-some : (o : Option String) (v : String) → non_blank o ≡ some v → IsKept v
unfolding non_blank
non_blank-some none v h = absurd (ground (arith, h))
non_blank-some (some w) v h = elim (Bool-cases (strip w == "")) [
  | inl blank ↦ absurd (ground (arith, h, blank))
  | inr there ↦
      let same : strip w ≡ v = ground (arith, h, there) in rw (← same) (strip_idem w, there)
]

env_alias-Ensures :
    (P : String → Type 0) (key default : String) (aliases : List String)
    → P default
    → ((v : String) → IsKept v → P v)
    → Ensures P (env_alias key default aliases)
unfolding env_alias pure
env_alias-Ensures P key default [] d h = record { holds = λ p q a e. ground (arith, d, e) }
env_alias-Ensures P key default (alias ∷ aliases) d h = record {
  holds = λ p q a e. elim (Option-cases (non_blank (get p.environ alias))) [
    | inl none' ↦
        (env_alias-Ensures P key default aliases d h).holds p q a (ground (arith, none', e))
    | inr (v, there) ↦
        let same : v ≡ a = ground (arith, there, e) in
        rw (← same) (h v (non_blank-some (get p.environ alias) v there))
  ];
}

-- What is kept of a variable, or its default.
pub env-Ensures :
    (P : String → Type 0) (key default : String) (aliases : List String)
    → P default
    → ((v : String) → IsKept v → P v)
    → Ensures P (env key default aliases)
unfolding env pure
env-Ensures P key default aliases d h = record {
  holds = λ p q a e. elim (Option-cases (non_blank (get p.environ key))) [
    | inl none' ↦
        (env_alias-Ensures P key default aliases d h).holds p q a (ground (arith, none', e))
    | inr (v, there) ↦
        let same : v ≡ a = ground (arith, there, e) in
        rw (← same) (h v (non_blank-some (get p.environ key) v there))
  ];
}

pub env-IsStripped :
    (key : String) (aliases : List String) → Ensures IsStripped (env key "" aliases)
unfolding strip
env-IsStripped key aliases = env-Ensures IsStripped key "" aliases refl (λ v h. h.0)

pub env-IsKept :
    (key default : String) (aliases : List String)
    → IsKept default
    → Ensures IsKept (env key default aliases)
env-IsKept key default aliases d = env-Ensures IsKept key default aliases d (λ v h. h)

abbrev pub Anything : {A : Type 0} → A → Type 0
Anything a = Unit

pub Ensures-Anything : {A : Type 0} (m : Loader A) → Ensures Anything m
Ensures-Anything m = record { holds = λ p q a e. tt }

-- A test passes, and the value is returned.
pub Ensures-raise_if :
    {A : Type 0} {b : Bool} {m : Loader A} (Q : A → Type 0) (message : String)
    → (b ≡ false → Ensures Q m)
    → Ensures Q (raise_if b message >> m)
Ensures-raise_if {b = b} Q message h = Ensures-bind Q (raise_if-Ensures b message) (λ _. h)
