-- ===== src/Transitions/Walks.antt =====
-- The steps that the transitions allow, and the candidates that are left to see.
use mathlib.Core.Logic.{inl, inr}
use xyn_seed.Base.{
  ℕ, ◌≤◌, ◌<◌, String, Bool, true, false, not, ◌||◌, ◌&&◌, List, [], ◌∷◌, ◌++◌, map, ◌==◌,
  string_eq, any, select, length, Bool-cases, ◌≡◌, refl, arith, eq_iff, sym, ap,
}
use xyn_seed.Base.Dict.{get}
use xyn_seed.Base.Text.{strip}
use xyn_seed.Transitions.{contains, Transitions, candidates_of, Entry, candidates_in}

-- Some candidate is the status `t`.
abbrev pub offers : List String → String → Bool
offers candidates t = any (λ c. strip c == t) candidates

-- The transitions allow a step.
abbrev pub is_next : Transitions → String → String → Bool
is_next allowed s t = not (t == "") && offers (candidates_of allowed s) t

-- The statuses are one step from each other.
abbrev pub Walk : Transitions → String → List String → Type 0
Walk allowed s [] = Unit
Walk allowed s (t ∷ path) = (is_next allowed s t ≡ true) × Walk allowed t path

abbrev pub end_of : String → List String → String
end_of s [] = s
end_of s (t ∷ path) = end_of t path

pub contains-append :
    (x : String) (xs ys : List String) → contains x (xs ++ ys) ≡ (contains x xs || contains x ys)
contains-append x [] ys = refl
contains-append x (y ∷ xs) ys = ground (arith, contains-append x xs ys)

pub map-append {ℓ κ} :
    {A : Type ℓ} {B : Type κ} (f : A → B) (xs ys : List A) → map f (xs ++ ys) ≡ map f xs ++ map f ys
map-append f [] ys = refl
map-append f (x ∷ xs) ys = ap (λ r. f x ∷ r) (map-append f xs ys)

pub offers-append :
    (t : String) (xs ys : List String) → offers (xs ++ ys) t ≡ (offers xs t || offers ys t)
offers-append t [] ys = refl
offers-append t (y ∷ xs) ys = ground (arith, offers-append t xs ys)

pub offers-all :
    (s t : String) (allowed : Transitions)
    → offers (candidates_of allowed s) t ≡ true
    → offers (candidates_in allowed) t ≡ true
unfolding get
offers-all s t [] h = h
offers-all s t ((r, candidates) ∷ allowed) h = elim (Bool-cases (r == s)) [
  | inl e ↦ ground (arith, offers-append t candidates (candidates_in allowed), e, h)
  | inr e ↦
      ground
        (arith, offers-append t candidates (candidates_in allowed), e, h, offers-all s t allowed)
]

pub Walk-snoc :
    (allowed : Transitions) (s t : String) (path : List String)
    → Walk allowed s path
    → is_next allowed (end_of s path) t ≡ true
    → Walk allowed s (path ++ t ∷ [])
Walk-snoc allowed s t [] w h = (h, tt)
Walk-snoc allowed s t (r ∷ path) w h = (w.0, Walk-snoc allowed r t path w.1 h)

pub end_of-snoc : (s t : String) (path : List String) → end_of s (path ++ t ∷ []) ≡ t
end_of-snoc s t [] = refl
end_of-snoc s t (r ∷ path) = end_of-snoc r t path

-- The candidates that no status in `seen` is.
abbrev pub unseen : List String → List String → ℕ
unseen seen candidates = length (select (λ c. not (contains (strip c) seen)) candidates)

pub unseen-grow_le :
    (t : String) (seen candidates : List String)
    → unseen (t ∷ seen) candidates ≤ unseen seen candidates
unseen-grow_le t seen [] = omega arith
unseen-grow_le t seen (c ∷ candidates) = ground (arith, unseen-grow_le t seen candidates)

pub unseen-grow :
    (t : String) (seen candidates : List String)
    → contains t seen ≡ false
    → offers candidates t ≡ true
    → unseen (t ∷ seen) candidates < unseen seen candidates
unseen-grow t seen [] new h = ground (arith, h)
unseen-grow t seen (c ∷ candidates) new h = elim (Bool-cases (strip c == t)) [
  | inl e ↦
      let same = (eq_iff (strip c) t).0 e in
      ground (
        arith,
        e,
        new,
        ap (λ x. contains x seen) same,
        eq_iff t (strip c),
        sym same,
        unseen-grow_le t seen candidates,
      )
  | inr e ↦ ground (arith, e, unseen-grow t seen candidates new)
]

abbrev pub state_of : Entry → String
state_of entry = entry.0
