-- ===== src/Releases/Indexes.antt =====
-- core/api/releases.py: `_index_by_name` gives a dictionary, with one entry of each name.
use xyn_seed.Base.{
  String, none, List, [], ◌∷◌, ◌≡◌, ◌≢◌, refl, arith, ◌==◌, string_eq, map, All, eq_iff, Bool-cases,
  inl, inr, sym,
}
use xyn_seed.Base.Dict.{Dict, get, put}
use xyn_seed.Base.Members.{Distinct}
use xyn_seed.Releases.Plans.{index_into, index_by_name}

abbrev pub dict_key {ℓ} : {V : Type ℓ} → String × V → String
dict_key e = e.0

module _ {ℓ} {V : Type ℓ} where
  pub get_absent : (k : String) (d : Dict V) → All (λ j. j ≢ k) (map dict_key d) → get d k ≡ none
  unfolding get
  get_absent k [] h = refl
  get_absent k ((j, v) ∷ d) h = ground (arith, get_absent k d h.1, eq_iff j k)

  put_other :
      (i k : String) (v : V) (d : Dict V)
      → k ≢ i
      → All (λ j. j ≢ i) (map dict_key d)
      → All (λ j. j ≢ i) (map dict_key (put d k v))
  unfolding put
  put_other i k v [] other h = (other, tt)
  put_other i k v ((j, w) ∷ d) other h = elim (Bool-cases (j == k)) [
    | inl e ↦ rw e h
    | inr e ↦ rw e (h.0, put_other i k v d other h.1)
  ]

  put-Distinct :
      (k : String) (v : V) (d : Dict V)
      → Distinct (map dict_key d)
      → Distinct (map dict_key (put d k v))
  unfolding put
  put-Distinct k v [] h = (tt, tt)
  put-Distinct k v ((j, w) ∷ d) h = elim (Bool-cases (j == k)) [
    | inl e ↦ rw e h
    | inr e ↦ rw e (
      put_other j k v d (λ same. ground (arith, eq_iff j k, sym same)) h.0,
      put-Distinct k v d h.1,
    )
  ]

module _ {ℓ} {A : Type ℓ} (name : A → String) where
  index_into-Distinct :
      (d : Dict A) (items : List A)
      → Distinct (map dict_key d)
      → Distinct (map dict_key (index_into name d items))
  unfolding index_into
  index_into-Distinct d [] h = h
  index_into-Distinct d (item ∷ items) h = elim (Bool-cases (name item == "")) [
    | inl e ↦ rw e (index_into-Distinct d items h)
    | inr e ↦
        rw e
          (index_into-Distinct (put d (name item) item) items (put-Distinct (name item) item d h))
  ]

  pub index_by_name-Distinct : (items : List A) → Distinct (map dict_key (index_by_name name items))
  unfolding index_by_name
  index_by_name-Distinct items = index_into-Distinct [] items tt
