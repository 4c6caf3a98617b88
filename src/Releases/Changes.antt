-- ===== src/Releases/Changes.antt =====
-- The actions on the items of one type, and which of them are about one name.
use xyn_seed.Base.{
  String, Bool, false, Option, none, some, List, [], ◌∷◌, ◌++◌, ◌≡◌, refl, arith, ◌==◌, ◌&&◌,
  string_eq, Comparable, select, select-append, map, eq_iff, Bool-cases, Option-cases, inl, inr, ap,
  ◌∙◌,
}
use xyn_seed.Base.Dict.{Dict, get}
use xyn_seed.Base.Members.{Distinct}
use xyn_seed.Releases.Plans.{Action, deleted, delete_all, item_action, change_all}
use xyn_seed.Releases.Indexes.{dict_key, get_absent}

-- An action on one item.
abbrev pub is_about {ℓ} : {A : Type ℓ} → String → String → Action A → Bool
is_about target_type n a = a.target_type == target_type && a.target_name == n

module _ {ℓ} {A : Type ℓ} ⦃e : Comparable A⦄ where
  -- What a plan does about an item, as it was and as it is to be.
  abbrev pub difference : String → String → Option A → Option A → List (Action A)
  difference t n none none = []
  difference t n (some previous) none = deleted t n ∷ []
  difference t n previous (some current) = item_action t n previous current

  abbrev change_of : String → String → Option A → Option A → List (Action A)
  change_of t n previous none = []
  change_of t n previous (some current) = item_action t n previous current

  abbrev deletion_of : String → String → Option A → Option A → List (Action A)
  deletion_of t n previous (some current) = []
  deletion_of t n none none = []
  deletion_of t n (some previous) none = deleted t n ∷ []

  item_action-append_nil :
      (t n : String) (previous : Option A) (current : A)
      → item_action t n previous current ++ [] ≡ item_action t n previous current
  unfolding item_action
  item_action-append_nil t n none current = refl
  item_action-append_nil t n (some previous) current = ground arith

  select-item_action :
      (t n : String) (previous : Option A) (current : A)
      → select (is_about t n) (item_action t n previous current) ≡ item_action t n previous current
  unfolding item_action
  select-item_action t n none current = ground (arith, eq_iff t t, eq_iff n n)
  select-item_action t n (some previous) current = ground (arith, eq_iff t t, eq_iff n n)

  select-other_action :
      (t n u k : String) (previous : Option A) (current : A)
      → (u == t && k == n) ≡ false
      → select (is_about t n) (item_action u k previous current) ≡ []
  unfolding item_action
  select-other_action t n u k none current h = ground (arith, h)
  select-other_action t n u k (some previous) current h = ground (arith, h)

  pub select-change_all :
      (t n : String) (previous current : Dict A)
      → Distinct (map dict_key current)
      → select (is_about t n) (change_all t previous current)
        ≡ change_of t n (get previous n) (get current n)
  unfolding change_all get
  select-change_all t n previous [] d = refl
  select-change_all t n previous ((k, item) ∷ current) d = elim (Bool-cases (k == n)) [
    | inl e ↦
        let same = (eq_iff k n).0 e in
        rw e (
          rw (← same) (
            select-append (is_about t k) (item_action t k (get previous k) item)
              (change_all t previous current)
            ∙ rw
                (
                  select-item_action t k (get previous k) item,
                  select-change_all t k previous current d.1,
                  get_absent k current d.0,
                )
                (item_action-append_nil t k (get previous k) item)))
    | inr e ↦ rw e (
        select-append (is_about t n) (item_action t k (get previous k) item)
          (change_all t previous current)
        ∙ ap (λ a. a ++ select (is_about t n) (change_all t previous current))
            (select-other_action t n t k (get previous k) item (ground (arith, e)))
        ∙ select-change_all t n previous current d.1)
  ]

  pub select-delete_all :
      (t n : String) (current previous : Dict A)
      → Distinct (map dict_key previous)
      → select (is_about t n) (delete_all t current previous)
        ≡ deletion_of t n (get previous n) (get current n)
  unfolding delete_all get
  select-delete_all t n current [] d = elim (Option-cases (get current n)) [
    | inl e ↦ rw e refl
    | inr (x, e) ↦ rw e refl
  ]
  select-delete_all t n current ((k, item) ∷ previous) d = elim (Bool-cases (k == n)) [
    | inl e ↦
        let same = (eq_iff k n).0 e in
        rw e (
          rw (← same) (
            ground (
              arith,
              select-delete_all t k current previous d.1,
              get_absent k previous d.0,
              eq_iff t t,
              eq_iff k k,
            )))
    | inr e ↦ ground (arith, select-delete_all t n current previous d.1)
  ]

  pub change-deletion :
      (t n : String) (previous current : Option A)
      → change_of t n previous current ++ deletion_of t n previous current
        ≡ difference t n previous current
  change-deletion t n none none = refl
  change-deletion t n none (some c) = item_action-append_nil t n none c
  change-deletion t n (some p) none = refl
  change-deletion t n (some p) (some c) = item_action-append_nil t n (some p) c

  pub select-change_all_other :
      (t n u : String) (previous current : Dict A)
      → (u == t) ≡ false
      → select (is_about t n) (change_all u previous current) ≡ []
  unfolding change_all
  select-change_all_other t n u previous [] h = refl
  select-change_all_other t n u previous ((k, item) ∷ current) h =
      select-append (is_about t n) (item_action u k (get previous k) item)
        (change_all u previous current)
      ∙ rw (
        select-other_action t n u k (get previous k) item (ground (arith, h)),
        select-change_all_other t n u previous current h,
      )

  pub select-delete_all_other :
      (t n u : String) (current previous : Dict A)
      → (u == t) ≡ false
      → select (is_about t n) (delete_all u current previous) ≡ []
  unfolding delete_all
  select-delete_all_other t n u current [] h = refl
  select-delete_all_other t n u current ((k, item) ∷ previous) h =
      ground (arith, select-delete_all_other t n u current previous h)
