-- ===== src/Releases/Differences.antt =====
-- The actions of a plan are the differences of two runtime specifications.
use xyn_seed.Base.{
  String, true, false, some, List, [], ◌∷◌, ◌++◌, ◌≡◌, refl, arith, ◌==◌, string_eq, Comparable,
  select, select-append, All, eq_iff, Bool-cases, inl, inr, ◌∙◌,
}
use mathlib.Core.List.{append-nil}
use xyn_seed.Base.Dict.{get}
use xyn_seed.Base.Selections.{select-sort}
use xyn_seed.Base.Text.{text_le}
use xyn_seed.Base.TextOrder.{text_le-IsOrder}
use xyn_seed.Releases.Plans.{
  Runtime, Action, index_by_name, delete_all, action_precedes, change_all, diff_type, Target,
  deployment, service, volume, network, route, targets, type_name, items_of, type_actions,
  all_actions, diff_actions,
}
use xyn_seed.Releases.Indexes.{index_by_name-Distinct}
use xyn_seed.Releases.Changes.{
  is_about, difference, change-deletion, select-change_all, select-delete_all,
  select-change_all_other, select-delete_all_other,
}

text_le_refl : (s : String) → text_le s s ≡ true
text_le_refl s = elim (Bool-cases (text_le s s)) [ inl e ↦ e | inr e ↦ text_le-IsOrder.total s s e ]

module _ {ℓ} {A : Type ℓ} ⦃e : Comparable A⦄ (name : A → String) where
  select-diff_type :
      (t n : String) (previous current : List A)
      → select (is_about t n) (diff_type name t previous current)
        ≡ difference t n (get (index_by_name name previous) n) (get (index_by_name name current) n)
  unfolding diff_type
  select-diff_type t n previous current =
      let old = index_by_name name previous in
      let new = index_by_name name current in
      select-append (is_about t n) (change_all t old new) (delete_all t new old)
      ∙ rw
          (
            select-change_all t n old new (index_by_name-Distinct name current),
            select-delete_all t n new old (index_by_name-Distinct name previous),
          )
          (change-deletion t n (get old n) (get new n))

  select-diff_type_other :
      (t n u : String) (previous current : List A)
      → (u == t) ≡ false
      → select (is_about t n) (diff_type name u previous current) ≡ []
  unfolding diff_type
  select-diff_type_other t n u previous current h =
      let old = index_by_name name previous in
      let new = index_by_name name current in
      select-append (is_about t n) (change_all u old new) (delete_all u new old)
      ∙ rw (select-change_all_other t n u old new h, select-delete_all_other t n u new old h)

  action_precedes-alike :
      (t n : String) (a b : Action A)
      → is_about t n a ≡ true
      → is_about t n b ≡ true
      → action_precedes a b ≡ true
  action_precedes-alike t n a b p q = ground (
    arith,
    eq_iff a.target_type t,
    eq_iff b.target_type t,
    eq_iff a.target_name n,
    eq_iff b.target_name n,
    eq_iff t t,
    text_le_refl n,
  )

  select-all_actions_other :
      (target : Target) (n : String) (previous current : Runtime A) (ks : List Target)
      → All (λ k. (type_name k == type_name target) ≡ false) ks
      → select (is_about (type_name target) n) (all_actions name ks (some previous) current) ≡ []
  unfolding all_actions type_actions
  select-all_actions_other target n previous current [] h = refl
  select-all_actions_other target n previous current (k ∷ ks) h =
      let p = is_about (type_name target) n in
      select-append p (diff_type name (type_name k) (items_of k previous) (items_of k current))
        (all_actions name ks (some previous) current)
      ∙ rw (
        select-diff_type_other (type_name target) n (type_name k) (items_of k previous)
            (items_of k current) h.0,
        select-all_actions_other target n previous current ks h.1,
      )

  -- The place of a type in the loop.
  select-all_actions :
      (target : Target) (n : String) (previous current : Runtime A) (before after : List Target)
      → All (λ k. (type_name k == type_name target) ≡ false) before
      → All (λ k. (type_name k == type_name target) ≡ false) after
      → select
          (is_about (type_name target) n)
          (all_actions name (before ++ target ∷ after) (some previous) current)
        ≡ difference
            (type_name target)
            n
            (get (index_by_name name (items_of target previous)) n)
            (get (index_by_name name (items_of target current)) n)
  unfolding all_actions type_actions
  select-all_actions target n previous current [] after h i =
      let p = is_about (type_name target) n in
      select-append p
        (diff_type name (type_name target) (items_of target previous) (items_of target current))
        (all_actions name after (some previous) current)
      ∙ rw
          (
            select-diff_type (type_name target) n (items_of target previous)
                (items_of target current),
            select-all_actions_other target n previous current after i,
          )
          (append-nil _)
  select-all_actions target n previous current (k ∷ before) after h i =
      let p = is_about (type_name target) n in
      select-append p (diff_type name (type_name k) (items_of k previous) (items_of k current))
        (all_actions name (before ++ target ∷ after) (some previous) current)
      ∙ rw
          (select-diff_type_other (type_name target) n (type_name k) (items_of k previous)
            (items_of k current) h.0)
          (select-all_actions target n previous current before after h.1 i)

  all_actions-exact :
      (target : Target) (n : String) (previous current : Runtime A)
      → select (is_about (type_name target) n) (all_actions name targets (some previous) current)
        ≡ difference
            (type_name target)
            n
            (get (index_by_name name (items_of target previous)) n)
            (get (index_by_name name (items_of target current)) n)
  all_actions-exact deployment n previous current =
      select-all_actions deployment n previous current [] (service ∷ volume ∷ network ∷ route ∷ [])
        tt (refl, (refl, (refl, (refl, tt))))
  all_actions-exact service n previous current =
      select-all_actions service n previous current (deployment ∷ [])
        (volume ∷ network ∷ route ∷ []) (refl, tt) (refl, (refl, (refl, tt)))
  all_actions-exact volume n previous current =
      select-all_actions volume n previous current (deployment ∷ service ∷ [])
        (network ∷ route ∷ []) (refl, (refl, tt)) (refl, (refl, tt))
  all_actions-exact network n previous current =
      select-all_actions network n previous current (deployment ∷ service ∷ volume ∷ [])
        (route ∷ []) (refl, (refl, (refl, tt))) (refl, tt)
  all_actions-exact route n previous current =
      select-all_actions route n previous current (deployment ∷ service ∷ volume ∷ network ∷ []) []
        (refl, (refl, (refl, (refl, tt)))) tt

  -- The actions of a plan on the item of a type and a name are what the items of that type and
  -- name in the previous and in the current specification ask for, of items that share a name the
  -- last ones: one creation where only the current specification has one, one deletion where only
  -- the previous has one, one update with both where they differ, and no action otherwise. The
  -- plan has a previous specification.
  pub diff_actions-exact :
      (target : Target) (n : String) (previous current : Runtime A)
      → select (is_about (type_name target) n) (diff_actions name (some previous) current)
        ≡ difference
            (type_name target)
            n
            (get (index_by_name name (items_of target previous)) n)
            (get (index_by_name name (items_of target current)) n)
  unfolding diff_actions
  diff_actions-exact target n previous current =
      select-sort action_precedes (is_about (type_name target) n)
        (action_precedes-alike (type_name target) n)
        (all_actions name targets (some previous) current)
      ∙ all_actions-exact target n previous current
