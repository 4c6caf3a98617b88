-- ===== src/Releases/Determinism.antt =====
-- The runtime specification does not depend on the order in which the parts of a release are listed.
use mathlib.Core.List.{Permᴰ}
use xyn_seed.Base.{
  ℕ, String, Bool, Option, List, [], ◌∷◌, ◌≡◌, ◌≢◌, refl, arith, All, map, ◌∙◌, ap, sym,
}
use mathlib.Core.Path.{ap₂, subst}
use xyn_seed.Base.Members.{Distinct}
use xyn_seed.Base.Sort.{sort, insert}
use xyn_seed.Base.Text.{text_le}
use xyn_seed.Base.TextOrder.{text_le-IsOrder, text_le_antisym}
use xyn_seed.Releases.{
  Component, Resource, ReleaseSpec, sorted_by, untyped, image_of, container_of, deployment_of,
  compile_release_to_runtime,
}

module _ {A : Type 0} (name : A → String) where
  before : A → A → Bool
  before a b = text_le (name a) (name b)

  -- Two rows of different names can be put into their places in either order.
  insert-insert :
      (a b : A) (xs : List A)
      → name a ≢ name b
      → insert before a (insert before b xs) ≡ insert before b (insert before a xs)
  unfolding insert before
  insert-insert a b [] apart =
      ground (arith, text_le_antisym (name a) (name b), text_le-IsOrder.total (name a) (name b))
  insert-insert a b (x ∷ xs) apart = ground (
    arith,
    insert-insert a b xs apart,
    text_le_antisym (name a) (name b),
    text_le-IsOrder.total (name a) (name b),
    text_le-IsOrder.trans (name a) (name b) (name x),
    text_le-IsOrder.trans (name b) (name a) (name x),
    text_le-IsOrder.total (name a) (name x),
    text_le-IsOrder.total (name b) (name x),
    text_le-IsOrder.trans (name a) (name x) (name b),
    text_le-IsOrder.trans (name b) (name x) (name a),
  )

  others :
      (k : String) {xs ys : List A}
      → Permᴰ xs ys
      → All (λ j. j ≢ k) (map name xs)
      → All (λ j. j ≢ k) (map name ys)
  others k Permᴰ.nil h = tt
  others k (Permᴰ.cons e p) h = (rw (← ap name e) h.0, others k p h.1)
  others k (Permᴰ.swap e f) h = (rw (← ap name f) h.1.0, (rw (← ap name e) h.0, h.1.1))
  others k (Permᴰ.trans p q) h = others k q (others k p h)

  Distinct-again : {xs ys : List A} → Permᴰ xs ys → Distinct (map name xs) → Distinct (map name ys)
  Distinct-again Permᴰ.nil d = tt
  Distinct-again (Permᴰ.cons {a = a} {l₂ = ys} e p) d = (
    subst (λ k. All (λ j. j ≢ k) (map name ys)) (ap name e) (others (name a) p d.0),
    Distinct-again p d.1,
  )
  Distinct-again (Permᴰ.swap {a = a} {b = b} {b' = b'} {l = l} e f) d =
      let turned : Distinct (map name (b ∷ a ∷ l)) =
        (((λ same. d.0.0 (sym same)), d.1.0), (d.0.1, d.1.1)) in
      subst (λ u. Distinct (map name (u ∷ b' ∷ l))) f
        (subst (λ u. Distinct (map name (b ∷ u ∷ l))) e turned)
  Distinct-again (Permᴰ.trans p q) d = Distinct-again q (Distinct-again p d)

  sort-perm :
      {xs ys : List A} → Permᴰ xs ys → Distinct (map name xs) → sort before xs ≡ sort before ys
  unfolding sort
  sort-perm Permᴰ.nil d = refl
  sort-perm (Permᴰ.cons e p) d = ap₂ (insert before) e (sort-perm p d.1)
  sort-perm (Permᴰ.swap {a = a} {b = b} {l = l} e f) d =
      insert-insert a b (sort before l) (λ same. d.0.0 (sym same))
      ∙ ap₂ (λ u v. insert before u (insert before v (sort before l))) f e
  sort-perm (Permᴰ.trans p q) d = sort-perm p d ∙ sort-perm q (Distinct-again p d)

sorted_by-perm :
    {A : Type 0} (name : A → String) {xs ys : List A}
    → Permᴰ xs ys
    → Distinct (map name xs)
    → sorted_by name xs ≡ sorted_by name ys
unfolding sorted_by before
sorted_by-perm name p d = sort-perm name p d

untyped_perm : {xs ys : List Resource} → Permᴰ xs ys → Permᴰ (map untyped xs) (map untyped ys)
untyped_perm Permᴰ.nil = Permᴰ.nil
untyped_perm (Permᴰ.cons e p) = Permᴰ.cons (ap untyped e) (untyped_perm p)
untyped_perm (Permᴰ.swap e f) = Permᴰ.swap (ap untyped e) (ap untyped f)
untyped_perm (Permᴰ.trans p q) = Permᴰ.trans (untyped_perm p) (untyped_perm q)

untyped_names :
    (xs : List Resource) → map (λ (r : Resource). r.name) (map untyped xs) ≡ map (λ r. r.name) xs
untyped_names [] = refl
untyped_names (x ∷ xs) = ap (λ ns. x.name ∷ ns) (untyped_names xs)

-- A release is compiled to the same runtime specification in whatever order its components, its
-- networks and its volumes are listed, as long as the names in each of the three lists are
-- distinct.
pub compile_release_to_runtime-perm :
    (spec : ReleaseSpec) (components : List Component) (networks volumes : List Resource)
    (revision : ℕ) (release_id : Option String)
    → Distinct (map (λ (c : Component). c.name) spec.components)
    → Distinct (map (λ (r : Resource). r.name) spec.networks)
    → Distinct (map (λ (r : Resource). r.name) spec.volumes)
    → Permᴰ spec.components components
    → Permᴰ spec.networks networks
    → Permᴰ spec.volumes volumes
    → compile_release_to_runtime
        (record spec { components = components; networks = networks; volumes = volumes })
        revision
        release_id
      ≡ compile_release_to_runtime spec revision release_id
unfolding compile_release_to_runtime deployment_of container_of image_of
compile_release_to_runtime-perm spec components networks volumes revision release_id dc dn dv pc pn
      pv =
    let by_name = λ (r : Resource). r.name in
    rw (
      ← sorted_by-perm (λ (c : Component). c.name) pc dc,
      ← sorted_by-perm by_name (untyped_perm pn) (rw (untyped_names spec.networks) dn),
      ← sorted_by-perm by_name (untyped_perm pv) (rw (untyped_names spec.volumes) dv),
    )
