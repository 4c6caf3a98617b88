-- ===== src/Access/Grants.antt =====
-- Which capabilities a request has, and which routes it may call.
use xyn_seed.Base.{
  ℕ, String, Bool, true, not, Option, none, some, List, [], ◌∷◌, ◌++◌, ◌≡◌, ◌≢◌, refl, arith, ◌==◌,
  ◌||◌, string_eq, if◌then◌else◌, any, all, ok, err, eq_iff, Bool-cases, inl, inr, ◌∙◌, ap,
}
use xyn_seed.Base.Sort.{sort, insert}
use xyn_seed.Base.Text.{text_le}
use xyn_seed.Access.{
  contains, unique, sorted_set, role_capabilities, capabilities_of_roles, filled_capabilities,
  resolve_effective_capabilities, AccessEnv, Headers, AccessPrincipal, access_denied,
  effective_roles, header_capabilities, principal_from_request, assert_access, missing_capability,
  require_capabilities,
}

contains-append :
    (xs ys : List String) (c : String) → contains (xs ++ ys) c ≡ (contains xs c || contains ys c)
contains-append [] ys c = refl
contains-append (x ∷ xs) ys c = ground (arith, contains-append xs ys c)

contains-unique : (xs : List String) (c : String) → contains (unique xs) c ≡ contains xs c
unfolding unique
contains-unique [] c = refl
contains-unique (x ∷ xs) c = elim (Bool-cases (contains xs x)) [
  | inl old ↦ elim (Bool-cases (x == c)) [
    | inl same ↦
        let here : contains xs c ≡ true = rw ((eq_iff x c).0 same) at old in
        ground (arith, contains-unique xs c, here)
    | inr other ↦ ground (arith, contains-unique xs c)
  ]
  | inr new ↦ ground (arith, contains-unique xs c)
]

contains-insert :
    (x : String) (xs : List String) (c : String)
    → contains (insert text_le x xs) c ≡ ((x == c) || contains xs c)
unfolding insert
contains-insert x [] c = refl
contains-insert x (y ∷ ys) c = elim (Bool-cases (text_le x y)) [
  | inl t ↦ rw t
  | inr t ↦ rw t (ground (arith, contains-insert x ys c))
]

contains-sort : (xs : List String) (c : String) → contains (sort text_le xs) c ≡ contains xs c
unfolding sort
contains-sort [] c = refl
contains-sort (x ∷ xs) c =
    contains-insert x (sort text_le xs) c ∙ ap (λ b. (x == c) || b) (contains-sort xs c)

contains-capabilities_of_roles :
    (roles : List String) (c : String)
    → contains (capabilities_of_roles roles) c
      ≡ any (λ role. contains (role_capabilities role) c) roles
unfolding capabilities_of_roles
contains-capabilities_of_roles [] c = refl
contains-capabilities_of_roles (role ∷ roles) c =
    contains-append (role_capabilities role) (capabilities_of_roles roles) c
    ∙ ap (λ b. contains (role_capabilities role) c || b) (contains-capabilities_of_roles roles c)

-- A capability is granted by a role or directly.
abbrev pub grants : List String → List String → String → Bool
grants roles direct_capabilities c =
    any (λ role. contains (role_capabilities role) c) roles
    || contains (filled_capabilities direct_capabilities) c

contains-resolve_effective_capabilities :
    (roles direct_capabilities : List String) (c : String)
    → contains (resolve_effective_capabilities roles direct_capabilities) c
      ≡ grants roles direct_capabilities c
unfolding resolve_effective_capabilities sorted_set
contains-resolve_effective_capabilities roles direct_capabilities c =
    let all_of = capabilities_of_roles roles ++ filled_capabilities direct_capabilities in
    contains-sort (unique all_of) c
    ∙ contains-unique all_of c
    ∙ contains-append (capabilities_of_roles roles) (filled_capabilities direct_capabilities) c
    ∙ ap (λ b. b || contains (filled_capabilities direct_capabilities) c)
        (contains-capabilities_of_roles roles c)

all_same :
    (p q : String → Bool) → ((c : String) → p c ≡ q c) → (cs : List String) → all p cs ≡ all q cs
all_same p q h [] = refl
all_same p q h (c ∷ cs) = ground (arith, h c, all_same p q h cs)

capabilities_of_request :
    (env : AccessEnv) (h : Headers) (p : AccessPrincipal)
    → principal_from_request env h ≡ ok p
    → (p.capabilities
        ≡ resolve_effective_capabilities (effective_roles env h) (header_capabilities h))
unfolding principal_from_request
capabilities_of_request env h p made = ground arith

missing-all :
    (required capabilities : List String)
    → missing_capability true required capabilities ≡ not (all (contains capabilities) required)
unfolding missing_capability
missing-all [] capabilities = refl
missing-all (c ∷ cs) capabilities = refl

-- A request whose principal can be read may call a route that is not bound to an application
-- exactly if each capability that the route requires is one that a role of the request grants, or
-- that its header of capabilities names; otherwise it is refused.
pub require_capabilities-grants :
    (env : AccessEnv) (required : List String) (h : Headers) (p : AccessPrincipal)
    → principal_from_request env h ≡ ok p
    → require_capabilities env required true none h ≡ (
        if all
          (grants (effective_roles env h) (header_capabilities h))
          (filled_capabilities required)
        then ok p
        else err access_denied)
unfolding require_capabilities assert_access
require_capabilities-grants env required h p made =
    let same =
      all_same (contains p.capabilities) (grants (effective_roles env h) (header_capabilities h))
        (λ c.
          ap (λ cs. contains cs c) (capabilities_of_request env h p made)
          ∙ contains-resolve_effective_capabilities (effective_roles env h) (header_capabilities h)
              c)
        (filled_capabilities required) in
    ground (arith, made, same, missing-all (filled_capabilities required) p.capabilities)

-- A principal with a workspace scope is refused in every other workspace, whatever its
-- capabilities are, and whatever else is asked.
pub other_workspace_refused :
    (p : AccessPrincipal) (required : List String) (w scope : ℕ) (application : Option String)
    (require_all : Bool)
    → p.workspace_scope_id ≡ some scope
    → scope ≢ w
    → assert_access p required (some w) application require_all ≡ err access_denied
unfolding assert_access
other_workspace_refused p required w scope application require_all scoped other = ground arith
