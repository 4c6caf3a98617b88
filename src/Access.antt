-- ===== src/Access.antt =====
-- core/access_control.py: roles, capabilities and scopes. A set is the list of its elements.
pub mod Roles
pub mod Grants
use xyn_seed.Base.{
  ℕ, String, Bool, true, false, not, Option, none, some, List, [], ◌∷◌, ◌++◌, ◌==◌, ◌&&◌, ◌||◌,
  nat_eq, string_eq, if◌then◌else◌, or_else, select, any, all, map, Result, ok, err,
}
use Prim.Native.Char.{Char, char, code}
use Prim.Native.String.{◌∷◌ as ◌▸◌, [] as empty}
use xyn_seed.Base.Dict.{Dict, get}
use xyn_seed.Base.Sort.{sort}
use xyn_seed.Base.Text.{strip, lower, text_le}
use xyn_seed.Access.Roles.{role_capability_map, application_admin}

abbrev pub contains : List String → String → Bool
contains xs c = any (λ x. x == c) xs

-- `sorted(set(xs))`.
unfoldable pub unique : List String → List String
unique [] = []
unique (x ∷ xs) = let rest = unique xs in if contains xs x then rest else x ∷ rest

unfoldable pub sorted_set : List String → List String
sorted_set xs = sort text_le (unique xs)

-- `value.replace("-", "_")`.
underscored : String → String
underscored empty = empty
underscored (c ▸ s) = (if code c == b'-' then char 95 tt else c) ▸ underscored s

unfoldable pub normalize_role_slug : String → String
unfolding underscored
normalize_role_slug value = underscored (lower (strip value))

unfoldable pub normalize_capability_slug : String → String
normalize_capability_slug value = lower (strip value)

-- `value.split(",")`: the text up to the first comma, and the texts after it.
split_comma : String → String × List String
split_comma empty = (empty, [])
split_comma (c ▸ s) =
    let (first, rest) = split_comma s in
    if code c == b',' then (empty, first ∷ rest) else (c ▸ first, rest)

abbrev pub is_filled : String → Bool
is_filled s = not (s == "")

unfoldable pub parse_csv_header : String → List String
unfolding split_comma
parse_csv_header value =
    if value == ""
    then []
    else (let (first, rest) = split_comma value in select is_filled (map strip (first ∷ rest)))

abbrev pub role_capabilities : String → List String
role_capabilities role = or_else (get role_capability_map (normalize_role_slug role)) []

-- `effective.update(...)` for every role.
unfoldable pub capabilities_of_roles : List String → List String
capabilities_of_roles [] = []
capabilities_of_roles (role ∷ roles) = role_capabilities role ++ capabilities_of_roles roles

abbrev pub filled_capabilities : List String → List String
filled_capabilities cs = select is_filled (map normalize_capability_slug cs)

unfoldable pub resolve_effective_capabilities : List String → List String → List String
resolve_effective_capabilities roles direct_capabilities =
    sorted_set (capabilities_of_roles roles ++ filled_capabilities direct_capabilities)

-- The variable `XYN_AUTH_MODE`, "dev" where it is not set or empty, and how `uuid.UUID` reads a text.
pub record AccessEnv : Type 0 where
  pub auth_mode : String
  pub parse_uuid : String → Option ℕ

unfoldable pub dev_default_roles : AccessEnv → List String
dev_default_roles env =
    let mode = lower (strip (if env.auth_mode == "" then "dev" else env.auth_mode)) in
    if mode == "dev" || mode == "simple" || mode == "local" then application_admin ∷ [] else []

pub record AccessPrincipal : Type 0 where
  pub subject_id : String
  pub roles : List String
  pub capabilities : List String
  pub workspace_scope_id : Option ℕ
  pub application_scope : Option String

-- The headers of a request; one that is missing is the empty text.
pub record Headers : Type 0 where
  pub x_user_id : String
  pub x_roles : String
  pub x_capabilities : String
  pub x_access_workspace_id : String
  pub x_application_slug : String

pub data AccessError : Type 0 where
  access_denied invalid_workspace_header : AccessError

unfoldable pub header_roles : Headers → List String
header_roles h =
    sorted_set (select is_filled (map normalize_role_slug (parse_csv_header h.x_roles)))

abbrev pub effective_roles : AccessEnv → Headers → List String
effective_roles env h = elim (header_roles h) [ [] ↦ dev_default_roles env | r ∷ rs ↦ r ∷ rs ]

abbrev anonymous_if_empty : String → String
anonymous_if_empty s = if s == "" then "anonymous" else s

-- A development default takes the name of the anonymous user away.
abbrev subject_of : AccessEnv → Headers → String
subject_of env h =
    let subject = anonymous_if_empty (strip h.x_user_id) in
    elim (header_roles h) [
      | r ∷ rs ↦ subject
      | [] ↦ elim (dev_default_roles env) [
        | [] ↦ subject
        | r ∷ rs ↦ if subject == "anonymous" then "dev-user" else subject
      ]
    ]

abbrev none_if_empty : String → Option String
none_if_empty s = if s == "" then none else some s

unfoldable pub header_capabilities : Headers → List String
header_capabilities h = sorted_set (filled_capabilities (parse_csv_header h.x_capabilities))

abbrev pub principal_with : AccessEnv → Headers → Option ℕ → AccessPrincipal
principal_with env h scope = record {
  subject_id = subject_of env h;
  roles = effective_roles env h;
  capabilities = resolve_effective_capabilities (effective_roles env h) (header_capabilities h);
  workspace_scope_id = scope;
  application_scope = none_if_empty (lower (strip h.x_application_slug));
}

unfoldable pub principal_from_request : AccessEnv → Headers → Result AccessError AccessPrincipal
principal_from_request env h =
    let scope_header = strip h.x_access_workspace_id in
    if scope_header == ""
    then ok (principal_with env h none)
    else elim (env.parse_uuid scope_header) [
      | none ↦ err invalid_workspace_header
      | some id ↦ ok (principal_with env h (some id))
    ]

abbrev other_workspace : Option ℕ → Option ℕ → Bool
other_workspace none scope = false
other_workspace (some w) none = false
other_workspace (some w) (some scope) = not (scope == w)

abbrev other_application : Option String → Option String → Bool
other_application none scope = false
other_application (some a) none = false
other_application (some a) (some scope) = not (scope == a)

abbrev normalized_application : Option String → Option String
normalized_application none = none
normalized_application (some a) = none_if_empty (lower (strip a))

abbrev pub has_capabilities : Bool → List String → List String → Bool
has_capabilities require_all required capabilities =
    if require_all
    then all (contains capabilities) required
    else any (contains capabilities) required

-- `if required: ... if not allowed: raise`.
unfoldable pub missing_capability : Bool → List String → List String → Bool
missing_capability require_all [] capabilities = false
missing_capability require_all (c ∷ cs) capabilities =
    not (has_capabilities require_all (c ∷ cs) capabilities)

-- An application scope that is the empty text is false, and does not occur.
unfoldable pub assert_access :
    AccessPrincipal → List String → Option ℕ → Option String → Bool → Result AccessError (Unit {0})
unfolding missing_capability
assert_access principal required_capabilities workspace_id application_slug require_all =
    if missing_capability require_all (filled_capabilities required_capabilities)
      principal.capabilities
    then err access_denied
    else if other_workspace workspace_id principal.workspace_scope_id
    then err access_denied
    else if other_application (normalized_application application_slug) principal.application_scope
    then err access_denied
    else ok tt

-- The dependency of a route: the principal of the request, if it may call the route.
unfoldable pub require_capabilities :
    AccessEnv → List String → Bool → Option String → Headers → Result AccessError AccessPrincipal
require_capabilities env required_capabilities require_all application_slug h =
    elim (principal_from_request env h) [
      | err e ↦ err e
      | ok p ↦ elim (assert_access p required_capabilities none application_slug require_all) [
        | err e ↦ err e
        | ok _ ↦ ok p
      ]
    ]
