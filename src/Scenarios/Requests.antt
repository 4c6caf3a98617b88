-- ===== src/Scenarios/Requests.antt =====
-- A request with a role and a scope.
use xyn_seed.Base.{if◌then◌else◌, all, true, none, some, [], ◌∷◌, ◌≡◌, refl, ok, err}
use xyn_seed.Access.{
  effective_roles, filled_capabilities, AccessEnv, Headers, access_denied, principal_from_request,
  principal_with, require_capabilities, header_capabilities,
}
use xyn_seed.Access.Grants.{require_capabilities-grants, grants}
use xyn_seed.Access.Roles.{cap_campaigns_manage}
use xyn_seed.Base.Text.{strip}

abbrev access_env : AccessEnv
access_env = record { auth_mode = "token"; parse_uuid = λ s. some 9 }

abbrev analyst : Headers
analyst = record {
  x_user_id = "ann";
  x_roles = "Read-Only-Analyst, ";
  x_capabilities = "";
  x_access_workspace_id = "ws-9";
  x_application_slug = "";
}

require_capabilities-grants_example :
    require_capabilities access_env (cap_campaigns_manage ∷ []) true none analyst ≡ (
      if all
        (grants (effective_roles access_env analyst) (header_capabilities analyst))
        (filled_capabilities (cap_campaigns_manage ∷ []))
      then ok (principal_with access_env analyst (some 9))
      else err access_denied)
unfolding principal_from_request strip
require_capabilities-grants_example =
    require_capabilities-grants access_env (cap_campaigns_manage ∷ []) analyst
      (principal_with access_env analyst (some 9)) refl
