-- ===== src/Api/Examples.antt =====
-- crates/ocf-api: an engine with one administrator and an authenticator that knows her.
use open_compute_fabric_rs.Prelude.{
  String, ◌≡◌, ◌≢◌, refl, true, false≢true, [], ◌∷◌, some, arith, string_eq, any, filter,
}
use open_compute_fabric_rs.Prelude.Text.{
  Text, split_once, trim, trim_start, trim_end, is_whitespace,
}
use open_compute_fabric_rs.Prelude.Assoc.{lookup, insert}
use open_compute_fabric_rs.Prelude.Sets.{add, extend, contains as has}
use open_compute_fabric_rs.Core.Error.{ok, err, unauthenticated}
use open_compute_fabric_rs.Core.Scope.{fleet, contains, level_ok}
use open_compute_fabric_rs.Core.Registry.{Registry, all_providers}
use open_compute_fabric_rs.Authz.Permission.{Permission, workload_manage, grants}
use open_compute_fabric_rs.Authz.Model.{Subject, subject_applies_to, holds}
use open_compute_fabric_rs.Authz.Engine.{
  RbacEngine, with_defaults, administrator_role, put_role, authorize, is_allowed, candidate_roles,
  effective_groups, role_holds,
}
use open_compute_fabric_rs.Authz.Engine.Decision.{Granted}
use open_compute_fabric_rs.Api.Access.{
  Method, is_write, required_permission, Credentials, Identity, Authenticator, first_identity,
  check_access, credentials_of, parse_authorization, authz_middleware,
}
use open_compute_fabric_rs.Api.Access.Gate.{
  fleet_request, Accepted, Checked, check_access_lem, authz_middleware_guards,
}
use open_compute_fabric_rs.Api.Access.Header.{basic_header, parse_authorization-basic_header}

parse_authorization-basic_header_example :
    parse_authorization (basic_header (b'e' ∷ b'v' ∷ []) (b'p' ∷ b':' ∷ []))
    ≡ some (Credentials.password (b'e' ∷ b'v' ∷ []) (b'p' ∷ b':' ∷ []))
parse_authorization-basic_header_example =
    parse_authorization-basic_header (b'e' ∷ b'v' ∷ []) (b'p' ∷ b':' ∷ [])
      (omega arith, (omega arith, tt)) (omega arith, (omega arith, tt)) (refl, (refl, tt))

abbrev eve : Identity
eve = record { username = "eve"; display_name = ""; email = ""; groups = []; attributes = [] }

-- It accepts every token and no password.
abbrev tokens : Authenticator
tokens (Credentials.password user pass) = err (unauthenticated "no passwords")
tokens (Credentials.token t) = ok eve

abbrev authenticators : Registry Authenticator
authenticators = record { providers = ("tokens", tokens) ∷ [] }

abbrev rbac : RbacEngine
rbac = record (with_defaults 0) {
  bindings =
      (
        "b",
        record { id = "b"; subject = Subject.user "eve"; role = administrator_role; scope = fleet },
      )
      ∷ [];
}

abbrev workloads : String
workloads = "/api/v1/workloads/w1/migrate"

-- "Bearer x"
abbrev header : Text
header = b'B' ∷ b'e' ∷ b'a' ∷ b'r' ∷ b'e' ∷ b'r' ∷ b' ' ∷ b'x' ∷ []

abbrev health : String
health = "/api/v1/health"

check_access_lem_example :
    Checked
      (λ s. "scope")
      authenticators
      rbac
      (some (Credentials.token (b'x' ∷ [])))
      workload_manage
check_access_lem_example =
    check_access_lem (λ s. "scope") authenticators rbac (some (Credentials.token (b'x' ∷ [])))
      workload_manage

post_writes : is_write Method.post ≡ true
unfolding is_write
post_writes = refl

not_health : workloads ≢ health
not_health h = false≢true ((string_eq.beq_iff workloads health).1 h)

passes :
    authz_middleware (λ s. "scope") authenticators rbac Method.post workloads (some header) ≡ ok tt
unfolding authz_middleware required_permission is_write check_access first_identity all_providers
    authorize is_allowed candidate_roles effective_groups role_holds with_defaults put_role insert
    lookup any filter subject_applies_to contains level_ok holds grants extend add has
    parse_authorization split_once trim trim_start trim_end is_whitespace
passes = refl

authz_middleware_guards_example :
    (perm : Permission) × (creds : Credentials) × (identity : Identity) × (required_permission
        Method.post workloads
      ≡ some perm)
    × (credentials_of (some header) ≡ some creds)
    × Accepted (all_providers authenticators) creds identity
    × Granted rbac (fleet_request identity perm)
authz_middleware_guards_example =
    authz_middleware_guards (λ s. "scope") authenticators rbac Method.post workloads (some header)
      post_writes not_health passes
