-- ===== src/Api/Access.antt =====
-- crates/ocf-api/src/authz.rs: which permission a request needs, who sends it, and whether it passes.
-- The `Authorization` header is its text; an authenticator is the function that it computes.
pub mod Gate
pub mod Header
use text.Mathlib.Text.{starts_with}
use open_compute_fabric_rs.Prelude.{
  ℕ, ◌+◌, String, Bool, true, false, ◌&&◌, ◌||◌, not, List, [], ◌∷◌, Option, none, some, map,
  nat_beq, leb, string_eq, if◌then◌else◌,
}
use open_compute_fabric_rs.Prelude.Assoc.{Assoc}
use open_compute_fabric_rs.Prelude.Text.{Text, trim, split_once}
use open_compute_fabric_rs.Prelude.Utf8.{from_utf8}
use open_compute_fabric_rs.Core.Error.{Result, ok, err, unauthenticated, ok_or, ◌>>=◌}
use open_compute_fabric_rs.Core.Scope.{Scope, fleet}
use open_compute_fabric_rs.Core.Registry.{Registry, all_providers}
use open_compute_fabric_rs.Authz.Permission.{
  Permission, workload_manage, vpc_manage, lb_manage, sys_read, sys_modify,
}
use open_compute_fabric_rs.Authz.Engine.{RbacEngine, authorize}
use open_compute_fabric_rs.Api.Base64.{base64_decode}

-- The methods that the code tells apart.
pub data Method : Type 0 where
  get post put patch delete other : Method

unfoldable pub is_write : Method → Bool
is_write Method.get = false
is_write Method.post = true
is_write Method.put = true
is_write Method.patch = true
is_write Method.delete = true
is_write Method.other = false

unfoldable pub required_permission : Method → String → Option Permission
required_permission method path =
    if string_eq.beq path "/api/v1/health"
    then none
    else if starts_with path "/api/v1/access"
    then some (if is_write method then sys_modify else sys_read)
    else if starts_with path "/api/v1/admin"
    then some sys_modify
    else if not (is_write method)
    then none
    else if starts_with path "/api/v1/workloads"
    then some workload_manage
    else if starts_with path "/api/v1/networks"
    then some vpc_manage
    else if starts_with path "/api/v1/loadbalancers"
    then some lb_manage
    else some sys_modify

pub data Credentials : Type 0 where
  password : (username secret : Text) → Credentials
  token : Text → Credentials

pub record Identity : Type 0 where
  pub username : String
  pub display_name : String
  pub email : String
  pub groups : List String
  pub attributes : Assoc String String

abbrev pub Authenticator : Type 0
Authenticator = Credentials → Result Identity

-- `to_ascii_lowercase`
abbrev pub lower : Text → Text
lower s = map (λ c. if leb b'A' c && leb c b'Z' then c + 32 else c) s

texts_equal : Text → Text → Bool
texts_equal [] [] = true
texts_equal (c ∷ cs) (d ∷ ds) = nat_beq c d && texts_equal cs ds
texts_equal _ _ = false

-- "basic"
abbrev pub basic : Text
basic = b'b' ∷ b'a' ∷ b's' ∷ b'i' ∷ b'c' ∷ []

-- "bearer"
abbrev pub bearer : Text
bearer = b'b' ∷ b'e' ∷ b'a' ∷ b'r' ∷ b'e' ∷ b'r' ∷ []

-- `user:pass`, split at the first colon.
basic_text : Text → Option Credentials
basic_text text = elim (split_once b':' text) [
  | none ↦ none
  | some (user, pass) ↦ some (Credentials.password user pass)
]

basic_bytes : Option (List ℕ) → Option Credentials
unfolding basic_text
basic_bytes none = none
basic_bytes (some decoded) = elim (from_utf8 decoded) [ none ↦ none | some text ↦ basic_text text ]

by_scheme : Text × Text → Option Credentials
unfolding texts_equal basic_bytes
by_scheme (scheme, rest) =
    if texts_equal (lower scheme) basic
    then basic_bytes (base64_decode (trim rest))
    else if texts_equal (lower scheme) bearer
    then some (Credentials.token (trim rest))
    else none

unfoldable pub parse_authorization : Text → Option Credentials
unfolding by_scheme
parse_authorization header = elim (split_once b' ' header) [
  | none ↦ none
  | some parts ↦ by_scheme parts
]

-- The identity that the first authenticator to accept the credentials gives.
unfoldable pub first_identity : List Authenticator → Credentials → Option Identity
first_identity [] creds = none
first_identity (a ∷ rest) creds =
    let later = first_identity rest creds in elim (a creds) [ ok id ↦ some id | err e ↦ later ]

unfoldable pub check_access :
    (shown : Scope → String)
    → Registry Authenticator
    → RbacEngine
    → Option Credentials
    → Permission
    → Result (Unit {0})
check_access shown authenticators rbac presented perm = do
  creds ← ok_or presented (unauthenticated "authentication required")
  identity ←
      ok_or (first_identity (all_providers authenticators) creds)
        (unauthenticated "invalid credentials")
  authorize shown rbac (record { username = identity.username; permission = perm; scope = fleet })

pub credentials_of : Option Text → Option Credentials
credentials_of none = none
credentials_of (some header) = parse_authorization header

-- The gate of the middleware: `ok` where the request goes on to its handler.
unfoldable pub authz_middleware :
    (shown : Scope → String)
    → Registry Authenticator
    → RbacEngine
    → Method
    → String
    → Option Text
    → Result (Unit {0})
unfolding credentials_of
authz_middleware shown authenticators rbac method path header =
    elim (required_permission method path) [
      | none ↦ ok tt
      | some perm ↦ check_access shown authenticators rbac (credentials_of header) perm
    ]
