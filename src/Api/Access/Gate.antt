-- ===== src/Api/Access/Gate.antt =====
-- crates/ocf-api/src/authz.rs: what a request that passes the gate has shown, and how one fails.
use text.Mathlib.Text.{starts_with}
use open_compute_fabric_rs.Prelude.{
  String, ◌≡◌, ◌≢◌, refl, sym, ap, ◌∙◌, ◌⊎◌, ◌↔◌, inl, inr, true, false, List, [], ◌∷◌, Option,
  none, some, arith, string_eq, false≢true, Option-cases, Member, here, there, Member-cons,
}
use open_compute_fabric_rs.Prelude.Text.{Text}
use open_compute_fabric_rs.Core.Error.{Error, Result, ok, err, unauthenticated, forbidden}
use open_compute_fabric_rs.Core.Scope.{Scope, fleet}
use open_compute_fabric_rs.Core.Registry.{Registry, all_providers}
use open_compute_fabric_rs.Authz.Permission.{Permission}
use open_compute_fabric_rs.Authz.Model.{AccessRequest}
use open_compute_fabric_rs.Authz.Engine.{RbacEngine}
use open_compute_fabric_rs.Authz.Engine.Decision.{Granted}
use open_compute_fabric_rs.Authz.Engine.Stores.{authorize_lem}
use open_compute_fabric_rs.Api.Access.{
  Method, is_write, required_permission, Credentials, Identity, Authenticator, first_identity,
  check_access, credentials_of, authz_middleware,
}

-- A request is open exactly when it is for the health path, or is no write and is for neither the
-- access nor the admin paths.
pub required_permission_iff :
    (method : Method) (path : String)
    → (required_permission method path ≡ none) ↔ (
        (path ≡ "/api/v1/health")
        ⊎ ((is_write method ≡ false)
            × (starts_with path "/api/v1/access" ≡ false)
            × (starts_with path "/api/v1/admin" ≡ false)))
unfolding required_permission
required_permission_iff method path = ground (arith, string_eq.beq_iff path "/api/v1/health")

-- The request for a permission that an identity makes of the engine.
abbrev pub fleet_request : Identity → Permission → AccessRequest
fleet_request identity perm = record {
  username = identity.username;
  permission = perm;
  scope = fleet;
}

-- The authenticator, among those registered, that gives the identity for the credentials.
abbrev pub Accepted : List Authenticator → Credentials → Identity → Type 0
Accepted authenticators creds identity =
    (a : Authenticator) × Member a authenticators × (a creds ≡ ok identity)

-- The identity of the first authenticator to accept the credentials: those before it reject them.
pub data First (creds : Credentials) (identity : Identity) : List Authenticator → Type 0 where
  accepts :
      {a : Authenticator} {rest : List Authenticator}
      → a creds ≡ ok identity
      → First creds identity (a ∷ rest)
  rejects :
      {a : Authenticator} {rest : List Authenticator} (e : Error)
      → a creds ≡ err e
      → First creds identity rest
      → First creds identity (a ∷ rest)

-- Every registered authenticator rejects the credentials.
abbrev pub Rejected : List Authenticator → Credentials → Type 0
Rejected authenticators creds =
    (a : Authenticator) → Member a authenticators → (e : Error) × (a creds ≡ err e)

Accepted-of_First :
    {creds : Credentials} {identity : Identity} {authenticators : List Authenticator}
    → First creds identity authenticators
    → Accepted authenticators creds identity
Accepted-of_First (accepts {a} h) = (a, here refl, h)
Accepted-of_First (rejects e h later) = let t = Accepted-of_First later in (t.0, there t.1, t.2)

answer : (r : Result Identity) → ((id : Identity) × (r ≡ ok id)) ⊎ ((e : Error) × (r ≡ err e))
answer (ok id) = inl (id, refl)
answer (err e) = inr (e, refl)

first_identity-First :
    (authenticators : List Authenticator) (creds : Credentials) {identity : Identity}
    → first_identity authenticators creds ≡ some identity
    → First creds identity authenticators
unfolding first_identity
first_identity-First [] creds h = absurd (cc)
first_identity-First (a ∷ rest) creds {identity} h = elim (answer (a creds)) [
  | inl (id, e) ↦ let q : id ≡ identity = cc (rw (e, first_identity) at h) in accepts (e ∙ ap ok q)
  | inr (e, q) ↦ rejects e q (first_identity-First rest creds (rw (q, first_identity) at h))
]

first_identity-Rejected :
    (authenticators : List Authenticator) (creds : Credentials)
    → first_identity authenticators creds ≡ none
    → Rejected authenticators creds
unfolding first_identity
first_identity-Rejected [] creds h a m = elim m [ ]
first_identity-Rejected (a ∷ rest) creds h b m = elim (answer (a creds)) [
  | inl (id, e) ↦ absurd (cc (rw (e, first_identity) at h))
  | inr (e, q) ↦ elim (Member-cons m) [
    | inl same ↦ (e, ap (λ (x : Authenticator). x creds) same ∙ q)
    | inr later ↦ first_identity-Rejected rest creds (rw (q, first_identity) at h) b later
  ]
]

-- The outcomes of a check: granted, denied, or not authenticated.
abbrev pub Checked :
    (shown : Scope → String)
    → Registry Authenticator
    → RbacEngine
    → Option Credentials
    → Permission
    → Type 0
Checked shown authenticators rbac presented perm =
    ((creds : Credentials) × (identity : Identity) × (presented ≡ some creds)
      × First creds identity (all_providers authenticators)
      × Granted rbac (fleet_request identity perm)
      × (check_access shown authenticators rbac presented perm ≡ ok tt))
    ⊎ ((creds : Credentials) × (identity : Identity) × (presented ≡ some creds)
        × First creds identity (all_providers authenticators)
        × (¬ (Granted rbac (fleet_request identity perm)))
        × ((message : String) × (check_access shown authenticators rbac presented perm
              ≡ err (forbidden message))))
    ⊎ (((presented ≡ none)
          ⊎ ((creds : Credentials) × (presented ≡ some creds)
              × Rejected (all_providers authenticators) creds))
        × ((message : String) × (check_access shown authenticators rbac presented perm
              ≡ err (unauthenticated message))))

-- A check succeeds exactly when credentials are presented, a registered authenticator accepts them,
-- and the engine grants the permission over the whole fleet to the identity that the first one to
-- accept them gives. It fails with `Unauthenticated` without credentials or where all authenticators
-- reject them, and with `Forbidden` where the engine does not grant the permission.
pub check_access_lem :
    (shown : Scope → String) (authenticators : Registry Authenticator) (rbac : RbacEngine)
    (presented : Option Credentials) (perm : Permission)
    → Checked shown authenticators rbac presented perm
unfolding check_access
check_access_lem shown authenticators rbac none perm =
    inr (inr (inl refl, ("authentication required", refl)))
check_access_lem shown authenticators rbac (some creds) perm =
    elim (Option-cases (first_identity (all_providers authenticators) creds)) [
      | inl rejected ↦ inr (
          inr (
            inr (
              creds,
              refl,
              first_identity-Rejected (all_providers authenticators) creds rejected,
            ),
            ("invalid credentials", rw rejected),
          ))
      | inr (identity, accepted) ↦ elim (authorize_lem shown rbac (fleet_request identity perm)) [
        | inl g ↦ inl (
          creds,
          identity,
          refl,
          first_identity-First (all_providers authenticators) creds accepted,
          g.0,
          rw accepted g.1,
        )
        | inr d ↦ inr (
            inl (
              creds,
              identity,
              refl,
              first_identity-First (all_providers authenticators) creds accepted,
              d.0,
              (d.1.0, rw accepted d.1.1),
            ))
      ]
    ]

-- A write that passes the gate, on any path but that of the health check, carries credentials that
-- a registered authenticator accepts, for an identity to which the engine grants the permission
-- that the request requires, over the whole fleet.
pub authz_middleware_guards :
    (shown : Scope → String) (authenticators : Registry Authenticator) (rbac : RbacEngine)
    (method : Method) (path : String) (header : Option Text)
    → is_write method ≡ true
    → path ≢ "/api/v1/health"
    → authz_middleware shown authenticators rbac method path header ≡ ok tt
    → (perm : Permission) × (creds : Credentials) × (identity : Identity) × (required_permission
          method path
        ≡ some perm)
      × (credentials_of header ≡ some creds)
      × Accepted (all_providers authenticators) creds identity
      × Granted rbac (fleet_request identity perm)
unfolding authz_middleware
authz_middleware_guards shown authenticators rbac method path header w other passed =
    elim (Option-cases (required_permission method path)) [
      | inl open_path ↦ elim ((required_permission_iff method path).0 open_path) [
        | inl health ↦ absurd (other health)
        | inr t ↦ absurd (false≢true (sym t.0 ∙ w))
      ]
      | inr (perm, needed) ↦
          elim (check_access_lem shown authenticators rbac (credentials_of header) perm) [
            | inl t ↦ (perm, t.0, t.1, needed, t.2, Accepted-of_First t.3, t.4)
            | inr (inl t) ↦ absurd (cc (sym (rw (needed, authz_middleware) at passed) ∙ t.5.1))
            | inr (inr t) ↦ absurd (cc (sym (rw (needed, authz_middleware) at passed) ∙ t.1.1))
          ]
    ]
