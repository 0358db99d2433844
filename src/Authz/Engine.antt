-- ===== src/Authz/Engine.antt =====
-- crates/ocf-authz/src/engine.rs: the in-memory RBAC engine. The four locked maps are the fields of
-- the state; a method that takes a write lock returns the new state.
pub mod Groups
pub mod Decision
pub mod Stores
pub mod Defaults
use open_compute_fabric_rs.Prelude.{
  String, Bool, true, false, List, [], ◌∷◌, Option, none, some, map, any, filter, string_eq,
  if◌then◌else◌,
}
use open_compute_fabric_rs.Prelude.Assoc.{Assoc, lookup, insert, remove, contains_key, values}
use open_compute_fabric_rs.Prelude.Sets.{add, extend}
use open_compute_fabric_rs.Core.Error.{Result, ok, err, not_found, forbidden, ok_or, concat}
use open_compute_fabric_rs.Core.Scope.{ResourceId, Scope, contains}
use open_compute_fabric_rs.Core.Metadata.{Time}
use open_compute_fabric_rs.Authz.Permission.{Permission, wildcard, read_only_permissions}
use open_compute_fabric_rs.Authz.Model.{
  Role, Group, User, RoleBinding, AccessRequest, applies_to, with_permissions, holds,
  contains_member,
}

abbrev pub administrator_role : String
administrator_role = "Administrator"

abbrev pub auditor_role : String
auditor_role = "Auditor"

pub record RbacEngine : Type 0 where
  pub roles : Assoc String Role
  pub groups : Assoc String Group
  pub users : Assoc String User
  pub bindings : Assoc ResourceId RoleBinding

abbrev pub new : RbacEngine
new = record { roles = []; groups = []; users = []; bindings = [] }

unfoldable pub put_role : RbacEngine → Role → RbacEngine
put_role e role = record e { roles = insert role.metadata.name role e.roles }

unfoldable pub get_role : RbacEngine → String → Result Role
get_role e name = ok_or (lookup name e.roles) (not_found (concat "role " name))

unfoldable pub list_roles : RbacEngine → List Role
list_roles e = values e.roles

unfoldable pub put_group : RbacEngine → Group → RbacEngine
put_group e group = record e { groups = insert group.metadata.name group e.groups }

unfoldable pub get_group : RbacEngine → String → Result Group
get_group e name = ok_or (lookup name e.groups) (not_found (concat "group " name))

unfoldable pub list_groups : RbacEngine → List Group
list_groups e = values e.groups

unfoldable pub put_user : RbacEngine → User → RbacEngine
put_user e user = record e { users = insert user.username user e.users }

unfoldable pub get_user : RbacEngine → String → Result User
get_user e username = ok_or (lookup username e.users) (not_found (concat "user " username))

unfoldable pub list_users : RbacEngine → List User
list_users e = values e.users

unfoldable pub add_binding : RbacEngine → RoleBinding → RbacEngine × ResourceId
add_binding e binding = (record e { bindings = insert binding.id binding e.bindings }, binding.id)

unfoldable pub remove_binding : RbacEngine → ResourceId → RbacEngine × Result (Unit {0})
remove_binding e id = (
  record e { bindings = remove id e.bindings },
  if contains_key id e.bindings then ok tt else err (not_found (concat "binding " id)),
)

unfoldable pub list_bindings : RbacEngine → List RoleBinding
list_bindings e = values e.bindings

unfoldable pub with_defaults : Time → RbacEngine
unfolding put_role
with_defaults now =
    put_role (put_role new (with_permissions now administrator_role (wildcard ∷ [])))
      (with_permissions now auditor_role read_only_permissions)

-- The groups that the user record declares.
declared_groups : Option User → List String
declared_groups none = []
declared_groups (some u) = extend [] u.groups

-- One round of the loop over the groups.
abbrev add_if_member : String → List String → Group → List String
add_if_member username found g =
    if contains_member g username then add g.metadata.name found else found

-- The loop over the groups whose member list may name the user.
member_groups : String → List String → List Group → List String
member_groups username found [] = found
member_groups username found (g ∷ gs) = member_groups username (add_if_member username found g) gs

unfoldable pub effective_groups : RbacEngine → String → List String
unfolding declared_groups member_groups
effective_groups e username =
    member_groups username (declared_groups (lookup username e.users)) (values e.groups)

-- The names of the roles bound to the user at the scope of the request or above it.
unfoldable pub candidate_roles : RbacEngine → AccessRequest → List String
candidate_roles e request =
    let user_groups = effective_groups e request.username in
    map (λ b. b.role)
      (filter (λ b. contains b.scope request.scope)
        (filter (λ b. applies_to b request.username user_groups) (values e.bindings)))

unfoldable pub role_holds : RbacEngine → Permission → String → Bool
role_holds e permission role_name = elim (lookup role_name e.roles) [
  | none ↦ false
  | some role ↦ holds role permission
]

unfoldable pub is_allowed : RbacEngine → AccessRequest → Bool
is_allowed e request = any (role_holds e request.permission) (candidate_roles e request)

-- The message of a refusal; `shown` is the debug print of a scope.
abbrev pub refusal : (shown : Scope → String) → AccessRequest → String
refusal shown request =
    concat request.username
      (concat " may not " (concat request.permission (concat " at " (shown request.scope))))

unfoldable pub authorize : (shown : Scope → String) → RbacEngine → AccessRequest → Result (Unit {0})
authorize shown e request =
    if is_allowed e request then ok tt else err (forbidden (refusal shown request))
