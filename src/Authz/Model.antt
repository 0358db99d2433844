-- ===== src/Authz/Model.antt =====
-- crates/ocf-authz/src/model.rs: roles, groups, users, bindings and requests.
use open_compute_fabric_rs.Prelude.{String, Bool, List, [], ◌∷◌, ◌++◌, string_eq, any}
use open_compute_fabric_rs.Prelude.Sets.{contains, add, extend}
use open_compute_fabric_rs.Core.Scope.{ResourceId, Scope}
use open_compute_fabric_rs.Core.Metadata.{Time, Metadata, named}
use open_compute_fabric_rs.Authz.Permission.{Permission, grants}

pub record Role : Type 0 where
  pub metadata : Metadata
  pub permissions : List Permission

abbrev pub new_role : Time → String → Role
new_role now name = record { metadata = named now name; permissions = [] }

abbrev pub with_permissions : Time → String → List Permission → Role
with_permissions now name permissions = record {
  metadata = named now name;
  permissions = extend [] permissions;
}

unfoldable pub grant : Role → Permission → Role
grant r permission = record r { permissions = add permission r.permissions }

unfoldable pub holds : Role → Permission → Bool
holds r requested = any (λ held. grants held requested) r.permissions

pub record Group : Type 0 where
  pub metadata : Metadata
  pub members : List String

abbrev pub new_group : Time → String → Group
new_group now name = record { metadata = named now name; members = [] }

abbrev pub with_member : Group → String → Group
with_member g username = record g { members = g.members ++ username ∷ [] }

unfoldable pub contains_member : Group → String → Bool
contains_member g username = any (λ m. string_eq.beq m username) g.members

pub record User : Type 0 where
  pub metadata : Metadata
  pub username : String
  pub groups : List String

abbrev pub new_user : Time → String → User
new_user now username = record { metadata = named now username; username = username; groups = [] }

abbrev pub with_group : User → String → User
with_group u group = record u { groups = u.groups ++ group ∷ [] }

pub data Subject : Type 0 where
  user : String → Subject
  group : String → Subject

pub record RoleBinding : Type 0 where
  pub id : ResourceId
  pub subject : Subject
  pub role : String
  pub scope : Scope

unfoldable pub subject_applies_to : Subject → String → List String → Bool
subject_applies_to (Subject.user u) username user_groups = string_eq.beq u username
subject_applies_to (Subject.group g) username user_groups = contains g user_groups

abbrev pub applies_to : RoleBinding → String → List String → Bool
applies_to b username user_groups = subject_applies_to b.subject username user_groups

pub record AccessRequest : Type 0 where
  pub username : String
  pub permission : Permission
  pub scope : Scope
