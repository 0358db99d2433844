-- ===== src/Authz/Examples.antt =====
-- crates/ocf-authz: an engine with the seeded roles, a group and two bindings.
use open_compute_fabric_rs.Prelude.{
  String, ◌≡◌, refl, ◌↔◌, ◌⊎◌, ap, any, filter, inr, true, [], ◌∷◌, none, string_eq, Member, here,
  there,
}
use open_compute_fabric_rs.Prelude.Assoc.{lookup, values, insert, IsUnique}
use open_compute_fabric_rs.Prelude.Sets.{add, extend, contains as has}
use open_compute_fabric_rs.Core.Error.{ok, err, forbidden}
use open_compute_fabric_rs.Core.Scope.{fleet, of_region, of_rack, contains, level_ok}
use open_compute_fabric_rs.Authz.Permission.{grants, workload_manage, workload_read}
use open_compute_fabric_rs.Authz.Model.{
  Group, Subject, RoleBinding, AccessRequest, with_member, new_group, subject_applies_to, holds,
}
use open_compute_fabric_rs.Authz.Engine.{
  RbacEngine, with_defaults, put_role, effective_groups, candidate_roles, role_holds, is_allowed,
  authorize, administrator_role, auditor_role,
}
use open_compute_fabric_rs.Authz.Engine.Decision.{Covers, Granted, is_allowed_iff}
use open_compute_fabric_rs.Authz.Engine.Stores.{authorize_lem}

abbrev ops_group : Group
ops_group = with_member (new_group 0 "ops") "bob"

abbrev ops_binding : RoleBinding
ops_binding = record {
  id = "b1";
  subject = Subject.group "ops";
  role = administrator_role;
  scope = of_region "us";
}

abbrev alice_binding : RoleBinding
alice_binding = record {
  id = "b2";
  subject = Subject.user "alice";
  role = auditor_role;
  scope = fleet;
}

abbrev engine : RbacEngine
engine = record (with_defaults 0) {
  groups = ("ops", ops_group) ∷ [];
  bindings = ("b1", ops_binding) ∷ ("b2", alice_binding) ∷ [];
}

abbrev bob_request : AccessRequest
bob_request = record { username = "bob"; permission = workload_manage; scope = of_region "us" }

abbrev alice_request : AccessRequest
alice_request = record { username = "alice"; permission = workload_read; scope = of_region "us" }

is_allowed_iff_example : (is_allowed engine bob_request ≡ true) ↔ Granted engine bob_request
is_allowed_iff_example = is_allowed_iff engine bob_request

bob_covered : Covers engine "bob" (Subject.group "ops")
bob_covered = inr (ops_group, here refl, here refl, refl)

region_below : contains (of_region "us") (of_region "us") ≡ true
unfolding contains level_ok
region_below = refl

rack_below : contains (of_region "us") (of_rack "us" "dc1" "r1") ≡ true
unfolding contains level_ok
rack_below = refl

abbrev carol_binding : RoleBinding
carol_binding = record {
  id = "b3";
  subject = Subject.user "carol";
  role = auditor_role;
  scope = fleet;
}

no_third : lookup "b3" engine.bindings ≡ none
unfolding lookup
no_third = refl

bindings-IsUnique : IsUnique engine.bindings
unfolding lookup
bindings-IsUnique = (refl, (refl, tt))

authorize_lem_example :
    (Granted engine bob_request × (authorize (λ s. "scope") engine bob_request ≡ ok tt))
    ⊎ ((¬ (Granted engine bob_request))
        × ((message : String) × (authorize (λ s. "scope") engine bob_request
              ≡ err (forbidden message))))
authorize_lem_example = authorize_lem (λ s. "scope") engine bob_request

-- The seeded roles and the auditor's binding, without groups.
abbrev audited : RbacEngine
audited = record (with_defaults 0) { bindings = ("b2", alice_binding) ∷ [] }

auditors_only :
    (b : RoleBinding)
    → Member b (values audited.bindings)
    → Covers audited "alice" b.subject
    → b.role ≡ auditor_role
auditors_only b (here q) c = ap (λ (x : RoleBinding). x.role) q
auditors_only b (there m) c = elim m [ ]

alice_allowed : is_allowed audited alice_request ≡ true
unfolding is_allowed candidate_roles effective_groups role_holds with_defaults put_role insert
    lookup any filter subject_applies_to contains level_ok holds grants extend add has
alice_allowed = refl
