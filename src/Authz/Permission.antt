-- ===== src/Authz/Permission.antt =====
-- crates/ocf-authz/src/permission.rs: permissions are string tokens, and "*" grants all of them.
use open_compute_fabric_rs.Prelude.{
  String, Bool, true, ◌||◌, List, [], ◌∷◌, ◌≡◌, ◌↔◌, ◌⊎◌, arith, string_eq,
}

abbrev pub Permission : Type 0
Permission = String

abbrev pub wildcard : Permission
wildcard = "*"

abbrev pub workload_create : Permission
workload_create = "workload.create"

abbrev pub workload_delete : Permission
workload_delete = "workload.delete"

abbrev pub workload_read : Permission
workload_read = "workload.read"

abbrev pub workload_manage : Permission
workload_manage = "workload.manage"

abbrev pub vpc_read : Permission
vpc_read = "vpc.read"

abbrev pub vpc_manage : Permission
vpc_manage = "vpc.manage"

abbrev pub lb_read : Permission
lb_read = "lb.read"

abbrev pub lb_manage : Permission
lb_manage = "lb.manage"

abbrev pub sys_read : Permission
sys_read = "sys.read"

abbrev pub sys_modify : Permission
sys_modify = "sys.modify"

abbrev pub audit_read : Permission
audit_read = "audit.read"

unfoldable pub is_wildcard : Permission → Bool
is_wildcard p = string_eq.beq p wildcard

unfoldable pub grants : Permission → Permission → Bool
unfolding is_wildcard
grants held requested = is_wildcard held || string_eq.beq held requested

abbrev pub read_only_permissions : List Permission
read_only_permissions = workload_read ∷ vpc_read ∷ lb_read ∷ sys_read ∷ audit_read ∷ []

pub grants_iff :
    (held requested : Permission)
    → (grants held requested ≡ true) ↔ ((held ≡ wildcard) ⊎ (held ≡ requested))
unfolding grants
grants_iff held requested =
    ground (arith, string_eq.beq_iff held wildcard, string_eq.beq_iff held requested)
