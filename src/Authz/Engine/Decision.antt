-- ===== src/Authz/Engine/Decision.antt =====
-- crates/ocf-authz/src/engine.rs: when a request is allowed, against the relation that the
-- documentation describes.
use open_compute_fabric_rs.Prelude.{
  String, ◌≡◌, sym, ap, ◌∙◌, ◌↔◌, ◌⊎◌, inl, inr, true, false, some, string_eq, Option-cases, Member,
  Member-map, Member-of_map, Member-filter, Member-of_filter, any_sound, any_complete,
}
use open_compute_fabric_rs.Prelude.Assoc.{lookup, values}
use open_compute_fabric_rs.Prelude.Sets.{contains_iff}
use open_compute_fabric_rs.Core.Scope.{Scope, contains}
use open_compute_fabric_rs.Core.Scope.Containment.{contains_trans}
use open_compute_fabric_rs.Authz.Permission.{Permission, wildcard, grants, grants_iff}
use open_compute_fabric_rs.Authz.Model.{
  Role, Subject, RoleBinding, AccessRequest, holds, applies_to, subject_applies_to,
}
use open_compute_fabric_rs.Authz.Engine.{
  RbacEngine, effective_groups, candidate_roles, role_holds, is_allowed,
}
use open_compute_fabric_rs.Authz.Engine.Groups.{Belongs, effective_groups_iff}

-- The user is the subject, or belongs to it.
abbrev pub Covers : RbacEngine → String → Subject → Type 0
Covers e username (Subject.user u) = u ≡ username
Covers e username (Subject.group g) = Belongs e username g

-- A stored binding covers the user, at the scope of the request or above it, and binds a role
-- that is defined and holds the permission or the wildcard.
pub record Granted (e : RbacEngine) (request : AccessRequest) : Type 0 where
  pub binding : RoleBinding
  pub bound : Member binding (values e.bindings)
  pub covers : Covers e request.username binding.subject
  pub above : contains binding.scope request.scope ≡ true
  pub role : Role
  pub defined : lookup binding.role e.roles ≡ some role
  pub held : Permission
  pub holding : Member held role.permissions
  pub granting : (held ≡ wildcard) ⊎ (held ≡ request.permission)

applies_to_iff :
    (e : RbacEngine) (username : String) (s : Subject)
    → (subject_applies_to s username (effective_groups e username) ≡ true) ↔ Covers e username s
unfolding subject_applies_to
applies_to_iff e username (Subject.user u) = string_eq.beq_iff u username
applies_to_iff e username (Subject.group g) =
    let inside = contains_iff g (effective_groups e username) in
    let belongs = effective_groups_iff e username g in
    ((λ h. belongs.0 (inside.0 h)), λ b. inside.1 (belongs.1 b))

holds_sound :
    (r : Role) (p : Permission)
    → holds r p ≡ true
    → (held : Permission) × Member held r.permissions × ((held ≡ wildcard) ⊎ (held ≡ p))
unfolding holds
holds_sound r p h =
    let t = any_sound (λ held. grants held p) r.permissions h in
    (t.0, t.1, (grants_iff t.0 p).0 t.2)

holds_complete :
    (r : Role) (p held : Permission)
    → Member held r.permissions
    → (held ≡ wildcard) ⊎ (held ≡ p)
    → holds r p ≡ true
unfolding holds
holds_complete r p held m g = any_complete (λ x. grants x p) m ((grants_iff held p).1 g)

role_holds_sound :
    (e : RbacEngine) (p : Permission) (name : String)
    → role_holds e p name ≡ true
    → (r : Role) × (lookup name e.roles ≡ some r) × (holds r p ≡ true)
unfolding role_holds
role_holds_sound e p name h = elim (Option-cases (lookup name e.roles)) [
  | inl missing ↦ absurd (no_role (rw (missing, role_holds) at h))
  | inr (r, found) ↦ (r, found, rw (found, role_holds) at h)
]
  where
    no_role : false ≡ true → ⊥
    no_role q = cc

Granted-of_allowed :
    (e : RbacEngine) (request : AccessRequest) → is_allowed e request ≡ true → Granted e request
unfolding is_allowed candidate_roles
Granted-of_allowed e request h =
    let groups = effective_groups e request.username in
    let t = any_sound (role_holds e request.permission) (candidate_roles e request) h in
    let chosen = Member-of_map (λ (b : RoleBinding). b.role) _ t.1 in
    let scoped =
      Member-of_filter (λ (b : RoleBinding). contains b.scope request.scope) _ chosen.1 in
    let applied =
      Member-of_filter (λ (b : RoleBinding). applies_to b request.username groups) _ scoped.0 in
    let found = role_holds_sound e request.permission t.0 t.2 in
    let held = holds_sound found.0 request.permission found.2 in
    record {
      binding = chosen.0;
      bound = applied.0;
      covers = (applies_to_iff e request.username chosen.0.subject).0 applied.1;
      above = scoped.1;
      role = found.0;
      defined = ap (λ (z : String). lookup z e.roles) (sym chosen.2) ∙ found.1;
      held = held.0;
      holding = held.1;
      granting = held.2;
    }

allowed_of_Granted :
    (e : RbacEngine) (request : AccessRequest) → Granted e request → is_allowed e request ≡ true
unfolding is_allowed candidate_roles role_holds
allowed_of_Granted e request g =
    let groups = effective_groups e request.username in
    any_complete (role_holds e request.permission)
      (Member-map (λ (b : RoleBinding). b.role)
        (Member-filter (λ (b : RoleBinding). contains b.scope request.scope)
          (Member-filter (λ (b : RoleBinding). applies_to b request.username groups) g.bound
            ((applies_to_iff e request.username g.binding.subject).1 g.covers))
          g.above))
      (rw (g.defined, role_holds)
        (holds_complete g.role request.permission g.held g.holding g.granting))

-- A request is allowed exactly when some stored binding covers the user, directly or through a
-- group that either side declares, at the scope of the request or above it, and its role is
-- defined and holds the permission or the wildcard.
pub is_allowed_iff :
    (e : RbacEngine) (request : AccessRequest) → (is_allowed e request ≡ true) ↔ Granted e request
is_allowed_iff e request = (Granted-of_allowed e request, allowed_of_Granted e request)

-- What is allowed at a scope is allowed at every scope beneath it.
pub is_allowed_beneath :
    (e : RbacEngine) (request : AccessRequest) (lower : Scope)
    → is_allowed e request ≡ true
    → contains request.scope lower ≡ true
    → is_allowed e (record request { scope = lower }) ≡ true
is_allowed_beneath e request lower h beneath =
    let g = Granted-of_allowed e request h in
    allowed_of_Granted e (record request { scope = lower })
      (record {
        binding = g.binding;
        bound = g.bound;
        covers = g.covers;
        above = contains_trans g.binding.scope request.scope lower g.above beneath;
        role = g.role;
        defined = g.defined;
        held = g.held;
        holding = g.holding;
        granting = g.granting;
      })
