-- ===== src/Authz/Engine/Defaults.antt =====
-- crates/ocf-authz/src/engine.rs: the two seeded roles.
use open_compute_fabric_rs.Prelude.{
  String, ◌≢◌, false, false≢true, ◌≡◌, refl, sym, ap, ◌∙◌, subst, inl, inr, true, [], ◌∷◌, some,
  string_eq, any, Member, here,
}
use open_compute_fabric_rs.Prelude.Assoc.{lookup, insert, values}
use open_compute_fabric_rs.Prelude.Sets.{add, extend, contains as has, contains_iff}
use open_compute_fabric_rs.Core.Scope.{contains}
use open_compute_fabric_rs.Core.Metadata.{Time}
use open_compute_fabric_rs.Authz.Permission.{Permission, wildcard, read_only_permissions}
use open_compute_fabric_rs.Authz.Model.{Role, RoleBinding, AccessRequest, with_permissions}
use open_compute_fabric_rs.Authz.Engine.{
  RbacEngine, is_allowed, with_defaults, administrator_role, auditor_role,
}
use open_compute_fabric_rs.Authz.Engine.Decision.{Covers, is_allowed_iff}

lookup_auditor :
    (now : Time)
    → lookup auditor_role (with_defaults now).roles
      ≡ some (with_permissions now auditor_role read_only_permissions)
unfolding with_defaults insert lookup
lookup_auditor now = refl

lookup_administrator :
    (now : Time)
    → lookup administrator_role (with_defaults now).roles
      ≡ some (with_permissions now administrator_role (wildcard ∷ []))
unfolding with_defaults insert lookup
lookup_administrator now = refl

auditor_permissions :
    (now : Time)
    → (with_permissions now auditor_role read_only_permissions).permissions ≡ read_only_permissions
unfolding extend add has any
auditor_permissions now = refl

administrator_permissions :
    (now : Time)
    → (with_permissions now administrator_role (wildcard ∷ [])).permissions ≡ wildcard ∷ []
unfolding extend add has any
administrator_permissions now = refl

-- With the seeded roles, a binding to the administrator allows its user every permission at the
-- scope of the binding and beneath it.
pub administrator_allows :
    (now : Time) (e : RbacEngine) (b : RoleBinding) (request : AccessRequest)
    → e.roles ≡ (with_defaults now).roles
    → Member b (values e.bindings)
    → Covers e request.username b.subject
    → b.role ≡ administrator_role
    → contains b.scope request.scope ≡ true
    → is_allowed e request ≡ true
administrator_allows now e b request seeded bound covers admin above =
    (is_allowed_iff e request).1 (record {
      binding = b;
      bound = bound;
      covers = covers;
      above = above;
      role = with_permissions now administrator_role (wildcard ∷ []);
      defined =
          ap (λ r. lookup b.role r) seeded
          ∙ ap (λ (n : String). lookup n (with_defaults now).roles) admin
          ∙ lookup_administrator now;
      held = wildcard;
      holding = subst (λ ps. Member wildcard ps) (sym (administrator_permissions now)) (here refl);
      granting = inl refl;
    })

read_only-has-wildcard : has wildcard read_only_permissions ≡ false
unfolding has any
read_only-has-wildcard = refl

read_only_no_wildcard : {p : Permission} → Member p read_only_permissions → p ≢ wildcard
read_only_no_wildcard m e = false≢true (
    sym read_only-has-wildcard
    ∙ (contains_iff wildcard read_only_permissions).1
        (subst (λ q. Member q read_only_permissions) e m))

-- With the seeded roles, a user all of whose bindings are to the auditor is allowed no permission
-- outside the read-only set.
pub auditor_reads_only :
    (now : Time) (e : RbacEngine) (request : AccessRequest)
    → e.roles ≡ (with_defaults now).roles
    → ((b : RoleBinding)
        → Member b (values e.bindings)
        → Covers e request.username b.subject
        → b.role ≡ auditor_role)
    → is_allowed e request ≡ true
    → Member request.permission read_only_permissions
auditor_reads_only now e request seeded only h =
    let g = (is_allowed_iff e request).0 h in
    let auditor = only g.binding g.bound g.covers in
    let role : some g.role ≡ some (with_permissions now auditor_role read_only_permissions) =
      sym g.defined
      ∙ ap (λ r. lookup g.binding.role r) seeded
      ∙ ap (λ (n : String). lookup n (with_defaults now).roles) auditor
      ∙ lookup_auditor now in
    let same : g.role ≡ with_permissions now auditor_role read_only_permissions = cc role in
    let held : Member g.held read_only_permissions =
      subst (λ ps. Member g.held ps)
        (ap (λ (r : Role). r.permissions) same ∙ auditor_permissions now) g.holding in
    elim g.granting [
      | inl star ↦ absurd (read_only_no_wildcard held star)
      | inr exact ↦ subst (λ p. Member p read_only_permissions) exact held
    ]
