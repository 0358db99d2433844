-- ===== src/Authz/Engine/Stores.antt =====
-- crates/ocf-authz/src/engine.rs: what the changes of the stores do to the decisions, and how
-- `authorize` reports them.
use open_compute_fabric_rs.Prelude.{
  String, ◌≡◌, ◌≢◌, refl, sym, ap, ◌∙◌, ◌⊎◌, inl, inr, ◌↔◌, Bool, true, ◌&&◌, ◌||◌, List, [], ◌∷◌,
  none, some, map, any, filter, arith, string_eq, Bool-cases, false≢true, any_sound, any_complete,
}
use open_compute_fabric_rs.Prelude.Assoc.{
  Assoc, lookup, insert, remove, values, IsUnique, Member-of_lookup, lookup_of_Member,
  lookup-remove, remove-IsUnique,
}
use open_compute_fabric_rs.Core.Scope.{ResourceId, Scope, contains}
use open_compute_fabric_rs.Core.Error.{ok, err, forbidden}
use open_compute_fabric_rs.Authz.Model.{RoleBinding, AccessRequest, applies_to}
use open_compute_fabric_rs.Authz.Engine.{
  RbacEngine, add_binding, remove_binding, effective_groups, candidate_roles, role_holds,
  is_allowed, authorize, refusal,
}
use open_compute_fabric_rs.Authz.Engine.Decision.{Granted, is_allowed_iff}

-- What one binding contributes to a decision.
abbrev pub binding_allows : RbacEngine → AccessRequest → RoleBinding → Bool
binding_allows e request b =
    applies_to b request.username (effective_groups e request.username)
    && contains b.scope request.scope
    && role_holds e request.permission b.role

any-map-filter {ℓ κ} :
    {A : Type ℓ} {B : Type κ} (p : B → Bool) (f : A → B) (q r : A → Bool) (xs : List A)
    → any p (map f (filter q (filter r xs))) ≡ any (λ x. r x && q x && p (f x)) xs
unfolding any filter
any-map-filter p f q r [] = refl
any-map-filter p f q r (x ∷ xs) = ground (arith, any-map-filter p f q r xs)

is_allowed-eq-any :
    (e : RbacEngine) (request : AccessRequest)
    → is_allowed e request ≡ any (binding_allows e request) (values e.bindings)
unfolding is_allowed candidate_roles
is_allowed-eq-any e request = any-map-filter _ _ _ _ (values e.bindings)

any-insert {ℓ} :
    {V : Type ℓ} (p : V → Bool) (k : String) (v : V) (m : Assoc String V)
    → lookup k m ≡ none
    → any p (values (insert k v m)) ≡ (any p (values m) || p v)
unfolding any insert lookup
any-insert p k v [] h = ground arith
any-insert p k v ((j, w) ∷ m) h = ground (arith, any-insert p k v m)

-- Adding a binding under a fresh id allows what was allowed before and what the binding itself
-- allows, and nothing else.
pub is_allowed-add_binding :
    (e : RbacEngine) (b : RoleBinding) (request : AccessRequest)
    → lookup b.id e.bindings ≡ none
    → is_allowed (add_binding e b).0 request ≡ (is_allowed e request || binding_allows e request b)
unfolding add_binding effective_groups role_holds
is_allowed-add_binding e b request fresh =
    is_allowed-eq-any (add_binding e b).0 request
    ∙ any-insert (binding_allows e request) b.id b e.bindings fresh
    ∙ ap (λ z. z || binding_allows e request b) (sym (is_allowed-eq-any e request))

-- Once a binding is removed, where no two bindings share an id, a request is allowed exactly when a
-- binding stored under another id allows it by what the engine held before.
pub is_allowed-remove_binding :
    (e : RbacEngine) (id : ResourceId) (request : AccessRequest)
    → IsUnique e.bindings
    → (is_allowed (remove_binding e id).0 request ≡ true) ↔ (
        (k : ResourceId) × (b : RoleBinding) × (k ≢ id)
        × (lookup k e.bindings ≡ some b)
        × (binding_allows e request b ≡ true))
unfolding remove_binding effective_groups role_holds
is_allowed-remove_binding e id request u = ((λ h. found h), λ t. back t.0 t.1 t.2 t.3 t.4)
  where
    left : RbacEngine
    left = (remove_binding e id).0

    found :
        is_allowed left request ≡ true
        → (k : ResourceId) × (b : RoleBinding) × (k ≢ id)
          × (lookup k e.bindings ≡ some b)
          × (binding_allows e request b ≡ true)
    found h =
        let t =
          any_sound (binding_allows e request) (values (remove id e.bindings))
            (sym (is_allowed-eq-any left request) ∙ h) in
        let r = lookup_of_Member (remove id e.bindings) (remove-IsUnique id e.bindings u) t.1 in
        let split = sym (lookup-remove id r.0 e.bindings) ∙ r.1 in
        (
          r.0,
          t.0,
          (λ q. ground (arith, string_eq.beq_iff id r.0)),
          ground (arith, string_eq.beq_iff id r.0),
          t.2,
        )

    back :
        (k : ResourceId) (b : RoleBinding)
        → k ≢ id
        → lookup k e.bindings ≡ some b
        → binding_allows e request b ≡ true
        → is_allowed left request ≡ true
    back k b n at_k h =
        let kept : lookup k (remove id e.bindings) ≡ some b =
          ground (arith, lookup-remove id k e.bindings, string_eq.beq_iff id k) in
        is_allowed-eq-any left request
        ∙ any_complete (binding_allows e request) (Member-of_lookup k (remove id e.bindings) kept) h

-- `authorize` succeeds on every granted request, and refuses every other with `Forbidden`.
pub authorize_lem :
    (shown : Scope → String) (e : RbacEngine) (request : AccessRequest)
    → (Granted e request × (authorize shown e request ≡ ok tt))
      ⊎ ((¬ (Granted e request))
          × ((message : String) × (authorize shown e request ≡ err (forbidden message))))
unfolding authorize
authorize_lem shown e request = elim (Bool-cases (is_allowed e request)) [
  | inl a ↦ inl ((is_allowed_iff e request).0 a, rw a)
  | inr d ↦
      inr
        ((λ g. false≢true (sym d ∙ (is_allowed_iff e request).1 g)), (refusal shown request, rw d))
]
