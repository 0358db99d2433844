-- ===== src/Authz/Engine/Groups.antt =====
-- crates/ocf-authz/src/engine.rs: the groups that a user is found to belong to.
use open_compute_fabric_rs.Prelude.{
  String, ◌≡◌, refl, sym, ap, subst, ◌↔◌, ◌⊎◌, inl, inr, Bool, true, false, List, [], ◌∷◌, Option,
  none, some, string_eq, beq_refl, Bool-cases, if◌then◌else◌, Member, here, there, any_sound,
  any_complete,
}
use open_compute_fabric_rs.Prelude.Assoc.{lookup, values}
use open_compute_fabric_rs.Prelude.Sets.{add, Member-add, Member-extend}
use open_compute_fabric_rs.Authz.Model.{Group, User, contains_member}
use open_compute_fabric_rs.Authz.Engine.{
  RbacEngine, declared_groups, member_groups, effective_groups, add_if_member,
}

-- The user belongs to the group: the user's record says so, or that of a group of this name does.
abbrev pub Belongs : RbacEngine → String → String → Type 0
Belongs e username name =
    ((u : User) × (lookup username e.users ≡ some u) × Member name u.groups)
    ⊎ ((g : Group) × Member g (values e.groups)
        × Member username g.members
        × (name ≡ g.metadata.name))

contains_member_iff :
    (g : Group) (username : String)
    → (contains_member g username ≡ true) ↔ Member username g.members
unfolding contains_member
contains_member_iff g username = (
  λ h.
      let r = any_sound (λ m. string_eq.beq m username) g.members h in
      subst (λ z. Member z g.members) ((string_eq.beq_iff r.0 username).0 r.2) r.1,
  λ m. any_complete (λ x. string_eq.beq x username) m (beq_refl username),
)

declared_groups_iff :
    (o : Option User) (name : String)
    → Member name (declared_groups o) ↔ ((u : User) × (o ≡ some u) × Member name u.groups)
unfolding declared_groups
declared_groups_iff none name = ((λ m. elim m [ ]), λ t. absurd (cc t.1))
declared_groups_iff (some u) name = (
  (λ m. elim ((Member-extend [] u.groups).0 m) [ inl n ↦ elim n [ ] | inr n ↦ (u, refl, n) ]),
  λ t.
      let q : t.0 ≡ u = cc t.1 in
      (Member-extend [] u.groups).1 (inr (subst (λ z. Member name z.groups) q t.2)),
)

-- What the loop over the groups finds.
abbrev Found : String → List String → List Group → String → Type 0
Found username found gs name =
    Member name found
    ⊎ ((g : Group) × Member g gs × Member username g.members × (name ≡ g.metadata.name))

member_groups_sound :
    (username : String) (found : List String) (gs : List Group) (name : String)
    → Member name (member_groups username found gs)
    → Found username found gs name
unfolding member_groups
member_groups_sound username found [] name m = inl m
member_groups_sound username found (g ∷ gs) name m =
    elim (Bool-cases (contains_member g username)) [
      | inl e ↦
          elim (member_groups_sound username (add g.metadata.name found) gs name (rw e at m)) [
            | inl n ↦ elim ((Member-add g.metadata.name found).0 n) [
              | inl q ↦ inr (g, here refl, (contains_member_iff g username).0 e, q)
              | inr k ↦ inl k
            ]
            | inr t ↦ inr (t.0, there t.1, t.2, t.3)
          ]
      | inr e ↦ elim (member_groups_sound username found gs name (rw e at m)) [
        | inl n ↦ inl n
        | inr t ↦ inr (t.0, there t.1, t.2, t.3)
      ]
    ]

member_groups_found :
    (username : String) (found : List String) (gs : List Group) (name : String)
    → Member name found
    → Member name (member_groups username found gs)
unfolding member_groups
member_groups_found username found [] name m = m
member_groups_found username found (g ∷ gs) name m =
    member_groups_found username (add_if_member username found g) gs name
      (kept (contains_member g username))
  where
    kept : (b : Bool) → Member name (if b then add g.metadata.name found else found)
    kept true = (Member-add g.metadata.name found).1 (inr m)
    kept false = m

member_groups-Member :
    (username : String) (found : List String) (gs : List Group) (g : Group)
    → Member g gs
    → Member username g.members
    → Member g.metadata.name (member_groups username found gs)
unfolding member_groups
member_groups-Member username found [] g m k = elim m [ ]
member_groups-Member username found (h ∷ gs) g (here q) k =
    let test : contains_member h username ≡ true =
      (contains_member_iff h username).1 (subst (λ z. Member username z.members) q k) in
    let added : Member g.metadata.name (add_if_member username found h) =
      rw test
        ((Member-add h.metadata.name found).1 (inl (ap (λ (z : Group). z.metadata.name) q))) in
    member_groups_found username (add_if_member username found h) gs g.metadata.name added
member_groups-Member username found (h ∷ gs) g (there m) k =
    member_groups-Member username (add_if_member username found h) gs g m k

-- A group is found exactly when the user belongs to it.
pub effective_groups_iff :
    (e : RbacEngine) (username name : String)
    → Member name (effective_groups e username) ↔ Belongs e username name
unfolding effective_groups
effective_groups_iff e username name =
    let own = declared_groups (lookup username e.users) in
    (
      (λ m. elim (member_groups_sound username own (values e.groups) name m) [
        | inl n ↦ inl ((declared_groups_iff (lookup username e.users) name).0 n)
        | inr t ↦ inr t
      ]),
      λ b. elim b [
        | inl t ↦
            member_groups_found username own (values e.groups) name
              ((declared_groups_iff (lookup username e.users) name).1 t)
        | inr t ↦
            subst (λ z. Member z (member_groups username own (values e.groups))) (sym t.3)
              (member_groups-Member username own (values e.groups) t.0 t.1 t.2)
      ],
    )
