-- ===== src/Network/Controller/Laws.antt =====
-- crates/ocf-network/src/controller.rs: the results of the calls on every branch.
use open_compute_fabric_rs.Prelude.{
  ◌≡◌, ◌↔◌, refl, inl, inr, Bool, true, false, List, [], ◌∷◌, arith, string_eq, Bool-cases,
  Option-cases, any, filter,
}
use open_compute_fabric_rs.Prelude.Assoc.{lookup, remove, contains_key, values}
use open_compute_fabric_rs.Core.Error.{Result, ok, err}
use open_compute_fabric_rs.Core.Scope.{ResourceId}
use open_compute_fabric_rs.Prelude.Text.{Text}
use open_compute_fabric_rs.Core.Metadata.{Time}
use open_compute_fabric_rs.Core.Registry as Registry
use open_compute_fabric_rs.Core.Registry.{Registry}
use open_compute_fabric_rs.Network.Ipam.{Printer}
use open_compute_fabric_rs.Network.Model.{Vpc, Subnet, EgressMode}
use open_compute_fabric_rs.Network.Controller.{
  NetworkBackend, NetworkController, delete_vpc, has_subnets, list_subnets, create_vpc,
  create_subnet, set_subnet_egress, with_subnet,
}

none_pass {ℓ} : {A : Type ℓ} (q : A → Bool) (xs : List A) → (any q xs ≡ false) ↔ (filter q xs ≡ [])
unfolding any filter
none_pass q [] = (λ h. refl, λ h. refl)
none_pass q (x ∷ xs) =
    let ih = none_pass q xs in (λ h. ground (arith, ih.0), λ h. ground (arith, ih.1))

module _ {W : Type 0} where
  no_subnets :
      (c : NetworkController W) (id : ResourceId)
      → (has_subnets c id ≡ false) ↔ (list_subnets c id ≡ [])
  unfolding has_subnets list_subnets
  no_subnets c id = none_pass (λ s. string_eq.beq s.vpc_id id) (values c.subnets)

  -- Deleting a VPC succeeds exactly when it exists and no subnet is listed for it. Then only its entry
  -- goes away, and a call that fails changes nothing.
  pub delete_vpc_lem :
      (c : NetworkController W) (id : ResourceId)
      → (((delete_vpc c id).1 ≡ ok tt)
          ↔ ((contains_key id c.vpcs ≡ true) × (list_subnets c id ≡ [])))
        × ((delete_vpc c id).0
            ≡ elim (delete_vpc c id).1 [ ok _ ↦ record c { vpcs = remove id c.vpcs } | err _ ↦ c ])
  unfolding delete_vpc
  delete_vpc_lem c id = elim (Bool-cases (has_subnets c id)) [
    | inl used ↦ rw used (((λ h. absurd (cc)), λ h. cc ((no_subnets c id).1 h.1, used)), refl)
    | inr unused ↦ elim (Bool-cases (contains_key id c.vpcs)) [
      | inl known ↦
          rw (unused, known) (((λ h. (refl, (no_subnets c id).0 unused)), λ h. refl), refl)
      | inr unknown ↦ rw (unused, unknown) (((λ h. absurd (cc)), λ h. absurd (cc)), refl)
    ]
  ]

  -- What a call leaves besides the world: the store, without its backends, and the result.
  abbrev pub Recorded {ℓ} :
      {A : Type ℓ} → NetworkController W × W × Result A → NetworkController W × Result A
  Recorded r = (record r.0 { backends = Registry.new }, r.2)

  -- The desired state and the answer of these calls do not depend on the backends, which may fail:
  -- creating a VPC or a subnet and changing a subnet's egress record and answer the same over any two
  -- registries of backends and in any two worlds.
  pub desired_state :
      (p : Printer) (c : NetworkController W) (some_backends others : Registry (NetworkBackend W))
      (v w : W)
      → let c1 = record c { backends = some_backends } in
        let c2 = record c { backends = others } in
        ((vpc : Vpc) → Recorded (create_vpc c1 vpc v) ≡ Recorded (create_vpc c2 vpc w))
        × ((subnet : Subnet)
            → Recorded (create_subnet p c1 subnet v) ≡ Recorded (create_subnet p c2 subnet w))
        × ((now : Time) (id : ResourceId) (mode : EgressMode) (allowed : List Text)
            → Recorded (set_subnet_egress now c1 id mode allowed v)
              ≡ Recorded (set_subnet_egress now c2 id mode allowed w))
  unfolding create_vpc create_subnet set_subnet_egress with_subnet
  desired_state p c some_backends others v w = (
    (λ vpc. elim (Bool-cases (contains_key vpc.metadata.id c.vpcs)) [
      | inl old ↦ rw old
      | inr new ↦ rw new
    ]),
    (λ subnet. elim (Bool-cases (contains_key subnet.vpc_id c.vpcs)) [
      | inr orphan ↦ rw orphan
      | inl known ↦ elim (Bool-cases (contains_key subnet.metadata.id c.subnets)) [
        | inl old ↦ rw (known, old)
        | inr new ↦ rw (known, new)
      ]
    ]),
    λ now id mode allowed. elim (Option-cases (lookup id c.subnets)) [
      | inl missing ↦ rw (missing, set_subnet_egress)
      | inr (s, found) ↦ rw (found, set_subnet_egress)
    ],
  )
