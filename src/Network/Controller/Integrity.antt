-- ===== src/Network/Controller/Integrity.antt =====
-- crates/ocf-network/src/controller.rs: an invariant of the store, and the calls that change it.
use open_compute_fabric_rs.Prelude.{
  ◌≤◌, ◌≡◌, ◌∙◌, sym, subst, ap, ◌⊎◌, inl, inr, true, false, List, some, arith, string_eq, beq_refl,
  Bool-cases, Option-cases, any_complete,
}
use open_compute_fabric_rs.Prelude.Assoc.{
  Assoc, lookup, insert, remove, contains_key, lookup-insert, lookup-insert_cases, lookup-remove,
  Member-of_lookup,
}
use open_compute_fabric_rs.Prelude.Text.{Text}
use open_compute_fabric_rs.Core.Scope.{ResourceId}
use open_compute_fabric_rs.Core.Metadata.{Time}
use open_compute_fabric_rs.Network.Ipam as Ipam
use open_compute_fabric_rs.Network.Ipam.{SubnetAllocator, Printer, parse_cidr, of_cidr}
use open_compute_fabric_rs.Network.Ipam.Invariant.{IsValid}
use open_compute_fabric_rs.Network.Ipam.Kept.{Keeps, release-Keeps}
use open_compute_fabric_rs.Network.Model.{Vpc, Subnet, Route, FirewallPolicy, EgressMode}
use open_compute_fabric_rs.Network.Controller.{
  NetworkController, create_vpc, delete_vpc, has_subnets, set_subnet_egress, changed_egress,
  release_address, add_route, scope_exists, new, apply_policy, delete_policy, with_ipam,
}

-- An allocator that serves the addresses of a subnet.
abbrev pub Serves : SubnetAllocator → Subnet → Type 0
Serves a s = parse_cidr s.cidr ≡ some (a.base, a.prefix)

module _ {W : Type 0} where
  pub record IsConsistent (c : NetworkController W) : Type 0 where
    -- a subnet's VPC exists
    pub owned :
        (k : ResourceId) (s : Subnet)
        → lookup k c.subnets ≡ some s
        → contains_key s.vpc_id c.vpcs ≡ true
    pub keyed : (k : ResourceId) (s : Subnet) → lookup k c.subnets ≡ some s → s.metadata.id ≡ k
    -- a route's subnet exists
    pub routed :
        (k : ResourceId) (r : Route)
        → lookup k c.routes ≡ some r
        → contains_key r.subnet_id c.subnets ≡ true
    -- an allocator belongs to a subnet, and serves the addresses of its CIDR
    pub pooled :
        (k : ResourceId) (a : SubnetAllocator)
        → lookup k c.ipam ≡ some a
        → (s : Subnet) × (lookup k c.subnets ≡ some s) × Serves a s
    -- for prefixes from 1 to 30, its gateway is in use and all that is in use lies in the subnet
    pub addressed :
        (k : ResourceId) (a : SubnetAllocator)
        → lookup k c.ipam ≡ some a
        → 1 ≤ a.prefix
        → a.prefix ≤ 30
        → IsValid a

  -- Only the VPCs change, and those that subnets belong to are still there.
  pub vpcs-IsConsistent :
      (c : NetworkController W) (vpcs : Assoc ResourceId Vpc)
      → ((k : ResourceId) (s : Subnet)
          → lookup k c.subnets ≡ some s
          → contains_key s.vpc_id c.vpcs ≡ true
          → contains_key s.vpc_id vpcs ≡ true)
      → IsConsistent c
      → IsConsistent (record c { vpcs = vpcs })
  vpcs-IsConsistent c vpcs still h = record {
    owned = λ k s e. still k s e (h.owned k s e);
    keyed = h.keyed;
    routed = h.routed;
    pooled = h.pooled;
    addressed = h.addressed;
  }

  pub create_vpc-IsConsistent :
      (c : NetworkController W) (vpc : Vpc) (w : W)
      → IsConsistent c
      → IsConsistent (create_vpc c vpc w).0
  unfolding create_vpc
  create_vpc-IsConsistent c vpc w h = elim (Bool-cases (contains_key vpc.metadata.id c.vpcs)) [
    | inl old ↦ rw old h
    | inr new ↦ rw new (
        vpcs-IsConsistent c (insert vpc.metadata.id vpc c.vpcs)
          (λ k s e known. ground (arith, lookup-insert vpc.metadata.id s.vpc_id vpc c.vpcs)) h)
  ]

  has_subnets_of :
      (c : NetworkController W) (k : ResourceId) (s : Subnet)
      → lookup k c.subnets ≡ some s
      → has_subnets c s.vpc_id ≡ true
  unfolding has_subnets
  has_subnets_of c k s e =
      any_complete (λ x. string_eq.beq x.vpc_id s.vpc_id) (Member-of_lookup k c.subnets e)
        (beq_refl s.vpc_id)

  pub delete_vpc-IsConsistent :
      (c : NetworkController W) (id : ResourceId)
      → IsConsistent c
      → IsConsistent (delete_vpc c id).0
  unfolding delete_vpc
  delete_vpc-IsConsistent c id h = elim (Bool-cases (has_subnets c id)) [
    | inl used ↦ rw used h
    | inr unused ↦ elim (Bool-cases (contains_key id c.vpcs)) [
      | inl known ↦
          rw (unused, known)
            (vpcs-IsConsistent c (remove id c.vpcs)
              (λ k s e there. ground (
                arith,
                lookup-remove id s.vpc_id c.vpcs,
                string_eq.beq_iff id s.vpc_id,
                has_subnets_of c k s e,
                ap (has_subnets c),
              ))
              h)
      | inr unknown ↦ rw (unused, unknown) h
    ]
  ]

  -- Subnets and their allocators change.
  pub subnets-IsConsistent :
      (c : NetworkController W) (subnet : Subnet) (ipam : Assoc ResourceId SubnetAllocator)
      → contains_key subnet.vpc_id c.vpcs ≡ true
      → ((k : ResourceId) (a : SubnetAllocator)
          → lookup k ipam ≡ some a
          → (s : Subnet) × (lookup k (insert subnet.metadata.id subnet c.subnets) ≡ some s)
            × Serves a s)
      → ((k : ResourceId) (a : SubnetAllocator)
          → lookup k ipam ≡ some a
          → 1 ≤ a.prefix
          → a.prefix ≤ 30
          → IsValid a)
      → IsConsistent c
      → IsConsistent
          (record c { subnets = insert subnet.metadata.id subnet c.subnets; ipam = ipam })
  subnets-IsConsistent c subnet ipam known pool valid h = record {
    owned = λ k s e. ground (
      arith,
      lookup-insert subnet.metadata.id k subnet c.subnets,
      h.owned k s,
      ap (λ (x : Subnet). contains_key x.vpc_id c.vpcs),
    );
    keyed = λ k s e. ground (
      arith,
      lookup-insert subnet.metadata.id k subnet c.subnets,
      h.keyed k s,
      string_eq.beq_iff subnet.metadata.id k,
    );
    routed = λ k r e.
        ground (arith, lookup-insert subnet.metadata.id r.subnet_id subnet c.subnets, h.routed k r);
    pooled = pool;
    addressed = valid;
  }

  -- An allocator is exchanged for one of the same subnet.
  pub with_ipam-IsConsistent :
      (c : NetworkController W) (id : ResourceId) (a b : SubnetAllocator)
      → lookup id c.ipam ≡ some a
      → Keeps a b
      → IsConsistent c
      → IsConsistent (with_ipam c id b)
  with_ipam-IsConsistent c id a b found keeps h = record {
    owned = h.owned;
    keyed = h.keyed;
    routed = h.routed;
    pooled = λ k x e. pooled k x (lookup-insert_cases id k b c.ipam e);
    addressed = λ k x e lo hi. valid k x (lookup-insert_cases id k b c.ipam e) lo hi;
  }
    where
      pooled :
          (k : ResourceId) (x : SubnetAllocator)
          → ((id ≡ k) × (b ≡ x)) ⊎ ((string_eq.beq id k ≡ false) × (lookup k c.ipam ≡ some x))
          → (s : Subnet) × (lookup k c.subnets ≡ some s) × Serves x s
      pooled k x (inl (same, new)) =
          let (s, there, serves) = h.pooled id a found in
          (s, rw (← same) there, serves ∙ cc (keeps.base, keeps.prefix))
      pooled k x (inr (other, old)) = h.pooled k x old

      valid :
          (k : ResourceId) (x : SubnetAllocator)
          → ((id ≡ k) × (b ≡ x)) ⊎ ((string_eq.beq id k ≡ false) × (lookup k c.ipam ≡ some x))
          → 1 ≤ x.prefix
          → x.prefix ≤ 30
          → IsValid x
      valid k x (inl (same, new)) lo hi = rw (← new) (
          keeps.valid
            (h.addressed id a found (ground (arith, keeps.prefix)) (ground (arith, keeps.prefix))))
      valid k x (inr (other, old)) lo hi = h.addressed k x old lo hi

  pub set_subnet_egress-IsConsistent :
      (now : Time) (c : NetworkController W) (id : ResourceId) (mode : EgressMode)
      (allowed : List Text) (w : W)
      → IsConsistent c
      → IsConsistent (set_subnet_egress now c id mode allowed w).0
  unfolding set_subnet_egress
  set_subnet_egress-IsConsistent now c id mode allowed w h =
      elim (Option-cases (lookup id c.subnets)) [
        | inl missing ↦ rw (missing, set_subnet_egress) h
        | inr (s, found) ↦
            rw (found, set_subnet_egress)
              (subst
                (λ k.
                  IsConsistent
                    (record c { subnets = insert k (changed_egress now mode s) c.subnets }))
                (h.keyed id s found)
                (subnets-IsConsistent c (changed_egress now mode s) c.ipam (h.owned id s found)
                  (λ k a e. pool s found k a e (Bool-cases (string_eq.beq s.metadata.id k)))
                  h.addressed h))
      ]
    where
      pool :
          (s : Subnet)
          → lookup id c.subnets ≡ some s
          → (k : ResourceId) (a : SubnetAllocator) → lookup k c.ipam ≡ some a
          → (string_eq.beq s.metadata.id k ≡ true) ⊎ (string_eq.beq s.metadata.id k ≡ false)
          → (x : Subnet) × (lookup k (insert s.metadata.id (changed_egress now mode s) c.subnets)
              ≡ some x)
            × Serves a x
      pool s found k a e (inl hit) =
          let (x, there, serves) = h.pooled k a e in
          let same : id ≡ k =
            sym (h.keyed id s found) ∙ (string_eq.beq_iff s.metadata.id k).0 hit in
          let q : x ≡ s = cc in
          (
            changed_egress now mode s,
            lookup-insert s.metadata.id k (changed_egress now mode s) c.subnets ∙ rw hit,
            rw (← q) serves,
          )
      pool s found k a e (inr miss) =
          let (x, there, serves) = h.pooled k a e in
          (
            x,
            lookup-insert s.metadata.id k (changed_egress now mode s) c.subnets ∙ rw miss there,
            serves,
          )

  pub release_address-IsConsistent :
      (c : NetworkController W) (id : ResourceId) (address : Text)
      → IsConsistent c
      → IsConsistent (release_address c id address)
  unfolding release_address
  release_address-IsConsistent c id address h = elim (Option-cases (lookup id c.ipam)) [
    | inl missing ↦ rw (missing, release_address) h
    | inr (a, found) ↦
        rw (found, release_address)
          (with_ipam-IsConsistent c id a (Ipam.release a address) found (release-Keeps a address) h)
  ]

  pub add_route-IsConsistent :
      (c : NetworkController W) (route : Route) (w : W)
      → IsConsistent c
      → IsConsistent (add_route c route w).0
  unfolding add_route
  add_route-IsConsistent c route w h = elim (Bool-cases (contains_key route.subnet_id c.subnets)) [
    | inr unknown ↦ rw unknown h
    | inl known ↦ rw known (record {
      owned = h.owned;
      keyed = h.keyed;
      routed = λ k r e. elim (lookup-insert_cases route.id k route c.routes e) [
        | inl (same, new) ↦ rw (← new) known
        | inr (other, old) ↦ h.routed k r old
      ];
      pooled = h.pooled;
      addressed = h.addressed;
    })
  ]

  pub policies-IsConsistent :
      (c : NetworkController W) (policies : Assoc ResourceId FirewallPolicy)
      → IsConsistent c
      → IsConsistent (record c { policies = policies })
  policies-IsConsistent c policies h = record {
    owned = h.owned;
    keyed = h.keyed;
    routed = h.routed;
    pooled = h.pooled;
    addressed = h.addressed;
  }

  pub apply_policy-IsConsistent :
      (c : NetworkController W) (policy : FirewallPolicy) (w : W)
      → IsConsistent c
      → IsConsistent (apply_policy c policy w).0
  unfolding apply_policy
  apply_policy-IsConsistent c policy w h = elim (Bool-cases (scope_exists c policy.scope)) [
    | inr unknown ↦ rw unknown h
    | inl known ↦ rw known (policies-IsConsistent c (insert policy.id policy c.policies) h)
  ]

  pub delete_policy-IsConsistent :
      (c : NetworkController W) (id : ResourceId)
      → IsConsistent c
      → IsConsistent (delete_policy c id).0
  unfolding delete_policy
  delete_policy-IsConsistent c id h = elim (Bool-cases (contains_key id c.policies)) [
    | inr unknown ↦ rw unknown h
    | inl known ↦ rw known (policies-IsConsistent c (remove id c.policies) h)
  ]
