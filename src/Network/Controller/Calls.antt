-- ===== src/Network/Controller/Calls.antt =====
-- crates/ocf-network/src/controller.rs: the calls that change the store, and the invariant of any sequence of them.
use open_compute_fabric_rs.Prelude.{
  ◌≡◌, ◌∙◌, refl, inl, inr, true, false, List, some, arith, string_eq, beq_refl, Bool-cases,
  Option-cases,
}
use open_compute_fabric_rs.Prelude.Assoc.{
  lookup, insert, contains_key, lookup-insert, lookup-insert_cases,
}
use open_compute_fabric_rs.Prelude.Text.{Text}
use open_compute_fabric_rs.Core.Error.{Result, ok, err}
use open_compute_fabric_rs.Core.Scope.{ResourceId}
use open_compute_fabric_rs.Core.Metadata.{Time}
use open_compute_fabric_rs.Core.Registry.{Registry}
use open_compute_fabric_rs.Network.Ipam as Ipam
use open_compute_fabric_rs.Network.Ipam.{SubnetAllocator, Printer, parse_cidr, of_cidr}
use open_compute_fabric_rs.Network.Ipam.Invariant.{new-IsValid}
use open_compute_fabric_rs.Network.Ipam.Kept.{allocate-Keeps, reserve-Keeps, new_parsed}
use open_compute_fabric_rs.Network.Model.{Vpc, Subnet, Route, FirewallPolicy, EgressMode}
use open_compute_fabric_rs.Network.Controller.{
  NetworkController, create_vpc, delete_vpc, create_subnet, with_subnet, with_allocator,
  set_subnet_egress, allocate_address, reserve_address, release_address, add_route, new,
  NetworkBackend, apply_policy, delete_policy, with_ipam,
}
use open_compute_fabric_rs.Network.Controller.Integrity.{
  Serves, IsConsistent, create_vpc-IsConsistent, delete_vpc-IsConsistent, subnets-IsConsistent,
  with_ipam-IsConsistent, set_subnet_egress-IsConsistent, release_address-IsConsistent,
  add_route-IsConsistent, apply_policy-IsConsistent, delete_policy-IsConsistent,
}

module _ {W : Type 0} (p : Printer) where
  -- One call that changes the store; what the backends do is not restricted.
  pub data Step (c : NetworkController W) : NetworkController W → Type 0 where
    create_vpc_step : (vpc : Vpc) (w : W) → Step c (create_vpc c vpc w).0
    delete_vpc_step : (id : ResourceId) → Step c (delete_vpc c id).0
    create_subnet_step : (subnet : Subnet) (w : W) → Step c (create_subnet p c subnet w).0
    set_subnet_egress_step :
        (now : Time) (id : ResourceId) (mode : EgressMode) (allowed : List Text) (w : W)
        → Step c (set_subnet_egress now c id mode allowed w).0
    allocate_address_step :
        {c' : NetworkController W} (id : ResourceId) (r : Result Text)
        → allocate_address p c id ≡ some (c', r)
        → Step c c'
    reserve_address_step :
        (id : ResourceId) (address : Text) → Step c (reserve_address p c id address).0
    release_address_step :
        (id : ResourceId) (address : Text) → Step c (release_address c id address)
    add_route_step : (route : Route) (w : W) → Step c (add_route c route w).0
    apply_policy_step : (policy : FirewallPolicy) (w : W) → Step c (apply_policy c policy w).0
    delete_policy_step : (id : ResourceId) → Step c (delete_policy c id).0

  pub data Reach (c : NetworkController W) : NetworkController W → Type 0 where
    here : Reach c c
    next : {d e : NetworkController W} → Reach c d → Step d e → Reach c e

  with_subnet-IsConsistent :
      (c : NetworkController W) (subnet : Subnet)
      → contains_key subnet.vpc_id c.vpcs ≡ true
      → contains_key subnet.metadata.id c.subnets ≡ false
      → IsConsistent c
      → IsConsistent (with_subnet p c subnet)
  unfolding with_subnet with_allocator
  with_subnet-IsConsistent c subnet known new h = by_allocator (Ipam.new p subnet.cidr) refl
    where
      id : ResourceId
      id = subnet.metadata.id

      -- an allocator from before belongs to another subnet
      old_pool :
          (k : ResourceId) (a : SubnetAllocator)
          → lookup k c.ipam ≡ some a
          → (s : Subnet) × (lookup k (insert id subnet c.subnets) ≡ some s) × Serves a s
      old_pool k a e =
          let (s, there, serves) = h.pooled k a e in
          (s, ground (arith, lookup-insert id k subnet c.subnets, string_eq.beq_iff id k), serves)

      by_allocator :
          (made : Result SubnetAllocator)
          → Ipam.new p subnet.cidr ≡ made
          → IsConsistent (record c {
            subnets = insert id subnet c.subnets;
            ipam = with_allocator id made c.ipam;
          })
      by_allocator (err e) q = subnets-IsConsistent c subnet c.ipam known old_pool h.addressed h
      by_allocator (ok a) q =
          subnets-IsConsistent c subnet (insert id a c.ipam) known
            (λ k x e. elim (lookup-insert_cases id k a c.ipam e) [
              | inl (same, fresh) ↦ (
                subnet,
                lookup-insert id k subnet c.subnets ∙ rw (← same) (rw (beq_refl id)),
                rw (← fresh) (new_parsed p subnet.cidr a q),
              )
              | inr (other, there) ↦ old_pool k x there
            ])
            (λ k x e lo hi. elim (lookup-insert_cases id k a c.ipam e) [
              | inl (same, fresh) ↦
                  rw (← fresh) (new-IsValid p subnet.cidr a q (ground arith) (ground arith))
              | inr (other, there) ↦ h.addressed k x there lo hi
            ])
            h

  create_subnet-IsConsistent :
      (c : NetworkController W) (subnet : Subnet) (w : W)
      → IsConsistent c
      → IsConsistent (create_subnet p c subnet w).0
  unfolding create_subnet with_subnet
  create_subnet-IsConsistent c subnet w h = elim (Bool-cases (contains_key subnet.vpc_id c.vpcs)) [
    | inr orphan ↦ rw orphan h
    | inl known ↦ elim (Bool-cases (contains_key subnet.metadata.id c.subnets)) [
      | inl old ↦ rw (known, old) h
      | inr new ↦ rw (known, new) (with_subnet-IsConsistent c subnet known new h)
    ]
  ]

  allocate_address-IsConsistent :
      (c c' : NetworkController W) (id : ResourceId) (r : Result Text)
      → allocate_address p c id ≡ some (c', r)
      → IsConsistent c
      → IsConsistent c'
  unfolding allocate_address
  allocate_address-IsConsistent c c' id r e h = elim (Option-cases (lookup id c.ipam)) [
    | inl missing ↦ let q : c ≡ c' = cc (rw (missing, allocate_address) at e) in rw (← q) h
    | inr (a, found) ↦ elim (Option-cases (Ipam.allocate p a)) [
      | inl stuck ↦ absurd (cc (rw (found, stuck, allocate_address) at e))
      | inr ((b, address), done) ↦
          let q : with_ipam c id b ≡ c' = cc (rw (found, done, allocate_address) at e) in
          rw (← q) (with_ipam-IsConsistent c id a b found (allocate-Keeps p a done) h)
    ]
  ]

  reserve_address-IsConsistent :
      (c : NetworkController W) (id : ResourceId) (address : Text)
      → IsConsistent c
      → IsConsistent (reserve_address p c id address).0
  unfolding reserve_address
  reserve_address-IsConsistent c id address h = elim (Option-cases (lookup id c.ipam)) [
    | inl missing ↦ rw (missing, reserve_address) h
    | inr (a, found) ↦
        rw (found, reserve_address)
          (with_ipam-IsConsistent c id a (Ipam.reserve p a address).0 found
            (reserve-Keeps p a address) h)
  ]

  Step-IsConsistent : {c c' : NetworkController W} → Step c c' → IsConsistent c → IsConsistent c'
  Step-IsConsistent {c} (create_vpc_step vpc w) h = create_vpc-IsConsistent c vpc w h
  Step-IsConsistent {c} (delete_vpc_step id) h = delete_vpc-IsConsistent c id h
  Step-IsConsistent {c} (create_subnet_step subnet w) h = create_subnet-IsConsistent c subnet w h
  Step-IsConsistent {c} (set_subnet_egress_step now id mode allowed w) h =
      set_subnet_egress-IsConsistent now c id mode allowed w h
  Step-IsConsistent {c} (allocate_address_step {c'} id r e) h =
      allocate_address-IsConsistent c c' id r e h
  Step-IsConsistent {c} (reserve_address_step id address) h =
      reserve_address-IsConsistent c id address h
  Step-IsConsistent {c} (release_address_step id address) h =
      release_address-IsConsistent c id address h
  Step-IsConsistent {c} (add_route_step route w) h = add_route-IsConsistent c route w h
  Step-IsConsistent {c} (apply_policy_step policy w) h = apply_policy-IsConsistent c policy w h
  Step-IsConsistent {c} (delete_policy_step id) h = delete_policy-IsConsistent c id h

  -- Any sequence of calls on the empty controller, whatever the backends do, leaves a store in which
  -- each subnet's VPC and each route's subnet exist, and each address allocator serves the CIDR of
  -- its subnet: for prefixes from 1 to 30 its gateway is in use and every address in use lies in it.
  pub Reach-IsConsistent :
      (backends : Registry (NetworkBackend W)) {c : NetworkController W}
      → Reach (new backends) c
      → IsConsistent c
  unfolding lookup
  Reach-IsConsistent backends here = record {
    owned = λ k s e. absurd (cc);
    keyed = λ k s e. absurd (cc);
    routed = λ k s e. absurd (cc);
    pooled = λ k s e. absurd (cc);
    addressed = λ k s e. absurd (cc);
  }
  Reach-IsConsistent backends (next r s) = Step-IsConsistent s (Reach-IsConsistent backends r)
