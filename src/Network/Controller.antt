-- ===== src/Network/Controller.antt =====
-- crates/ocf-network/src/controller.rs: the store of the overlay's desired state, which programs
-- every backend after a change. A backend works on a world `W` outside; a call returns the new state,
-- the new world and its result. Log messages are left out.
pub mod Fanout
pub mod Integrity
pub mod Calls
pub mod Laws
use open_compute_fabric_rs.Prelude.{
  String, Bool, true, false, List, [], ◌∷◌, Option, none, some, string_eq, if◌then◌else◌, any,
  filter,
}
use open_compute_fabric_rs.Prelude.Assoc.{Assoc, lookup, insert, remove, contains_key, values}
use open_compute_fabric_rs.Prelude.Text.{Text}
use open_compute_fabric_rs.Core.Error.{
  Error, Result, ok, err, not_found, already_exists, conflict, concat, ok_or,
}
use open_compute_fabric_rs.Core.Scope.{ResourceId}
use open_compute_fabric_rs.Core.Metadata.{Time, touch}
use open_compute_fabric_rs.Core.Registry as Registry
use open_compute_fabric_rs.Core.Registry.{Registry}
use open_compute_fabric_rs.Network.Ipam as Ipam
use open_compute_fabric_rs.Network.Ipam.{SubnetAllocator, Printer}
use open_compute_fabric_rs.Network.Model.{
  Vpc, Subnet, Route, FirewallPolicy, AclScope, EgressMode, provides_egress,
}

-- The trait `NetworkBackend`.
pub record NetworkBackend (W : Type 0) : Type 0 where
  pub apply_vpc : Vpc → W → W × Result (Unit {0})
  pub apply_subnet : Subnet → W → W × Result (Unit {0})
  pub apply_route : Route → W → W × Result (Unit {0})
  pub apply_policy : FirewallPolicy → W → W × Result (Unit {0})
  pub apply_egress : Subnet → List Text → W → W × Result (Unit {0})
  pub apply_vpc_peers : Vpc → List String → W → W × Result (Unit {0})

pub record NetworkController (W : Type 0) : Type 0 where
  pub vpcs : Assoc ResourceId Vpc
  pub subnets : Assoc ResourceId Subnet
  pub routes : Assoc ResourceId Route
  pub policies : Assoc ResourceId FirewallPolicy
  pub ipam : Assoc ResourceId SubnetAllocator
  pub backends : Registry (NetworkBackend W)

-- "vpc {id}", "subnet {id}"
abbrev pub vpc_named : ResourceId → String
vpc_named id = concat "vpc " id

abbrev pub subnet_named : ResourceId → String
subnet_named id = concat "subnet " id

-- An allocator that cannot be built is only logged.
with_allocator :
    ResourceId
    → Result SubnetAllocator
    → Assoc ResourceId SubnetAllocator
    → Assoc ResourceId SubnetAllocator
with_allocator id (ok alloc) ipam = insert id alloc ipam
with_allocator id (err e) ipam = ipam

-- A subnet with another capability.
abbrev pub changed_egress : Time → EgressMode → Subnet → Subnet
changed_egress now mode s = record s { egress = mode; metadata = touch now s.metadata }

abbrev pub ipam_named : ResourceId → String
ipam_named id = concat (subnet_named id) " IPAM"

-- `?` after the programming: its failure is the result.
abbrev pub or_failure {ℓ} : {A : Type ℓ} → Result (Unit {0}) → A → Result A
or_failure (ok _) a = ok a
or_failure (err e) a = err e

scope_named : AclScope → String
scope_named (AclScope.vpc vpc_id) = vpc_named vpc_id
scope_named (AclScope.subnet subnet_id) = subnet_named subnet_id

module _ {W : Type 0} where
  abbrev pub new : Registry (NetworkBackend W) → NetworkController W
  new backends = record {
    vpcs = [];
    subnets = [];
    routes = [];
    policies = [];
    ipam = [];
    backends = backends;
  }

  -- The loop over the backends: the first failure ends it.
  pub fan_out_to :
      (NetworkBackend W → W → W × Result (Unit {0}))
      → List (NetworkBackend W)
      → W
      → W × Result (Unit {0})
  fan_out_to op [] w = (w, ok tt)
  fan_out_to op (b ∷ bs) w = elim (op b w).1 [
    | ok _ ↦ fan_out_to op bs (op b w).0
    | err e ↦ ((op b w).0, err e)
  ]

  pub fan_out :
      NetworkController W
      → (NetworkBackend W → W → W × Result (Unit {0}))
      → W
      → W × Result (Unit {0})
  unfolding fan_out_to Registry.all_providers
  fan_out c op w = fan_out_to op (Registry.all_providers c.backends) w

  pub fan_out_egress : NetworkController W → Subnet → List Text → W → W × Result (Unit {0})
  unfolding fan_out
  fan_out_egress c subnet allowed w = fan_out c (λ b. b.apply_egress subnet allowed) w

  unfoldable pub create_vpc : NetworkController W → Vpc → W → NetworkController W × W × Result Vpc
  unfolding fan_out
  create_vpc c vpc w =
      if contains_key vpc.metadata.id c.vpcs
      then (c, w, err (already_exists (vpc_named vpc.metadata.id)))
      else (
        record c { vpcs = insert vpc.metadata.id vpc c.vpcs },
        (fan_out c (λ b. b.apply_vpc vpc) w).0,
        ok vpc,
      )

  unfoldable pub get_vpc : NetworkController W → ResourceId → Result Vpc
  get_vpc c id = ok_or (lookup id c.vpcs) (not_found (vpc_named id))

  -- Each backend is tried, whatever the others answer.
  peers_to : Vpc → List String → List (NetworkBackend W) → W → W
  peers_to vpc peer_vteps [] w = w
  peers_to vpc peer_vteps (b ∷ bs) w =
      peers_to vpc peer_vteps bs (b.apply_vpc_peers vpc peer_vteps w).0

  unfoldable pub refresh_vpc_peers :
      NetworkController W → ResourceId → List String → W → W × Result (Unit {0})
  unfolding peers_to Registry.all_providers get_vpc
  refresh_vpc_peers c vpc_id peer_vteps w = elim (get_vpc c vpc_id) [
    | ok vpc ↦ (peers_to vpc peer_vteps (Registry.all_providers c.backends) w, ok tt)
    | err e ↦ (w, err e)
  ]

  unfoldable pub list_vpcs : NetworkController W → List Vpc
  list_vpcs c = values c.vpcs

  -- Some subnet belongs to the VPC.
  pub has_subnets : NetworkController W → ResourceId → Bool
  has_subnets c id = any (λ s. string_eq.beq s.vpc_id id) (values c.subnets)

  unfoldable pub delete_vpc :
      NetworkController W → ResourceId → NetworkController W × Result (Unit {0})
  unfolding has_subnets
  delete_vpc c id =
      if has_subnets c id
      then (c, err (conflict (concat (vpc_named id) " still has subnets")))
      else if contains_key id c.vpcs
      then (record c { vpcs = remove id c.vpcs }, ok tt)
      else (c, err (not_found (vpc_named id)))

  -- The state after a subnet is recorded.
  pub with_subnet : Printer → NetworkController W → Subnet → NetworkController W
  unfolding with_allocator
  with_subnet p c subnet = record c {
    subnets = insert subnet.metadata.id subnet c.subnets;
    ipam = with_allocator subnet.metadata.id (Ipam.new p subnet.cidr) c.ipam;
  }

  -- The programming of a new subnet: its dataplane, and NAT with nobody opted in.
  pub program_subnet : NetworkController W → Subnet → W → W
  unfolding fan_out fan_out_egress
  program_subnet c subnet w =
      let w' = (fan_out c (λ b. b.apply_subnet subnet) w).0 in
      if provides_egress subnet.egress then (fan_out_egress c subnet [] w').0 else w'

  unfoldable pub create_subnet :
      Printer → NetworkController W → Subnet → W → NetworkController W × W × Result Subnet
  unfolding with_subnet program_subnet
  create_subnet p c subnet w =
      if contains_key subnet.vpc_id c.vpcs
      then if contains_key subnet.metadata.id c.subnets
        then (c, w, err (already_exists (subnet_named subnet.metadata.id)))
        else (with_subnet p c subnet, program_subnet c subnet w, ok subnet)
      else (c, w, err (not_found (vpc_named subnet.vpc_id)))

  unfoldable pub set_subnet_egress :
      Time
      → NetworkController W
      → ResourceId
      → EgressMode
      → List Text
      → W
      → NetworkController W × W × Result Subnet
  unfolding fan_out_egress
  set_subnet_egress now c subnet_id mode allowed w = elim (lookup subnet_id c.subnets) [
    | none ↦ (c, w, err (not_found (subnet_named subnet_id)))
    | some s ↦ (
      record c { subnets = insert subnet_id (changed_egress now mode s) c.subnets },
      (fan_out_egress c (changed_egress now mode s) allowed w).0,
      ok (changed_egress now mode s),
    )
  ]

  unfoldable pub get_subnet : NetworkController W → ResourceId → Result Subnet
  get_subnet c id = ok_or (lookup id c.subnets) (not_found (subnet_named id))

  unfoldable pub refresh_subnet_egress :
      NetworkController W → ResourceId → List Text → W → W × Result (Unit {0})
  unfolding fan_out_egress get_subnet
  refresh_subnet_egress c subnet_id allowed w = elim (get_subnet c subnet_id) [
    | ok subnet ↦ fan_out_egress c subnet allowed w
    | err e ↦ (w, err e)
  ]

  unfoldable pub list_subnets : NetworkController W → ResourceId → List Subnet
  list_subnets c vpc_id = filter (λ s. string_eq.beq s.vpc_id vpc_id) (values c.subnets)

  abbrev pub with_ipam : NetworkController W → ResourceId → SubnetAllocator → NetworkController W
  with_ipam c subnet_id alloc = record c { ipam = insert subnet_id alloc c.ipam }

  -- `none` only where the search of an address does not end.
  unfoldable pub allocate_address :
      Printer → NetworkController W → ResourceId → Option (NetworkController W × Result Text)
  allocate_address p c subnet_id = elim (lookup subnet_id c.ipam) [
    | none ↦ some (c, err (not_found (ipam_named subnet_id)))
    | some alloc ↦ elim (Ipam.allocate p alloc) [
      | none ↦ none
      | some (alloc', address) ↦ some (with_ipam c subnet_id alloc', address)
    ]
  ]

  unfoldable pub reserve_address :
      Printer → NetworkController W → ResourceId → Text → NetworkController W × Result (Unit {0})
  reserve_address p c subnet_id address = elim (lookup subnet_id c.ipam) [
    | none ↦ (c, err (not_found (ipam_named subnet_id)))
    | some alloc ↦ let r = Ipam.reserve p alloc address in (with_ipam c subnet_id r.0, r.1)
  ]

  unfoldable pub release_address : NetworkController W → ResourceId → Text → NetworkController W
  release_address c subnet_id address = elim (lookup subnet_id c.ipam) [
    | none ↦ c
    | some alloc ↦ with_ipam c subnet_id (Ipam.release alloc address)
  ]

  unfoldable pub add_route :
      NetworkController W → Route → W → NetworkController W × W × Result Route
  unfolding fan_out
  add_route c route w =
      if contains_key route.subnet_id c.subnets
      then (
        record c { routes = insert route.id route c.routes },
        (fan_out c (λ b. b.apply_route route) w).0,
        or_failure (fan_out c (λ b. b.apply_route route) w).1 route,
      )
      else (c, w, err (not_found (subnet_named route.subnet_id)))

  unfoldable pub list_routes : NetworkController W → ResourceId → List Route
  list_routes c subnet_id = filter (λ r. string_eq.beq r.subnet_id subnet_id) (values c.routes)

  scope_exists : NetworkController W → AclScope → Bool
  scope_exists c (AclScope.vpc vpc_id) = contains_key vpc_id c.vpcs
  scope_exists c (AclScope.subnet subnet_id) = contains_key subnet_id c.subnets

  unfoldable pub apply_policy :
      NetworkController W → FirewallPolicy → W → NetworkController W × W × Result FirewallPolicy
  unfolding fan_out scope_exists scope_named
  apply_policy c policy w =
      if scope_exists c policy.scope
      then (
        record c { policies = insert policy.id policy c.policies },
        (fan_out c (λ b. b.apply_policy policy) w).0,
        or_failure (fan_out c (λ b. b.apply_policy policy) w).1 policy,
      )
      else (c, w, err (not_found (scope_named policy.scope)))

  unfoldable pub list_policies : NetworkController W → List FirewallPolicy
  list_policies c = values c.policies

  unfoldable pub delete_policy :
      NetworkController W → ResourceId → NetworkController W × Result (Unit {0})
  delete_policy c id =
      if contains_key id c.policies
      then (record c { policies = remove id c.policies }, ok tt)
      else (c, err (not_found (concat "policy " id)))
