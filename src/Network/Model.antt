-- ===== src/Network/Model.antt =====
-- crates/ocf-network/src/model.rs: VPCs, subnets, routes and firewall policies. Fresh ids and the
-- time are arguments; a CIDR is a text of code points, as in Network.Ipam.
use open_compute_fabric_rs.Prelude.{ℕ, String, Bool, true, false, List, [], ◌∷◌, ◌++◌, Option}
use open_compute_fabric_rs.Prelude.Text.{Text}
use open_compute_fabric_rs.Core.Scope.{ResourceId}
use open_compute_fabric_rs.Core.Metadata.{Metadata, Time, named}

pub record Vpc : Type 0 where
  pub metadata : Metadata
  pub cidr : Text
  pub vni : ℕ

abbrev pub new_vpc : Time → String → Text → ℕ → Vpc
new_vpc now name cidr vni = record { metadata = named now name; cidr = cidr; vni = vni }

pub data EgressMode : Type 0 where
  isolated nat : EgressMode

abbrev pub provides_egress : EgressMode → Bool
provides_egress EgressMode.isolated = false
provides_egress EgressMode.nat = true

pub record Subnet : Type 0 where
  pub metadata : Metadata
  pub vpc_id : ResourceId
  pub cidr : Text
  pub netns : String
  pub egress : EgressMode

abbrev pub new_subnet : Time → ResourceId → String → Text → String → Subnet
new_subnet now vpc_id name cidr netns = record {
  metadata = named now name;
  vpc_id = vpc_id;
  cidr = cidr;
  netns = netns;
  egress = EgressMode.isolated;
}

abbrev pub with_egress : Subnet → EgressMode → Subnet
with_egress s mode = record s { egress = mode }

pub record Route : Type 0 where
  pub id : ResourceId
  pub subnet_id : ResourceId
  pub dest_cidr : Text
  pub next_hop : String

abbrev pub new_route : ResourceId → ResourceId → Text → String → Route
new_route fresh subnet_id dest_cidr next_hop = record {
  id = fresh;
  subnet_id = subnet_id;
  dest_cidr = dest_cidr;
  next_hop = next_hop;
}

pub data AclAction : Type 0 where
  allow deny : AclAction

pub data AclDirection : Type 0 where
  ingress egress : AclDirection

pub record AclRule : Type 0 where
  pub id : ResourceId
  pub action : AclAction
  pub direction : AclDirection
  pub proto : String
  pub cidr : Text
  pub port : Option ℕ

abbrev pub new_rule : ResourceId → AclAction → AclDirection → String → Text → Option ℕ → AclRule
new_rule fresh action direction proto cidr port = record {
  id = fresh;
  action = action;
  direction = direction;
  proto = proto;
  cidr = cidr;
  port = port;
}

pub data AclScope : Type 0 where
  vpc : ResourceId → AclScope
  subnet : ResourceId → AclScope

pub record FirewallPolicy : Type 0 where
  pub id : ResourceId
  pub scope : AclScope
  pub rules : List AclRule

abbrev pub new_policy : ResourceId → AclScope → FirewallPolicy
new_policy fresh scope = record { id = fresh; scope = scope; rules = [] }

abbrev pub with_rule : FirewallPolicy → AclRule → FirewallPolicy
with_rule p rule = record p { rules = p.rules ++ rule ∷ [] }
