-- ===== src/Topology/Model.antt =====
-- crates/ocf-topology/src/model.rs: the nodes of the fleet's tree and their scopes.
use open_compute_fabric_rs.Prelude.{ℕ, String, Option, none}
use open_compute_fabric_rs.Core.Metadata as Metadata
use open_compute_fabric_rs.Core.Metadata.{Time}
use open_compute_fabric_rs.Core.Scope.{
  ResourceId, Scope, of_region, of_datacenter, of_rack, of_machine,
}
use open_compute_fabric_rs.Core.Quantity.{ResourceSpec}
use open_compute_fabric_rs.Core.Quantity as Quantity
use open_compute_fabric_rs.Core.Health.{Health, LifecycleState}

pub record Region : Type 0 where
  pub metadata : Metadata.Metadata
  pub locality : String

abbrev pub new_region : Time → String → Region
new_region now name = record { metadata = Metadata.named now name; locality = "" }

abbrev pub region_scope : Region → Scope
region_scope r = of_region r.metadata.id

pub record Datacenter : Type 0 where
  pub metadata : Metadata.Metadata
  pub region_id : ResourceId
  pub address : String

abbrev pub new_datacenter : Time → ResourceId → String → Datacenter
new_datacenter now region_id name = record {
  metadata = Metadata.named now name;
  region_id = region_id;
  address = "";
}

abbrev pub datacenter_scope : Datacenter → Scope
datacenter_scope d = of_datacenter d.region_id d.metadata.id

pub record Rack : Type 0 where
  pub metadata : Metadata.Metadata
  pub region_id : ResourceId
  pub datacenter_id : ResourceId
  pub units : ℕ

abbrev pub new_rack : Time → ResourceId → ResourceId → String → Rack
new_rack now region_id datacenter_id name = record {
  metadata = Metadata.named now name;
  region_id = region_id;
  datacenter_id = datacenter_id;
  units = 42;
}

abbrev pub rack_scope : Rack → Scope
rack_scope k = of_rack k.region_id k.datacenter_id k.metadata.id

pub record Machine : Type 0 where
  pub metadata : Metadata.Metadata
  pub region_id : ResourceId
  pub datacenter_id : ResourceId
  pub rack_id : ResourceId
  pub rack_position : Option ℕ
  pub fabric_address : Option String
  pub capacity : ResourceSpec
  pub state : LifecycleState
  pub health : Health

abbrev pub new_machine : Time → ResourceId → ResourceId → ResourceId → String → Machine
new_machine now region_id datacenter_id rack_id name = record {
  metadata = Metadata.named now name;
  region_id = region_id;
  datacenter_id = datacenter_id;
  rack_id = rack_id;
  rack_position = none;
  fabric_address = none;
  capacity = Quantity.default;
  state = LifecycleState.pending;
  health = Health.unknown;
}

abbrev pub machine_scope : Machine → Scope
machine_scope m = of_machine m.region_id m.datacenter_id m.rack_id m.metadata.id
