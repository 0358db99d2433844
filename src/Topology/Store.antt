-- ===== src/Topology/Store.antt =====
-- crates/ocf-topology/src/store.rs: the in-memory store. Its methods never fail but for a missing id.
use open_compute_fabric_rs.Prelude.{List, [], filter, string_eq}
use open_compute_fabric_rs.Prelude.Assoc.{Assoc, lookup, insert, values}
use open_compute_fabric_rs.Core.Error.{Result, not_found, ok_or, concat}
use open_compute_fabric_rs.Core.Scope.{ResourceId}
use open_compute_fabric_rs.Topology.Model.{Region, Datacenter, Rack, Machine}

pub record InMemoryTopology : Type 0 where
  pub regions : Assoc ResourceId Region
  pub datacenters : Assoc ResourceId Datacenter
  pub racks : Assoc ResourceId Rack
  pub machines : Assoc ResourceId Machine

abbrev pub new : InMemoryTopology
new = record { regions = []; datacenters = []; racks = []; machines = [] }

abbrev pub put_region : InMemoryTopology → Region → InMemoryTopology
put_region t region = record t { regions = insert region.metadata.id region t.regions }

abbrev pub get_region : InMemoryTopology → ResourceId → Result Region
get_region t id = ok_or (lookup id t.regions) (not_found (concat "region " id))

abbrev pub list_regions : InMemoryTopology → List Region
list_regions t = values t.regions

abbrev pub put_datacenter : InMemoryTopology → Datacenter → InMemoryTopology
put_datacenter t dc = record t { datacenters = insert dc.metadata.id dc t.datacenters }

abbrev pub list_datacenters : InMemoryTopology → ResourceId → List Datacenter
list_datacenters t region_id =
    filter (λ d. string_eq.beq d.region_id region_id) (values t.datacenters)

abbrev pub put_rack : InMemoryTopology → Rack → InMemoryTopology
put_rack t rack = record t { racks = insert rack.metadata.id rack t.racks }

abbrev pub list_racks : InMemoryTopology → ResourceId → List Rack
list_racks t datacenter_id =
    filter (λ k. string_eq.beq k.datacenter_id datacenter_id) (values t.racks)

abbrev pub put_machine : InMemoryTopology → Machine → InMemoryTopology
put_machine t machine = record t { machines = insert machine.metadata.id machine t.machines }

abbrev pub get_machine : InMemoryTopology → ResourceId → Result Machine
get_machine t id = ok_or (lookup id t.machines) (not_found (concat "machine " id))

abbrev pub list_machines : InMemoryTopology → ResourceId → List Machine
list_machines t rack_id = filter (λ m. string_eq.beq m.rack_id rack_id) (values t.machines)

abbrev pub all_machines : InMemoryTopology → List Machine
all_machines t = values t.machines
