-- ===== src/Topology/Examples.antt =====
-- crates/ocf-topology: one machine in one rack.
use open_compute_fabric_rs.Prelude.{◌↔◌, [], ◌∷◌, string_eq}
use open_compute_fabric_rs.Topology.Model.{
  Region, Datacenter, Rack, Machine, new_region, new_datacenter, new_rack, new_machine,
}
use open_compute_fabric_rs.Topology.Store.{InMemoryTopology}
use open_compute_fabric_rs.Topology.Service.{tree, Shown, Stored, tree_iff}

abbrev us : Region
us = new_region 0 "us"

abbrev dc1 : Datacenter
dc1 = new_datacenter 0 "us" "dc1"

abbrev r1 : Rack
r1 = new_rack 0 "us" "dc1" "r1"

abbrev m1 : Machine
m1 = new_machine 0 "us" "dc1" "r1" "m1"

abbrev fleet : InMemoryTopology
fleet = record {
  regions = ("us", us) ∷ [];
  datacenters = ("dc1", dc1) ∷ [];
  racks = ("r1", r1) ∷ [];
  machines = ("m1", m1) ∷ [];
}

tree_iff_example : Shown (tree fleet) us dc1 r1 m1 ↔ Stored fleet us dc1 r1 m1
tree_iff_example = tree_iff fleet us dc1 r1 m1
