-- ===== src/Topology.antt =====
-- crates/ocf-topology: the tree of regions, datacenters, racks and machines.
pub mod Model
pub mod Store
pub mod Service
mod Examples
