-- ===== src/Fabric.antt =====
-- crates/ocf-fabric: the mesh of nodes.
pub mod Node
pub mod Membership
pub mod RouteGraph
pub mod Wire
mod Examples
mod RoutesExamples
mod WireExamples
