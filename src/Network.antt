-- ===== src/Network.antt =====
-- crates/ocf-network: the overlay network.
pub mod Ipam
pub mod Model
pub mod Controller
mod Examples
mod ControllerExamples
