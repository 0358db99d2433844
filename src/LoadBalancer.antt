-- ===== src/LoadBalancer.antt =====
-- crates/ocf-loadbalancer: load balancers, their backends, and the choice of a backend.
pub mod Model
pub mod Routing
pub mod Controller
mod Examples
