-- ===== src/Runtime.antt =====
-- crates/ocf-runtime: workloads on containers and virtual machines.
pub mod Autoscaler
pub mod Workload
pub mod Provider
pub mod Migration
mod Examples
mod MigrationExamples
