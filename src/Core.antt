-- ===== src/Core.antt =====
-- crates/ocf-core: the contracts that every subsystem shares.
pub mod Error
pub mod Effect
pub mod Scope
pub mod Metadata
pub mod Registry
pub mod Quantity
pub mod Health
mod Examples
