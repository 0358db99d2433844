-- ===== src/Api.antt =====
-- crates/ocf-api: the REST API over the subsystems.
pub mod Base64
pub mod Access
pub mod Fleet
pub mod WireGuard
pub mod Attachments
mod Examples
mod FleetExamples
mod WireGuardExamples
mod AttachmentsExamples
