-- ===== src/Authz.antt =====
-- crates/ocf-authz: role-based access control.
pub mod Permission
pub mod Model
pub mod Engine
mod Examples
