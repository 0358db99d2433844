-- ===== src/Consensus.antt =====
-- crates/ocf-consensus: the replicated control-plane state.
pub mod Storage
pub mod StateMachine
mod Examples
