-- ===== src/Core/Health.antt =====
-- crates/ocf-core/src/health.rs: health and lifecycle of a resource.
use open_compute_fabric_rs.Prelude.{Bool, true, false}

pub data Health : Type 0 where
  unknown healthy degraded unhealthy : Health

pub data LifecycleState : Type 0 where
  pending provisioning running paused stopping stopped migrating failed terminated : LifecycleState

abbrev pub is_active : LifecycleState → Bool
is_active LifecycleState.running = true
is_active LifecycleState.migrating = true
is_active _ = false

abbrev pub is_terminal : LifecycleState → Bool
is_terminal LifecycleState.terminated = true
is_terminal LifecycleState.failed = true
is_terminal _ = false
