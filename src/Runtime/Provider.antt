-- ===== src/Runtime/Provider.antt =====
-- crates/ocf-runtime/src/provider.rs: the contract of a runtime backend. A backend acts on a world
-- `W` outside; a call returns the new world and its result, and what only reads takes the world.
use open_compute_fabric_rs.Prelude.{ℕ, String, Bool, List, Option}
use open_compute_fabric_rs.Core.Error.{Result}
use open_compute_fabric_rs.Core.Scope.{ResourceId}
use open_compute_fabric_rs.Core.Health.{LifecycleState}
use open_compute_fabric_rs.Runtime.Workload.{RuntimeKind, Workload, MemorySnapshot}

pub record RuntimeProvider (W : Type 0) : Type 0 where
  pub name : String
  pub kind : RuntimeKind
  pub supports_migration : Bool
  pub create : Workload → W → W × Result (Unit {0})
  pub start : ResourceId → W → W × Result (Unit {0})
  pub stop : ResourceId → W → W × Result (Unit {0})
  pub delete : ResourceId → W → W × Result (Unit {0})
  pub status : ResourceId → W → Result LifecycleState
  pub list : W → Result (List Workload)
  pub host_pid : ResourceId → W → Result (Option ℕ)
  pub dump_memory : ResourceId → W → W × Result MemorySnapshot
  pub restore : MemorySnapshot → W → W × Result (Unit {0})
