-- ===== src/Runtime/Migration.antt =====
-- crates/ocf-runtime/src/migration.rs: live migration between two backends. Both act on one world.
pub mod Safety
use open_compute_fabric_rs.Prelude.{String, Bool, true, false, Option, none, some, if◌then◌else◌}
use open_compute_fabric_rs.Core.Error.{Error, Result, ok, err, not_supported, forbidden, concat}
use open_compute_fabric_rs.Core.Scope.{ResourceId, Scope}
use open_compute_fabric_rs.Runtime.Workload.{Workload, MemorySnapshot, permits_placement}
use open_compute_fabric_rs.Runtime.Provider.{RuntimeProvider}

pub record MigrationReport : Type 0 where
  pub workload_id : ResourceId
  pub source_node : Option ResourceId
  pub target_node : ResourceId
  pub snapshot : MemorySnapshot

pub record Migrator (W : Type 0) : Type 0 where
  pub source : RuntimeProvider W
  pub target : RuntimeProvider W

-- "{role} backend `{name}` cannot migrate workload {wid}"
cannot_migrate : String → String → ResourceId → String
cannot_migrate role name wid =
    concat role (concat " backend `" (concat name (concat "` cannot migrate workload " wid)))

forbids : ResourceId → ResourceId → String
forbids wid target_node =
    concat "workload " (concat wid (concat " placement scope forbids migrating to " target_node))

-- The handle as it stands at the target.
abbrev pub transferred : ResourceId → MemorySnapshot → MemorySnapshot
transferred target_node s = record s { node = some target_node }

pub report : Workload → ResourceId → MemorySnapshot → MigrationReport
report workload target_node s = record {
  workload_id = workload.metadata.id;
  source_node = workload.node;
  target_node = target_node;
  snapshot = s;
}

module _ {W : Type 0} where
  -- The teardown of the source copy: failures are only logged.
  pub retire : Migrator W → ResourceId → W → W
  retire m wid w = (m.source.delete wid (m.source.stop wid w).0).0

  restored :
      Migrator W
      → Workload
      → ResourceId
      → MemorySnapshot
      → W × Result (Unit {0})
      → W × Result MigrationReport
  unfolding retire report
  restored m workload target_node s (w, err e) = (w, err e)
  restored m workload target_node s (w, ok _) =
      (retire m workload.metadata.id w, ok (report workload target_node s))

  dumped :
      Migrator W → Workload → ResourceId → W × Result MemorySnapshot → W × Result MigrationReport
  unfolding restored
  dumped m workload target_node (w, err e) = (w, err e)
  dumped m workload target_node (w, ok snapshot) =
      restored m workload target_node (transferred target_node snapshot)
        (m.target.restore (transferred target_node snapshot) w)

  unfoldable pub migrate :
      Migrator W → Workload → ResourceId → Scope → W → W × Result MigrationReport
  unfolding dumped cannot_migrate forbids permits_placement
  migrate m workload target_node target_scope w =
      if m.source.supports_migration
      then if m.target.supports_migration
        then if permits_placement workload target_scope
          then dumped m workload target_node (m.source.dump_memory workload.metadata.id w)
          else (w, err (forbidden (forbids workload.metadata.id target_node)))
        else (w, err (not_supported (cannot_migrate "target" m.target.name workload.metadata.id)))
      else (w, err (not_supported (cannot_migrate "source" m.source.name workload.metadata.id)))
