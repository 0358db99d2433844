-- ===== src/Runtime/MigrationExamples.antt =====
-- crates/ocf-runtime/src/migration.rs: a container moved to a machine of the allowed region.
use open_compute_fabric_rs.Prelude.{
  ◌≡◌, ◌↔◌, some, refl, String, true, List, [], ◌∷◌, none, string_eq, ap, all, not,
}
use open_compute_fabric_rs.Core.Error.{Result, ok, err, provider}
use open_compute_fabric_rs.Core.Scope.{Scope, of_region, of_machine, contains, level_ok}
use open_compute_fabric_rs.Core.Health.{LifecycleState}
use open_compute_fabric_rs.Runtime.Workload.{
  RuntimeKind, Workload, new_container, within, MemorySnapshot, new_snapshot, permits_placement,
}
use open_compute_fabric_rs.Runtime.Provider.{RuntimeProvider}
use open_compute_fabric_rs.Runtime.Migration.{Migrator, MigrationReport, migrate}
use open_compute_fabric_rs.Runtime.Migration.Safety.{Migrated, migrate_iff, migrate_err}

-- The world is the list of calls, the newest first; a restore answers as told.
abbrev logging : String → Result (Unit {0}) → RuntimeProvider (List String)
logging name answer = record {
  name = name;
  kind = RuntimeKind.container;
  supports_migration = true;
  create = λ wl w. ("create" ∷ w, ok tt);
  start = λ id w. ("start" ∷ w, ok tt);
  stop = λ id w. ("stop" ∷ w, ok tt);
  delete = λ id w. ("delete" ∷ w, ok tt);
  status = λ id w. ok LifecycleState.running;
  list = λ w. ok [];
  host_pid = λ id w. ok none;
  dump_memory = λ id w. ("dump" ∷ w, ok (new_snapshot "blob" id none 512));
  restore = λ s w. ("restore" ∷ w, answer);
}

abbrev good : Migrator (List String)
good = record { source = logging "a" (ok tt); target = logging "b" (ok tt) }

abbrev bad : Migrator (List String)
bad = record { source = logging "a" (ok tt); target = logging "b" (err (provider "b" "no space")) }

abbrev web : Workload
web = within (new_container "w1" 0 "web" "nginx") (of_region "us")

abbrev m2 : Scope
m2 = of_machine "us" "dc1" "r1" "m2"

failed : migrate bad web "m2" m2 [] ≡ ("restore" ∷ "dump" ∷ [], err (provider "b" "no space"))
unfolding migrate new_container permits_placement contains level_ok
failed = refl

abbrev moved : MemorySnapshot
moved = record (new_snapshot "blob" "w1" none 512) { node = some "m2" }

abbrev log : List String
log = "delete" ∷ "stop" ∷ "restore" ∷ "dump" ∷ []

abbrev migration : MigrationReport
migration = record { workload_id = "w1"; source_node = none; target_node = "m2"; snapshot = moved }

migrated : migrate good web "m2" m2 [] ≡ (log, ok migration)
unfolding migrate new_container permits_placement contains level_ok
migrated = refl

migrate_iff_example : (migrate good web "m2" m2 [] ≡ (log, ok migration)) ↔ (
    (good.source.supports_migration ≡ true)
    × (good.target.supports_migration ≡ true)
    × ((s : Scope) → web.placement ≡ some s → contains s m2 ≡ true)
    × Migrated good web "m2" (good.source.dump_memory web.metadata.id []) log migration)
migrate_iff_example = migrate_iff good web "m2" m2 [] log migration

Migrated-log : Migrated good web "m2" (good.source.dump_memory web.metadata.id []) log migration
Migrated-log = (migrate_iff_example.0 migrated).3

-- No call of the log deletes.
abbrev Kept : List String → Type 0
Kept w = all (λ c. not (string_eq.beq c "delete")) w ≡ true

migrate_err_example : Kept (migrate bad web "m2" m2 []).0
unfolding all
migrate_err_example =
    migrate_err bad web "m2" Kept (λ w h. h) (λ s w h. h) m2 [] refl (ap (λ x. x.1) failed)
