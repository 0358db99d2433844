-- ===== src/Runtime/Migration/Safety.antt =====
-- crates/ocf-runtime/src/migration.rs: where a workload may land, and what a failure leaves.
use open_compute_fabric_rs.Prelude.{
  ◌≡◌, ◌↔◌, ◌∙◌, refl, sym, ap, subst₂, true, some, inl, inr, Bool-cases,
}
use open_compute_fabric_rs.Core.Error.{Error, Result, ok, err}
use open_compute_fabric_rs.Core.Scope.{ResourceId, Scope, contains}
use open_compute_fabric_rs.Runtime.Workload.{Workload, MemorySnapshot, permits_placement}
use open_compute_fabric_rs.Runtime.Workload.Placement.{permits_placement_iff}
use open_compute_fabric_rs.Runtime.Migration.{
  MigrationReport, Migrator, transferred, retire, report, restored, dumped, migrate,
}

module _ {W : Type 0} (m : Migrator W) (workload : Workload) (target_node : ResourceId) where
  -- What a migration that reports success did: the source's dump of the workload succeeded, the target
  -- restored what was dumped with the target as its node, and only then did the source stop and delete
  -- its copy. The report names the workload, the node it left, the target and what was restored.
  abbrev pub Migrated : W × Result MemorySnapshot → W → MigrationReport → Type 0
  Migrated d w' r =
      (s : MemorySnapshot) × (v : W) × (d ≡ (v, ok s))
      × (u : W) × (m.target.restore (record s { node = some target_node }) v ≡ (u, ok tt))
      × (w' ≡ (m.source.delete workload.metadata.id (m.source.stop workload.metadata.id u).0).0)
      × (r ≡ record {
        workload_id = workload.metadata.id;
        source_node = workload.node;
        target_node = target_node;
        snapshot = record s { node = some target_node };
      })

  restored_iff :
      (s : MemorySnapshot) (p : W × Result (Unit {0})) (w' : W) (r : MigrationReport)
      → (restored m workload target_node (transferred target_node s) p ≡ (w', ok r)) ↔ (
          (u : W) × (p ≡ (u, ok tt))
          × (w' ≡ (m.source.delete workload.metadata.id (m.source.stop workload.metadata.id u).0).0)
          × (r ≡ report workload target_node (transferred target_node s)))
  unfolding restored retire
  restored_iff s (u, err e) w' r = ((λ h. absurd (cc)), λ (v, e, q, p). absurd (cc))
  restored_iff s (u, ok x) w' r = (
    (λ h. (u, refl, sym (ap (λ (y : W × Result MigrationReport). y.0) h), cc)),
    λ (v, e, q, p). let same : v ≡ u = cc in cc,
  )

  dumped_iff :
      (d : W × Result MemorySnapshot) (w' : W) (r : MigrationReport)
      → (dumped m workload target_node d ≡ (w', ok r)) ↔ Migrated d w' r
  unfolding dumped report
  dumped_iff (v, err e) w' r = ((λ h. absurd (cc)), λ (s, u, q, x, a, b, c). absurd (cc))
  dumped_iff (v, ok s) w' r =
      let inner = restored_iff s (m.target.restore (transferred target_node s) v) w' r in
      (
        (λ h. let (u, a, b, c) = inner.0 h in (s, v, refl, u, a, b, c)),
        λ (t, v', q, u, a, b, c).
            let same_s : t ≡ s = cc in
            let same_v : v' ≡ v = cc in
            inner.1 (
              u,
              subst₂
                  (λ (x : MemorySnapshot) (y : W).
                    m.target.restore (transferred target_node x) y ≡ (u, ok tt))
                  same_s same_v a,
              b,
              c ∙ ap (λ x. report workload target_node (transferred target_node x)) same_s,
            ),
      )

  -- A migration reports success exactly if both backends support migration, the workload's
  -- placement, if it has one, contains the target's scope, the source's dump succeeds and the
  -- target's restore of the dump, with the target as its node, does; the world is then the one in
  -- which, after the restore, the source stopped and then deleted its copy, and the report names the
  -- workload, the node it left, the target and the snapshot that was restored.
  pub migrate_iff :
      (target_scope : Scope) (w w' : W) (r : MigrationReport)
      → (migrate m workload target_node target_scope w ≡ (w', ok r)) ↔ (
          (m.source.supports_migration ≡ true)
          × (m.target.supports_migration ≡ true)
          × ((s : Scope) → workload.placement ≡ some s → contains s target_scope ≡ true)
          × Migrated (m.source.dump_memory workload.metadata.id w) w' r)
  unfolding migrate
  migrate_iff target_scope w w' r =
      let placed = permits_placement_iff workload target_scope in
      let run = dumped_iff (m.source.dump_memory workload.metadata.id w) w' r in
      (
        (λ h. elim (Bool-cases m.source.supports_migration) [
          | inr a ↦ absurd (cc (rw (a) at h))
          | inl a ↦ elim (Bool-cases m.target.supports_migration) [
            | inr b ↦ absurd (cc (rw (a, b) at h))
            | inl b ↦ elim (Bool-cases (permits_placement workload target_scope)) [
              | inr c ↦ absurd (cc (rw (a, b, c) at h))
              | inl c ↦ (a, b, placed.0 c, run.0 (rw (a, b, c) at h))
            ]
          ]
        ]),
        λ (a, b, c, d). rw (a, b, placed.1 c) (run.1 d),
      )

  module _ {κ} (P : W → Type κ)
      (dump_keeps : (w : W) → P w → P (m.source.dump_memory workload.metadata.id w).0)
      (restore_keeps : (s : MemorySnapshot) (w : W) → P w → P (m.target.restore s w).0) where
    restored_err :
        (s : MemorySnapshot) (p : W × Result (Unit {0})) {e : Error}
        → P p.0
        → (restored m workload target_node s p).1 ≡ err e
        → P (restored m workload target_node s p).0
    unfolding restored
    restored_err s (w, err e) h q = h
    restored_err s (w, ok x) h q = absurd (cc)

    dumped_err :
        (d : W × Result MemorySnapshot) {e : Error}
        → P d.0
        → (dumped m workload target_node d).1 ≡ err e
        → P (dumped m workload target_node d).0
    unfolding dumped
    dumped_err (v, err e) h q = h
    dumped_err (v, ok s) h q =
        restored_err (transferred target_node s) (m.target.restore (transferred target_node s) v)
          (restore_keeps (transferred target_node s) v h) q

    -- A migration that fails has not stopped or deleted anything: whatever holds of the world before
    -- and is kept by the source's dump and the target's restore holds after it.
    pub migrate_err :
        (target_scope : Scope) (w : W) {e : Error}
        → P w
        → (migrate m workload target_node target_scope w).1 ≡ err e
        → P (migrate m workload target_node target_scope w).0
    unfolding migrate
    migrate_err target_scope w h q = elim (Bool-cases m.source.supports_migration) [
      | inr a ↦ rw a h
      | inl a ↦ elim (Bool-cases m.target.supports_migration) [
        | inr b ↦ rw (a, b) h
        | inl b ↦ elim (Bool-cases (permits_placement workload target_scope)) [
          | inr c ↦ rw (a, b, c) h
          | inl c ↦
              rw (a, b, c)
                (dumped_err (m.source.dump_memory workload.metadata.id w) (dump_keeps w h)
                  (rw (a, b, c) at q))
        ]
      ]
    ]
