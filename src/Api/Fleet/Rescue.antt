-- ===== src/Api/Fleet/Rescue.antt =====
-- crates/ocf-api/src/fleet.rs: what happens to the workloads of a node that died.
use open_compute_fabric_rs.Prelude.{
  ◌≡◌, ◌≢◌, refl, inl, inr, true, not, List, [], ◌∷◌, Option, none, some, string_eq, Bool-cases,
  Member, here, there, Member-of_filter,
}
use open_compute_fabric_rs.Prelude.Float.{F64}
use open_compute_fabric_rs.Core.Effect.{Keeps, >>=-Keeps}
use open_compute_fabric_rs.Core.Scope.{ResourceId}
use open_compute_fabric_rs.Core.Registry as Registry
use open_compute_fabric_rs.Core.Registry.{Registry}
use open_compute_fabric_rs.Topology.Model.{Machine}
use open_compute_fabric_rs.Topology.Store.{InMemoryTopology, all_machines}
use open_compute_fabric_rs.Fabric.Membership.{Membership}
use open_compute_fabric_rs.Runtime.Workload.{Workload}
use open_compute_fabric_rs.Runtime.Provider.{RuntimeProvider}
use open_compute_fabric_rs.Api.Fleet.{
  pick_target, survivors, moved_to, runs_on, replace, rescue, handle_workload, handle_workloads,
  listed, handle_providers, handle_node_dead,
}
use open_compute_fabric_rs.Api.Fleet.Placement.{Satisfies, pick_target_lem}

module _ {f : F64} (topology : InMemoryTopology) (membership : Membership f)
    (dead : ResourceId) where
  -- A workload as it is recreated: marked highly available, and put on a machine of an alive member
  -- that is not the dead one, is known to the topology, and satisfies it.
  abbrev pub WellPlaced : Workload → Type 0
  WellPlaced wl =
      (wl.highly_available ≡ true)
      × ((target : ResourceId) × (wl.node ≡ some target)
          × (target ≢ dead)
          × Member target (survivors membership dead)
          × ((m : Machine) × Member m (all_machines topology)
              × (m.metadata.id ≡ target)
              × Satisfies wl m))

  not_dead : {id : ResourceId} → Member id (survivors membership dead) → id ≢ dead
  unfolding survivors
  not_dead {id} m e =
      let kept = (Member-of_filter (λ x. not (string_eq.beq x dead)) _ m).1 in
      cc (kept, (string_eq.beq_iff id dead).1 e)

  moved-WellPlaced :
      (wl : Workload) (target : ResourceId)
      → wl.highly_available ≡ true
      → pick_target wl (survivors membership dead) (all_machines topology) ≡ some target
      → WellPlaced (moved_to target wl)
  moved-WellPlaced wl target ha e =
      let (alive, rest) =
        (pick_target_lem wl (survivors membership dead) (all_machines topology)).0 target e in
      let (m, known, same, good) = rest in
      (
        ha,
        (
          target,
          refl,
          not_dead alive,
          alive,
          (
            m,
            known,
            same,
            record {
              placed = good.placed;
              labelled = good.labelled;
              cpu = good.cpu;
              memory = good.memory;
              disk = good.disk;
            },
          ),
        ),
      )

  module _ {κ} {W : Type 0} (P : W → Type κ) where
    -- A property of the world that a backend keeps when it stops, deletes or starts workloads, and when
    -- it creates a well placed one.
    pub record Respects (p : RuntimeProvider W) : Type κ where
      pub delete_keeps : (id : ResourceId) → Keeps P (p.delete id)
      pub stop_keeps : (id : ResourceId) → Keeps P (p.stop id)
      pub start_keeps : (id : ResourceId) → Keeps P (p.start id)
      pub create_keeps : (wl : Workload) → WellPlaced wl → Keeps P (p.create wl)

    replace-Keeps :
        (p : RuntimeProvider W) (wl : Workload) (target : ResourceId)
        → Respects p
        → WellPlaced (moved_to target wl)
        → Keeps P (replace p wl target)
    unfolding replace
    replace-Keeps p wl target r good =
        >>=-Keeps P (p.delete wl.metadata.id) _ (r.delete_keeps wl.metadata.id) (λ _.
          >>=-Keeps P (p.create (moved_to target wl)) _ (r.create_keeps (moved_to target wl) good)
            (λ _.
              >>=-Keeps P (p.start wl.metadata.id) _ (r.start_keeps wl.metadata.id) (λ _ w h. h)))

    rescue-Keeps :
        (p : RuntimeProvider W) (wl : Workload) (target : Option ResourceId)
        → Respects p
        → wl.highly_available ≡ true
        → pick_target wl (survivors membership dead) (all_machines topology) ≡ target
        → Keeps P (rescue p wl target)
    unfolding rescue
    rescue-Keeps p wl none r ha e = λ w h. h
    rescue-Keeps p wl (some target) r ha e =
        replace-Keeps p wl target r (moved-WellPlaced wl target ha e)

    handle_workload-Keeps :
        (p : RuntimeProvider W) (wl : Workload)
        → Respects p
        → Keeps P (handle_workload p dead (survivors membership dead) (all_machines topology) wl)
    unfolding handle_workload
    handle_workload-Keeps p wl r w h = elim (Bool-cases (runs_on dead wl.node)) [
      | inr elsewhere ↦ rw elsewhere h
      | inl here_ ↦ elim (Bool-cases wl.highly_available) [
        | inl ha ↦ simp (here_, ha) (rescue-Keeps p wl _ r ha refl w h)
        | inr lost ↦ rw (here_, lost) (r.stop_keeps wl.metadata.id w h)
      ]
    ]

    handle_workloads-Keeps :
        (p : RuntimeProvider W) (wls : List Workload)
        → Respects p
        → Keeps P (handle_workloads p dead (survivors membership dead) (all_machines topology) wls)
    unfolding handle_workloads
    handle_workloads-Keeps p [] r = λ w h. h
    handle_workloads-Keeps p (wl ∷ wls) r =
        >>=-Keeps P (handle_workload p dead (survivors membership dead) (all_machines topology) wl)
          _ (handle_workload-Keeps p wl r)
          (λ moves.
            >>=-Keeps P
              (handle_workloads p dead (survivors membership dead) (all_machines topology) wls) _
              (handle_workloads-Keeps p wls r) (λ rest w h. h))

    handle_providers-Keeps :
        (ps : List (RuntimeProvider W))
        → ((p : RuntimeProvider W) → Member p ps → Respects p)
        → Keeps P (handle_providers ps dead (survivors membership dead) (all_machines topology))
    unfolding handle_providers
    handle_providers-Keeps [] r = λ w h. h
    handle_providers-Keeps (p ∷ ps) r =
        >>=-Keeps P
          (λ w.
            handle_workloads p dead (survivors membership dead) (all_machines topology)
              (listed (p.list w)) w)
          _ (λ w h. handle_workloads-Keeps p (listed (p.list w)) (r p (here refl)) w h)
          (λ moves.
            >>=-Keeps P
              (handle_providers ps dead (survivors membership dead) (all_machines topology)) _
              (handle_providers-Keeps ps (λ q m. r q (there m))) (λ rest w h. h))

    -- Handling a dead node creates only well placed workloads: whatever holds of the world, and is kept
    -- by every backend's stop, delete and start and by its creation of highly available workloads on
    -- surviving, known machines that satisfy them, holds after it, also where a call fails midway.
    pub handle_node_dead-Keeps :
        (runtimes : Registry (RuntimeProvider W))
        → ((p : RuntimeProvider W) → Member p (Registry.all_providers runtimes) → Respects p)
        → (w : W) → P w
        → P (handle_node_dead topology membership runtimes dead w).0
    unfolding handle_node_dead
    handle_node_dead-Keeps runtimes r w h =
        handle_providers-Keeps (Registry.all_providers runtimes) r w h
