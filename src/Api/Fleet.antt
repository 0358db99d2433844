-- ===== src/Api/Fleet.antt =====
-- crates/ocf-api/src/fleet.rs: the placement of workloads, what happens when a node dies, and the
-- backends of a load balancer. The runtime backends act on a world outside; log messages are left out.
pub mod Placement
pub mod Rescue
pub mod Backends
use open_compute_fabric_rs.Prelude.{
  String, Bool, true, false, not, ◌&&◌, List, [], ◌∷◌, ◌++◌, Option, none, some, string_eq,
  is_empty, filter, find, map, if◌then◌else◌,
}
use open_compute_fabric_rs.Prelude.Assoc.{Assoc}
use open_compute_fabric_rs.Prelude.Float.{F64}
use open_compute_fabric_rs.Core.Error.{Result, ok, err, concat}
use open_compute_fabric_rs.Core.Effect.{Io, done, ◌>>=◌, ◌>>◌, attempt}
use open_compute_fabric_rs.Core.Scope.{ResourceId, Scope}
use open_compute_fabric_rs.Core.Metadata.{matches_labels}
use open_compute_fabric_rs.Core.Quantity.{fits_in}
use open_compute_fabric_rs.Core.Registry as Registry
use open_compute_fabric_rs.Core.Registry.{Registry}
use open_compute_fabric_rs.Topology.Model.{Machine, machine_scope}
use open_compute_fabric_rs.Topology.Store.{InMemoryTopology, all_machines}
use open_compute_fabric_rs.Fabric.Node.{FabricNode}
use open_compute_fabric_rs.Fabric.Membership.{Membership, alive_nodes}
use open_compute_fabric_rs.Runtime.Workload.{Workload, permits_placement}
use open_compute_fabric_rs.Runtime.Provider.{RuntimeProvider}
use open_compute_fabric_rs.LoadBalancer.Model.{Backend, new_backend, with_latency}

unfoldable pub machine_satisfies : Workload → Machine → Bool
unfolding permits_placement
machine_satisfies workload machine =
    permits_placement workload (machine_scope machine)
    && matches_labels machine.metadata workload.node_selector
    && fits_in workload.resources machine.capacity

unfoldable pub candidate_nodes : InMemoryTopology → Workload → List Machine
unfolding machine_satisfies
candidate_nodes topology workload = filter (machine_satisfies workload) (all_machines topology)

first_id : List Machine → Option ResourceId
first_id [] = none
first_id (m ∷ ms) = some m.metadata.id

unfoldable pub schedule : InMemoryTopology → Workload → Option ResourceId
unfolding candidate_nodes first_id
schedule topology workload = first_id (candidate_nodes topology workload)

-- `machines.iter().find(|m| m.metadata.id == id)`
pub machine_with : ResourceId → List Machine → Option Machine
machine_with id machines = find (λ m. string_eq.beq m.metadata.id id) machines

-- A machine of that id is known and satisfies the workload.
pub is_target : Workload → List Machine → ResourceId → Bool
unfolding machine_with machine_satisfies
is_target workload machines id = elim (machine_with id machines) [
  | none ↦ false
  | some machine ↦ machine_satisfies workload machine
]

unfoldable pub pick_target : Workload → List ResourceId → List Machine → Option ResourceId
unfolding is_target
pick_target workload alive machines = find (is_target workload machines) alive

-- `filter_map(|n| n.machine_id)`
machine_ids : List FabricNode → List ResourceId
machine_ids [] = []
machine_ids (n ∷ ns) = elim n.machine_id [ none ↦ machine_ids ns | some id ↦ id ∷ machine_ids ns ]

-- The machines of the alive members but the dead one.
pub survivors : {f : F64} → Membership f → ResourceId → List ResourceId
unfolding machine_ids
survivors membership dead =
    filter (λ id. not (string_eq.beq id dead)) (machine_ids (alive_nodes membership))

abbrev pub moved_to : ResourceId → Workload → Workload
moved_to target wl = record wl { node = some target }

runs_on : ResourceId → Option ResourceId → Bool
runs_on dead none = false
runs_on dead (some node) = string_eq.beq node dead

-- `unwrap_or_default`
pub listed : Result (List Workload) → List Workload
listed (ok wls) = wls
listed (err e) = []

module _ {W : Type 0} where
  -- Delete, recreate and start a workload at its new node.
  replace : RuntimeProvider W → Workload → ResourceId → Io W (List String)
  replace p wl target = do
    p.delete wl.metadata.id
    p.create (moved_to target wl)
    p.start wl.metadata.id
    done (concat wl.metadata.name (concat " -> " target) ∷ [])

  rescue : RuntimeProvider W → Workload → Option ResourceId → Io W (List String)
  unfolding replace
  rescue p wl none = done []
  rescue p wl (some target) = replace p wl target

  -- The body of the loop over the workloads of a backend.
  handle_workload :
      RuntimeProvider W
      → ResourceId
      → List ResourceId
      → List Machine
      → Workload
      → Io W (List String)
  unfolding rescue pick_target runs_on
  handle_workload p dead alive machines wl =
      if runs_on dead wl.node
      then if wl.highly_available
        then rescue p wl (pick_target wl alive machines)
        else attempt (p.stop wl.metadata.id) []
      else done []

  handle_workloads :
      RuntimeProvider W
      → ResourceId
      → List ResourceId
      → List Machine
      → List Workload
      → Io W (List String)
  unfolding handle_workload
  handle_workloads p dead alive machines [] = done []
  handle_workloads p dead alive machines (wl ∷ wls) = do
    moves ← handle_workload p dead alive machines wl
    rest ← handle_workloads p dead alive machines wls
    done (moves ++ rest)

  handle_providers :
      List (RuntimeProvider W) → ResourceId → List ResourceId → List Machine → Io W (List String)
  unfolding handle_workloads listed
  handle_providers [] dead alive machines = done []
  handle_providers (p ∷ ps) dead alive machines = do
    moves ← λ w. handle_workloads p dead alive machines (listed (p.list w)) w
    rest ← handle_providers ps dead alive machines
    done (moves ++ rest)

  unfoldable pub handle_node_dead :
      {f : F64}
      → InMemoryTopology
      → Membership f
      → Registry (RuntimeProvider W)
      → ResourceId
      → Io W (List String)
  unfolding handle_providers survivors Registry.all_providers
  handle_node_dead topology membership runtimes dead =
      handle_providers (Registry.all_providers runtimes) dead (survivors membership dead)
        (all_machines topology)

module _ {f : F64} (node_lb_addr : ResourceId → Option String) (node_scope : ResourceId → Scope)
    (node_latency : ResourceId → Option f.Carrier) where
  stamped : Backend f → Option f.Carrier → Backend f
  stamped b none = b
  stamped b (some rtt) = with_latency b rtt

  backend_at : Workload → ResourceId → String → Backend f
  unfolding stamped
  backend_at w node addr =
      stamped (new_backend w.metadata.id addr (node_scope node)) (node_latency node)

  -- `None` for a workload that is not scheduled or whose node is unknown.
  pub backend_of : Workload → Option ResourceId → Option (Backend f)
  unfolding backend_at
  backend_of w none = none
  backend_of w (some node) = elim (node_lb_addr node) [
    | none ↦ none
    | some addr ↦ some (backend_at w node addr)
  ]

  backends_of : List Workload → List (Backend f)
  unfolding backend_of
  backends_of [] = []
  backends_of (w ∷ ws) = elim (backend_of w w.node) [
    | none ↦ backends_of ws
    | some b ↦ b ∷ backends_of ws
  ]

  unfoldable pub lb_backends_for : List Workload → Assoc String String → List (Backend f)
  unfolding backends_of
  lb_backends_for workloads selector =
      if is_empty selector
      then []
      else backends_of (filter (λ w. matches_labels w.metadata selector) workloads)
