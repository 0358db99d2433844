-- ===== src/Api/FleetExamples.antt =====
-- crates/ocf-api/src/fleet.rs: a replica that moves from a dead machine to a surviving one.
use open_compute_fabric_rs.Prelude.{
  ◌≡◌, ◌↔◌, refl, String, true, false, List, [], ◌∷◌, Option, none, some, string_eq, is_empty, All,
  Member, here, there, Member-nil, subst, sym, filter, find, all,
}
use open_compute_fabric_rs.Prelude.Assoc.{Assoc, lookup, insert}
use open_compute_fabric_rs.Prelude.Float.{sample_f64}
use open_compute_fabric_rs.Core.Error.{ok}
use open_compute_fabric_rs.Core.Scope.{ResourceId, Scope, of_machine}
use open_compute_fabric_rs.Core.Metadata.{with_label, matches_labels}
use open_compute_fabric_rs.Core.Quantity.{fits_in}
use open_compute_fabric_rs.Core.Health.{LifecycleState}
use open_compute_fabric_rs.Core.Registry as Registry
use open_compute_fabric_rs.Core.Registry.{Registry}
use open_compute_fabric_rs.Topology.Model.{Machine, new_machine}
use open_compute_fabric_rs.Topology.Store.{InMemoryTopology}
use open_compute_fabric_rs.Fabric.Node as Node
use open_compute_fabric_rs.Fabric.Node.{NodeId, FabricNode}
use open_compute_fabric_rs.Fabric.Membership.{Liveness, MemberState, Membership, alive_nodes}
use open_compute_fabric_rs.LoadBalancer.Model.{Backend}
use open_compute_fabric_rs.Runtime.Workload.{RuntimeKind, Workload, new_container, new_snapshot}
use open_compute_fabric_rs.Runtime.Provider.{RuntimeProvider}
use open_compute_fabric_rs.Api.Fleet.{
  machine_satisfies, machine_with, pick_target, handle_node_dead, lb_backends_for,
}
use open_compute_fabric_rs.Api.Fleet.Placement.{Satisfies, machine_satisfies_iff, pick_target_lem}
use open_compute_fabric_rs.Api.Fleet.Rescue.{WellPlaced, Respects, handle_node_dead-Keeps}
use open_compute_fabric_rs.Api.Fleet.Backends.{Fronts, lb_backends_for_iff}

abbrev m1 : Machine
m1 = new_machine 0 "us" "dc1" "r1" "m1"

abbrev m2 : Machine
m2 = new_machine 0 "us" "dc1" "r1" "m2"

abbrev topology : InMemoryTopology
topology = record {
  regions = [];
  datacenters = [];
  racks = [];
  machines = ("m1", m1) ∷ ("m2", m2) ∷ [];
}

abbrev alive_on : NodeId → ResourceId → MemberState sample_f64
alive_on id machine = record {
  node = record (Node.new 0 id "key" []) { machine_id = some machine };
  liveness = Liveness.alive;
  last_heartbeat = 100;
  incarnation = 0;
  rtt_ms = none;
}

abbrev members : Membership sample_f64
members = record {
  local = "n1";
  members = ("n1", alive_on "n1" "m1") ∷ ("n2", alive_on "n2" "m2") ∷ [];
  suspect_timeout = 5;
  dead_timeout = 5;
}

-- A replica on m1.
abbrev replica : Workload
replica = record (new_container "w1" 0 "web-1" "nginx") {
  node = some "m1";
  highly_available = true;
}

-- The world is the list of created workloads; what runs is fixed.
abbrev docker : RuntimeProvider (List Workload)
docker = record {
  name = "docker";
  kind = RuntimeKind.container;
  supports_migration = true;
  create = λ wl w. (wl ∷ w, ok tt);
  start = λ id w. (w, ok tt);
  stop = λ id w. (w, ok tt);
  delete = λ id w. (w, ok tt);
  status = λ id w. ok LifecycleState.running;
  list = λ w. ok (replica ∷ []);
  host_pid = λ id w. ok none;
  dump_memory = λ id w. (w, ok (new_snapshot "blob" id none 512));
  restore = λ s w. (w, ok tt);
}

abbrev runtimes : Registry (RuntimeProvider (List Workload))
runtimes = record { providers = ("docker", docker) ∷ [] }

moved : (handle_node_dead topology members runtimes "m1" []).1 ≡ ok ("web-1 -> m2" ∷ [])
unfolding handle_node_dead find filter alive_nodes new_container matches_labels all fits_in
moved = refl

machine_satisfies_iff_example : (machine_satisfies replica m2 ≡ true) ↔ Satisfies replica m2
machine_satisfies_iff_example = machine_satisfies_iff replica m2

abbrev Placed : List Workload → Type 0
Placed ws = All (WellPlaced topology members "m1") ws

docker-Respects :
    (p : RuntimeProvider (List Workload))
    → Member p (Registry.all_providers runtimes)
    → Respects topology members "m1" Placed p
unfolding Registry.all_providers
docker-Respects p (there m) = absurd (Member-nil m)
docker-Respects p (here e) = subst (Respects topology members "m1" Placed) (sym e) record {
  delete_keeps = λ id w h. h;
  stop_keeps = λ id w h. h;
  start_keeps = λ id w h. h;
  create_keeps = λ wl good w h. (good, h);
}

handle_node_dead-Keeps_example :
    All (WellPlaced topology members "m1") (handle_node_dead topology members runtimes "m1" []).0
handle_node_dead-Keeps_example =
    handle_node_dead-Keeps topology members "m1" Placed runtimes docker-Respects [] tt

pick_target_lem_example :
    ((id : ResourceId)
      → pick_target replica ("m2" ∷ []) (m1 ∷ m2 ∷ []) ≡ some id
      → Member id ("m2" ∷ [])
        × ((m : Machine) × Member m (m1 ∷ m2 ∷ []) × (m.metadata.id ≡ id) × Satisfies replica m))
    × (pick_target replica ("m2" ∷ []) (m1 ∷ m2 ∷ []) ≡ none
        → (id : ResourceId) (m : Machine) → Member id ("m2" ∷ [])
        → machine_with id (m1 ∷ m2 ∷ []) ≡ some m
        → ¬ (Satisfies replica m))
pick_target_lem_example = pick_target_lem replica ("m2" ∷ []) (m1 ∷ m2 ∷ [])

abbrev lb_addr : ResourceId → Option String
lb_addr id = some "10.254.0.1"

abbrev scope_of : ResourceId → Scope
scope_of id = of_machine "us" "dc1" "r1" id

abbrev front : Backend sample_f64
front = record {
  workload_id = "w1";
  address = "10.254.0.1";
  scope = scope_of "m1";
  load = some 0;
  latency_ms = some 7;
  geo = none;
}

abbrev web_app : Assoc String String
web_app = ("app", "web") ∷ []

abbrev web : Workload
web = record replica { metadata = with_label replica.metadata "app" "web" }

fronted : lb_backends_for lb_addr scope_of (λ id. some (some 7)) (web ∷ []) web_app ≡ front ∷ []
unfolding lb_backends_for filter matches_labels all with_label insert lookup new_container
fronted = refl

lb_backends_for_iff_example :
    Member front (lb_backends_for lb_addr scope_of (λ id. some (some 7)) (web ∷ []) web_app) ↔ (
      (is_empty web_app ≡ false)
      × ((w : Workload) × Member w (web ∷ [])
          × (matches_labels w.metadata web_app ≡ true)
          × Fronts lb_addr scope_of (λ id. some (some 7)) w front))
lb_backends_for_iff_example =
    lb_backends_for_iff lb_addr scope_of (λ id. some (some 7)) (web ∷ []) web_app front
