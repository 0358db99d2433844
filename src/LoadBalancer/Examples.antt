-- ===== src/LoadBalancer/Examples.antt =====
-- crates/ocf-loadbalancer: three backends and a load balancer placed in one region.
use open_compute_fabric_rs.Prelude.{
  ℕ, String, ◌<◌, ◌≡◌, refl, true, List, [], ◌∷◌, Option, none, some, string_eq, arith, Member,
  here, there, filter, get_elem?, length,
}
use open_compute_fabric_rs.Prelude.Assoc.{lookup}
use open_compute_fabric_rs.Prelude.Float.{sample_f64}
use open_compute_fabric_rs.Core.Error.{ok}
use open_compute_fabric_rs.Core.Scope.{Scope, of_region, of_datacenter, contains, level_ok}
use open_compute_fabric_rs.LoadBalancer.Model as Model
use open_compute_fabric_rs.LoadBalancer.Model.{
  LoadBalancer, LbKind, RoutingPolicy, Backend, ClientContext, admits, placement_admits,
  with_placement,
}
use open_compute_fabric_rs.LoadBalancer.Routing.{
  select_backend, pick_min_by, ingress_local_candidates,
}
use open_compute_fabric_rs.LoadBalancer.Routing.Choice.{select_backend_local}
use open_compute_fabric_rs.LoadBalancer.Routing.Rotation.{nth_pick, pick_round_robin_fair}
use open_compute_fabric_rs.LoadBalancer.Controller.{LoadBalancerController, get, resolve}
use open_compute_fabric_rs.LoadBalancer.Controller.Laws.{resolve_admitted}

-- A metric is a number, or `none` for a NaN.
abbrev backend : String → Scope → Option ℕ → Backend sample_f64
backend address scope load = record {
  workload_id = address;
  address = address;
  scope = scope;
  load = load;
  latency_ms = some 10;
  geo = none;
}

abbrev us1 : Backend sample_f64
us1 = backend "10.0.0.2" (of_datacenter "us" "dc1") (some 7)

abbrev us2 : Backend sample_f64
us2 = backend "10.0.0.3" (of_datacenter "us" "dc2") (some 3)

abbrev eu1 : Backend sample_f64
eu1 = backend "10.1.0.2" (of_datacenter "eu" "dc1") (some 1)

abbrev backends : List (Backend sample_f64)
backends = eu1 ∷ us1 ∷ us2 ∷ []

abbrev us_client : ClientContext
us_client = record { src_ip = none; ingress_scope = some (of_region "us"); geo = none }

us_contains : contains (of_region "us") us1.scope ≡ true
unfolding contains level_ok
us_contains = refl

least_load_selected :
    (select_backend sample_f64 0 RoutingPolicy.least_load backends us_client).1 ≡ some us2
unfolding select_backend ingress_local_candidates pick_min_by filter contains level_ok
least_load_selected = refl

select_backend_local_example : contains (of_region "us") us2.scope ≡ true
select_backend_local_example =
    select_backend_local sample_f64 0 RoutingPolicy.least_load backends us_client (of_region "us")
      refl (us1, there (here refl), us_contains) least_load_selected

least_picked : pick_min_by sample_f64 backends (λ b. b.load) ≡ some eu1
unfolding pick_min_by
least_picked = refl

abbrev unknown : Backend sample_f64
unknown = backend "10.0.0.9" (of_region "us") none

pick_round_robin_fair_example :
    (k : ℕ) × (k < length backends) × (nth_pick sample_f64 5 backends k ≡ get_elem? backends 1)
pick_round_robin_fair_example =
    pick_round_robin_fair sample_f64 5 backends 1 (omega arith) (omega arith)

abbrev placed : LoadBalancer
placed = with_placement (Model.new "lb1" 0 "web" LbKind.tcp RoutingPolicy.latency) (of_region "us")

abbrev controller : LoadBalancerController
controller = record { load_balancers = ("lb1", placed) ∷ [] }

abbrev other : LoadBalancer
other = Model.new "lb2" 4 "api" LbKind.application RoutingPolicy.round_robin

lb1_known : get controller "lb1" ≡ ok placed
unfolding get lookup
lb1_known = refl

us1_admitted : admits {f = sample_f64} placed us1 ≡ true
unfolding placement_admits contains level_ok
us1_admitted = refl

resolved : resolve sample_f64 controller 0 "lb1" us_client backends ≡ ok (0, some us1)
unfolding resolve get lookup filter placement_admits contains level_ok select_backend
    ingress_local_candidates pick_min_by
resolved = refl

resolve_admitted_example : Member us1 backends × (admits {f = sample_f64} placed us1 ≡ true)
resolve_admitted_example =
    resolve_admitted sample_f64 controller 0 "lb1" us_client backends lb1_known resolved
