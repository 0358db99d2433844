-- ===== src/LoadBalancer/Routing.antt =====
-- crates/ocf-loadbalancer/src/routing.rs: the choice of a backend. The process-wide round-robin
-- cursor, a 64-bit `usize`, is passed in and out.
pub mod Choice
pub mod Minimum
pub mod Rotation
use open_compute_fabric_rs.Prelude.{
  ℕ, ◌+◌, ◌%◌, ◌^◌, String, Bool, true, false, List, [], ◌∷◌, Option, none, some, Ordering, filter,
  length, get_elem?, is_empty, string_eq, if◌then◌else◌,
}
use open_compute_fabric_rs.Prelude.Float.{F64, partial_cmp}
use open_compute_fabric_rs.Prelude.Minimum.{min_by}
use open_compute_fabric_rs.Core.Scope.{Scope, contains}
use open_compute_fabric_rs.LoadBalancer.Model.{Backend, ClientContext, RoutingPolicy}

abbrev pub usize_mod : ℕ
usize_mod = 2 ^ 64

-- `unwrap_or(Ordering::Greater)`
or_greater : Option Ordering → Ordering
or_greater none = Ordering.gt
or_greater (some o) = o

same_geo : Option String → String → Bool
same_geo none client_geo = false
same_geo (some g) client_geo = string_eq.beq g client_geo

module _ (f : F64) where
  cmp_metric : (Backend f → f.Carrier) → Backend f → Backend f → Ordering
  unfolding or_greater
  cmp_metric metric a b = or_greater (partial_cmp f (metric a) (metric b))

  unfoldable pub pick_min_by : List (Backend f) → (Backend f → f.Carrier) → Option (Backend f)
  unfolding cmp_metric min_by
  pick_min_by candidates metric = min_by (cmp_metric metric) candidates

  local_to : Scope → List (Backend f) → List (Backend f)
  local_to ingress backends = filter (λ b. contains ingress b.scope) backends

  local_candidates : Option Scope → List (Backend f) → List (Backend f)
  local_candidates none backends = backends
  local_candidates (some ingress) backends =
      if is_empty (local_to ingress backends) then backends else local_to ingress backends

  unfoldable pub ingress_local_candidates : List (Backend f) → ClientContext → List (Backend f)
  unfolding local_candidates local_to
  ingress_local_candidates backends client = local_candidates client.ingress_scope backends

  unfoldable pub pick_round_robin : ℕ → List (Backend f) → ℕ × Option (Backend f)
  pick_round_robin cursor candidates =
      if is_empty candidates
      then (cursor, none)
      else ((cursor + 1) % usize_mod, get_elem? candidates (cursor % length candidates))

  in_geo : String → List (Backend f) → List (Backend f)
  unfolding same_geo
  in_geo client_geo candidates = filter (λ b. same_geo b.geo client_geo) candidates

  geo_or_latency : Option String → List (Backend f) → Option (Backend f)
  geo_or_latency none candidates = pick_min_by candidates (λ b. b.latency_ms)
  geo_or_latency (some client_geo) candidates =
      if is_empty (in_geo client_geo candidates)
      then pick_min_by candidates (λ b. b.latency_ms)
      else pick_min_by (in_geo client_geo candidates) (λ b. b.latency_ms)

  unfoldable pub pick_geo : List (Backend f) → ClientContext → Option (Backend f)
  unfolding geo_or_latency in_geo
  pick_geo candidates client = geo_or_latency client.geo candidates

  pick : RoutingPolicy → ℕ → List (Backend f) → ClientContext → ℕ × Option (Backend f)
  pick RoutingPolicy.round_robin cursor candidates client = pick_round_robin cursor candidates
  pick RoutingPolicy.least_load cursor candidates client =
      (cursor, pick_min_by candidates (λ b. b.load))
  pick RoutingPolicy.latency cursor candidates client =
      (cursor, pick_min_by candidates (λ b. b.latency_ms))
  pick RoutingPolicy.geo cursor candidates client = (cursor, pick_geo candidates client)

  unfoldable pub select_backend :
      ℕ → RoutingPolicy → List (Backend f) → ClientContext → ℕ × Option (Backend f)
  unfolding pick
  select_backend cursor policy backends client =
      if is_empty backends
      then (cursor, none)
      else pick policy cursor (ingress_local_candidates backends client) client
