-- ===== src/LoadBalancer/Controller.antt =====
-- crates/ocf-loadbalancer/src/controller.rs: the set of load balancers, and the resolution of a
-- request. A method returns the new state with its result.
pub mod Laws
use open_compute_fabric_rs.Prelude.{ℕ, String, [], List, Option, filter, string_eq, if◌then◌else◌}
use open_compute_fabric_rs.Prelude.Assoc.{Assoc, lookup, insert, remove, contains_key, values}
use open_compute_fabric_rs.Prelude.Float.{F64}
use open_compute_fabric_rs.Core.Error.{
  Error, Result, ok, err, already_exists, not_found, ok_or, concat, ◌>>=◌,
}
use open_compute_fabric_rs.Core.Scope.{ResourceId}
use open_compute_fabric_rs.Core.Metadata.{Time, touch}
use open_compute_fabric_rs.LoadBalancer.Model.{LoadBalancer, Backend, ClientContext, admits}
use open_compute_fabric_rs.LoadBalancer.Routing.{select_backend}

pub record LoadBalancerController : Type 0 where
  pub load_balancers : Assoc ResourceId LoadBalancer

abbrev pub new : LoadBalancerController
new = record { load_balancers = [] }

-- "load balancer id"
abbrev pub load_balancer_named : ResourceId → String
load_balancer_named id = concat "load balancer " id

unfoldable pub create :
    LoadBalancerController → LoadBalancer → LoadBalancerController × Result LoadBalancer
create c lb =
    if contains_key lb.metadata.id c.load_balancers
    then (c, err (already_exists (load_balancer_named lb.metadata.id)))
    else (record { load_balancers = insert lb.metadata.id lb c.load_balancers }, ok lb)

unfoldable pub get : LoadBalancerController → ResourceId → Result LoadBalancer
get c lb_id = ok_or (lookup lb_id c.load_balancers) (not_found (load_balancer_named lb_id))

unfoldable pub list : LoadBalancerController → List LoadBalancer
list c = values c.load_balancers

-- The load balancer with `updated_at` stamped.
abbrev pub touched : Time → LoadBalancer → LoadBalancer
touched now lb = record lb { metadata = touch now lb.metadata }

unfoldable pub update :
    Time → LoadBalancerController → LoadBalancer → LoadBalancerController × Result LoadBalancer
update now c lb =
    if contains_key lb.metadata.id c.load_balancers
    then (
      record { load_balancers = insert lb.metadata.id (touched now lb) c.load_balancers },
      ok (touched now lb),
    )
    else (c, err (not_found (load_balancer_named lb.metadata.id)))

unfoldable pub delete :
    LoadBalancerController → ResourceId → LoadBalancerController × Result (Unit {0})
delete c lb_id =
    if contains_key lb_id c.load_balancers
    then (record { load_balancers = remove lb_id c.load_balancers }, ok tt)
    else (c, err (not_found (load_balancer_named lb_id)))

module _ (f : F64) where
  unfoldable pub admissible : LoadBalancer → List (Backend f) → List (Backend f)
  admissible lb backends = filter (λ b. admits lb b) backends

  -- The backend selected with the cursor left behind, or the error of the lookup.
  unfoldable pub resolve :
      LoadBalancerController
      → ℕ
      → ResourceId
      → ClientContext
      → List (Backend f)
      → Result (ℕ × Option (Backend f))
  unfolding admissible
  resolve c cursor lb_id client backends = do
    lb ← get c lb_id
    ok (select_backend f cursor lb.policy (admissible lb backends) client)
