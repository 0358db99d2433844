-- ===== src/LoadBalancer/Controller/Laws.antt =====
-- crates/ocf-loadbalancer/src/controller.rs: reads of the store after its changes, and the
-- resolution of a request.
use open_compute_fabric_rs.Prelude.{
  ℕ, ◌≡◌, ap, true, false, List, Option, some, arith, string_eq, if◌then◌else◌, Member,
  Member-filter, Member-of_filter, not_empty_of_Member, Passing,
}
use open_compute_fabric_rs.Prelude.Assoc.{lookup-insert, lookup-remove}
use open_compute_fabric_rs.Prelude.Float.{F64}
use open_compute_fabric_rs.Core.Error.{ok, err, not_found, is_ok}
use open_compute_fabric_rs.Core.Scope.{ResourceId}
use open_compute_fabric_rs.Core.Metadata.{Time}
use open_compute_fabric_rs.LoadBalancer.Model.{LoadBalancer, Backend, ClientContext, admits}
use open_compute_fabric_rs.LoadBalancer.Routing.{select_backend}
use open_compute_fabric_rs.LoadBalancer.Routing.Choice.{select_backend_total, Member-select_backend}
use open_compute_fabric_rs.LoadBalancer.Controller.{
  LoadBalancerController, create, get, update, touched, delete, admissible, resolve,
  load_balancer_named,
}

-- A `create` whose id is free makes that id read the new load balancer; it changes no other id,
-- and nothing where the id is taken.
get-create :
    (c : LoadBalancerController) (lb : LoadBalancer) (id : ResourceId)
    → get (create c lb).0 id ≡ (
        if is_ok (get c lb.metadata.id)
        then get c id
        else if string_eq.beq lb.metadata.id id
        then ok lb
        else get c id)
unfolding get create
get-create c lb id = ground (arith, lookup-insert lb.metadata.id id lb c.load_balancers)

-- An `update` whose id is taken makes that id read the load balancer with its time stamped; it
-- changes no other id, and nothing where the id is free.
get-update :
    (now : Time) (c : LoadBalancerController) (lb : LoadBalancer) (id : ResourceId)
    → get (update now c lb).0 id ≡ (
        if is_ok (get c lb.metadata.id)
        then if string_eq.beq lb.metadata.id id then ok (touched now lb) else get c id
        else get c id)
unfolding get update
get-update now c lb id =
    ground (arith, lookup-insert lb.metadata.id id (touched now lb) c.load_balancers)

-- After a `delete` the id reads `NotFound`, and every other id reads as before.
get-delete :
    (c : LoadBalancerController) (lb_id id : ResourceId)
    → get (delete c lb_id).0 id
      ≡ (if string_eq.beq lb_id id then err (not_found (load_balancer_named id)) else get c id)
unfolding get delete
get-delete c lb_id id =
    ground (arith, lookup-remove lb_id id c.load_balancers, string_eq.beq_iff lb_id id)

controller_results :
    (now : Time) (c : LoadBalancerController) (lb : LoadBalancer) (id : ResourceId)
    → (is_ok (create c lb).1 ≡ (if is_ok (get c lb.metadata.id) then false else true))
      × (is_ok (update now c lb).1 ≡ is_ok (get c lb.metadata.id))
      × (is_ok (delete c id).1 ≡ is_ok (get c id))
unfolding get create update delete
controller_results now c lb id = ground arith

-- What every id reads after each change. `create` sets its id if that is free, `update` sets its id,
-- with the time stamped, if that is taken, and `delete` leaves its id unknown; every other id, and
-- every id where nothing is set, reads as before. `create` succeeds exactly on a free id, `update`
-- and `delete` exactly on a taken one.
pub controller_reads :
    (now : Time) (c : LoadBalancerController) (lb : LoadBalancer) (lb_id id : ResourceId)
    → (get (create c lb).0 id ≡ (
        if is_ok (get c lb.metadata.id)
        then get c id
        else if string_eq.beq lb.metadata.id id
        then ok lb
        else get c id))
      × (get (update now c lb).0 id ≡ (
          if is_ok (get c lb.metadata.id)
          then if string_eq.beq lb.metadata.id id then ok (touched now lb) else get c id
          else get c id))
      × (get (delete c lb_id).0 id
          ≡ (if string_eq.beq lb_id id then err (not_found (load_balancer_named id)) else get c id))
      × (is_ok (create c lb).1 ≡ (if is_ok (get c lb.metadata.id) then false else true))
      × (is_ok (update now c lb).1 ≡ is_ok (get c lb.metadata.id))
      × (is_ok (delete c lb_id).1 ≡ is_ok (get c lb_id))
controller_reads now c lb lb_id id =
    let r = controller_results now c lb lb_id in
    (get-create c lb id, get-update now c lb id, get-delete c lb_id id, r.0, r.1, r.2)

module _ (f : F64) where
  -- A backend that a request resolves to is one of those given, and the placement of the load
  -- balancer admits it.
  pub resolve_admitted :
      (c : LoadBalancerController) (cursor : ℕ) (lb_id : ResourceId) (client : ClientContext)
      (backends : List (Backend f)) {lb : LoadBalancer} {next : ℕ} {b : Backend f}
      → get c lb_id ≡ ok lb
      → resolve f c cursor lb_id client backends ≡ ok (next, some b)
      → Member b backends × (admits lb b ≡ true)
  unfolding resolve
  resolve_admitted c cursor lb_id client backends {lb} {next} {b} known h =
      let picked : (select_backend f cursor lb.policy (admissible f lb backends) client).1
          ≡ some b =
        ground arith in
      Member-of_filter (λ (x : Backend f). admits lb x) backends
        (Member-select_backend f cursor lb.policy (admissible f lb backends) client picked)

  -- If the load balancer admits some given backend, a request resolves to a backend.
  pub resolve_total :
      (c : LoadBalancerController) (cursor : ℕ) (lb_id : ResourceId) (client : ClientContext)
      (backends : List (Backend f)) {lb : LoadBalancer}
      → get c lb_id ≡ ok lb
      → Passing (λ (x : Backend f). admits lb x) backends
      → (next : ℕ) × (b : Backend f) × (resolve f c cursor lb_id client backends
          ≡ ok (next, some b))
  unfolding resolve
  resolve_total c cursor lb_id client backends {lb} known p =
      let bs = admissible f lb backends in
      let r =
        select_backend_total f cursor lb.policy bs client
          (not_empty_of_Member (Member-filter (λ (x : Backend f). admits lb x) p.1 p.2)) in
      (
        (select_backend f cursor lb.policy bs client).0,
        r.0,
        rw known (
            ap (λ (o : Option (Backend f)). ok ((select_backend f cursor lb.policy bs client).0, o))
              r.1),
      )
