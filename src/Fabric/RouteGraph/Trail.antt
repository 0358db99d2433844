-- ===== src/Fabric/RouteGraph/Trail.antt =====
-- crates/ocf-fabric/src/routing.rs: the walks of a route graph and what they cost.
use open_compute_fabric_rs.Prelude.{◌≡◌, refl, true, List, [], ◌∷◌, ◌++◌, Option, none, some}
use open_compute_fabric_rs.Prelude.Assoc.{is_some}
use open_compute_fabric_rs.Prelude.Float.{F64Sum}
use open_compute_fabric_rs.Fabric.Node.{NodeId}
use open_compute_fabric_rs.Fabric.RouteGraph.{RouteGraph, edge_cost}

module _ (f : F64Sum) (d : f.f64.Carrier) (g : RouteGraph f d) where
  -- Each hop is along an edge of the graph, and the last leads to `b`.
  abbrev pub Trail : NodeId → List NodeId → NodeId → Type 0
  Trail a [] b = a ≡ b
  Trail a (x ∷ xs) b = (is_some (edge_cost f d g a x) ≡ true) × Trail x xs b

  abbrev pub edge_or_infinity : Option f.f64.Carrier → f.f64.Carrier
  edge_or_infinity none = f.infinity
  edge_or_infinity (some w) = w

  -- The sum of the edges, from the left.
  abbrev pub trail_cost : f.f64.Carrier → NodeId → List NodeId → f.f64.Carrier
  trail_cost acc a [] = acc
  trail_cost acc a (x ∷ xs) = trail_cost (f.add acc (edge_or_infinity (edge_cost f d g a x))) x xs

  pub Trail-snoc :
      (a : NodeId) (xs : List NodeId) (u v : NodeId)
      → Trail a xs u
      → is_some (edge_cost f d g u v) ≡ true
      → Trail a (xs ++ v ∷ []) v
  Trail-snoc a [] u v h e = (rw h e, refl)
  Trail-snoc a (x ∷ xs) u v h e = (h.0, Trail-snoc x xs u v h.1 e)

  pub trail_cost-snoc :
      (acc : f.f64.Carrier) (a : NodeId) (xs : List NodeId) (u v : NodeId)
      → Trail a xs u
      → trail_cost acc a (xs ++ v ∷ [])
        ≡ f.add (trail_cost acc a xs) (edge_or_infinity (edge_cost f d g u v))
  trail_cost-snoc acc a [] u v h = rw h refl
  trail_cost-snoc acc a (x ∷ xs) u v h =
      trail_cost-snoc (f.add acc (edge_or_infinity (edge_cost f d g a x))) x xs u v h.1
