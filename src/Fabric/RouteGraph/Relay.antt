-- ===== src/Fabric/RouteGraph/Relay.antt =====
-- crates/ocf-fabric/src/routing.rs: the relay that `next_relay` chooses.
use open_compute_fabric_rs.Prelude.{
  ◌≡◌, ◌≢◌, refl, sym, inl, inr, true, false, List, [], ◌∷◌, Option, none, some, arith, string_eq,
  Option-cases,
}
use open_compute_fabric_rs.Prelude.Assoc.{is_some, lookup}
use open_compute_fabric_rs.Prelude.Float.{F64Sum}
use open_compute_fabric_rs.Fabric.Node.{NodeId, Reachability, is_private}
use open_compute_fabric_rs.Fabric.RouteGraph.{
  RouteGraph, can_link, edge_cost, path, next_relay, relay_of,
}
use open_compute_fabric_rs.Fabric.RouteGraph.Routes.{path-Trail}

module _ (f : F64Sum) (d : f.f64.Carrier) (g : RouteGraph f d) where
  -- An edge joins two known nodes that differ and are not both private.
  edge_linked :
      (a b : NodeId)
      → is_some (edge_cost f d g a b) ≡ true
      → (a ≢ b)
        × ((ra : Reachability)
            → lookup a g.reach ≡ some ra
            → is_private ra ≡ true
            → (rb : Reachability) × (lookup b g.reach ≡ some rb) × (is_private rb ≡ false))
  unfolding edge_cost can_link
  edge_linked a b h = (
    λ e. ground (arith, string_eq.beq_iff a b),
    λ ra e p. elim (Option-cases (lookup b g.reach)) [
      | inl missing ↦ absurd (ground (arith, missing))
      | inr (rb, q) ↦ (rb, q, ground (arith, string_eq.beq_iff a b))
    ],
  )

  relay_of-some :
      (src : NodeId) (dst : NodeId) (r : NodeId) (p : Option (List NodeId))
      → p ≡ path f d g src dst
      → relay_of f d g p ≡ some r
      → is_some (edge_cost f d g src r) ≡ true
  unfolding relay_of
  relay_of-some src dst r none e h = absurd (cc)
  relay_of-some src dst r (some []) e h = absurd (cc)
  relay_of-some src dst r (some (a ∷ [])) e h = absurd (cc)
  relay_of-some src dst r (some (a ∷ b ∷ hops)) e h =
      let t = path-Trail f d g src dst (sym e) in let q : a ≡ r = cc in rw (← q) t.0

  -- The relay that `next_relay` names is another node, and a private node is given one that is known
  -- and not private, so that the two can hold a tunnel.
  pub next_relay_dialable :
      (src dst r : NodeId)
      → next_relay f d g src dst ≡ some r
      → (src ≢ r)
        × ((reach : Reachability)
            → lookup src g.reach ≡ some reach
            → is_private reach ≡ true
            → (other : Reachability) × (lookup r g.reach ≡ some other) × (is_private other ≡ false))
  unfolding next_relay
  next_relay_dialable src dst r h =
      edge_linked src r (relay_of-some src dst r (path f d g src dst) refl h)
