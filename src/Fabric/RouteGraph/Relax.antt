-- ===== src/Fabric/RouteGraph/Relax.antt =====
-- crates/ocf-fabric/src/routing.rs: a relaxation keeps the tree of `prev`.
use open_compute_fabric_rs.Prelude.{
  ℕ, ◌≡◌, sym, ap, ◌⊎◌, inl, inr, true, false, List, [], ◌∷◌, some, arith, string_eq, Bool-cases,
}
use open_compute_fabric_rs.Prelude.Float.{F64Sum}
use open_compute_fabric_rs.Fabric.Node.{NodeId}
use open_compute_fabric_rs.Fabric.RouteGraph.{
  update, RouteGraph, Search, edge_cost, relax, relax_all,
}
use open_compute_fabric_rs.Fabric.RouteGraph.Tree.{
  Settled, Label, Inv, Frozen, Settled-done, Settled-Frozen, Label-Frozen,
}
use open_compute_fabric_rs.Fabric.RouteGraph.Rounds.{Relaxes, same, better, relax_cases}

module _ (f : F64Sum) (d : f.f64.Carrier) (g : RouteGraph f d) (src : NodeId) where
  Frozen-better :
      (s : Search f d) (v u : NodeId) (c : f.f64.Carrier)
      → s.done v ≡ false
      → Frozen f d g src s (record s { dist = update v c s.dist; prev = update v (some u) s.prev })
  unfolding update
  Frozen-better s v u c new x h =
      (h, ground (arith, string_eq.beq_iff v x), ground (arith, string_eq.beq_iff v x))

  Inv-better :
      (s : Search f d) (k : ℕ) (u v : NodeId) (w : f.f64.Carrier)
      → Settled f d g src s k u
      → s.done v ≡ false
      → edge_cost f d g u v ≡ some w
      → Inv f d g src s k
      → Inv f d g src
          (record s {
            dist = update v (f.add (s.dist u) w) s.dist;
            prev = update v (some u) s.prev;
          })
          k
  unfolding update
  Inv-better s k u v w r new e h = record {
    settled = λ x hx. Settled-Frozen f d g src fr (h.settled x hx);
    label = λ x hx. label x hx (Bool-cases (string_eq.beq v x));
    root = ground (arith, string_eq.beq_iff v src, h.rooted u (Settled-done f d g src r), h.root);
    rooted = h.rooted;
    counted = h.counted;
  }
    where
      t : Search f d
      t = record s { dist = update v (f.add (s.dist u) w) s.dist; prev = update v (some u) s.prev }

      fr : Frozen f d g src s t
      fr = Frozen-better s v u (f.add (s.dist u) w) new

      label :
          (x : NodeId)
          → s.done x ≡ false
          → (string_eq.beq v x ≡ true) ⊎ (string_eq.beq v x ≡ false)
          → Label f d g src t k x
      label x hx (inl hit) = inr (
          inr (
            u,
            w,
            rw hit,
            rw (← (string_eq.beq_iff v x).0 hit) e,
            rw hit (ap (λ z. f.add z w) (sym (fr u (Settled-done f d g src r)).2)),
            Settled-Frozen f d g src fr r,
          ))
      label x hx (inr miss) = Label-Frozen f d g src x fr (rw miss) (rw miss) (h.label x hx)

  Inv-relax :
      (s t : Search f d) (k : ℕ) (u v : NodeId)
      → Relaxes f d g u s v t
      → Settled f d g src s k u
      → Inv f d g src s k
      → Inv f d g src t k × Settled f d g src t k u
  Inv-relax s t k u v (same reason e) r h = rw e (h, r)
  Inv-relax s t k u v (better w new e less q) r h = rw q (
    Inv-better s k u v w r new e h,
    Settled-Frozen f d g src (Frozen-better s v u (f.add (s.dist u) w) new) r,
  )

  pub Inv-relax_all :
      (s : Search f d) (k : ℕ) (u : NodeId) (vs : List NodeId)
      → Settled f d g src s k u
      → Inv f d g src s k
      → Inv f d g src (relax_all f d g u s vs) k
  unfolding relax_all
  Inv-relax_all s k u [] r h = h
  Inv-relax_all s k u (v ∷ vs) r h =
      let step = Inv-relax s (relax f d g u s v) k u v (relax_cases f d g u s v) r h in
      Inv-relax_all (relax f d g u s v) k u vs step.1 step.0
