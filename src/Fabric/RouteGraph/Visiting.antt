-- ===== src/Fabric/RouteGraph/Visiting.antt =====
-- crates/ocf-fabric/src/routing.rs: a round of the search when no weight is negative.
use open_compute_fabric_rs.Prelude.{
  ◌≤◌, ◌≡◌, ◌∙◌, refl, ◌⊎◌, inl, inr, true, false, List, [], ◌∷◌, some, arith, string_eq, beq_refl,
  Bool-cases, Member, All, All-Member,
}
use open_compute_fabric_rs.Prelude.Float.{F64Sum, NonNeg, order, lt}
use open_compute_fabric_rs.Fabric.Node.{NodeId}
use open_compute_fabric_rs.Fabric.RouteGraph.{
  update, RouteGraph, Search, node_ids, edge_cost, relax, relax_all, cheapest, mark,
}
use open_compute_fabric_rs.Fabric.RouteGraph.Rounds.{Fresh, Relaxes, same, better, relax_cases}
use open_compute_fabric_rs.Fabric.RouteGraph.Shortest.{
  NonNegWeights, far_off, Member-edge, Best, cheapest_least, le_of_lt, le_of_not_lt,
}

module _ (f : F64Sum) (d : f.f64.Carrier) (g : RouteGraph f d) where
  -- While the edges out of `u` are taken into account.
  pub record Visiting (u : NodeId) (s : Search f d) : Type 0 where
    pub number : (v : NodeId) → NonNeg f.f64 (s.dist v)
    pub here_done : s.done u ≡ true
    pub first :
        (a b : NodeId)
        → s.done a ≡ true
        → s.done b ≡ false
        → Member b (node_ids f d g)
        → far_off f d g s a ≤ far_off f d g s b
    pub top : (a : NodeId) → s.done a ≡ true → far_off f d g s a ≤ far_off f d g s u
    pub relaxed :
        (a b : NodeId) (w : f.f64.Carrier)
        → s.done a ≡ true
        → string_eq.beq u a ≡ false
        → edge_cost f d g a b ≡ some w
        → far_off f d g s b ≤ order f.f64 (f.add (s.dist a) w)

  -- The edge from `u` to `v` has been taken into account.
  abbrev pub Near : NodeId → Search f d → NodeId → Type 0
  Near u s v =
      (w : f.f64.Carrier)
      → edge_cost f d g u v ≡ some w
      → far_off f d g s v ≤ order f.f64 (f.add (s.dist u) w)

  pub Visiting-mark :
      (u : NodeId) (s : Search f d)
      → cheapest f d g s ≡ some u
      → Fresh f d g s u
      → Best f d g s
      → Visiting u (mark f d g u s)
  unfolding mark update
  Visiting-mark u s e fresh h = record {
    number = h.number;
    here_done = rw (beq_refl u);
    first = λ a b p q m. first a b p q m (Bool-cases (string_eq.beq u a));
    top = λ a p. top a p (Bool-cases (string_eq.beq u a));
    relaxed = λ a b w p miss k. h.relaxed a b w (ground arith) k;
  }
    where
      left : (b : NodeId) → (mark f d g u s).done b ≡ false → s.done b ≡ false
      left b q = ground arith

      first :
          (a b : NodeId)
          → (mark f d g u s).done a ≡ true
          → (mark f d g u s).done b ≡ false
          → Member b (node_ids f d g)
          → (string_eq.beq u a ≡ true) ⊎ (string_eq.beq u a ≡ false)
          → far_off f d g s a ≤ far_off f d g s b
      first a b p q m (inl hit) =
          rw (← (string_eq.beq_iff u a).0 hit) (cheapest_least f d g s h.number e b (left b q) m)
      first a b p q m (inr miss) = h.first a b (ground arith) (left b q) m

      top :
          (a : NodeId)
          → (mark f d g u s).done a ≡ true
          → (string_eq.beq u a ≡ true) ⊎ (string_eq.beq u a ≡ false)
          → far_off f d g s a ≤ far_off f d g s u
      top a p (inl hit) = rw (← (string_eq.beq_iff u a).0 hit) (omega arith)
      top a p (inr miss) = h.first a u (ground arith) fresh.1 fresh.0

  -- A relaxation moves no node away, and leaves those visited where they are.
  abbrev pub Lowers : Search f d → Search f d → Type 0
  Lowers s t =
      (x : NodeId)
      → (t.done x ≡ s.done x)
        × (far_off f d g t x ≤ far_off f d g s x)
        × (s.done x ≡ true → t.dist x ≡ s.dist x)

  module _ (weights : NonNegWeights f d g) where
    Visiting-better :
        (u v : NodeId) (s : Search f d) (w : f.f64.Carrier)
        → s.done v ≡ false
        → edge_cost f d g u v ≡ some w
        → lt f.f64 (f.add (s.dist u) w) (s.dist v) ≡ true
        → Visiting u s
        → let t : Search f d = record s {
          dist = update v (f.add (s.dist u) w) s.dist;
          prev = update v (some u) s.prev;
        } in
          Visiting u t × Lowers s t × Near u t v
    unfolding update
    Visiting-better u v s w new e less h = (
      record {
        number = λ x. number x (Bool-cases (string_eq.beq v x));
        here_done = h.here_done;
        first = λ a b p q m. first a b p q m (Bool-cases (string_eq.beq v b));
        top = λ a p. rw (kept a p) (rw (kept u h.here_done) (h.top a p));
        relaxed = λ a b x p miss k. rw (kept a p) (omega (arith, low b, h.relaxed a b x p miss k));
      },
      λ x. lowers x,
      λ x k. let q : w ≡ x = cc in rw (← q) (rw (beq_refl v, kept u h.here_done) (omega arith)),
    )
      where
        t : Search f d
        t = record s {
          dist = update v (f.add (s.dist u) w) s.dist;
          prev = update v (some u) s.prev;
        }

        cand : NonNeg f.f64 (f.add (s.dist u) w)
        cand = f.add_NonNeg (s.dist u) w (h.number u) (weights u v w e)

        number :
            (x : NodeId)
            → (string_eq.beq v x ≡ true) ⊎ (string_eq.beq v x ≡ false)
            → NonNeg f.f64 (t.dist x)
        number x (inl hit) = rw hit cand
        number x (inr miss) = rw miss (h.number x)

        closer : order f.f64 (f.add (s.dist u) w) ≤ far_off f d g s v
        closer = le_of_lt f d g (f.add (s.dist u) w) (s.dist v) cand (h.number v) less

        kept : (x : NodeId) → s.done x ≡ true → t.dist x ≡ s.dist x
        kept x p = ground (arith, string_eq.beq_iff v x)

        low_cases :
            (x : NodeId)
            → (string_eq.beq v x ≡ true) ⊎ (string_eq.beq v x ≡ false)
            → far_off f d g t x ≤ far_off f d g s x
        low_cases x (inl hit) = rw hit (rw (← (string_eq.beq_iff v x).0 hit) closer)
        low_cases x (inr miss) = rw miss (omega arith)

        low : (x : NodeId) → far_off f d g t x ≤ far_off f d g s x
        low x = low_cases x (Bool-cases (string_eq.beq v x))

        lowers :
            (x : NodeId)
            → (t.done x ≡ s.done x)
              × (far_off f d g t x ≤ far_off f d g s x)
              × (s.done x ≡ true → t.dist x ≡ s.dist x)
        lowers x = (refl, low x, kept x)

        first :
            (a b : NodeId)
            → s.done a ≡ true
            → s.done b ≡ false
            → Member b (node_ids f d g)
            → (string_eq.beq v b ≡ true) ⊎ (string_eq.beq v b ≡ false)
            → far_off f d g t a ≤ far_off f d g t b
        first a b p q m (inl hit) = rw (kept a p) (
            rw hit
              (omega (arith, h.top a p, f.add_grows (s.dist u) w (h.number u) (weights u v w e))))
        first a b p q m (inr miss) = rw (kept a p) (rw miss (h.first a b p q m))

    Visiting-relax :
        (u v : NodeId) (s t : Search f d)
        → Relaxes f d g u s v t
        → Visiting u s
        → Visiting u t × Lowers s t × Near u t v
    Visiting-relax u v s t (better w new e less q) h = rw q (Visiting-better u v s w new e less h)
    Visiting-relax u v s t (same reason q) h =
        rw q (h, (λ x. (refl, omega arith, λ p. refl)), λ w e. near w e reason)
      where
        near :
            (w : f.f64.Carrier)
            → edge_cost f d g u v ≡ some w
            → (s.done v ≡ true)
              ⊎ ((w : f.f64.Carrier)
                  → edge_cost f d g u v ≡ some w
                  → lt f.f64 (f.add (s.dist u) w) (s.dist v) ≡ false)
            → far_off f d g s v ≤ order f.f64 (f.add (s.dist u) w)
        near w e (inl old) =
            omega (arith, h.top v old, f.add_grows (s.dist u) w (h.number u) (weights u v w e))
        near w e (inr worse) =
            le_of_not_lt f d g (f.add (s.dist u) w) (s.dist v)
              (f.add_NonNeg (s.dist u) w (h.number u) (weights u v w e)) (h.number v) (worse w e)

    pub Visiting-relax_all :
        (u : NodeId) (s : Search f d) (vs : List NodeId)
        → Visiting u s
        → Visiting u (relax_all f d g u s vs)
          × Lowers s (relax_all f d g u s vs)
          × All (λ v. Near u (relax_all f d g u s vs) v) vs
    unfolding relax_all
    Visiting-relax_all u s [] h = (h, (λ x. (refl, omega arith, λ p. refl)), tt)
    Visiting-relax_all u s (v ∷ vs) h =
        let s' = relax f d g u s v in
        let (h', lower, near) = Visiting-relax u v s s' (relax_cases f d g u s v) h in
        let (kept, later, rest) = Visiting-relax_all u s' vs h' in
        (
          kept,
          (λ x. (
            (later x).0 ∙ (lower x).0,
            omega (arith, (later x).1, (lower x).1),
            λ p. (later x).2 ((lower x).0 ∙ p) ∙ (lower x).2 p,
          )),
          ((λ w e. rw ((later u).2 h'.here_done) (omega (arith, (later v).1, near w e))), rest),
        )

    -- A round that goes on keeps what is known.
    pub Best-round :
        (u : NodeId) (s : Search f d)
        → cheapest f d g s ≡ some u
        → Fresh f d g s u
        → Best f d g s
        → Best f d g (relax_all f d g u (mark f d g u s) (node_ids f d g))
    Best-round u s e fresh h =
        let (v, lower, near) =
          Visiting-relax_all u (mark f d g u s) (node_ids f d g) (Visiting-mark u s e fresh h) in
        record {
          number = v.number;
          first = v.first;
          relaxed = λ a b w p k. relaxed v near a b w p k (Bool-cases (string_eq.beq u a));
        }
      where
        relaxed :
            Visiting u (relax_all f d g u (mark f d g u s) (node_ids f d g))
            → All
                (λ v. Near u (relax_all f d g u (mark f d g u s) (node_ids f d g)) v)
                (node_ids f d g)
            → (a b : NodeId) (w : f.f64.Carrier)
            → (relax_all f d g u (mark f d g u s) (node_ids f d g)).done a ≡ true
            → edge_cost f d g a b ≡ some w
            → (string_eq.beq u a ≡ true) ⊎ (string_eq.beq u a ≡ false)
            → far_off f d g (relax_all f d g u (mark f d g u s) (node_ids f d g)) b
              ≤ order f.f64 (f.add ((relax_all f d g u (mark f d g u s) (node_ids f d g)).dist a) w)
        relaxed v near a b w p k (inr miss) = v.relaxed a b w p miss k
        relaxed v near a b w p k (inl hit) =
            let q : u ≡ a = (string_eq.beq_iff u a).0 hit in
            rw (← q) (
              All-Member (λ x. Near u (relax_all f d g u (mark f d g u s) (node_ids f d g)) x)
                (node_ids f d g) (Member-edge f d g a b w k) near w (rw q k))
