-- ===== src/Fabric/RouteGraph/Shortest.antt =====
-- crates/ocf-fabric/src/routing.rs: what the search knows of distances when no weight is negative.
use open_compute_fabric_rs.Prelude.{
  ℕ, ◌≤◌, ◌≡◌, refl, ap, ◌⊎◌, inl, inr, true, false, not, List, [], ◌∷◌, Option, none, some, arith,
  string_eq, Bool-cases, Option-cases, filter, pair_eq, Member, Member-filter, All, All-Member,
  Member-map,
}
use open_compute_fabric_rs.Prelude.Assoc.{lookup, values, entry_of_lookup, Member-of_lookup}
use open_compute_fabric_rs.Prelude.Float.{F64Sum, NonNeg, order, lt}
use open_compute_fabric_rs.Prelude.Minimum.{min_by, min_from, Compares, min_from_least}
use open_compute_fabric_rs.Fabric.Node.{NodeId}
use open_compute_fabric_rs.Fabric.RouteGraph.{
  update, or_else, RouteGraph, Search, node_ids, can_link, edge_cost, by_dist, cheapest, start,
}

module _ (f : F64Sum) (d : f.f64.Carrier) (g : RouteGraph f d) where
  abbrev pub NonNegWeights : Type 0
  NonNegWeights = (a b : NodeId) (w : f.f64.Carrier) → edge_cost f d g a b ≡ some w → NonNeg f.f64 w

  abbrev pub far_off : Search f d → NodeId → ℕ
  far_off s v = order f.f64 (s.dist v)

  pub Member-edge :
      (a b : NodeId) (w : f.f64.Carrier) → edge_cost f d g a b ≡ some w → Member b (node_ids f d g)
  unfolding edge_cost can_link
  Member-edge a b w h = elim (Option-cases (lookup b g.reach)) [
    | inl missing ↦ absurd (ground (arith, missing))
    | inr (r, e) ↦ Member-map (λ x. x.0) (entry_of_lookup g.reach b e)
  ]

  -- Weights are not negative where those measured and the default are not.
  pub NonNegWeights-of_rtt :
      NonNeg f.f64 d → All (λ w. NonNeg f.f64 w) (values g.rtt) → NonNegWeights
  unfolding edge_cost
  NonNegWeights-of_rtt p h a b w e =
      by_entries (lookup (a, b) g.rtt) (lookup (b, a) g.rtt) (λ v q. measured (a, b) v q)
        (λ v q. measured (b, a) v q) (ground arith)
    where
      measured :
          (k : NodeId × NodeId) (v : f.f64.Carrier) → lookup k g.rtt ≡ some v → NonNeg f.f64 v
      measured k v q =
          All-Member (λ w. NonNeg f.f64 w) (values g.rtt) (Member-of_lookup k g.rtt q) h

      by_entries :
          (x y : Option f.f64.Carrier)
          → ((v : f.f64.Carrier) → x ≡ some v → NonNeg f.f64 v)
          → ((v : f.f64.Carrier) → y ≡ some v → NonNeg f.f64 v)
          → or_else f d x y ≡ w
          → NonNeg f.f64 w
      by_entries none none m n q = rw (← q) p
      by_entries none (some v) m n q = rw (← q) (n v refl)
      by_entries (some v) y m n q = rw (← q) (m v refl)

  -- Between rounds: no node left is nearer than a visited one, and the edges out of the visited
  -- nodes have been taken into account.
  pub record Best (s : Search f d) : Type 0 where
    pub number : (v : NodeId) → NonNeg f.f64 (s.dist v)
    pub first :
        (a b : NodeId)
        → s.done a ≡ true
        → s.done b ≡ false
        → Member b (node_ids f d g)
        → far_off s a ≤ far_off s b
    pub relaxed :
        (a b : NodeId) (w : f.f64.Carrier)
        → s.done a ≡ true
        → edge_cost f d g a b ≡ some w
        → far_off s b ≤ order f.f64 (f.add (s.dist a) w)

  pub le_of_lt :
      (a b : f.f64.Carrier)
      → NonNeg f.f64 a
      → NonNeg f.f64 b
      → lt f.f64 a b ≡ true
      → order f.f64 a ≤ order f.f64 b
  le_of_lt a b p q h = ground arith

  pub le_of_not_lt :
      (a b : f.f64.Carrier)
      → NonNeg f.f64 a
      → NonNeg f.f64 b
      → lt f.f64 a b ≡ false
      → order f.f64 b ≤ order f.f64 a
  le_of_not_lt a b p q h = ground arith

  pub zero_NonNeg : NonNeg f.f64 f.f64.zero
  zero_NonNeg = ground (arith, f.f64.zero_ranked)

  pub Best-start : (src : NodeId) → Best (start f d g src)
  unfolding start update
  Best-start src = record {
    number = λ v. number v (Bool-cases (string_eq.beq src v));
    first = λ a b h. absurd (cc);
    relaxed = λ a b w h. absurd (cc);
  }
    where
      number :
          (v : NodeId)
          → (string_eq.beq src v ≡ true) ⊎ (string_eq.beq src v ≡ false)
          → NonNeg f.f64 ((start f d g src).dist v)
      number v (inl e) = rw e zero_NonNeg
      number v (inr e) = rw e f.infinity_NonNeg

  by_dist_compares :
      (s : Search f d) → Compares (by_dist f d g s) (λ v. NonNeg f.f64 (s.dist v)) (far_off s)
  unfolding by_dist
  by_dist_compares s a b p q = ground arith

  -- The node picked is nearest among those left.
  pub cheapest_least :
      (s : Search f d) {u : NodeId}
      → ((v : NodeId) → NonNeg f.f64 (s.dist v))
      → cheapest f d g s ≡ some u
      → (v : NodeId) → s.done v ≡ false
      → Member v (node_ids f d g)
      → far_off s u ≤ far_off s v
  unfolding cheapest min_by
  cheapest_least s {u} numbers h v new m =
      least (filter (λ n. not (s.done n)) (node_ids f d g)) h
        (Member-filter (λ n. not (s.done n)) m (ap not new))
    where
      everywhere : (xs : List NodeId) → All (λ v. NonNeg f.f64 (s.dist v)) xs
      everywhere [] = tt
      everywhere (x ∷ xs) = (numbers x, everywhere xs)

      least :
          (xs : List NodeId)
          → min_by (by_dist f d g s) xs ≡ some u
          → Member v xs
          → far_off s u ≤ far_off s v
      least [] e n = absurd (cc)
      least (x ∷ xs) e n =
          let q : min_from (by_dist f d g s) x xs ≡ u = cc in
          let l =
            min_from_least (by_dist f d g s) (λ v. NonNeg f.f64 (s.dist v)) (far_off s)
              (by_dist_compares s) x xs (numbers x) (everywhere xs) in
          rw (← q) (
            All-Member (λ c. far_off s (min_from (by_dist f d g s) x xs) ≤ far_off s c) (x ∷ xs) n
              (l.1, l.2))
