-- ===== src/Fabric/RouteGraph/Nearest.antt =====
-- crates/ocf-fabric/src/routing.rs: the distance that the search ends with is that of a shortest
-- trail.
use open_compute_fabric_rs.Prelude.{
  ℕ, suc, ◌≤◌, ◌≡◌, ◌∙◌, refl, ap, ◌⊎◌, inl, inr, true, false, not, List, [], ◌∷◌, none, some,
  arith, string_eq, Bool-cases, Option-cases, filter, Member, Member-filter, Member-nil,
}
use open_compute_fabric_rs.Prelude.Assoc.{is_some}
use open_compute_fabric_rs.Prelude.Float.{F64Sum, NonNeg, order}
use open_compute_fabric_rs.Prelude.Minimum.{min_by}
use open_compute_fabric_rs.Fabric.Node.{NodeId}
use open_compute_fabric_rs.Fabric.RouteGraph.{
  update, RouteGraph, Search, Round, stop, again, node_ids, edge_cost, relax_all, by_dist, cheapest,
  mark, start, searched, fuel,
}
use open_compute_fabric_rs.Fabric.RouteGraph.Rounds.{
  Rounds, none_left, far, arrived, went_on, round_cases, search_loop_rule,
}
use open_compute_fabric_rs.Fabric.RouteGraph.Trail.{Trail, trail_cost}
use open_compute_fabric_rs.Fabric.RouteGraph.Tree.{Inv}
use open_compute_fabric_rs.Fabric.RouteGraph.Walk.{Inv-start, Rounds-again}
use open_compute_fabric_rs.Fabric.RouteGraph.Shortest.{
  NonNegWeights, far_off, Member-edge, Best, zero_NonNeg, Best-start, cheapest_least,
}
use open_compute_fabric_rs.Fabric.RouteGraph.Visiting.{
  Best-round, Visiting-mark, Visiting-relax_all,
}

module _ (f : F64Sum) (d : f.f64.Carrier) (g : RouteGraph f d) (src : NodeId) where
  -- A trail of cost `c` to `v` either ends at a visited node no farther than that, or it passed one
  -- that is left and no farther.
  Passed : Search f d → NodeId → f.f64.Carrier → Type 0
  Passed s v c =
      ((s.done v ≡ true) × (far_off f d g s v ≤ order f.f64 c))
      ⊎ ((y : NodeId) × Member y (node_ids f d g)
          × (s.done y ≡ false)
          × (far_off f d g s y ≤ order f.f64 c))

  module _ (weights : NonNegWeights f d g) (known : Member src (node_ids f d g)) where
    Passed-edge :
        (s : Search f d) (a b : NodeId) (c w : f.f64.Carrier)
        → Best f d g s
        → NonNeg f.f64 c
        → edge_cost f d g a b ≡ some w
        → Passed s a c
        → Passed s b (f.add c w)
    unfolding Passed
    Passed-edge s a b c w h pos e (inl (p, q)) =
        let near : far_off f d g s b ≤ order f.f64 (f.add c w) = omega (
          arith,
          h.relaxed a b w p e,
          f.add_mono (s.dist a) c w (h.number a) pos (weights a b w e) q,
        ) in
        elim (Bool-cases (s.done b)) [
          | inl old ↦ inl (old, near)
          | inr new ↦ inr (b, Member-edge f d g a b w e, new, near)
        ]
    Passed-edge s a b c w h pos e (inr (y, m, new, q)) =
        inr (y, m, new, omega (arith, f.add_grows c w pos (weights a b w e)))

    Passed-Trail :
        (s : Search f d) (a b : NodeId) (c : f.f64.Carrier) (hops : List NodeId)
        → Best f d g s
        → NonNeg f.f64 c
        → Passed s a c
        → Trail f d g a hops b
        → Passed s b (trail_cost f d g c a hops)
    Passed-Trail s a b c [] h pos p e = rw (← e) p
    Passed-Trail s a b c (x ∷ hops) h pos p (e, rest) = elim (Option-cases (edge_cost f d g a x)) [
      | inl missing ↦ absurd (cc (ap is_some missing))
      | inr (w, k) ↦ rw k (
          Passed-Trail s x b (f.add c w) hops h (f.add_NonNeg c w pos (weights a x w k))
            (Passed-edge s a x c w h pos k p) rest)
    ]

    Passed-source : (s : Search f d) → s.dist src ≡ f.f64.zero → Passed s src f.f64.zero
    unfolding Passed
    Passed-source s root = elim (Bool-cases (s.done src)) [
      | inl old ↦ inl (old, rw root (omega arith))
      | inr new ↦ inr (src, known, new, rw root (omega arith))
    ]

    -- No trail to `dst` costs less than its distance.
    abbrev pub IsNearest : NodeId → Search f d → Type 0
    IsNearest dst t =
        (hops : List NodeId)
        → Trail f d g src hops dst
        → far_off f d g t dst ≤ order f.f64 (trail_cost f d g f.f64.zero src hops)

    -- Before `dst` is visited, some node left is no farther than any trail to it is long.
    left_nearer :
        (dst : NodeId) (s : Search f d) (k : ℕ) (hops : List NodeId)
        → Inv f d g src s k
        → Best f d g s
        → s.done dst ≡ false
        → Trail f d g src hops dst
        → (y : NodeId) × Member y (node_ids f d g)
          × (s.done y ≡ false)
          × (far_off f d g s y ≤ order f.f64 (trail_cost f d g f.f64.zero src hops))
    unfolding Passed
    left_nearer dst s k hops i h new p =
        elim (Passed-Trail s src dst f.f64.zero hops h (zero_NonNeg f d g) (Passed-source s i.root)
          p) [ inl (old, q) ↦ absurd (cc) | inr y ↦ y ]

    nearest_of_cheapest :
        (dst u : NodeId) (s : Search f d) (k : ℕ) (hops : List NodeId)
        → Inv f d g src s k
        → Best f d g s
        → s.done dst ≡ false
        → cheapest f d g s ≡ some u
        → Trail f d g src hops dst
        → far_off f d g s u ≤ order f.f64 (trail_cost f d g f.f64.zero src hops)
    nearest_of_cheapest dst u s k hops i h new e p =
        let (y, m, q, near) = left_nearer dst s k hops i h new p in
        omega (arith, cheapest_least f d g s h.number e y q m)

    not_none_left :
        (s : Search f d) (y : NodeId)
        → Member y (node_ids f d g)
        → s.done y ≡ false
        → cheapest f d g s ≡ none
        → ⊥
    unfolding cheapest min_by
    not_none_left s y m new e =
        nothing (filter (λ n. not (s.done n)) (node_ids f d g)) e
          (Member-filter (λ n. not (s.done n)) m (ap not new))
      where
        nothing : (xs : List NodeId) → min_by (by_dist f d g s) xs ≡ none → Member y xs → ⊥
        nothing [] q n = Member-nil n
        nothing (x ∷ xs) q n = cc

    abbrev Searching : NodeId → Search f d → ℕ → Type 0
    Searching dst s k = Inv f d g src s k × Best f d g s × (s.done dst ≡ false)

    unmarked :
        (u dst : NodeId) (s : Search f d)
        → string_eq.beq u dst ≡ false
        → s.done dst ≡ false
        → (mark f d g u s).done dst ≡ false
    unfolding mark update
    unmarked u dst s miss new = rw miss new

    Searching-again :
        (dst : NodeId) (s t : Search f d) (k : ℕ) {r : Round f d}
        → Rounds f d g dst s r
        → r ≡ again t
        → Searching dst s k
        → Searching dst t (suc k)
    Searching-again dst s t k (none_left e q) p h = absurd (cc)
    Searching-again dst s t k (far u e i q) p h = absurd (cc)
    Searching-again dst s t k (arrived u e i w q) p h = absurd (cc)
    Searching-again dst s t k (went_on u e fresh miss q) p (i, h, new) =
        let same : relax_all f d g u (mark f d g u s) (node_ids f d g) ≡ t = cc in
        (
          Rounds-again f d g src dst s t k (went_on u e fresh miss q) p i,
          rw (← same) (Best-round f d g weights u s e fresh h),
          rw (← same) (
              ((Visiting-relax_all f d g weights u (mark f d g u s) (node_ids f d g)
                  (Visiting-mark f d g u s e fresh h)).1
                dst).0
              ∙ unmarked u dst s miss new),
        )

    Searching-stop :
        (dst : NodeId) (s t : Search f d) (k : ℕ) {r : Round f d}
        → Rounds f d g dst s r
        → r ≡ stop t
        → Searching dst s k
        → ((v : NodeId) → NonNeg f.f64 (t.dist v)) × IsNearest dst t
    unfolding mark
    Searching-stop dst s t k (none_left e q) p (i, h, new) =
        let same : s ≡ t = cc in
        rw (← same) (
          h.number,
          λ hops trail.
              let (y, m, n, near) = left_nearer dst s k hops i h new trail in
              absurd (not_none_left s y m n e),
        )
    Searching-stop dst s t k (far u e inf q) p (i, h, new) =
        let same : s ≡ t = cc in
        rw (← same) (
          h.number,
          λ hops trail. omega (
            arith,
            nearest_of_cheapest dst u s k hops i h new e trail,
            (f.infinite_iff (s.dist u) (h.number u)).0 inf,
            f.infinity_top (s.dist dst),
          ),
        )
    Searching-stop dst s t k (arrived u e fresh w q) p (i, h, new) =
        let same : mark f d g u s ≡ t = cc in
        rw (← same)
          (h.number, λ hops trail. rw (← w) (nearest_of_cheapest dst u s k hops i h new e trail))
    Searching-stop dst s t k (went_on u e fresh miss q) p h = absurd (cc)

    pub IsNearest-searched :
        (dst : NodeId)
        → ((v : NodeId) → NonNeg f.f64 ((searched f d g src dst).dist v))
          × IsNearest dst (searched f d g src dst)
    unfolding searched start
    IsNearest-searched dst =
        search_loop_rule f d g dst (Searching dst)
          (λ t. ((v : NodeId) → NonNeg f.f64 (t.dist v)) × IsNearest dst t)
          (λ s k h. omega (arith, h.0.counted))
          (λ s t k h e. Searching-again dst s t k (round_cases f d g dst s) e h)
          (λ s t k h e. Searching-stop dst s t k (round_cases f d g dst s) e h) (fuel f d g) 0
          (start f d g src) (omega arith) (Inv-start f d g src, Best-start f d g src, refl)
