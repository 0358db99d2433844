-- ===== src/Fabric/RouteGraph/Walk.antt =====
-- crates/ocf-fabric/src/routing.rs: the state that the search ends in, and the walk back along `prev`.
use open_compute_fabric_rs.Prelude.{
  ℕ, zero, suc, ◌<◌, ◌≡◌, ◌∙◌, sym, ap, ◌⊎◌, inl, inr, true, false, not, List, [], ◌∷◌, ◌++◌, some,
  arith, string_eq, beq_refl, Bool-cases, length-filter, Member, Member-filter, length_of_Member,
}
use mathlib.Core.List.{append_assoc}
use open_compute_fabric_rs.Prelude.Float.{F64Sum}
use open_compute_fabric_rs.Fabric.Node.{NodeId}
use open_compute_fabric_rs.Fabric.RouteGraph.{
  update, RouteGraph, Search, Round, stop, again, node_ids, edge_cost, relax_all, mark, start,
  searched, walk_back, fuel,
}
use open_compute_fabric_rs.Fabric.RouteGraph.Rounds.{
  Rounds, none_left, far, arrived, went_on, round_cases, search_loop_rule, mark_self,
}
use open_compute_fabric_rs.Fabric.RouteGraph.Trail.{Trail, trail_cost, Trail-snoc, trail_cost-snoc}
use open_compute_fabric_rs.Fabric.RouteGraph.Tree.{Settled, at_source, after, Label, Inv, Inv-mark}
use open_compute_fabric_rs.Fabric.RouteGraph.Relax.{Inv-relax_all}

module _ (f : F64Sum) (d : f.f64.Carrier) (g : RouteGraph f d) (src : NodeId) where
  pub Inv-start : Inv f d g src (start f d g src) 0
  unfolding start update
  Inv-start = record {
    settled = λ v h. absurd (cc);
    label = λ v h. by_name v (Bool-cases (string_eq.beq src v));
    root = rw (beq_refl src);
    rooted = λ v h. absurd (cc);
    counted =
        omega (arith, length-filter {0} (λ n. not ((start f d g src).done n)) (node_ids f d g));
  }
    where
      by_name :
          (v : NodeId)
          → (string_eq.beq src v ≡ true) ⊎ (string_eq.beq src v ≡ false)
          → Label f d g src (start f d g src) 0 v
      by_name v (inl hit) = inr (inl (sym ((string_eq.beq_iff src v).0 hit)))
      by_name v (inr miss) = inl (rw miss)

  pub Rounds-again :
      (dst : NodeId) (s t : Search f d) (k : ℕ) {r : Round f d}
      → Rounds f d g dst s r
      → r ≡ again t
      → Inv f d g src s k
      → Inv f d g src t (suc k)
  Rounds-again dst s t k (none_left e q) p h = absurd (cc)
  Rounds-again dst s t k (far u e i q) p h = absurd (cc)
  Rounds-again dst s t k (arrived u e i w q) p h = absurd (cc)
  Rounds-again dst s t k (went_on u e fresh miss q) p h =
      let m = Inv-mark f d g src s k u fresh h in
      let same : relax_all f d g u (mark f d g u s) (node_ids f d g) ≡ t = cc in
      rw (← same) (
        Inv-relax_all f d g src (mark f d g u s) (suc k) u (node_ids f d g)
          (m.settled u (mark_self f d g u s)) m)

  -- The loop ends in a state of the invariant, after at most one round for each node.
  abbrev pub Ended : Search f d → Type 0
  Ended t = (k : ℕ) × Inv f d g src t k

  pub Rounds-stop :
      (dst : NodeId) (s t : Search f d) (k : ℕ) {r : Round f d}
      → Rounds f d g dst s r
      → r ≡ stop t
      → Inv f d g src s k
      → Ended t
  Rounds-stop dst s t k (none_left e q) p h = let same : s ≡ t = cc in rw (← same) (k, h)
  Rounds-stop dst s t k (far u e i q) p h = let same : s ≡ t = cc in rw (← same) (k, h)
  Rounds-stop dst s t k (arrived u e fresh w q) p h =
      let same : mark f d g u s ≡ t = cc in rw (← same) (suc k, Inv-mark f d g src s k u fresh h)
  Rounds-stop dst s t k (went_on u e fresh miss q) p h = absurd (cc)

  pub Ended-searched : (dst : NodeId) → Ended (searched f d g src dst)
  unfolding searched
  Ended-searched dst =
      search_loop_rule f d g dst (Inv f d g src) Ended (λ s k h. omega (arith, h.counted))
        (λ s t k h e. Rounds-again dst s t k (round_cases f d g dst s) e h)
        (λ s t k h e. Rounds-stop dst s t k (round_cases f d g dst s) e h) (fuel f d g) 0
        (start f d g src) (omega arith) Inv-start

  -- From a node the walk back yields a trail that costs what `dist` says.
  abbrev pub Walks : Search f d → ℕ → NodeId → Type 0
  Walks s k v =
      (n : ℕ)
      → k < n
      → (acc : List NodeId)
      → (hops : List NodeId) × (walk_back f d g n s.prev src v acc ≡ some (hops ++ acc))
        × Trail f d g src hops v
        × (trail_cost f d g f.f64.zero src hops ≡ s.dist v)

  Walks-source :
      (s : Search f d) (k : ℕ) (v : NodeId) → s.dist src ≡ f.f64.zero → v ≡ src → Walks s k v
  unfolding walk_back
  Walks-source s k v root e zero m acc = absurd (omega arith)
  Walks-source s k v root e (suc n) m acc =
      ([], rw (e, beq_refl src, walk_back), sym e, sym root ∙ ap s.dist (sym e))

  Walks-prev :
      (s : Search f d) (k : ℕ) (v u : NodeId) (w : f.f64.Carrier)
      → s.dist src ≡ f.f64.zero
      → s.prev v ≡ some u
      → edge_cost f d g u v ≡ some w
      → s.dist v ≡ f.add (s.dist u) w
      → Walks s k u
      → Walks s (suc k) v
  unfolding walk_back
  Walks-prev s k v u w root p e q ih zero m acc = absurd (omega arith)
  Walks-prev s k v u w root p e q ih (suc n) m acc = elim (Bool-cases (string_eq.beq v src)) [
    | inl hit ↦
        let home : v ≡ src = (string_eq.beq_iff v src).0 hit in
        ([], rw (hit, walk_back), sym home, sym root ∙ ap s.dist (sym home))
    | inr miss ↦
        let (hops, walked, trail, cost) = ih n (omega arith) (v ∷ acc) in
        (
          hops ++ v ∷ [],
          rw (miss, p, walk_back) (walked ∙ ap some (sym (append_assoc hops (v ∷ []) acc))),
          Trail-snoc f d g src hops u v trail (rw e),
          trail_cost-snoc f d g f.f64.zero src hops u v trail ∙ rw (e, cost) (sym q),
        )
  ]

  Walks-Settled :
      (s : Search f d) {k : ℕ} {v : NodeId}
      → s.dist src ≡ f.f64.zero
      → Settled f d g src s k v
      → Walks s k v
  Walks-Settled s {k} {v} root (at_source h e) = Walks-source s k v root e
  Walks-Settled s {v} root (after {k} {u} {w} h p e q r) =
      Walks-prev s k v u w root p e q (Walks-Settled s root r)

  -- Any node with a finite distance has such a walk, visited or not, and the fuel lasts for it.
  pub Walks-finite :
      (s : Search f d) (k : ℕ) (v : NodeId)
      → Inv f d g src s k
      → Member v (node_ids f d g)
      → f.is_infinite (s.dist v) ≡ false
      → (acc : List NodeId)
      → (hops : List NodeId) × (walk_back f d g (fuel f d g) s.prev src v acc ≡ some (hops ++ acc))
        × Trail f d g src hops v
        × (trail_cost f d g f.f64.zero src hops ≡ s.dist v)
  Walks-finite s k v h m fin acc = elim (Bool-cases (s.done v)) [
    | inl old ↦ Walks-Settled s h.root (h.settled v old) (fuel f d g) (omega (arith, h.counted)) acc
    | inr new ↦
        let left = length_of_Member (Member-filter (λ n. not (s.done n)) m (ap not new)) in
        by_label (h.label v new) (fuel f d g) (omega (arith, h.counted, left)) acc
  ]
    where
      by_label : Label f d g src s k v → Walks s (suc k) v
      by_label (inl e) = absurd (cc (ap f.is_infinite e, f.infinity_infinite))
      by_label (inr (inl e)) = Walks-source s (suc k) v h.root e
      by_label (inr (inr (u, w, p, e, q, r))) =
          Walks-prev s k v u w h.root p e q (Walks-Settled s h.root r)
