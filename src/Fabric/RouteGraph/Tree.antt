-- ===== src/Fabric/RouteGraph/Tree.antt =====
-- crates/ocf-fabric/src/routing.rs: the tree of `prev` that the search builds, whatever the weights.
use open_compute_fabric_rs.Prelude.{
  ℕ, suc, ◌+◌, ◌≤◌, ◌≡◌, ◌∙◌, refl, sym, ap, ◌⊎◌, inl, inr, true, false, not, some, arith,
  string_eq, Bool-cases, filter, length, length-filter_drop, if◌then◌else◌,
}
use open_compute_fabric_rs.Prelude.Float.{F64Sum}
use open_compute_fabric_rs.Fabric.Node.{NodeId}
use open_compute_fabric_rs.Fabric.RouteGraph.{update, RouteGraph, Search, node_ids, edge_cost, mark}
use open_compute_fabric_rs.Fabric.RouteGraph.Rounds.{Fresh}

module _ (f : F64Sum) (d : f.f64.Carrier) (g : RouteGraph f d) (src : NodeId) where
  -- A visited node whose `prev` entries lead back to the source, in at most `k` steps.
  pub data Settled (s : Search f d) : ℕ → NodeId → Type 0 where
    at_source : {k : ℕ} {v : NodeId} → s.done v ≡ true → v ≡ src → Settled s k v
    after :
        {k : ℕ} {v u : NodeId} {w : f.f64.Carrier}
        → s.done v ≡ true
        → s.prev v ≡ some u
        → edge_cost f d g u v ≡ some w
        → s.dist v ≡ f.add (s.dist u) w
        → Settled s k u
        → Settled s (suc k) v

  -- An entry of `prev` made from a visited node.
  abbrev pub From : Search f d → ℕ → NodeId → Type 0
  From s k v =
      (u : NodeId) × (w : f.f64.Carrier) × (s.prev v ≡ some u)
      × (edge_cost f d g u v ≡ some w)
      × (s.dist v ≡ f.add (s.dist u) w)
      × Settled s k u

  abbrev pub Label : Search f d → ℕ → NodeId → Type 0
  Label s k v = (s.dist v ≡ f.infinity) ⊎ (v ≡ src) ⊎ From s k v

  -- How many nodes are not visited yet.
  abbrev pub undone : Search f d → ℕ
  undone s = length (filter (λ n. not (s.done n)) (node_ids f d g))

  -- After `k` rounds.
  pub record Inv (s : Search f d) (k : ℕ) : Type 0 where
    pub settled : (v : NodeId) → s.done v ≡ true → Settled s k v
    pub label : (v : NodeId) → s.done v ≡ false → Label s k v
    pub root : s.dist src ≡ f.f64.zero
    pub rooted : (v : NodeId) → s.done v ≡ true → s.done src ≡ true
    pub counted : undone s + k ≤ length (node_ids f d g)

  -- What is visited keeps its entries.
  abbrev pub Frozen : Search f d → Search f d → Type 0
  Frozen s t =
      (v : NodeId)
      → s.done v ≡ true
      → (t.done v ≡ true) × (t.prev v ≡ s.prev v) × (t.dist v ≡ s.dist v)

  pub Settled-done : {s : Search f d} {k : ℕ} {v : NodeId} → Settled s k v → s.done v ≡ true
  Settled-done (at_source h e) = h
  Settled-done (after h p e q r) = h

  pub Settled-Frozen :
      {s t : Search f d} {k : ℕ} {v : NodeId} → Frozen s t → Settled s k v → Settled t k v
  Settled-Frozen {v} fr (at_source h e) = at_source (fr v h).0 e
  Settled-Frozen {v} fr (after {u} {w} h p e q r) =
      after (fr v h).0 ((fr v h).1 ∙ p) e
        ((fr v h).2 ∙ q ∙ ap (λ z. f.add z w) (sym (fr u (Settled-done r)).2)) (Settled-Frozen fr r)

  pub Settled-suc : {s : Search f d} {k : ℕ} {v : NodeId} → Settled s k v → Settled s (suc k) v
  Settled-suc (at_source h e) = at_source h e
  Settled-suc (after h p e q r) = after h p e q (Settled-suc r)

  -- A label survives where its entries do.
  pub Label-Frozen :
      {s t : Search f d} {k : ℕ} (v : NodeId)
      → Frozen s t
      → t.prev v ≡ s.prev v
      → t.dist v ≡ s.dist v
      → Label s k v
      → Label t k v
  Label-Frozen v fr p q (inl e) = inl (q ∙ e)
  Label-Frozen v fr p q (inr (inl e)) = inr (inl e)
  Label-Frozen v fr p q (inr (inr (u, w, e, c, h, r))) = inr (
      inr (
        u,
        w,
        p ∙ e,
        c,
        q ∙ h ∙ ap (λ z. f.add z w) (sym (fr u (Settled-done r)).2),
        Settled-Frozen fr r,
      ))

  Label-suc : {s : Search f d} {k : ℕ} {v : NodeId} → Label s k v → Label s (suc k) v
  Label-suc (inl e) = inl e
  Label-suc (inr (inl e)) = inr (inl e)
  Label-suc (inr (inr (u, w, e, c, h, r))) = inr (inr (u, w, e, c, h, Settled-suc r))

  Frozen-mark : (u : NodeId) (s : Search f d) → Frozen s (mark f d g u s)
  unfolding mark update
  Frozen-mark u s v h = (ground (arith, string_eq.beq_iff u v), refl, refl)

  Settled-label :
      {s : Search f d} {k : ℕ} (u : NodeId)
      → s.done u ≡ true
      → f.is_infinite (s.dist u) ≡ false
      → Label s k u
      → Settled s (suc k) u
  Settled-label u h fin (inl e) = absurd (cc (ap f.is_infinite e, f.infinity_infinite))
  Settled-label u h fin (inr (inl e)) = at_source h e
  Settled-label u h fin (inr (inr (v, w, e, c, q, r))) = after h e c q r

  mark_done :
      (u v : NodeId) (s : Search f d)
      → (mark f d g u s).done v ≡ (if string_eq.beq u v then true else s.done v)
  unfolding mark update
  mark_done u v s = refl

  rooted-mark :
      {s : Search f d} {k : ℕ} (u : NodeId)
      → Inv s k
      → f.is_infinite (s.dist u) ≡ false
      → Label s k u
      → (mark f d g u s).done src ≡ true
  unfolding mark update
  rooted-mark u h fin (inl e) = absurd (cc (ap f.is_infinite e, f.infinity_infinite))
  rooted-mark u h fin (inr (inl e)) = ground (arith, string_eq.beq_iff u src)
  rooted-mark u h fin (inr (inr (v, w, e, c, q, r))) = ground (arith, h.rooted v (Settled-done r))

  counted-mark :
      (s : Search f d) (k : ℕ) (u : NodeId)
      → Fresh f d g s u
      → undone s + k ≤ length (node_ids f d g)
      → undone (mark f d g u s) + suc k ≤ length (node_ids f d g)
  unfolding mark update
  counted-mark s k u fresh h = omega (
    arith,
    length-filter_drop (λ n. not (s.done n)) (λ n. not ((mark f d g u s).done n))
        (λ n e. ground arith) (node_ids f d g) fresh.0 (ground arith)
        (ground (arith, string_eq.beq_iff u u)),
  )

  pub Inv-mark :
      (s : Search f d) (k : ℕ) (u : NodeId)
      → Fresh f d g s u
      → Inv s k
      → Inv (mark f d g u s) (suc k)
  unfolding mark
  Inv-mark s k u fresh h = record {
    settled = λ v e. settled v e (Bool-cases (s.done v));
    label = λ v e. Label-suc (Label-Frozen v fr refl refl (h.label v (unmarked v e)));
    root = h.root;
    rooted = λ v e. rooted-mark u h fresh.2 (h.label u fresh.1);
    counted = counted-mark s k u fresh h.counted;
  }
    where
      fr : Frozen s (mark f d g u s)
      fr = Frozen-mark u s

      unmarked : (v : NodeId) → (mark f d g u s).done v ≡ false → s.done v ≡ false
      unmarked v e = ground (arith, mark_done u v s)

      settled :
          (v : NodeId)
          → (mark f d g u s).done v ≡ true
          → (s.done v ≡ true) ⊎ (s.done v ≡ false)
          → Settled (mark f d g u s) (suc k) v
      settled v e (inl old) = Settled-suc (Settled-Frozen fr (h.settled v old))
      settled v e (inr new) =
          let same : u ≡ v = ground (arith, mark_done u v s, string_eq.beq_iff u v) in
          Settled-label v e (rw (← same) fresh.2) (Label-Frozen v fr refl refl (h.label v new))
