-- ===== src/Fabric/RouteGraph/Rounds.antt =====
-- crates/ocf-fabric/src/routing.rs: the rounds of the search, and its loop.
use open_compute_fabric_rs.Prelude.{
  ℕ, zero, suc, ◌+◌, ◌<◌, ◌≤◌, ◌≡◌, refl, ◌⊎◌, inl, inr, true, false, not, none, some, arith,
  string_eq, beq_refl, Bool-cases, Option-cases, filter, length, Member, Member-of_filter,
}
use open_compute_fabric_rs.Prelude.Float.{F64Sum, lt}
use open_compute_fabric_rs.Prelude.Minimum.{Member-min_by}
use open_compute_fabric_rs.Fabric.Node.{NodeId}
use open_compute_fabric_rs.Fabric.RouteGraph.{
  update, RouteGraph, Search, Round, stop, again, node_ids, edge_cost, relax_by, relax, relax_all,
  by_dist, cheapest, mark, visit, after_cheapest, round, search_loop,
}

module _ (f : F64Sum) (d : f.f64.Carrier) (g : RouteGraph f d) where
  -- The node that a round visits.
  abbrev pub Fresh : Search f d → NodeId → Type 0
  Fresh s u = Member u (node_ids f d g) × (s.done u ≡ false) × (f.is_infinite (s.dist u) ≡ false)

  pub mark_self : (u : NodeId) (s : Search f d) → (mark f d g u s).done u ≡ true
  unfolding mark update
  mark_self u s = rw (beq_refl u)

  -- What `relax` does: nothing, or a better entry for a node not visited.
  pub data Relaxes (u : NodeId) (s : Search f d) (v : NodeId) : Search f d → Type 0 where
    same :
        {t : Search f d}
        → (s.done v ≡ true)
          ⊎ ((w : f.f64.Carrier)
              → edge_cost f d g u v ≡ some w
              → lt f.f64 (f.add (s.dist u) w) (s.dist v) ≡ false)
        → t ≡ s
        → Relaxes u s v t
    better :
        {t : Search f d} (w : f.f64.Carrier)
        → s.done v ≡ false
        → edge_cost f d g u v ≡ some w
        → lt f.f64 (f.add (s.dist u) w) (s.dist v) ≡ true
        → t ≡ record s {
          dist = update v (f.add (s.dist u) w) s.dist;
          prev = update v (some u) s.prev;
        }
        → Relaxes u s v t

  pub relax_cases : (u : NodeId) (s : Search f d) (v : NodeId) → Relaxes u s v (relax f d g u s v)
  unfolding relax relax_by
  relax_cases u s v = elim (Bool-cases (s.done v)) [
    | inl old ↦ same (inl old) (rw old)
    | inr new ↦ elim (Option-cases (edge_cost f d g u v)) [
      | inl far ↦ same (inr (λ w e. absurd (cc))) (rw (new, far))
      | inr (w, e) ↦ elim (Bool-cases (lt f.f64 (f.add (s.dist u) w) (s.dist v))) [
        | inl less ↦ better w new e less (rw (new, e, less))
        | inr more ↦ same (inr (λ w' q. let e' : w ≡ w' = cc in rw (← e') more)) (rw (new, e, more))
      ]
    ]
  ]

  -- What one round does, with the node that it visits.
  pub data Rounds (dst : NodeId) (s : Search f d) : Round f d → Type 0 where
    none_left : {r : Round f d} → cheapest f d g s ≡ none → r ≡ stop s → Rounds dst s r
    far :
        {r : Round f d} (u : NodeId)
        → cheapest f d g s ≡ some u
        → f.is_infinite (s.dist u) ≡ true
        → r ≡ stop s
        → Rounds dst s r
    arrived :
        {r : Round f d} (u : NodeId)
        → cheapest f d g s ≡ some u
        → Fresh s u
        → u ≡ dst
        → r ≡ stop (mark f d g u s)
        → Rounds dst s r
    went_on :
        {r : Round f d} (u : NodeId)
        → cheapest f d g s ≡ some u
        → Fresh s u
        → string_eq.beq u dst ≡ false
        → r ≡ again (relax_all f d g u (mark f d g u s) (node_ids f d g))
        → Rounds dst s r

  pub cheapest-undone :
      (s : Search f d) {u : NodeId}
      → cheapest f d g s ≡ some u
      → Member u (node_ids f d g) × (s.done u ≡ false)
  unfolding cheapest
  cheapest-undone s {u} h =
      let m =
        Member-of_filter (λ n. not (s.done n)) (node_ids f d g)
          (Member-min_by (by_dist f d g s) (filter (λ n. not (s.done n)) (node_ids f d g)) h) in
      (m.0, ground arith)

  pub round_cases : (dst : NodeId) (s : Search f d) → Rounds dst s (round f d g dst s)
  unfolding round after_cheapest visit
  round_cases dst s = elim (Option-cases (cheapest f d g s)) [
    | inl empty ↦ none_left empty (rw empty)
    | inr (u, e) ↦ elim (Bool-cases (f.is_infinite (s.dist u))) [
      | inl inf ↦ far u e inf (rw (e, inf))
      | inr fin ↦ elim (Bool-cases (string_eq.beq u dst)) [
        | inl hit ↦ arrived u e (fresh u e fin) ((string_eq.beq_iff u dst).0 hit) (rw (e, fin, hit))
        | inr miss ↦ went_on u e (fresh u e fin) miss (rw (e, fin, miss))
      ]
    ]
  ]
    where
      fresh :
          (u : NodeId) → cheapest f d g s ≡ some u → f.is_infinite (s.dist u) ≡ false → Fresh s u
      fresh u e fin = let m = cheapest-undone s e in (m.0, m.1, fin)

  -- The rule for the loop: its fuel lasts, and what a round that stops gives holds at the end.
  pub search_loop_rule {ℓ κ} :
      (dst : NodeId) (P : Search f d → ℕ → Type ℓ) (Q : Search f d → Type κ)
      → ((s : Search f d) (k : ℕ) → P s k → k ≤ length (node_ids f d g))
      → ((s t : Search f d) (k : ℕ) → P s k → round f d g dst s ≡ again t → P t (suc k))
      → ((s t : Search f d) (k : ℕ) → P s k → round f d g dst s ≡ stop t → Q t)
      → (fuel k : ℕ) (s : Search f d) → length (node_ids f d g) < fuel + k
      → P s k
      → Q (search_loop f d g fuel dst s)
  unfolding search_loop
  search_loop_rule dst P Q bound keep last zero k s m h = absurd (omega (arith, bound s k h))
  search_loop_rule dst P Q bound keep last (suc fuel) k s m h =
      by_round (λ t p. search_loop_rule dst P Q bound keep last fuel (suc k) t (omega arith) p)
        (round f d g dst s) refl
    where
      by_round :
          ((t : Search f d) → P t (suc k) → Q (search_loop f d g fuel dst t))
          → (r : Round f d) → round f d g dst s ≡ r
          → Q (elim r [ stop t ↦ t | again t ↦ search_loop f d g fuel dst t ])
      by_round rec (stop t) e = last s t k h e
      by_round rec (again t) e = rec t (keep s t k h e)
