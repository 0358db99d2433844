-- ===== src/Fabric/RouteGraph/Routes.antt =====
-- crates/ocf-fabric/src/routing.rs: what `path` and `next_relay` return.
use open_compute_fabric_rs.Prelude.{
  ℕ, zero, suc, ◌+◌, ◌<◌, ◌≤◌, ◌≡◌, ◌∙◌, refl, ap, ◌⊎◌, inl, inr, true, false, List, [], ◌∷◌,
  Option, none, some, arith, string_eq, Bool-cases, Option-cases, length, Member, Member-map,
}
use mathlib.Core.List.{append-nil}
use open_compute_fabric_rs.Prelude.Assoc.{is_some, lookup, contains_key, entry_of_lookup}
use open_compute_fabric_rs.Prelude.Float.{F64Sum, NonNeg, order}
use open_compute_fabric_rs.Fabric.Node.{NodeId}
use open_compute_fabric_rs.Fabric.RouteGraph.{
  RouteGraph, Search, Round, stop, again, node_ids, edge_cost, round, search_loop, start, searched,
  hops_of, path, fuel,
}
use open_compute_fabric_rs.Fabric.RouteGraph.Rounds.{round_cases}
use open_compute_fabric_rs.Fabric.RouteGraph.Trail.{Trail, trail_cost}
use open_compute_fabric_rs.Fabric.RouteGraph.Tree.{Inv}
use open_compute_fabric_rs.Fabric.RouteGraph.Walk.{
  Ended-searched, Walks-finite, Inv-start, Rounds-again,
}
use open_compute_fabric_rs.Fabric.RouteGraph.Shortest.{NonNegWeights, zero_NonNeg}
use open_compute_fabric_rs.Fabric.RouteGraph.Nearest.{IsNearest-searched}

module _ (f : F64Sum) (d : f.f64.Carrier) (g : RouteGraph f d) where
  -- How `path` comes to its result.
  pub data PathCases (src dst : NodeId) : Option (List NodeId) → Type 0 where
    missing :
        {r : Option (List NodeId)}
        → (contains_key src g.reach ≡ false) ⊎ (contains_key dst g.reach ≡ false)
        → r ≡ none
        → PathCases src dst r
    home : {r : Option (List NodeId)} → src ≡ dst → r ≡ some [] → PathCases src dst r
    unreachable :
        {r : Option (List NodeId)}
        → f.is_infinite ((searched f d g src dst).dist dst) ≡ true
        → r ≡ none
        → PathCases src dst r
    reached :
        {r : Option (List NodeId)} (hops : List NodeId)
        → Trail f d g src hops dst
        → trail_cost f d g f.f64.zero src hops ≡ (searched f d g src dst).dist dst
        → f.is_infinite ((searched f d g src dst).dist dst) ≡ false
        → r ≡ some hops
        → PathCases src dst r

  pub Member-known : (v : NodeId) → contains_key v g.reach ≡ true → Member v (node_ids f d g)
  Member-known v h = elim (Option-cases (lookup v g.reach)) [
    | inl none_there ↦ absurd (ground (arith, none_there))
    | inr (r, e) ↦ Member-map (λ x. x.0) (entry_of_lookup g.reach v e)
  ]

  hops_of_cases :
      (src dst : NodeId)
      → contains_key dst g.reach ≡ true
      → PathCases src dst (hops_of f d g src dst (searched f d g src dst))
  unfolding hops_of
  hops_of_cases src dst known =
      elim (Bool-cases (f.is_infinite ((searched f d g src dst).dist dst))) [
        | inl inf ↦ unreachable inf (rw inf)
        | inr fin ↦
            let (k, inv) = Ended-searched f d g src dst in
            let (hops, walked, trail, cost) =
              Walks-finite f d g src (searched f d g src dst) k dst inv (Member-known dst known) fin
                [] in
            reached hops trail cost fin (rw fin (walked ∙ ap some (append-nil hops)))
      ]

  pub path_cases : (src dst : NodeId) → PathCases src dst (path f d g src dst)
  unfolding path
  path_cases src dst = elim (Bool-cases (contains_key src g.reach)) [
    | inl a ↦ elim (Bool-cases (contains_key dst g.reach)) [
      | inl b ↦ elim (Bool-cases (string_eq.beq src dst)) [
        | inl same ↦ home ((string_eq.beq_iff src dst).0 same) (rw (a, b, same))
        | inr apart ↦ rw (a, b, apart) (hops_of_cases src dst b)
      ]
      | inr b ↦ missing (inr b) (rw (a, b))
    ]
    | inr a ↦ missing (inl a) (rw a)
  ]

  Trail-of_cases :
      (src dst : NodeId) {hops : List NodeId} {r : Option (List NodeId)}
      → PathCases src dst r
      → r ≡ some hops
      → Trail f d g src hops dst
  Trail-of_cases src dst (missing a q) h = absurd (cc)
  Trail-of_cases src dst {hops} (home e q) h = let q' : [] ≡ hops = cc in rw (← q') e
  Trail-of_cases src dst (unreachable i q) h = absurd (cc)
  Trail-of_cases src dst {hops} (reached hops' t c i q) h =
      let q' : hops' ≡ hops = cc in rw (← q') t

  -- The hops that `path` returns lead from the source to the destination, each along an edge of the
  -- graph, whatever the weights are.
  pub path-Trail :
      (src dst : NodeId) {hops : List NodeId}
      → path f d g src dst ≡ some hops
      → Trail f d g src hops dst
  path-Trail src dst h = Trail-of_cases src dst (path_cases src dst) h

  -- A result no longer than the trail `hops`.
  abbrev pub Shortest : NodeId → List NodeId → Option (List NodeId) → Type 0
  Shortest src hops none = f.is_infinite (trail_cost f d g f.f64.zero src hops) ≡ true
  Shortest src hops (some best) =
      (f.is_infinite (trail_cost f d g f.f64.zero src best) ≡ false)
      × (order f.f64 (trail_cost f d g f.f64.zero src best)
          ≤ order f.f64 (trail_cost f d g f.f64.zero src hops))

  module _ (weights : NonNegWeights f d g) where
    NonNeg-trail_cost :
        (c : f.f64.Carrier) (a b : NodeId) (hops : List NodeId)
        → NonNeg f.f64 c
        → Trail f d g a hops b
        → NonNeg f.f64 (trail_cost f d g c a hops)
          × (order f.f64 c ≤ order f.f64 (trail_cost f d g c a hops))
    NonNeg-trail_cost c a b [] p t = (p, omega arith)
    NonNeg-trail_cost c a b (x ∷ hops) p (e, t) = elim (Option-cases (edge_cost f d g a x)) [
      | inl far ↦ absurd (cc (ap is_some far))
      | inr (w, k) ↦ rw k (
          let pos = weights a x w k in
          let (n, le) = NonNeg-trail_cost (f.add c w) x b hops (f.add_NonNeg c w p pos) t in
          (n, omega (arith, le, f.add_grows c w p pos)))
    ]

    -- If no weight is negative or a NaN and both nodes are known, then for every trail from the
    -- source to the destination: hops that `path` returns cost a finite sum which is at most what the
    -- trail costs, and where `path` returns nothing the trail costs infinity.
    pub path-Shortest :
        (src dst : NodeId) (hops : List NodeId)
        → contains_key src g.reach ≡ true
        → contains_key dst g.reach ≡ true
        → Trail f d g src hops dst
        → Shortest src hops (path f d g src dst)
    path-Shortest src dst hops a b t = by_cases (path_cases src dst)
      where
        z : NonNeg f.f64 f.f64.zero
        z = zero_NonNeg f d g

        by_cases : {r : Option (List NodeId)} → PathCases src dst r → Shortest src hops r
        by_cases (missing m q) = absurd (ground (arith, a, b))
        by_cases (home e q) =
            rw q (f.zero_finite, (NonNeg-trail_cost f.f64.zero src dst hops z t).1)
        by_cases (unreachable inf q) =
            let (num, near) = IsNearest-searched f d g src weights (Member-known src a) dst in
            let (pos, le) = NonNeg-trail_cost f.f64.zero src dst hops z t in
            rw q (
              (f.infinite_iff (trail_cost f d g f.f64.zero src hops) pos).1 (
                omega (
                  arith,
                  near hops t,
                  (f.infinite_iff ((searched f d g src dst).dist dst) (num dst)).0 inf,
                  f.infinity_top (trail_cost f d g f.f64.zero src hops),
                )))
        by_cases (reached best tr c fin q) =
            let (num, near) = IsNearest-searched f d g src weights (Member-known src a) dst in
            rw q (rw c (fin, near hops t))

  -- The search without fuel: rounds up to one that stops.
  pub data Runs (dst : NodeId) : Search f d → Search f d → Type 0 where
    halts : {s t : Search f d} → round f d g dst s ≡ stop t → Runs dst s t
    goes : {s s' t : Search f d} → round f d g dst s ≡ again s' → Runs dst s' t → Runs dst s t

  search_loop-Runs :
      (src dst : NodeId) (n k : ℕ) (s : Search f d)
      → length (node_ids f d g) < n + k
      → Inv f d g src s k
      → Runs dst s (search_loop f d g n dst s)
  unfolding search_loop
  search_loop-Runs src dst zero k s q h = absurd (omega (arith, h.counted))
  search_loop-Runs src dst (suc n) k s q h =
      by_round (λ t i. search_loop-Runs src dst n (suc k) t (omega arith) i) (round f d g dst s)
        refl
    where
      by_round :
          ((t : Search f d) → Inv f d g src t (suc k) → Runs dst t (search_loop f d g n dst t))
          → (r : Round f d) → round f d g dst s ≡ r
          → Runs dst s (elim r [ stop t ↦ t | again t ↦ search_loop f d g n dst t ])
      by_round rec (stop t) e = halts e
      by_round rec (again t) e =
          goes e (rec t (Rounds-again f d g src dst s t k (round_cases f d g dst s) e h))

  -- The search ends, whatever the weights are: run without fuel, from the source's start, its rounds
  -- reach one that stops, and they leave what the search on its fuel returns.
  pub searched-Runs : (src dst : NodeId) → Runs dst (start f d g src) (searched f d g src dst)
  unfolding searched
  searched-Runs src dst =
      search_loop-Runs src dst (fuel f d g) 0 (start f d g src) (omega arith) (Inv-start f d g src)
