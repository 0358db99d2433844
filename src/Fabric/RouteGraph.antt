-- ===== src/Fabric/RouteGraph.antt =====
-- crates/ocf-fabric/src/routing.rs: the weighted graph of the nodes that can hold a tunnel, and
-- Dijkstra's search of a shortest path. The nodes are visited in the order of the association list,
-- which stands for the unspecified order of a `HashMap`.
pub mod Trail
pub mod Tree
pub mod Relax
pub mod Rounds
pub mod Walk
pub mod Shortest
pub mod Visiting
pub mod Nearest
pub mod Routes
pub mod Relay
use open_compute_fabric_rs.Prelude.{
  ℕ, zero, suc, String, Bool, true, false, not, ◌&&◌, ◌||◌, List, [], ◌∷◌, Option, none, some,
  Ordering, ◌==◌, string_eq, pair_eq, if◌then◌else◌, filter, length,
}
use open_compute_fabric_rs.Prelude.Assoc.{Assoc, lookup, insert, keys, contains_key}
use open_compute_fabric_rs.Prelude.Float.{F64, F64Sum, partial_cmp, lt}
use open_compute_fabric_rs.Prelude.Minimum.{min_by}
use open_compute_fabric_rs.Fabric.Node.{NodeId, Reachability, is_private}

-- `dist`, `prev` and `done` are maps whose keys are the nodes: `dist` and `done` get an entry for
-- each node at the start, so their indexing never fails.
unfoldable pub update {ℓ} : {A : Type ℓ} → NodeId → A → (NodeId → A) → NodeId → A
update k v m x = if string_eq.beq k x then v else m x

-- `unwrap_or(Ordering::Equal)`
or_equal : Option Ordering → Ordering
or_equal none = Ordering.eq
or_equal (some o) = o

linkable : Option Reachability → Option Reachability → Bool
linkable none b = false
linkable (some ra) none = false
linkable (some ra) (some rb) = not (is_private ra && is_private rb)

-- `DEFAULT_EDGE_MS` is passed in, since the carrier of the floats is a parameter.
module _ (f : F64Sum) (default_edge_ms : f.f64.Carrier) where
  pub record RouteGraph : Type 0 where
    pub reach : Assoc NodeId Reachability
    pub rtt : Assoc (NodeId × NodeId) f.f64.Carrier

  abbrev pub new : RouteGraph
  new = record { reach = []; rtt = [] }

  abbrev pub add_node : NodeId → Reachability → RouteGraph → RouteGraph
  add_node id reachability g = record g { reach = insert id reachability g.reach }

  abbrev pub observe_rtt : NodeId → NodeId → f.f64.Carrier → RouteGraph → RouteGraph
  observe_rtt from to rtt_ms g = record g { rtt = insert (from, to) rtt_ms g.rtt }

  pub record Search : Type 0 where
    pub dist : NodeId → f.f64.Carrier
    pub prev : NodeId → Option NodeId
    pub done : NodeId → Bool

  -- What one round of the search leads to.
  pub data Round : Type 0 where
    stop : Search → Round
    again : Search → Round

  pub or_else : Option f.f64.Carrier → Option f.f64.Carrier → f.f64.Carrier
  or_else none none = default_edge_ms
  or_else none (some w) = w
  or_else (some w) other = w

  module _ (g : RouteGraph) where
    abbrev pub node_ids : List NodeId
    node_ids = keys g.reach

    unfoldable pub can_link : NodeId → NodeId → Bool
    unfolding linkable
    can_link a b = linkable (lookup a g.reach) (lookup b g.reach)

    unfoldable pub edge_cost : NodeId → NodeId → Option f.f64.Carrier
    unfolding or_else
    edge_cost a b =
        if string_eq.beq a b || not (can_link a b)
        then none
        else some (or_else (lookup (a, b) g.rtt) (lookup (b, a) g.rtt))

    pub relax_by : NodeId → Search → NodeId → Option f.f64.Carrier → Search
    unfolding update
    relax_by u s v none = s
    relax_by u s v (some w) =
        if lt f.f64 (f.add (s.dist u) w) (s.dist v)
        then record s {
          dist = update v (f.add (s.dist u) w) s.dist;
          prev = update v (some u) s.prev;
        }
        else s

    -- The body of the loop over the neighbours of `u`.
    pub relax : NodeId → Search → NodeId → Search
    unfolding relax_by
    relax u s v = if s.done v then s else relax_by u s v (edge_cost u v)

    pub relax_all : NodeId → Search → List NodeId → Search
    unfolding relax
    relax_all u s [] = s
    relax_all u s (v ∷ vs) = relax_all u (relax u s v) vs

    pub by_dist : Search → NodeId → NodeId → Ordering
    unfolding or_equal
    by_dist s a b = or_equal (partial_cmp f.f64 (s.dist a) (s.dist b))

    -- The cheapest node not visited.
    pub cheapest : Search → Option NodeId
    unfolding by_dist min_by
    cheapest s = min_by (by_dist s) (filter (λ n. not (s.done n)) node_ids)

    pub mark : NodeId → Search → Search
    unfolding update
    mark u s = record s { done = update u true s.done }

    pub visit : NodeId → Search → NodeId → Round
    unfolding mark relax_all
    visit dst s u =
        if string_eq.beq u dst then stop (mark u s) else again (relax_all u (mark u s) node_ids)

    pub after_cheapest : NodeId → Search → Option NodeId → Round
    unfolding visit
    after_cheapest dst s none = stop s
    after_cheapest dst s (some u) = if f.is_infinite (s.dist u) then stop s else visit dst s u

    pub round : NodeId → Search → Round
    unfolding cheapest after_cheapest
    round dst s = after_cheapest dst s (cheapest s)

    -- `loop { … }` on fuel.
    pub search_loop : ℕ → NodeId → Search → Search
    unfolding round
    search_loop zero dst s = s
    search_loop (suc fuel) dst s = elim (round dst s) [
      | stop t ↦ t
      | again t ↦ search_loop fuel dst t
    ]

    pub start : NodeId → Search
    unfolding update
    start src = record {
      dist = update src f.f64.zero (λ _. f.infinity);
      prev = λ _. none;
      done = λ _. false;
    }

    -- The walk back from `dst`, on fuel; `hops` is in the order that `reverse` gives it.
    pub walk_back :
        ℕ → (NodeId → Option NodeId) → NodeId → NodeId → List NodeId → Option (List NodeId)
    walk_back zero prev src cur hops = none
    walk_back (suc fuel) prev src cur hops = elim (string_eq.beq cur src) [
      | true ↦ some hops
      | false ↦ elim (prev cur) [ none ↦ none | some u ↦ walk_back fuel prev src u (cur ∷ hops) ]
    ]

    -- One round for each node visited, and one to see that none is left.
    abbrev pub fuel : ℕ
    fuel = suc (length node_ids)

    pub searched : NodeId → NodeId → Search
    unfolding search_loop start
    searched src dst = search_loop fuel dst (start src)

    pub hops_of : NodeId → NodeId → Search → Option (List NodeId)
    unfolding walk_back
    hops_of src dst s =
        if f.is_infinite (s.dist dst) then none else walk_back fuel s.prev src dst []

    unfoldable pub path : NodeId → NodeId → Option (List NodeId)
    unfolding searched hops_of
    path src dst =
        if not (contains_key src g.reach) || not (contains_key dst g.reach)
        then none
        else if string_eq.beq src dst
        then some []
        else hops_of src dst (searched src dst)

    pub relay_of : Option (List NodeId) → Option NodeId
    relay_of none = none
    relay_of (some []) = none
    relay_of (some (a ∷ [])) = none
    relay_of (some (a ∷ b ∷ hops)) = some a

    unfoldable pub next_relay : NodeId → NodeId → Option NodeId
    unfolding relay_of path
    next_relay src dst = relay_of (path src dst)
