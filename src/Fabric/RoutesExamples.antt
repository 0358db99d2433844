-- ===== src/Fabric/RoutesExamples.antt =====
-- crates/ocf-fabric/src/routing.rs: two private nodes with two relays.
use open_compute_fabric_rs.Prelude.{
  string_eq, filter, ◌≡◌, ◌≢◌, refl, true, false, [], ◌∷◌, some, arith,
}
use open_compute_fabric_rs.Prelude.Assoc.{lookup, contains_key}
use open_compute_fabric_rs.Prelude.Float.{sample_sum}
use open_compute_fabric_rs.Fabric.Node.{NodeId, Reachability, is_private}
use open_compute_fabric_rs.Fabric.RouteGraph.{
  RouteGraph, can_link, edge_cost, path, next_relay, searched, start,
}
use open_compute_fabric_rs.Fabric.RouteGraph.Trail.{Trail}
use open_compute_fabric_rs.Fabric.RouteGraph.Shortest.{NonNegWeights, NonNegWeights-of_rtt}
use open_compute_fabric_rs.Fabric.RouteGraph.Routes.{
  path-Trail, path-Shortest, Shortest, searched-Runs, Runs,
}
use open_compute_fabric_rs.Fabric.RouteGraph.Relay.{next_relay_dialable}

abbrev sample : RouteGraph sample_sum (some 1000)
sample = record {
  reach =
      ("a", Reachability.private)
      ∷ ("b", Reachability.private)
      ∷ ("r1", Reachability.relay)
      ∷ ("r2", Reachability.relay)
      ∷ [];
  rtt =
      (("a", "r1"), some 1)
      ∷ (("a", "r2"), some 50)
      ∷ (("r1", "b"), some 100)
      ∷ (("r2", "b"), some 2)
      ∷ [];
}

chosen : path sample_sum (some 1000) sample "a" "b" ≡ some ("r2" ∷ "b" ∷ [])
unfolding path lookup filter edge_cost can_link
chosen = refl

relay_chosen : next_relay sample_sum (some 1000) sample "a" "b" ≡ some "r2"
unfolding next_relay lookup filter edge_cost can_link
relay_chosen = refl

sample_weights : NonNegWeights sample_sum (some 1000) sample
sample_weights =
    NonNegWeights-of_rtt sample_sum (some 1000) sample (refl, omega arith)
      ((refl, omega arith), ((refl, omega arith), ((refl, omega arith), ((refl, omega arith), tt))))

path-Trail_example : Trail sample_sum (some 1000) sample "a" ("r2" ∷ "b" ∷ []) "b"
path-Trail_example = path-Trail sample_sum (some 1000) sample "a" "b" chosen

by_r1 : Trail sample_sum (some 1000) sample "a" ("r1" ∷ "b" ∷ []) "b"
unfolding edge_cost can_link lookup
by_r1 = (refl, (refl, refl))

a_known : contains_key "a" sample.reach ≡ true
unfolding lookup
a_known = refl

b_known : contains_key "b" sample.reach ≡ true
unfolding lookup
b_known = refl

path-Shortest_example :
    Shortest sample_sum
      (some 1000)
      sample
      "a"
      ("r1" ∷ "b" ∷ [])
      (path sample_sum (some 1000) sample "a" "b")
path-Shortest_example =
    path-Shortest sample_sum (some 1000) sample sample_weights "a" "b" ("r1" ∷ "b" ∷ []) a_known
      b_known by_r1

searched-Runs_example :
    Runs sample_sum
      (some 1000)
      sample
      "b"
      (start sample_sum (some 1000) sample "a")
      (searched sample_sum (some 1000) sample "a" "b")
searched-Runs_example = searched-Runs sample_sum (some 1000) sample "a" "b"

next_relay_dialable_example :
    ◌≢◌ {A = NodeId} "a" "r2"
    × ((reach : Reachability)
        → lookup "a" sample.reach ≡ some reach
        → is_private reach ≡ true
        → (other : Reachability) × (lookup "r2" sample.reach ≡ some other)
          × (is_private other ≡ false))
next_relay_dialable_example =
    next_relay_dialable sample_sum (some 1000) sample "a" "b" "r2" relay_chosen
