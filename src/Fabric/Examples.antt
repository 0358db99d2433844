-- ===== src/Fabric/Examples.antt =====
-- crates/ocf-fabric: a table of three members.
use open_compute_fabric_rs.Prelude.{ℕ, ◌≡◌, refl, inl, List, [], ◌∷◌, none, some, arith, string_eq}
use open_compute_fabric_rs.Prelude.Assoc.{lookup, IsUnique}
use open_compute_fabric_rs.Prelude.Float.{sample_f64}
use open_compute_fabric_rs.Fabric.Node as Node
use open_compute_fabric_rs.Fabric.Node.{NodeId, FabricNode}
use open_compute_fabric_rs.Fabric.Membership.{Liveness, MemberState, Membership, tick, liveness}
use open_compute_fabric_rs.Fabric.Membership.Detection.{tick_detects}
use open_compute_fabric_rs.Fabric.Membership.Departure.{Call, run, IsGone, IsGone-run}

abbrev member : NodeId → Liveness → ℕ → MemberState sample_f64
member id liveness last_heartbeat = record {
  node = Node.new 0 id "key" (id ∷ []);
  liveness = liveness;
  last_heartbeat = last_heartbeat;
  incarnation = 0;
  rtt_ms = none;
}

abbrev table : Membership sample_f64
table = record {
  local = "a";
  members =
      ("a", member "a" Liveness.alive 100)
      ∷ ("b", member "b" Liveness.suspect 90)
      ∷ ("c", member "c" Liveness.left 20)
      ∷ [];
  suspect_timeout = 5;
  dead_timeout = 5;
}

b_known : lookup "b" table.members ≡ some (member "b" Liveness.suspect 90)
unfolding lookup
b_known = refl

tick_detects_example : liveness (tick table 100).0 "b" ≡ some Liveness.dead
tick_detects_example =
    tick_detects table 100 "b" (member "b" Liveness.suspect 90) b_known refl (omega arith)

table-IsUnique : IsUnique table.members
unfolding lookup
table-IsUnique = (refl, (refl, (refl, tt)))

abbrev calls : List (Call sample_f64)
calls =
    Call.heartbeat_at "c" 101
    ∷ Call.join 102 (Node.new 102 "d" "key" [])
    ∷ Call.tick 103
    ∷ Call.force_dead "c"
    ∷ []

c-IsGone : IsGone table "c"
unfolding liveness lookup
c-IsGone = inl refl

IsGone-run_example : IsGone (run table calls) "c"
IsGone-run_example = IsGone-run table "c" calls table-IsUnique c-IsGone (tt, (refl, (tt, (tt, tt))))
