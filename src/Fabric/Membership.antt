-- ===== src/Fabric/Membership.antt =====
-- crates/ocf-fabric/src/membership.rs: the membership table and its failure detector. Times and
-- timeouts are numbers of ticks of the clock, and a timeout is not negative, so that
-- `now - last_heartbeat >= t` reads `last_heartbeat + t ≤ now`.
pub mod Detection
pub mod Table
pub mod Departure
use open_compute_fabric_rs.Prelude.{
  ℕ, ◌+◌, ◌%◌, ◌^◌, String, Bool, true, false, ◌&&◌, List, [], ◌∷◌, ◌++◌, Option, none, some, map,
  filter, find, leb, string_eq, if◌then◌else◌,
}
use open_compute_fabric_rs.Prelude.Assoc.{Assoc, lookup, insert, values}
use open_compute_fabric_rs.Prelude.Float.{F64}
use open_compute_fabric_rs.Core.Error.{Result, ok, err, not_found, concat}
use open_compute_fabric_rs.Core.Scope.{ResourceId}
use open_compute_fabric_rs.Core.Metadata.{Time}
use open_compute_fabric_rs.Fabric.Node.{NodeId, FabricNode}

pub data Liveness : Type 0 where
  alive suspect dead left : Liveness

abbrev pub is_available : Liveness → Bool
is_available Liveness.alive = true
is_available _ = false

abbrev pub is_terminal : Liveness → Bool
is_terminal Liveness.dead = true
is_terminal Liveness.left = true
is_terminal _ = false

-- `== Liveness::Left`
abbrev pub is_left : Liveness → Bool
is_left Liveness.left = true
is_left _ = false

-- `== Liveness::Dead`
abbrev pub is_dead : Liveness → Bool
is_dead Liveness.dead = true
is_dead _ = false

pub record MemberState (f : F64) : Type 0 where
  pub node : FabricNode
  pub liveness : Liveness
  pub last_heartbeat : Time
  pub incarnation : ℕ
  pub rtt_ms : Option f.Carrier

pub data MembershipEvent : Type 0 where
  joined : NodeId → MembershipEvent
  recovered : NodeId → MembershipEvent
  suspected : NodeId → MembershipEvent
  died : NodeId → MembershipEvent
  left : NodeId → MembershipEvent

pub record Membership (f : F64) : Type 0 where
  pub local : NodeId
  pub members : Assoc NodeId (MemberState f)
  pub suspect_timeout : ℕ
  pub dead_timeout : ℕ

module _ {f : F64} where
  abbrev pub with_timeouts : NodeId → ℕ → ℕ → Membership f
  with_timeouts local suspect_timeout dead_timeout = record {
    local = local;
    members = [];
    suspect_timeout = suspect_timeout;
    dead_timeout = dead_timeout;
  }

  -- The known member with its node refreshed; `incarnation` is a `u64`.
  abbrev pub rejoined : Time → FabricNode → MemberState f → MemberState f
  rejoined now node existing = record {
    node = node;
    liveness = Liveness.alive;
    last_heartbeat = now;
    incarnation = (existing.incarnation + 1) % 2 ^ 64;
    rtt_ms = existing.rtt_ms;
  }

  abbrev pub first_joined : Time → FabricNode → MemberState f
  first_joined now node = record {
    node = node;
    liveness = Liveness.alive;
    last_heartbeat = now;
    incarnation = 0;
    rtt_ms = none;
  }

  -- The table with the member of `id` set.
  abbrev pub set_member : Membership f → NodeId → MemberState f → Membership f
  set_member m id s = record m { members = insert id s m.members }

  unfoldable pub join : Time → Membership f → FabricNode → Membership f × MembershipEvent
  join now m node = elim (lookup node.node_id m.members) [
    | none ↦
        (set_member m node.node_id (first_joined now node), MembershipEvent.joined node.node_id)
    | some existing ↦ (
      set_member m node.node_id (rejoined now node existing),
      if is_available existing.liveness
          then MembershipEvent.joined node.node_id
          else MembershipEvent.recovered node.node_id,
    )
  ]

  -- The member at a heartbeat.
  abbrev pub revived : Time → MemberState f → MemberState f
  revived now s = record s { last_heartbeat = now; liveness = Liveness.alive }

  unfoldable pub heartbeat_at : Membership f → NodeId → Time → Membership f × Option MembershipEvent
  heartbeat_at m id now = elim (lookup id m.members) [
    | none ↦ (m, none)
    | some s ↦ if is_left s.liveness then (m, none) else (
      set_member m id (revived now s),
      if is_available s.liveness then none else some (MembershipEvent.recovered id),
    )
  ]

  unfoldable pub force_dead : Membership f → NodeId → Membership f × Option MembershipEvent
  force_dead m id = elim (lookup id m.members) [
    | none ↦ (m, none)
    | some s ↦ if is_terminal s.liveness then (m, none) else (
      set_member m id (record s { liveness = Liveness.dead }),
      some (MembershipEvent.died id),
    )
  ]

  backs_machine : ResourceId → MemberState f → Bool
  backs_machine machine_id s = elim s.node.machine_id [
    | none ↦ false
    | some own ↦ string_eq.beq own machine_id
  ]

  unfoldable pub member_for_machine : Membership f → ResourceId → Option (MemberState f)
  unfolding backs_machine
  member_for_machine m machine_id = find (backs_machine machine_id) (values m.members)

  unfoldable pub record_rtt : Membership f → NodeId → f.Carrier → Membership f
  record_rtt m id rtt_ms = elim (lookup id m.members) [
    | none ↦ m
    | some s ↦ set_member m id (record s { rtt_ms = some rtt_ms })
  ]

  unfoldable pub rtt : Membership f → NodeId → Option f.Carrier
  rtt m id = elim (lookup id m.members) [ none ↦ none | some s ↦ s.rtt_ms ]

  unfoldable pub leave : Membership f → NodeId → Membership f × Result MembershipEvent
  leave m id = elim (lookup id m.members) [
    | none ↦ (m, err (not_found (concat "member " id)))
    | some s ↦
        (set_member m id (record s { liveness = Liveness.left }), ok (MembershipEvent.left id))
  ]

  -- One member at a tick, with the events that it adds.
  unfoldable pub tick_member :
      ℕ → ℕ → Time → NodeId → MemberState f → MemberState f × List MembershipEvent
  tick_member suspect_timeout dead_timeout now id s =
      if is_terminal s.liveness
      then (s, [])
      else if leb (s.last_heartbeat + (suspect_timeout + dead_timeout)) now
      then if is_dead s.liveness
        then (s, [])
        else (record s { liveness = Liveness.dead }, MembershipEvent.died id ∷ [])
      else if leb (s.last_heartbeat + suspect_timeout) now && is_available s.liveness
      then (record s { liveness = Liveness.suspect }, MembershipEvent.suspected id ∷ [])
      else (s, [])

  -- The loop over the members.
  pub tick_members :
      ℕ
      → ℕ
      → Time
      → Assoc NodeId (MemberState f)
      → Assoc NodeId (MemberState f) × List MembershipEvent
  tick_members suspect_timeout dead_timeout now [] = ([], [])
  tick_members suspect_timeout dead_timeout now ((id, s) ∷ members) =
      let (s', events) = tick_member suspect_timeout dead_timeout now id s in
      let (members', later) = tick_members suspect_timeout dead_timeout now members in
      ((id, s') ∷ members', events ++ later)

  unfoldable pub tick : Membership f → Time → Membership f × List MembershipEvent
  unfolding tick_members
  tick m now =
      let (members, events) = tick_members m.suspect_timeout m.dead_timeout now m.members in
      (record m { members = members }, events)

  -- `retain`, with the ids that it drops.
  pub reap_members : Assoc NodeId (MemberState f) → Assoc NodeId (MemberState f) × List NodeId
  reap_members [] = ([], [])
  reap_members ((id, s) ∷ members) =
      let (kept, reaped) = reap_members members in
      if is_terminal s.liveness then (kept, id ∷ reaped) else ((id, s) ∷ kept, reaped)

  unfoldable pub reap : Membership f → Membership f × List NodeId
  unfolding reap_members
  reap m = let (kept, reaped) = reap_members m.members in (record m { members = kept }, reaped)

  unfoldable pub liveness : Membership f → NodeId → Option Liveness
  liveness m id = elim (lookup id m.members) [ none ↦ none | some s ↦ some s.liveness ]

  unfoldable pub alive_nodes : Membership f → List FabricNode
  alive_nodes m = map (λ s. s.node) (filter (λ s. is_available s.liveness) (values m.members))
