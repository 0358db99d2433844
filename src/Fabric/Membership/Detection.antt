-- ===== src/Fabric/Membership/Detection.antt =====
-- crates/ocf-fabric/src/membership.rs: what the failure detector makes of silence.
use open_compute_fabric_rs.Prelude.{
  ℕ, ◌+◌, ◌≤◌, ◌<◌, ◌≡◌, refl, ap, ◌∙◌, false, [], ◌∷◌, some, arith, string_eq, Bool-cases, inl,
  inr, beq_refl,
}
use mathlib.Core.Option.{map as map_option}
use open_compute_fabric_rs.Prelude.Assoc.{Assoc, lookup, lookup-insert}
use open_compute_fabric_rs.Prelude.Float.{F64}
use open_compute_fabric_rs.Core.Metadata.{Time}
use open_compute_fabric_rs.Fabric.Node.{NodeId}
use open_compute_fabric_rs.Fabric.Membership.{
  Liveness, is_terminal, is_left, MemberState, Membership, tick_member, tick_members, tick,
  heartbeat_at, set_member, liveness, revived,
}

module _ {f : F64} where
  -- One member at a tick of the detector.
  abbrev ticked : Membership f → Time → NodeId → MemberState f → MemberState f
  ticked m now id s = (tick_member m.suspect_timeout m.dead_timeout now id s).0

  pub lookup-tick_members :
      (suspect dead : ℕ) (now : Time) (id : NodeId) (members : Assoc NodeId (MemberState f))
      → lookup id (tick_members suspect dead now members).0
        ≡ map_option (λ s. (tick_member suspect dead now id s).0) (lookup id members)
  unfolding tick_members lookup
  lookup-tick_members suspect dead now id [] = refl
  lookup-tick_members suspect dead now id ((j, s) ∷ members) =
      elim (Bool-cases (string_eq.beq j id)) [
        | inl e ↦
            let same : j ≡ id = (string_eq.beq_iff j id).0 e in
            rw e (ap (λ (k : NodeId). some (tick_member suspect dead now k s).0) same)
        | inr e ↦ rw e (lookup-tick_members suspect dead now id members)
      ]

  pub lookup-tick :
      (m : Membership f) (now : Time) (id : NodeId)
      → lookup id (tick m now).0.members ≡ map_option (ticked m now id) (lookup id m.members)
  unfolding tick
  lookup-tick m now id = lookup-tick_members m.suspect_timeout m.dead_timeout now id m.members

  liveness-tick :
      (m : Membership f) (now : Time) (id : NodeId) (s : MemberState f)
      → lookup id m.members ≡ some s
      → liveness (tick m now).0 id ≡ some (ticked m now id s).liveness
  unfolding liveness
  liveness-tick m now id s known = rw (lookup-tick m now id, known, liveness)

  heartbeat_at_revives :
      (m : Membership f) (id : NodeId) (at : Time) (s : MemberState f)
      → lookup id m.members ≡ some s
      → is_left s.liveness ≡ false
      → (heartbeat_at m id at).0 ≡ set_member m id (revived at s)
  unfolding heartbeat_at
  heartbeat_at_revives m id at s known here = rw (known, here, heartbeat_at)

  -- A member that the detector follows and that has been silent for both timeouts is dead after the
  -- tick.
  pub tick_detects :
      (m : Membership f) (now : Time) (id : NodeId) (s : MemberState f)
      → lookup id m.members ≡ some s
      → is_terminal s.liveness ≡ false
      → s.last_heartbeat + m.suspect_timeout + m.dead_timeout ≤ now
      → liveness (tick m now).0 id ≡ some Liveness.dead
  unfolding tick_member
  tick_detects m now id s known live silent = liveness-tick m now id s known ∙ ground arith

  -- A heartbeat of a member that has not left keeps it alive at every tick before the suspicion
  -- timeout has passed since.
  pub tick-heartbeat :
      (m : Membership f) (id : NodeId) (at now : Time) (s : MemberState f)
      → lookup id m.members ≡ some s
      → is_left s.liveness ≡ false
      → now < at + m.suspect_timeout
      → liveness (tick (heartbeat_at m id at).0 now).0 id ≡ some Liveness.alive
  unfolding tick_member
  tick-heartbeat m id at now s known here soon =
      let m' = set_member m id (revived at s) in
      let set : lookup id m'.members ≡ some (revived at s) =
        ground (arith, lookup-insert id id (revived at s) m.members, beq_refl id) in
      rw (heartbeat_at_revives m id at s known here)
        (liveness-tick m' now id (revived at s) set ∙ ground arith)

  tick_member_skip :
      (suspect dead : ℕ) (t now : Time) (id : NodeId) (s : MemberState f)
      → t ≤ now
      → (tick_member suspect dead now id (tick_member suspect dead t id s).0).0
        ≡ (tick_member suspect dead now id s).0
  unfolding tick_member
  tick_member_skip suspect dead t now id s h = ground arith

  tick_members_skip :
      (suspect dead : ℕ) (t now : Time) (members : Assoc NodeId (MemberState f))
      → t ≤ now
      → (tick_members suspect dead now (tick_members suspect dead t members).0).0
        ≡ (tick_members suspect dead now members).0
  unfolding tick_members
  tick_members_skip suspect dead t now [] h = refl
  tick_members_skip suspect dead t now ((id, s) ∷ members) h =
      cc
        (tick_member_skip suspect dead t now id s h, tick_members_skip suspect dead t now members h)

  -- An earlier tick makes no difference to the table after a later one.
  pub tick_skip :
      (m : Membership f) (t now : Time) → t ≤ now → (tick (tick m t).0 now).0 ≡ (tick m now).0
  unfolding tick
  tick_skip m t now h =
      ap (λ members. record m { members = members })
        (tick_members_skip m.suspect_timeout m.dead_timeout t now m.members h)
