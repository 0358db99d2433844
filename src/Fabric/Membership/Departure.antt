-- ===== src/Fabric/Membership/Departure.antt =====
-- crates/ocf-fabric/src/membership.rs: sequences of calls, and a member that has left.
use open_compute_fabric_rs.Prelude.{
  ℕ, ◌≡◌, refl, ◌⊎◌, false, List, [], ◌∷◌, none, some, arith, string_eq, if◌then◌else◌, Bool-cases,
  Option-cases, inl, inr, All,
}
use open_compute_fabric_rs.Prelude.Assoc.{Assoc, lookup, lookup-insert, IsUnique, insert-IsUnique}
use open_compute_fabric_rs.Prelude.Float.{F64}
use open_compute_fabric_rs.Core.Metadata.{Time}
use open_compute_fabric_rs.Fabric.Node.{NodeId, FabricNode}
use open_compute_fabric_rs.Fabric.Membership.{
  Liveness, is_available, is_terminal, is_left, MemberState, Membership, tick_member, tick_members,
  reap_members, set_member, liveness, revived, rejoined, first_joined,
}
use open_compute_fabric_rs.Fabric.Membership as Members
use open_compute_fabric_rs.Fabric.Membership.Detection.{lookup-tick, lookup-tick_members}
use open_compute_fabric_rs.Fabric.Membership.Table.{reap_lem, reap_members-lookup}

-- The calls that change the table.
pub data Call (f : F64) : Type 0 where
  join : Time → FabricNode → Call f
  heartbeat_at : NodeId → Time → Call f
  force_dead : NodeId → Call f
  record_rtt : NodeId → f.Carrier → Call f
  leave : NodeId → Call f
  tick : Time → Call f
  reap : Call f

module _ {f : F64} where
  pub after : Membership f → Call f → Membership f
  after m (Call.join now node) = (Members.join now m node).0
  after m (Call.heartbeat_at id now) = (Members.heartbeat_at m id now).0
  after m (Call.force_dead id) = (Members.force_dead m id).0
  after m (Call.record_rtt id rtt) = Members.record_rtt m id rtt
  after m (Call.leave id) = (Members.leave m id).0
  after m (Call.tick now) = (Members.tick m now).0
  after m Call.reap = (Members.reap m).0

  pub run : Membership f → List (Call f) → Membership f
  run m [] = m
  run m (c ∷ cs) = run (after m c) cs

  -- A call that does not join the node.
  abbrev pub NotJoin : NodeId → Call f → Type 0
  NotJoin id (Call.join now node) = string_eq.beq node.node_id id ≡ false
  NotJoin id c = Unit

  -- The node has left, or is not in the table.
  abbrev pub IsGone : Membership f → NodeId → Type 0
  IsGone m id = (liveness m id ≡ some Liveness.left) ⊎ (liveness m id ≡ none)

  liveness-set_member :
      (m : Membership f) (k id : NodeId) (s : MemberState f)
      → liveness (set_member m k s) id
        ≡ (if string_eq.beq k id then some s.liveness else liveness m id)
  unfolding liveness
  liveness-set_member m k id s = ground (arith, lookup-insert k id s m.members)

  IsGone-heartbeat_at :
      (m : Membership f) (id k : NodeId) (now : Time)
      → IsGone m id
      → IsGone ((Members.heartbeat_at m k now).0) id
  unfolding liveness Members.heartbeat_at
  IsGone-heartbeat_at m id k now h = elim (Option-cases (lookup k m.members)) [
    | inl unknown ↦ rw (unknown, Members.heartbeat_at) h
    | inr (s, known) ↦
        ground (arith, liveness-set_member m k id (revived now s), string_eq.beq_iff k id)
  ]

  IsGone-force_dead :
      (m : Membership f) (id k : NodeId) → IsGone m id → IsGone ((Members.force_dead m k).0) id
  unfolding liveness Members.force_dead
  IsGone-force_dead m id k h = elim (Option-cases (lookup k m.members)) [
    | inl unknown ↦ rw (unknown, Members.force_dead) h
    | inr (s, known) ↦ ground (
      arith,
      liveness-set_member m k id (record s { liveness = Liveness.dead }),
      string_eq.beq_iff k id,
    )
  ]

  IsGone-record_rtt :
      (m : Membership f) (id k : NodeId) (rtt : f.Carrier)
      → IsGone m id
      → IsGone (Members.record_rtt m k rtt) id
  unfolding liveness Members.record_rtt
  IsGone-record_rtt m id k rtt h = elim (Option-cases (lookup k m.members)) [
    | inl unknown ↦ rw (unknown, Members.record_rtt) h
    | inr (s, known) ↦
        ground (
          arith,
          liveness-set_member m k id (record s { rtt_ms = some rtt }),
          string_eq.beq_iff k id,
        )
  ]

  IsGone-leave :
      (m : Membership f) (id k : NodeId) → IsGone m id → IsGone ((Members.leave m k).0) id
  unfolding liveness Members.leave
  IsGone-leave m id k h = elim (Option-cases (lookup k m.members)) [
    | inl unknown ↦ rw (unknown, Members.leave) h
    | inr (s, known) ↦ ground (
      arith,
      liveness-set_member m k id (record s { liveness = Liveness.left }),
      string_eq.beq_iff k id,
    )
  ]

  IsGone-join :
      (m : Membership f) (id : NodeId) (now : Time) (node : FabricNode)
      → IsGone m id
      → string_eq.beq node.node_id id ≡ false
      → IsGone (Members.join now m node).0 id
  unfolding liveness Members.join
  IsGone-join m id now node h other = elim (Option-cases (lookup node.node_id m.members)) [
    | inl unknown ↦ ground (arith, liveness-set_member m node.node_id id (first_joined now node))
    | inr (s, known) ↦ ground (arith, liveness-set_member m node.node_id id (rejoined now node s))
  ]

  IsGone-tick :
      (m : Membership f) (id : NodeId) (now : Time) → IsGone m id → IsGone (Members.tick m now).0 id
  unfolding liveness tick_member
  IsGone-tick m id now h = elim (Option-cases (lookup id m.members)) [
    | inl unknown ↦ ground (arith, lookup-tick m now id)
    | inr (s, known) ↦ ground (arith, lookup-tick m now id)
  ]

  IsGone-reap :
      (m : Membership f) (id : NodeId)
      → IsUnique m.members
      → IsGone m id
      → IsGone (Members.reap m).0 id
  unfolding liveness
  IsGone-reap m id u h = ground (arith, (reap_lem m id u).0)

  IsGone-after :
      (m : Membership f) (id : NodeId) (c : Call f)
      → IsUnique m.members
      → IsGone m id
      → NotJoin id c
      → IsGone (after m c) id
  unfolding after
  IsGone-after m id (Call.join now node) u h n = IsGone-join m id now node h n
  IsGone-after m id (Call.heartbeat_at k now) u h n = IsGone-heartbeat_at m id k now h
  IsGone-after m id (Call.force_dead k) u h n = IsGone-force_dead m id k h
  IsGone-after m id (Call.record_rtt k rtt) u h n = IsGone-record_rtt m id k rtt h
  IsGone-after m id (Call.leave k) u h n = IsGone-leave m id k h
  IsGone-after m id (Call.tick now) u h n = IsGone-tick m id now h
  IsGone-after m id Call.reap u h n = IsGone-reap m id u h

  set_member-IsUnique :
      (m : Membership f) (k : NodeId) (s : MemberState f)
      → IsUnique m.members
      → IsUnique (set_member m k s).members
  set_member-IsUnique m k s u = insert-IsUnique k s m.members u

  tick_members-IsUnique :
      (suspect dead : ℕ) (now : Time) (members : Assoc NodeId (MemberState f))
      → IsUnique members
      → IsUnique (tick_members suspect dead now members).0
  unfolding tick_members
  tick_members-IsUnique suspect dead now [] u = tt
  tick_members-IsUnique suspect dead now ((id, s) ∷ members) u = (
    rw (lookup-tick_members suspect dead now id members, u.0) refl,
    tick_members-IsUnique suspect dead now members u.1,
  )

  reap_members-IsUnique :
      (members : Assoc NodeId (MemberState f))
      → IsUnique members
      → IsUnique (reap_members members).0
  unfolding reap_members
  reap_members-IsUnique [] u = tt
  reap_members-IsUnique ((id, s) ∷ members) u =
      let rest = reap_members-IsUnique members u.1 in
      let fresh : lookup id (reap_members members).0 ≡ none =
        rw (reap_members-lookup members id u.1, u.0) refl in
      elim (Bool-cases (is_terminal s.liveness)) [
        | inl gone ↦ rw gone rest
        | inr stays ↦ rw stays (fresh, rest)
      ]

  after-IsUnique :
      (m : Membership f) (c : Call f) → IsUnique m.members → IsUnique (after m c).members
  unfolding after Members.join Members.heartbeat_at Members.force_dead Members.record_rtt
      Members.leave Members.tick Members.reap
  after-IsUnique m (Call.join now node) u = elim (Option-cases (lookup node.node_id m.members)) [
    | inl unknown ↦ ground (arith, insert-IsUnique node.node_id (first_joined now node) m.members u)
    | inr (s, known) ↦
        ground (arith, insert-IsUnique node.node_id (rejoined now node s) m.members u)
  ]
  after-IsUnique m (Call.heartbeat_at k now) u = elim (Option-cases (lookup k m.members)) [
    | inl unknown ↦ ground arith
    | inr (s, known) ↦ ground (arith, insert-IsUnique k (revived now s) m.members u)
  ]
  after-IsUnique m (Call.force_dead k) u = elim (Option-cases (lookup k m.members)) [
    | inl unknown ↦ ground arith
    | inr (s, known) ↦
        ground (arith, insert-IsUnique k (record s { liveness = Liveness.dead }) m.members u)
  ]
  after-IsUnique m (Call.record_rtt k rtt) u = elim (Option-cases (lookup k m.members)) [
    | inl unknown ↦ ground arith
    | inr (s, known) ↦
        ground (arith, insert-IsUnique k (record s { rtt_ms = some rtt }) m.members u)
  ]
  after-IsUnique m (Call.leave k) u = elim (Option-cases (lookup k m.members)) [
    | inl unknown ↦ ground arith
    | inr (s, known) ↦
        ground (arith, insert-IsUnique k (record s { liveness = Liveness.left }) m.members u)
  ]
  after-IsUnique m (Call.tick now) u =
      tick_members-IsUnique m.suspect_timeout m.dead_timeout now m.members u
  after-IsUnique m Call.reap u = reap_members-IsUnique m.members u

  -- A node that has left, or that the table does not know, stays so through any calls among which
  -- there is no `join` of that node.
  pub IsGone-run :
      (m : Membership f) (id : NodeId) (calls : List (Call f))
      → IsUnique m.members
      → IsGone m id
      → All (NotJoin id) calls
      → IsGone (run m calls) id
  unfolding run
  IsGone-run m id [] u h n = h
  IsGone-run m id (c ∷ cs) u h (n, ns) =
      IsGone-run (after m c) id cs (after-IsUnique m c u) (IsGone-after m id c u h n) ns
