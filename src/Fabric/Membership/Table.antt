-- ===== src/Fabric/Membership/Table.antt =====
-- crates/ocf-fabric/src/membership.rs: the events of a tick and what `reap` drops.
use open_compute_fabric_rs.Prelude.{
  ℕ, ◌≡◌, refl, sym, ap, subst, ◌∙◌, ◌↔◌, true, List, [], ◌∷◌, Option, none, some, arith, string_eq,
  if◌then◌else◌, Bool-cases, inl, inr, Member, here, there, Member-append, Member-cons,
  Member-append_left, Member-append_right,
}
use open_compute_fabric_rs.Prelude.Assoc.{Assoc, lookup, IsUnique, lookup_of_entry, entry_of_lookup}
use open_compute_fabric_rs.Prelude.Float.{F64}
use open_compute_fabric_rs.Core.Metadata.{Time}
use open_compute_fabric_rs.Fabric.Node.{NodeId}
use open_compute_fabric_rs.Fabric.Membership.{
  Liveness, is_terminal, MemberState, MembershipEvent, Membership, tick_member, tick_members, tick,
  reap_members, reap,
}

-- What is announced of a member whose liveness goes from the first state to the second.
pub announced : NodeId → Liveness → Liveness → List MembershipEvent
announced id Liveness.alive Liveness.suspect = MembershipEvent.suspected id ∷ []
announced id Liveness.alive Liveness.dead = MembershipEvent.died id ∷ []
announced id Liveness.suspect Liveness.dead = MembershipEvent.died id ∷ []
announced id before after = []

module _ {f : F64} where
  tick_member-announced :
      (suspect dead : ℕ) (now : Time) (id : NodeId) (s : MemberState f)
      → (tick_member suspect dead now id s).1
        ≡ announced id s.liveness (tick_member suspect dead now id s).0.liveness
  unfolding tick_member announced
  tick_member-announced suspect dead now id s = ground arith

  -- What a tick announces of one member.
  abbrev pub change : Membership f → Time → NodeId → MemberState f → List MembershipEvent
  change m now id s =
      announced id s.liveness (tick_member m.suspect_timeout m.dead_timeout now id s).0.liveness

  tick_events_sound :
      (suspect dead : ℕ) (now : Time) (members : Assoc NodeId (MemberState f)) {e : MembershipEvent}
      → Member e (tick_members suspect dead now members).1
      → (id : NodeId) × (s : MemberState f) × Member (id, s) members
        × Member e (tick_member suspect dead now id s).1
  unfolding tick_members
  tick_events_sound suspect dead now [] n = elim n [ ]
  tick_events_sound suspect dead now ((id, s) ∷ members) n =
      elim (Member-append (tick_member suspect dead now id s).1 n) [
        | inl own ↦ (id, s, here refl, own)
        | inr later ↦
            let r = tick_events_sound suspect dead now members later in (r.0, r.1, there r.2, r.3)
      ]

  tick_events_complete :
      (suspect dead : ℕ) (now : Time) (members : Assoc NodeId (MemberState f)) (id : NodeId)
      (s : MemberState f) {e : MembershipEvent}
      → Member (id, s) members
      → Member e (tick_member suspect dead now id s).1
      → Member e (tick_members suspect dead now members).1
  unfolding tick_members
  tick_events_complete suspect dead now [] id s n k = elim n [ ]
  tick_events_complete suspect dead now ((j, t) ∷ members) id s {e} (here q) k =
      Member-append_left (tick_members suspect dead now members).1 (
        subst (λ (x : NodeId × MemberState f). Member e (tick_member suspect dead now x.0 x.1).1) q
          k)
  tick_events_complete suspect dead now ((j, t) ∷ members) id s (there n) k =
      Member-append_right (tick_member suspect dead now j t).1
        (tick_events_complete suspect dead now members id s n k)

  -- In a table where no id occurs twice, the events of a tick are exactly those that announce a
  -- change of a member's liveness: from alive to suspect, and from alive or suspect to dead.
  pub tick_events_iff :
      (m : Membership f) (now : Time) (e : MembershipEvent)
      → IsUnique m.members
      → Member e (tick m now).1 ↔ (
          (id : NodeId) × (s : MemberState f) × (lookup id m.members ≡ some s)
          × Member e (change m now id s))
  unfolding tick
  tick_events_iff m now e u = (
    (λ n.
        let r = tick_events_sound m.suspect_timeout m.dead_timeout now m.members n in
        (
          r.0,
          r.1,
          lookup_of_entry m.members r.0 r.1 u r.2,
          subst (λ es. Member e es)
              (tick_member-announced m.suspect_timeout m.dead_timeout now r.0 r.1) r.3,
        )),
    λ t.
        tick_events_complete m.suspect_timeout m.dead_timeout now m.members t.0 t.1
          (entry_of_lookup m.members t.0 t.2)
          (subst (λ es. Member e es)
            (sym (tick_member-announced m.suspect_timeout m.dead_timeout now t.0 t.1)) t.3),
  )

  -- The member that a reaped table keeps of one that it had.
  abbrev pub unreaped : Option (MemberState f) → Option (MemberState f)
  unreaped none = none
  unreaped (some s) = if is_terminal s.liveness then none else some s

  pub reap_members-lookup :
      (members : Assoc NodeId (MemberState f)) (id : NodeId)
      → IsUnique members
      → lookup id (reap_members members).0 ≡ unreaped (lookup id members)
  unfolding reap_members lookup
  reap_members-lookup [] id u = refl
  reap_members-lookup ((j, s) ∷ members) id u =
      ground (arith, reap_members-lookup members id u.1, string_eq.beq_iff j id)

  reaped_sound :
      (members : Assoc NodeId (MemberState f)) (id : NodeId)
      → Member id (reap_members members).1
      → (s : MemberState f) × Member (id, s) members × (is_terminal s.liveness ≡ true)
  unfolding reap_members
  reaped_sound [] id n = elim n [ ]
  reaped_sound ((j, s) ∷ members) id n = elim (Bool-cases (is_terminal s.liveness)) [
    | inl gone ↦ elim (Member-cons (rw gone at n)) [
      | inl q ↦ (s, here (ap (λ (k : NodeId). (k, s)) q), gone)
      | inr later ↦ let r = reaped_sound members id later in (r.0, there r.1, r.2)
    ]
    | inr stays ↦ let r = reaped_sound members id (rw stays at n) in (r.0, there r.1, r.2)
  ]

  reaped_complete :
      (members : Assoc NodeId (MemberState f)) (id : NodeId) (s : MemberState f)
      → Member (id, s) members
      → is_terminal s.liveness ≡ true
      → Member id (reap_members members).1
  unfolding reap_members
  reaped_complete [] id s n gone = elim n [ ]
  reaped_complete ((j, t) ∷ members) id s (here q) gone =
      let terminal : is_terminal t.liveness ≡ true =
        ap (λ (x : NodeId × MemberState f). is_terminal x.1.liveness) (sym q) ∙ gone in
      rw terminal (here (ap (λ (x : NodeId × MemberState f). x.0) q))
  reaped_complete ((j, t) ∷ members) id s (there n) gone =
      let rest = reaped_complete members id s n gone in
      elim (Bool-cases (is_terminal t.liveness)) [
        | inl terminal ↦ rw terminal (there rest)
        | inr stays ↦ rw stays rest
      ]

  -- In a table where no id occurs twice, `reap` drops exactly the dead and departed members, and
  -- lists the ids of these and no others.
  pub reap_lem :
      (m : Membership f) (id : NodeId)
      → IsUnique m.members
      → (lookup id (reap m).0.members ≡ unreaped (lookup id m.members))
        × (Member id (reap m).1 ↔ (
            (s : MemberState f) × (lookup id m.members ≡ some s) × (is_terminal s.liveness ≡ true)))
  unfolding reap
  reap_lem m id u = (
    reap_members-lookup m.members id u,
    (
      (λ n.
          let r = reaped_sound m.members id n in
          (r.0, lookup_of_entry m.members id r.0 u r.1, r.2)),
      λ t. reaped_complete m.members id t.0 (entry_of_lookup m.members id t.1) t.2,
    ),
  )
