-- ===== src/Api/WireGuard/Peers.antt =====
-- crates/ocf-api/src/controller.rs: through which peer each overlay address is routed.
use open_compute_fabric_rs.Prelude.{
  ℕ, ◌≡◌, ◌↔◌, ◌⊎◌, inl, inr, ◌∙◌, refl, sym, ap, subst, String, List, [], ◌∷◌, string_eq, find,
  Member, here, there, Member-nil, Member-cons,
}
use open_compute_fabric_rs.Fabric.Node.{Reachability}
use open_compute_fabric_rs.Api.WireGuard.{
  WgPlane, WgPeer, WgPeerSpec, cidr_of, plan_peer, plan_from, plan_wg_peers,
}
use open_compute_fabric_rs.Api.WireGuard.Entries.{
  entry, KeysDistinct, entry_of_Member, Member_of_entry,
}
use open_compute_fabric_rs.Api.WireGuard.Rounds.{Carries, plan_peer-KeysDistinct, plan_peer_iff}

module _ (decimal : ℕ → String) (plane : WgPlane) (self_reach : Reachability) where
  plan_from-KeysDistinct :
      (specs : List WgPeerSpec) (peers : List WgPeer)
      → KeysDistinct specs
      → KeysDistinct (plan_from decimal plane self_reach specs peers)
  unfolding plan_from
  plan_from-KeysDistinct specs [] d = d
  plan_from-KeysDistinct specs (p ∷ peers) d =
      plan_from-KeysDistinct (plan_peer decimal plane self_reach specs p) peers
        (plan_peer-KeysDistinct decimal plane self_reach specs p d)

  -- A peer of the list that carries the address through that key.
  abbrev pub Routed : List WgPeer → String → String → Type 0
  Routed peers k c =
      (p : WgPeer) × Member p peers
      × Carries decimal plane self_reach p k
      × (c ≡ cidr_of decimal plane p)

  pub plan_from_iff :
      (specs : List WgPeerSpec) (peers : List WgPeer) (k c : String)
      → Member c (entry k (plan_from decimal plane self_reach specs peers)).allowed_ips
        ↔ (Member c (entry k specs).allowed_ips ⊎ Routed peers k c)
  unfolding plan_from
  plan_from_iff specs [] k c =
      (inl, λ o. elim o [ inl m ↦ m | inr (p, m, _, _) ↦ absurd (Member-nil m) ])
  plan_from_iff specs (p ∷ peers) k c =
      let rest = plan_from_iff (plan_peer decimal plane self_reach specs p) peers k c in
      let first = plan_peer_iff decimal plane self_reach specs p k c in
      (
        (λ m. elim (rest.0 m) [
          | inl early ↦ elim (first.0 early) [
            | inl old ↦ inl old
            | inr (carried, e) ↦ inr (p, here refl, carried, e)
          ]
          | inr (q, known, carried, e) ↦ inr (q, there known, carried, e)
        ]),
        λ o. elim o [
          | inl old ↦ rest.1 (inl (first.1 (inl old)))
          | inr (q, known, carried, e) ↦ elim (Member-cons known) [
            | inl same ↦ rest.1 (
                inl (
                  first.1 (
                    inr (
                      subst (λ x. Carries decimal plane self_reach x k) same carried,
                      e ∙ ap (cidr_of decimal plane) same,
                    ))))
            | inr later ↦ rest.1 (inr (q, later, carried, e))
          ]
        ],
      )

  pub plan_wg_peers-KeysDistinct :
      (peers : List WgPeer) → KeysDistinct (plan_wg_peers decimal plane self_reach peers)
  unfolding plan_wg_peers
  plan_wg_peers-KeysDistinct peers = plan_from-KeysDistinct [] peers tt

  -- An address is listed at an entry of the plan exactly when it is the overlay address of a peer
  -- that is carried by the entry's key: a peer that one of the two can dial by its own, and a private
  -- peer of a private node by its relay's, so that it is left out when it has none.
  pub plan_wg_peers_iff :
      (peers : List WgPeer) (k c : String)
      → ((s : WgPeerSpec) × Member s (plan_wg_peers decimal plane self_reach peers)
          × (s.public_key ≡ k)
          × Member c s.allowed_ips)
        ↔ Routed peers k c
  unfolding plan_wg_peers entry find
  plan_wg_peers_iff peers k c =
      let whole = plan_from_iff [] peers k c in
      (
        (λ (s, m, key, listed).
            let same = entry_of_Member _ (plan_wg_peers-KeysDistinct peers) m in
            elim (whole.0 (
              subst (λ x. Member c x.allowed_ips)
                (sym same ∙ ap (λ x. entry x (plan_wg_peers decimal plane self_reach peers)) key)
                listed)) [ inl none_ ↦ absurd (Member-nil none_) | inr r ↦ r ]),
        λ r.
            let listed = whole.1 (inr r) in
            let (m, key) = Member_of_entry k (plan_from decimal plane self_reach [] peers) listed in
            (entry k (plan_from decimal plane self_reach [] peers), m, key, listed),
      )

  -- No address is routed through two entries of a plan, provided that different peers have different
  -- overlay addresses.
  pub plan_wg_peers_exclusive :
      (peers : List WgPeer) {s t : WgPeerSpec} {c : String}
      → ((p q : WgPeer)
          → Member p peers
          → Member q peers
          → cidr_of decimal plane p ≡ cidr_of decimal plane q
          → p ≡ q)
      → Member s (plan_wg_peers decimal plane self_reach peers)
      → Member t (plan_wg_peers decimal plane self_reach peers)
      → Member c s.allowed_ips
      → Member c t.allowed_ips
      → s ≡ t
  plan_wg_peers_exclusive peers {s} {t} {c} apart ms mt cs ct =
      let d = plan_wg_peers-KeysDistinct peers in
      let (p, mp, kp, ep) = (plan_wg_peers_iff peers s.public_key c).0 (s, ms, refl, cs) in
      let (q, mq, kq, eq) = (plan_wg_peers_iff peers t.public_key c).0 (t, mt, refl, ct) in
      let same = apart p q mp mq (sym ep ∙ eq) in
      let key =
        one_key p kp (subst (λ x. Carries decimal plane self_reach x t.public_key) (sym same) kq) in
      sym (entry_of_Member _ d ms)
      ∙ ap (λ k. entry k (plan_wg_peers decimal plane self_reach peers)) key
      ∙ entry_of_Member _ d mt
    where
      one_key :
          (p : WgPeer) {j k : String}
          → Carries decimal plane self_reach p j
          → Carries decimal plane self_reach p k
          → j ≡ k
      one_key p (inl (_, a)) (inl (_, b)) = cc
      one_key p (inl (a, _)) (inr (b, _)) = absurd (cc)
      one_key p (inr (a, _)) (inl (b, _)) = absurd (cc)
      one_key p (inr (_, a)) (inr (_, b)) = cc
