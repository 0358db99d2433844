-- ===== src/Api/WireGuard/Settings.antt =====
-- crates/ocf-api/src/controller.rs: the endpoint and the keepalive of each entry of a plan.
use open_compute_fabric_rs.Prelude.{
  if◌then◌else◌, some, ℕ, ◌≡◌, ◌⊎◌, inl, inr, ◌∙◌, refl, sym, ap, subst, String, false, List, [],
  ◌∷◌, Option, none, string_eq, Bool-cases, Option-cases, any, find, Member, here, there,
  Member-nil, Member-cons,
}
use open_compute_fabric_rs.Core.Error.{concat}
use open_compute_fabric_rs.Fabric.Node.{Reachability, is_private}
use open_compute_fabric_rs.Api.WireGuard.{
  WgPlane, WgPeer, WgPeerSpec, add_cidr, both_private, cidr_of, wg_direct_endpoint_keepalive,
  dialed, set_direct, plan_peer, plan_from, plan_wg_peers,
}
use open_compute_fabric_rs.Api.WireGuard.Entries.{
  entry, same_or_not, entry_same-upsert, entry_other-upsert, entry_of_Member,
}
use open_compute_fabric_rs.Api.WireGuard.Rounds.{
  add_cidr_key, set_direct_key, plan_peer_direct, plan_peer_lost, plan_peer_relayed,
}
use open_compute_fabric_rs.Api.WireGuard.Peers.{plan_wg_peers-KeysDistinct}

abbrev pub settings : WgPeerSpec → Option String × ℕ
settings s = (s.endpoint, s.keepalive)

settings-add_cidr : (cidr : String) (s : WgPeerSpec) → settings (add_cidr cidr s) ≡ settings s
unfolding add_cidr
settings-add_cidr cidr s = elim (Bool-cases (any (λ ip. string_eq.beq ip cidr) s.allowed_ips)) [
  | inl known ↦ rw known refl
  | inr new ↦ rw new refl
]

module _ (decimal : ℕ → String) (plane : WgPlane) (self_reach : Reachability) where
  -- The endpoint of a peer with that address: the plane's port there.
  abbrev endpoint_at : Option String → Option String
  endpoint_at none = none
  endpoint_at (some addr) = some (concat addr (concat ":" (decimal plane.port)))

  -- Every 25 seconds behind a NAT, else never.
  abbrev held_open : Reachability → ℕ
  held_open Reachability.private = 25
  held_open Reachability.public = 0
  held_open Reachability.relay = 0

  abbrev asked_of : Reachability → Option String → Option String × ℕ
  asked_of Reachability.private addr = (none, 0)
  asked_of Reachability.public addr = (endpoint_at addr, held_open self_reach)
  asked_of Reachability.relay addr = (endpoint_at addr, held_open self_reach)

  -- What the two reachabilities ask for: a private peer is learned when it connects and keeps its own
  -- mapping open, so that it has no endpoint and no keepalive here; any other is dialed at its address,
  -- with a keepalive where this node is private.
  abbrev pub asked : WgPeer → Option String × ℕ
  asked p = asked_of p.reach p.addr

  dialed_lem :
      (self : Reachability) (addr : Option String)
      → ◌≡◌ {A = Option String × ℕ}
          (
            elim addr [ none ↦ none | some a ↦ some (dialed decimal plane.port a) ],
            if is_private self then 25 else 0,
          )
          (endpoint_at addr, held_open self)
  dialed_lem Reachability.private none = refl
  dialed_lem Reachability.private (some a) = refl
  dialed_lem Reachability.public none = refl
  dialed_lem Reachability.public (some a) = refl
  dialed_lem Reachability.relay none = refl
  dialed_lem Reachability.relay (some a) = refl

  asked_lem :
      (reach : Reachability) (addr : Option String)
      → wg_direct_endpoint_keepalive decimal self_reach reach addr plane.port ≡ asked_of reach addr
  unfolding wg_direct_endpoint_keepalive
  asked_lem Reachability.private addr = refl
  asked_lem Reachability.public addr = dialed_lem self_reach addr
  asked_lem Reachability.relay addr = dialed_lem self_reach addr

  -- The entry that stands for a peer dialed or roam-learned under that key.
  abbrev pub Direct : WgPeer → String → Type 0
  Direct p k = (both_private self_reach p ≡ false) × (p.public_key ≡ k)

  settings-Direct :
      (specs : List WgPeerSpec) (p : WgPeer) {k : String}
      → Direct p k
      → settings (entry k (plan_peer decimal plane self_reach specs p)) ≡ asked p
  unfolding set_direct
  settings-Direct specs p {k} (direct, q) =
      rw (sym q, plan_peer_direct decimal plane self_reach specs p direct)
        (ap settings (
            entry_same-upsert (set_direct decimal plane self_reach p)
              (set_direct_key decimal plane self_reach p) p.public_key specs)
          ∙ settings-add_cidr (cidr_of decimal plane p) _
          ∙ asked_lem p.reach p.addr)

  settings-plan_peer :
      (specs : List WgPeerSpec) (p : WgPeer) (k : String)
      → ¬ (Direct p k)
      → settings (entry k (plan_peer decimal plane self_reach specs p)) ≡ settings (entry k specs)
  settings-plan_peer specs p k n = elim (Bool-cases (both_private self_reach p)) [
    | inr direct ↦ rw (plan_peer_direct decimal plane self_reach specs p direct) (
        ap settings (
          entry_other-upsert (set_direct decimal plane self_reach p)
            (set_direct_key decimal plane self_reach p) p.public_key specs (λ q. n (direct, q))))
    | inl private ↦ elim (Option-cases p.via) [
      | inl lost ↦ rw (plan_peer_lost decimal plane self_reach specs p private lost) refl
      | inr (via, e) ↦
          rw (plan_peer_relayed decimal plane self_reach specs p private e)
            (elim (same_or_not via k) [
              | inl q ↦ rw (sym q) (
                  ap settings (
                    entry_same-upsert (add_cidr (cidr_of decimal plane p))
                      (add_cidr_key (cidr_of decimal plane p)) via specs)
                  ∙ settings-add_cidr (cidr_of decimal plane p) _)
              | inr other ↦ ap settings (
                  entry_other-upsert (add_cidr (cidr_of decimal plane p))
                    (add_cidr_key (cidr_of decimal plane p)) via specs other)
            ])
    ]
  ]

  Direct-or_not : (p : WgPeer) (k : String) → Direct p k ⊎ ¬ (Direct p k)
  Direct-or_not p k = elim (Bool-cases (both_private self_reach p)) [
    | inl private ↦ inr (λ d. cc (private, d.0))
    | inr direct ↦ elim (same_or_not p.public_key k) [
      | inl q ↦ inl (direct, q)
      | inr n ↦ inr (λ d. n d.1)
    ]
  ]

  -- All peers of a key that are reached directly ask for the same.
  abbrev pub Agree : List WgPeer → String → Option String × ℕ → Type 0
  Agree peers k a = (p : WgPeer) → Member p peers → Direct p k → asked p ≡ a

  abbrev Someone : List WgPeer → String → Type 0
  Someone peers k = (p : WgPeer) × Member p peers × Direct p k

  settings-plan_from :
      (specs : List WgPeerSpec) (peers : List WgPeer) (k : String) (a : Option String × ℕ)
      → Agree peers k a
      → (settings (entry k specs) ≡ a) ⊎ Someone peers k
      → settings (entry k (plan_from decimal plane self_reach specs peers)) ≡ a
  unfolding plan_from
  settings-plan_from specs [] k a agree o = elim o [
    | inl e ↦ e
    | inr (p, m, _) ↦ absurd (Member-nil m)
  ]
  settings-plan_from specs (p ∷ peers) k a agree o =
      settings-plan_from (plan_peer decimal plane self_reach specs p) peers k a
        (λ q m d. agree q (there m) d)
        (elim (Direct-or_not p k) [
          | inl d ↦ inl (settings-Direct specs p d ∙ agree p (here refl) d)
          | inr n ↦ elim o [
            | inl e ↦ inl (settings-plan_peer specs p k n ∙ e)
            | inr (q, m, d) ↦ elim (Member-cons m) [
              | inl same ↦ absurd (n (subst (λ x. Direct x k) same d))
              | inr later ↦ inr (q, later, d)
            ]
          ]
        ])

  -- The entry of a plan under the key of a peer that is reached directly has what the two
  -- reachabilities ask for, provided that all such peers of the key ask for the same: a private peer
  -- has no endpoint and no keepalive, any other its address with the plane's port, and a keepalive of
  -- 25 exactly where this node is private. An entry without such a peer, that of a relay that is no
  -- peer itself, has no endpoint and no keepalive.
  pub settings-plan_wg_peers :
      (peers : List WgPeer) {s : WgPeerSpec}
      → Member s (plan_wg_peers decimal plane self_reach peers)
      → ((p : WgPeer)
          → Member p peers
          → Direct p s.public_key
          → Agree peers s.public_key (asked p)
          → settings s ≡ asked p)
        × (¬ (Someone peers s.public_key) → settings s ≡ (none, 0))
  unfolding plan_wg_peers entry find
  settings-plan_wg_peers peers {s} m =
      let same = entry_of_Member _ (plan_wg_peers-KeysDistinct decimal plane self_reach peers) m in
      (
        (λ p known d agree.
            sym (ap settings same)
            ∙ settings-plan_from [] peers s.public_key (asked p) agree (inr (p, known, d))),
        λ no_one.
            sym (ap settings same)
            ∙ settings-plan_from [] peers s.public_key (none, 0)
                (λ p known d. absurd (no_one (p, known, d))) (inl refl),
      )
