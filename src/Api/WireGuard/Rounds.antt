-- ===== src/Api/WireGuard/Rounds.antt =====
-- crates/ocf-api/src/controller.rs: what planning one peer changes.
use open_compute_fabric_rs.Prelude.{
  ℕ, ◌≡◌, ◌↔◌, ◌⊎◌, inl, inr, ◌∙◌, refl, sym, String, true, false, List, [], ◌∷◌, none, some, arith,
  string_eq, Bool-cases, Option-cases, any, any_sound, Member, here, Member-nil, Member-cons,
  Member-append, Member-append_left, Member-append_right,
}
use open_compute_fabric_rs.Fabric.Node.{Reachability}
use open_compute_fabric_rs.Api.WireGuard.{
  WgPlane, WgPeer, WgPeerSpec, upsert, add_cidr, both_private, cidr_of, set_direct, relayed,
  plan_peer,
}
use open_compute_fabric_rs.Api.WireGuard.Entries.{
  entry, KeysDistinct, SameKey, same_or_not, upsert-KeysDistinct, entry_same-upsert,
  entry_other-upsert,
}

pub add_cidr_key : (cidr : String) → SameKey (add_cidr cidr)
unfolding add_cidr
add_cidr_key cidr s = ground arith

-- What a change does to the listed addresses: it adds one.
abbrev Adds : String → (WgPeerSpec → WgPeerSpec) → Type 0
Adds cidr change =
    (c : String) (s : WgPeerSpec)
    → Member c (change s).allowed_ips ↔ (Member c s.allowed_ips ⊎ (c ≡ cidr))

add_cidr-Adds : (cidr : String) → Adds cidr (add_cidr cidr)
unfolding add_cidr
add_cidr-Adds cidr c s = elim (Bool-cases (any (λ ip. string_eq.beq ip cidr) s.allowed_ips)) [
  | inr new ↦ rw new (
    (λ m. elim (Member-append s.allowed_ips m) [
      | inl old ↦ inl old
      | inr last ↦ elim (Member-cons last) [ inl e ↦ inr e | inr end_ ↦ absurd (Member-nil end_) ]
    ]),
    λ m. elim m [
      | inl old ↦ Member-append_left (cidr ∷ []) old
      | inr e ↦ Member-append_right s.allowed_ips (here e)
    ],
  )
  | inl known ↦
      let (a, m, same) = any_sound (λ ip. string_eq.beq ip cidr) s.allowed_ips known in
      let e = (string_eq.beq_iff a cidr).0 same in
      rw known (inl, λ o. elim o [ inl old ↦ old | inr q ↦ rw (q ∙ sym e) m ])
]

upsert-Adds :
    (change : WgPeerSpec → WgPeerSpec) (cidr key k c : String) (specs : List WgPeerSpec)
    → SameKey change
    → Adds cidr change
    → Member c (entry k (upsert change key specs)).allowed_ips
      ↔ (Member c (entry k specs).allowed_ips ⊎ ((key ≡ k) × (c ≡ cidr)))
upsert-Adds change cidr key k c specs same adds = elim (same_or_not key k) [
  | inl q ↦ rw (sym q) (
      rw (entry_same-upsert change same key specs) (
        (λ m. elim ((adds c (entry key specs)).0 m) [ inl old ↦ inl old | inr e ↦ inr (refl, e) ]),
        λ o. elim o [
          | inl old ↦ (adds c (entry key specs)).1 (inl old)
          | inr (r, e) ↦ (adds c (entry key specs)).1 (inr e)
        ],
      ))
  | inr n ↦
      rw (entry_other-upsert change same key specs n)
        (inl, λ o. elim o [ inl old ↦ old | inr (q, e) ↦ absurd (n q) ])
]

widen {ℓ} : {A B X Y E : Type ℓ} → A ↔ (B ⊎ (X × E)) → X ↔ Y → A ↔ (B ⊎ (Y × E))
widen f g = (
  (λ a. elim (f.0 a) [ inl b ↦ inl b | inr (x, e) ↦ inr (g.0 x, e) ]),
  λ o. elim o [ inl b ↦ f.1 (inl b) | inr (y, e) ↦ f.1 (inr (g.1 y, e)) ],
)

module _ (decimal : ℕ → String) (plane : WgPlane) (self_reach : Reachability) where
  -- The peer's address is routed through the entry of that key: its own, or, between two private
  -- nodes, the one of the relay that the peer is reached through.
  abbrev pub Carries : WgPeer → String → Type 0
  Carries p k =
      ((both_private self_reach p ≡ false) × (p.public_key ≡ k))
      ⊎ ((both_private self_reach p ≡ true) × (p.via ≡ some k))

  pub set_direct_key : (p : WgPeer) → SameKey (set_direct decimal plane self_reach p)
  unfolding set_direct
  set_direct_key p s = add_cidr_key (cidr_of decimal plane p) _

  set_direct-Adds :
      (p : WgPeer) → Adds (cidr_of decimal plane p) (set_direct decimal plane self_reach p)
  unfolding set_direct
  set_direct-Adds p c s = add_cidr-Adds (cidr_of decimal plane p) c _

  pub plan_peer_direct :
      (specs : List WgPeerSpec) (p : WgPeer)
      → both_private self_reach p ≡ false
      → plan_peer decimal plane self_reach specs p
        ≡ upsert (set_direct decimal plane self_reach p) p.public_key specs
  unfolding plan_peer
  plan_peer_direct specs p direct = rw direct refl

  pub plan_peer_lost :
      (specs : List WgPeerSpec) (p : WgPeer)
      → both_private self_reach p ≡ true
      → p.via ≡ none
      → plan_peer decimal plane self_reach specs p ≡ specs
  unfolding plan_peer relayed
  plan_peer_lost specs p private lost = rw (private, lost) refl

  pub plan_peer_relayed :
      (specs : List WgPeerSpec) (p : WgPeer) {via : String}
      → both_private self_reach p ≡ true
      → p.via ≡ some via
      → plan_peer decimal plane self_reach specs p
        ≡ upsert (add_cidr (cidr_of decimal plane p)) via specs
  unfolding plan_peer relayed
  plan_peer_relayed specs p private e = rw (private, e) refl

  pub plan_peer-KeysDistinct :
      (specs : List WgPeerSpec) (p : WgPeer)
      → KeysDistinct specs
      → KeysDistinct (plan_peer decimal plane self_reach specs p)
  unfolding plan_peer relayed
  plan_peer-KeysDistinct specs p d = elim (Bool-cases (both_private self_reach p)) [
    | inr direct ↦ rw direct (
        upsert-KeysDistinct (set_direct decimal plane self_reach p) (set_direct_key p) p.public_key
          specs d)
    | inl private ↦ elim (Option-cases p.via) [
      | inl lost ↦ rw (private, lost) d
      | inr (via, e) ↦
          rw (private, e)
            (upsert-KeysDistinct (add_cidr (cidr_of decimal plane p))
              (add_cidr_key (cidr_of decimal plane p)) via specs d)
    ]
  ]

  Carries-direct :
      (p : WgPeer) (k : String)
      → both_private self_reach p ≡ false
      → (p.public_key ≡ k) ↔ Carries p k
  Carries-direct p k direct =
      ((λ q. inl (direct, q)), λ o. elim o [ inl (_, q) ↦ q | inr (private, _) ↦ absurd (cc) ])

  Carries-relayed :
      (p : WgPeer) (k : String) {via : String}
      → both_private self_reach p ≡ true
      → p.via ≡ some via
      → (via ≡ k) ↔ Carries p k
  Carries-relayed p k private e =
      ((λ q. inr (private, cc)), λ o. elim o [ inl (direct, _) ↦ absurd (cc) | inr (_, q) ↦ cc ])

  pub plan_peer_iff :
      (specs : List WgPeerSpec) (p : WgPeer) (k c : String)
      → Member c (entry k (plan_peer decimal plane self_reach specs p)).allowed_ips
        ↔ (Member c (entry k specs).allowed_ips ⊎ (Carries p k × (c ≡ cidr_of decimal plane p)))
  plan_peer_iff specs p k c = elim (Bool-cases (both_private self_reach p)) [
    | inr direct ↦ rw (plan_peer_direct specs p direct) (
        widen
          (upsert-Adds (set_direct decimal plane self_reach p) (cidr_of decimal plane p)
            p.public_key k c specs (set_direct_key p) (set_direct-Adds p))
          (Carries-direct p k direct))
    | inl private ↦ elim (Option-cases p.via) [
      | inl lost ↦ rw (plan_peer_lost specs p private lost) (
        inl,
        λ o. elim o [
          | inl old ↦ old
          | inr (carried, e) ↦ elim carried [
            | inl (direct, _) ↦ absurd (cc)
            | inr (_, q) ↦ absurd (cc)
          ]
        ],
      )
      | inr (via, e) ↦ rw (plan_peer_relayed specs p private e) (
          widen
            (upsert-Adds (add_cidr (cidr_of decimal plane p)) (cidr_of decimal plane p) via k c
              specs (add_cidr_key (cidr_of decimal plane p))
              (add_cidr-Adds (cidr_of decimal plane p)))
            (Carries-relayed p k private e))
    ]
  ]
