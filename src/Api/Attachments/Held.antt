-- ===== src/Api/Attachments/Held.antt =====
-- crates/ocf-api/src/controller.rs: the addresses that attachments hold, in the allocators of the
-- network controller.
use open_compute_fabric_rs.Prelude.{
  false, ◌+◌, ℕ, ◌<◌, ◌^◌, ◌≡◌, ◌≢◌, ◌∙◌, sym, ap, subst, subst₂, inl, inr, true, none, some, arith,
  string_eq, nat_eq, beq_refl, Bool-cases, Option-cases,
}
use open_compute_fabric_rs.Prelude.Assoc.{lookup, insert, lookup-insert, lookup-insert_cases}
use open_compute_fabric_rs.Prelude.Sets.{contains as has, add, contains-add}
use open_compute_fabric_rs.Prelude.Text.{Text}
use open_compute_fabric_rs.Core.Error.{ok}
use open_compute_fabric_rs.Core.Scope.{ResourceId}
use open_compute_fabric_rs.Network.Ipam as Ipam
use open_compute_fabric_rs.Network.Ipam.{SubnetAllocator, Printer, parse_ipv4, format_ipv4}
use open_compute_fabric_rs.Network.Ipam.Allocation.{HasHosts, allocate_lem, sized}
use open_compute_fabric_rs.Network.Ipam.Pool.{IsSubnet}
use open_compute_fabric_rs.Network.Ipam.Kept.{release-Keeps, allocate-Keeps}
use open_compute_fabric_rs.Network.Ipam.Reservation.{
  allocate-Fresh, release_keeps, release_shrinks, release_format, has-release_parsed,
}
use open_compute_fabric_rs.Network.Controller.{
  NetworkController, allocate_address, release_address, with_ipam,
}

same_shape :
    (a b : SubnetAllocator) → b.base ≡ a.base → b.prefix ≡ a.prefix → HasHosts a → HasHosts b
same_shape a b p q h = record {
  subnet = subst₂ IsSubnet (sym p) (sym q) h.subnet;
  not_all = rw q h.not_all;
  room = rw q h.room;
}

released :
    (a : SubnetAllocator) (n : ℕ)
    → HasHosts a
    → n < 2 ^ 32
    → n ≢ a.base + 1
    → has n (Ipam.release a (format_ipv4 n)).used ≡ false
released a n v fits host =
    rw (release_format a n fits) (has-release_parsed a n n v ∙ ground (arith, host))

module _ {W : Type 0} where
  -- The address is in use in the subnet's allocator.
  abbrev pub InUse : NetworkController W → ResourceId → ℕ → Type 0
  InUse c sid n = (a : SubnetAllocator) × (lookup sid c.ipam ≡ some a) × (has n a.used ≡ true)

  -- Every subnet with an allocator has a prefix from 1 to 30.
  abbrev pub AllHosts : NetworkController W → Type 0
  AllHosts c = (k : ResourceId) (a : SubnetAllocator) → lookup k c.ipam ≡ some a → HasHosts a

  with_ipam-AllHosts :
      (c : NetworkController W) (sid : ResourceId) (b : SubnetAllocator)
      → HasHosts b
      → AllHosts c
      → AllHosts (with_ipam c sid b)
  with_ipam-AllHosts c sid b h all k a e = elim (lookup-insert_cases sid k b c.ipam e) [
    | inl (q, r) ↦ subst HasHosts r h
    | inr (q, r) ↦ all k a r
  ]

  pub release_address-AllHosts :
      (c : NetworkController W) (sid : ResourceId) (t : Text)
      → AllHosts c
      → AllHosts (release_address c sid t)
  unfolding release_address lookup
  release_address-AllHosts c sid t all = elim (Option-cases (lookup sid c.ipam)) [
    | inl missing ↦ rw (missing, release_address) all
    | inr (a, e) ↦
        let k = release-Keeps a t in
        rw (e, release_address)
          (with_ipam-AllHosts c sid (Ipam.release a t)
            (same_shape a _ k.base k.prefix (all sid a e)) all)
  ]

  pub release_address-InUse :
      (c : NetworkController W) (sid s : ResourceId) (t : Text) (m : ℕ)
      → (s ≡ sid → parse_ipv4 t ≢ some m)
      → InUse c s m
      → InUse (release_address c sid t) s m
  unfolding release_address lookup has
  release_address-InUse c sid s t m other (a, e, h) = elim (Option-cases (lookup sid c.ipam)) [
    | inl missing ↦ rw (missing, release_address) (a, e, h)
    | inr (b, f) ↦
        rw (f, release_address)
          (elim (Bool-cases (string_eq.beq sid s)) [
            | inr differ ↦ (a, ground (arith, lookup-insert sid s (Ipam.release b t) c.ipam), h)
            | inl same ↦
                let q = (string_eq.beq_iff sid s).0 same in
                let b_is : b ≡ a = cc in
                (
                  Ipam.release b t,
                  ground (arith, lookup-insert sid s (Ipam.release b t) c.ipam),
                  release_keeps b t m (other (sym q)) (rw b_is h),
                )
          ])
  ]

  -- A release puts no address in use.
  pub InUse-of_release :
      (c : NetworkController W) (sid s : ResourceId) (t : Text) (m : ℕ)
      → InUse (release_address c sid t) s m
      → InUse c s m
  unfolding release_address lookup has
  InUse-of_release c sid s t m = elim (Option-cases (lookup sid c.ipam)) [
    | inl missing ↦ rw (missing, release_address) (λ used. used)
    | inr (b, f) ↦
        rw (f, release_address)
          (λ (a, e, used). elim (lookup-insert_cases sid s (Ipam.release b t) c.ipam e) [
            | inl (q, made) ↦
                let used' : has m (Ipam.release b t).used ≡ true =
                  ap (λ (x : SubnetAllocator). has m x.used) made ∙ used in
                (b, ap (λ k. lookup k c.ipam) (sym q) ∙ f, release_shrinks b t m used')
            | inr (q, found) ↦ (a, found, used)
          ])
  ]

  pub release_address-InUse_not :
      (c : NetworkController W) (sid : ResourceId) (a : SubnetAllocator) (n : ℕ)
      → HasHosts a
      → n < 2 ^ 32
      → n ≢ a.base + 1
      → lookup sid c.ipam ≡ some a
      → ¬ (InUse (release_address c sid (format_ipv4 n)) sid n)
  unfolding release_address lookup has
  release_address-InUse_not c sid a n v fits host e =
      rw (e, release_address)
        (λ (b, at, in_use).
          let entry : lookup sid (insert sid (Ipam.release a (format_ipv4 n)) c.ipam)
              ≡ some (Ipam.release a (format_ipv4 n)) =
            ground (
              arith,
              lookup-insert sid sid (Ipam.release a (format_ipv4 n)) c.ipam,
              beq_refl sid,
            ) in
          let same : b ≡ Ipam.release a (format_ipv4 n) = cc in
          let still : has n (Ipam.release a (format_ipv4 n)).used ≡ true =
            ap (λ (x : SubnetAllocator). has n x.used) (sym same) ∙ in_use in
          cc (still, released a n v fits host))

  -- What a successful allocation does to the controller: a host that was free is in use.
  pub record Allocates (c : NetworkController W) (sid : ResourceId) (c' : NetworkController W)
      (t : Text) : Type 0 where
    pub host : ℕ
    pub fits : host < 2 ^ 32
    pub printed : t ≡ format_ipv4 host
    pub free : ¬ (InUse c sid host)
    pub taken : InUse c' sid host
    pub kept : (s : ResourceId) (m : ℕ) → InUse c s m → InUse c' s m
    pub all_hosts : AllHosts c'

  with_ipam-Allocates :
      (c : NetworkController W) (sid : ResourceId) (p : Printer) (a a' : SubnetAllocator) (t : Text)
      → AllHosts c
      → lookup sid c.ipam ≡ some a
      → Ipam.allocate p a ≡ some (a', ok t)
      → Allocates c sid (with_ipam c sid a') t
  with_ipam-Allocates c sid p a a' t all e h =
      let (n, made, text, low, high, free) = allocate-Fresh p a (all sid a e) h in
      let k = allocate-Keeps p a h in
      let s = sized a (all sid a e) in
      let in_a' : (m : ℕ) → has m (add n a.used) ≡ true → has m a'.used ≡ true = λ m q. rw made q in
      let now : lookup sid (insert sid a' c.ipam) ≡ some a' =
        ground (arith, lookup-insert sid sid a' c.ipam, beq_refl sid) in
      let keep : (s : ResourceId) (m : ℕ) (b : SubnetAllocator)
          → lookup s c.ipam ≡ some b
          → has m b.used ≡ true
          → InUse (with_ipam c sid a') s m =
        λ s m b f used. elim (Bool-cases (string_eq.beq sid s)) [
          | inl same ↦
              let q = (string_eq.beq_iff sid s).0 same in
              let b_is : b ≡ a = cc in
              (
                a',
                ground (arith, lookup-insert sid s a' c.ipam),
                in_a' m (ground (arith, contains-add m n a.used, rw b_is at used)),
              )
          | inr differ ↦ (b, ground (arith, lookup-insert sid s a' c.ipam), used)
        ] in
      record {
        host = n;
        fits = omega (arith, high, s.2);
        printed = text;
        free = λ (b, f, used). cc;
        taken = (a', now, in_a' n (ground (arith, contains-add n n a.used)));
        kept = λ s m (b, f, used). keep s m b f used;
        all_hosts = with_ipam-AllHosts c sid a' (same_shape a a' k.base k.prefix (all sid a e)) all;
      }

  pub allocate_address-Allocates :
      (p : Printer) (c : NetworkController W) (sid : ResourceId) {c' : NetworkController W}
      {t : Text}
      → AllHosts c
      → allocate_address p c sid ≡ some (c', ok t)
      → Allocates c sid c' t
  unfolding allocate_address
  allocate_address-Allocates p c sid {c'} {t} all h = elim (Option-cases (lookup sid c.ipam)) [
    | inl missing ↦ absurd (cc (rw (missing, allocate_address) at h))
    | inr (a, e) ↦ elim (Option-cases (Ipam.allocate p a)) [
      | inl lost ↦ absurd (cc (rw (e, lost, allocate_address) at h))
      | inr ((a', r), f) ↦
          let q = rw (e, f, allocate_address) at h in
          let c_is : with_ipam c sid a' ≡ c' = cc in
          let r_is : r ≡ ok t = cc in
          subst (λ x. Allocates c sid x t) c_is
            (with_ipam-Allocates c sid p a a' t all e (f ∙ ap (λ x. some (a', x)) r_is))
    ]
  ]

  -- The search of an address ends.
  pub allocate_address_total :
      (p : Printer) (c : NetworkController W) (sid : ResourceId)
      → AllHosts c
      → allocate_address p c sid ≢ none
  unfolding allocate_address
  allocate_address_total p c sid all h = elim (Option-cases (lookup sid c.ipam)) [
    | inl missing ↦ cc (rw (missing, allocate_address) at h)
    | inr (a, e) ↦ elim (Option-cases (Ipam.allocate p a)) [
      | inl lost ↦ elim (allocate_lem p a (all sid a e)) [
        | inl r ↦ cc (lost, r.1)
        | inr r ↦ cc (lost, r.1)
      ]
      | inr (r, f) ↦ cc (rw (e, f, allocate_address) at h)
    ]
  ]
