-- ===== src/Api/Attachments/Consistent.antt =====
-- crates/ocf-api/src/controller.rs: when the attachments and the allocators of the subnets are in step,
-- and what releasing and binding an address keep of it.
use open_compute_fabric_rs.Prelude.{
  ℕ, ◌<◌, ◌^◌, ◌≡◌, ◌≢◌, ◌∙◌, sym, ap, subst, subst₂, ◌⊎◌, inl, inr, Bool, false, Option, none,
  some, string_eq, Option-cases,
}
use open_compute_fabric_rs.Prelude.Assoc.{Assoc, lookup, insert, lookup-insert_cases}
use open_compute_fabric_rs.Prelude.Text.{Text}
use open_compute_fabric_rs.Core.Scope.{ResourceId}
use open_compute_fabric_rs.Network.Ipam.{parse_ipv4, format_ipv4}
use open_compute_fabric_rs.Network.Ipam.Address.{parse-format_ipv4, parse-empty}
use open_compute_fabric_rs.Network.Controller.{NetworkController, release_address}
use open_compute_fabric_rs.Runtime.Workload.{NetworkAttachment}
use open_compute_fabric_rs.Api.Attachments.{Overlay, address_or_empty, attached, release_prior}
use open_compute_fabric_rs.Api.Attachments.Held.{
  InUse, AllHosts, release_address-AllHosts, release_address-InUse, Allocates,
}

same_host : {m n : ℕ} → m < 2 ^ 32 → n < 2 ^ 32 → format_ipv4 m ≡ format_ipv4 n → m ≡ n
same_host {m} {n} h k e =
    let q : some m ≡ some n =
      sym (parse-format_ipv4 m h) ∙ ap parse_ipv4 e ∙ parse-format_ipv4 n k in
    cc q

module _ {W : Type 0} where
  -- The text is that of an address in use in the subnet.
  abbrev pub Held : NetworkController W → ResourceId → Text → Type 0
  Held c sid t = (n : ℕ) × (n < 2 ^ 32) × (t ≡ format_ipv4 n) × InUse c sid n

  pub record IsConsistent (o : Overlay W) : Type 0 where
    -- every subnet with an allocator has a prefix from 1 to 30
    pub hosts : AllHosts o.network
    -- an attachment's address is in use in its subnet
    pub held :
        (w : ResourceId) (att : NetworkAttachment) (t : Text)
        → lookup w o.attachments ≡ some att
        → att.address ≡ some t
        → Held o.network att.subnet_id t
    -- no two workloads hold the same address of a subnet
    pub apart :
        (v w : ResourceId) (a b : NetworkAttachment) (t : Text)
        → lookup v o.attachments ≡ some a
        → lookup w o.attachments ≡ some b
        → a.subnet_id ≡ b.subnet_id
        → a.address ≡ some t
        → b.address ≡ some t
        → v ≡ w

  -- The addresses of all workloads but one are in use.
  abbrev pub HeldBut :
      ResourceId → NetworkController W → Assoc ResourceId NetworkAttachment → Type 0
  HeldBut w c attachments =
      (v : ResourceId) (att : NetworkAttachment) (t : Text)
      → v ≢ w
      → lookup v attachments ≡ some att
      → att.address ≡ some t
      → Held c att.subnet_id t

  pub release-HeldBut :
      (o : Overlay W) (w : ResourceId) (prev : NetworkAttachment)
      → IsConsistent o
      → lookup w o.attachments ≡ some prev
      → HeldBut w (release_address o.network prev.subnet_id (address_or_empty prev)) o.attachments
  release-HeldBut o w prev good e v att t other f g =
      let (n, fits, text, used) = good.held v att t f g in
      (
        n,
        fits,
        text,
        release_address-InUse o.network prev.subnet_id att.subnet_id (address_or_empty prev) n
            (λ same q. by_address (Option-cases prev.address) same n fits text q) used,
      )
    where
      by_address :
          (prev.address ≡ none) ⊎ ((u : Text) × (prev.address ≡ some u))
          → att.subnet_id ≡ prev.subnet_id
          → (n : ℕ) → n < 2 ^ 32
          → t ≡ format_ipv4 n
          → parse_ipv4 (address_or_empty prev) ≡ some n
          → ⊥
      by_address (inl missing) same n fits text q = let q' = rw missing at q in cc (q', parse-empty)
      by_address (inr (u, has_u)) same n fits text q =
          let q' = rw has_u at q in
          let (m, fits', text', used) = good.held w prev u e has_u in
          let equal : some m ≡ some n =
            sym (parse-format_ipv4 m fits') ∙ ap parse_ipv4 (sym text') ∙ q' in
          let m_is_n : m ≡ n = cc equal in
          let u_is_t : u ≡ t = text' ∙ ap format_ipv4 m_is_n ∙ sym text in
          other (good.apart v w att prev t f e same g (has_u ∙ ap some u_is_t))

  pub release_prior-HeldBut :
      (o : Overlay W) (w : ResourceId)
      → IsConsistent o
      → HeldBut w (release_prior o.network (lookup w o.attachments)) o.attachments
  unfolding release_prior
  release_prior-HeldBut o w good = elim (Option-cases (lookup w o.attachments)) [
    | inl new ↦ rw new (λ v att t other f g. good.held v att t f g)
    | inr (prev, e) ↦ rw e (release-HeldBut o w prev good e)
  ]

  pub release_prior-AllHosts :
      (c : NetworkController W) (prev : Option NetworkAttachment)
      → AllHosts c
      → AllHosts (release_prior c prev)
  unfolding release_prior
  release_prior-AllHosts c none all = all
  release_prior-AllHosts c (some prev) all =
      release_address-AllHosts c prev.subnet_id (address_or_empty prev) all

  -- The binding of a workload to an address that was allocated for it.
  pub insert-IsConsistent :
      (o : Overlay W) (c c' : NetworkController W) (w sid : ResourceId) (egress : Bool) (t : Text)
      → IsConsistent o
      → HeldBut w c o.attachments
      → Allocates c sid c' t
      → IsConsistent
          (record { network = c'; attachments = insert w (attached sid egress t) o.attachments })
  insert-IsConsistent o c c' w sid egress t good but new = record {
    hosts = new.all_hosts;
    held = held;
    apart = apart;
  }
    where
      kept :
          (v : ResourceId) (att : NetworkAttachment) (u : Text)
          → string_eq.beq w v ≡ false
          → lookup v o.attachments ≡ some att
          → att.address ≡ some u
          → Held c att.subnet_id u
      kept v att u miss f g = but v att u (λ q. cc (miss, (string_eq.beq_iff w v).1 (sym q))) f g

      held :
          (v : ResourceId) (att : NetworkAttachment) (u : Text)
          → lookup v (insert w (attached sid egress t) o.attachments) ≡ some att
          → att.address ≡ some u
          → Held c' att.subnet_id u
      held v att u f g = elim (lookup-insert_cases w v (attached sid egress t) o.attachments f) [
        | inl (q, made) ↦
            let u_is : t ≡ u = cc in
            let s_is : sid ≡ att.subnet_id = cc in
            (
              new.host,
              new.fits,
              sym u_is ∙ new.printed,
              subst (λ s. InUse c' s new.host) s_is new.taken,
            )
        | inr (miss, f') ↦
            let (n, fits, text, used) = kept v att u miss f' g in
            (n, fits, text, new.kept att.subnet_id n used)
      ]

      -- No other workload of the subnet has the new address: it was free.
      unshared :
          (v : ResourceId) (att : NetworkAttachment)
          → string_eq.beq w v ≡ false
          → lookup v o.attachments ≡ some att
          → att.subnet_id ≡ sid
          → att.address ≡ some t
          → ⊥
      unshared v att miss f s g =
          let (n, fits, text, used) = kept v att t miss f g in
          let same = same_host fits new.fits (sym text ∙ new.printed) in
          new.free (subst₂ (InUse c) s same used)

      apart :
          (v x : ResourceId) (a b : NetworkAttachment) (u : Text)
          → lookup v (insert w (attached sid egress t) o.attachments) ≡ some a
          → lookup x (insert w (attached sid egress t) o.attachments) ≡ some b
          → a.subnet_id ≡ b.subnet_id
          → a.address ≡ some u
          → b.address ≡ some u
          → v ≡ x
      apart v x a b u f g s p q =
          let f' = lookup-insert_cases w v (attached sid egress t) o.attachments f in
          let g' = lookup-insert_cases w x (attached sid egress t) o.attachments g in
          elim f' [
            | inl (e, made) ↦ elim g' [
              | inl (e', made') ↦ sym e ∙ e'
              | inr (miss, k) ↦ absurd (unshared x b miss k (cc) (cc))
            ]
            | inr (miss, k) ↦ elim g' [
              | inl (e', made') ↦ absurd (unshared v a miss k (cc) (cc))
              | inr (miss', k') ↦ good.apart v x a b u k k' s p q
            ]
          ]
