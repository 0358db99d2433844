-- ===== src/Api/Attachments/Stale.antt =====
-- crates/ocf-api/src/controller.rs: what an attachment that fails has already released.
use open_compute_fabric_rs.Prelude.{
  ℕ, ◌+◌, ◌<◌, ◌^◌, ◌≡◌, ◌≢◌, ◌∙◌, refl, sym, ap, inl, inr, Bool, Option, none, some, string_eq,
  nat_eq, Option-cases,
}
use open_compute_fabric_rs.Prelude.Assoc.{lookup, lookup-insert_cases}
use open_compute_fabric_rs.Prelude.Text.{Text}
use open_compute_fabric_rs.Core.Error.{Error, Result, ok, err}
use open_compute_fabric_rs.Core.Scope.{ResourceId}
use open_compute_fabric_rs.Network.Ipam.{SubnetAllocator, Printer, format_ipv4}
use open_compute_fabric_rs.Network.Ipam.Allocation.{allocate_lem}
use open_compute_fabric_rs.Network.Model.{Subnet}
use open_compute_fabric_rs.Network.Controller.{
  NetworkController, get_subnet, allocate_address, release_address, with_ipam,
}
use open_compute_fabric_rs.Runtime.Workload.{NetworkAttachment}
use open_compute_fabric_rs.Api.Attachments.{
  Overlay, address_or_empty, release_prior, bind, attach_workload,
}
use open_compute_fabric_rs.Api.Attachments.Held.{InUse, AllHosts, release_address-InUse_not}
use open_compute_fabric_rs.Api.Attachments.Consistent.{IsConsistent, release_prior-AllHosts}

module _ {W : Type 0} where
  allocate_address_err :
      (p : Printer) (c : NetworkController W) (sid : ResourceId) {c' : NetworkController W}
      {e : Error}
      → AllHosts c
      → allocate_address p c sid ≡ some (c', err e)
      → (s : ResourceId) (n : ℕ) → InUse c' s n
      → InUse c s n
  unfolding allocate_address
  allocate_address_err p c sid {c'} {e} all h s n used = elim (Option-cases (lookup sid c.ipam)) [
    | inl missing ↦
        let c_is : c ≡ c' = cc (rw (missing, allocate_address) at h) in rw (sym c_is) at used
    | inr (a, found) ↦ elim (allocate_lem p a (all sid a found)) [
      | inl r ↦ absurd (cc (rw (found, r.1, allocate_address) at h))
      | inr r ↦
          let c_is : with_ipam c sid a ≡ c' = cc (rw (found, r.1, allocate_address) at h) in
          let (b, at, in_use) = rw (sym c_is) at used in
          elim (lookup-insert_cases sid s a c.ipam at) [
            | inl (q, same) ↦ (b, cc, in_use)
            | inr (q, same) ↦ (b, same, in_use)
          ]
    ]
  ]

  module _ (splice : ResourceId → NetworkAttachment → W → W) (persist : W → W) where
    bind_stale :
        (p : Printer) (o : Overlay W) (w sid : ResourceId) (egress : Bool) (v : W)
        (c : NetworkController W) (r : Option (NetworkController W × Result Text)) {o' : Overlay W}
        {v' : W} {e : Error} (s : ResourceId) (n : ℕ)
        → AllHosts c
        → ¬ (InUse c s n)
        → allocate_address p c sid ≡ r
        → bind splice persist o.attachments w sid egress v r ≡ some (o', v', err e)
        → (o'.attachments ≡ o.attachments) × ¬ (InUse o'.network s n)
    unfolding bind
    bind_stale p o w sid egress v c none s n all free q h = absurd (cc)
    bind_stale p o w sid egress v c (some (c', ok t)) s n all free q h = absurd (cc)
    bind_stale p o w sid egress v c (some (c', err e)) {o'} s n all free q h =
        let made : record { network = c'; attachments = o.attachments } ≡ o' = cc in
        (
          ap (λ x. x.attachments) (sym made),
          λ used. free (allocate_address_err p c sid all q s n (rw (sym made) at used)),
        )

    -- Attaching a workload that already holds an address, a host of its subnet, to a subnet that
    -- exists, frees that address first: where the attachment then fails, the old one is still recorded
    -- but its address is no longer in use, and the next workload may get it.
    pub attach_workload_stale :
        (p : Printer) (o : Overlay W) (w sid : ResourceId) (egress : Bool) (v : W) {o' : Overlay W}
        {v' : W} {e : Error} {prev : NetworkAttachment} {s : Subnet} {a : SubnetAllocator} {n : ℕ}
        → IsConsistent o
        → lookup w o.attachments ≡ some prev
        → prev.address ≡ some (format_ipv4 n)
        → n < 2 ^ 32
        → lookup prev.subnet_id o.network.ipam ≡ some a
        → n ≢ a.base + 1
        → lookup sid o.network.subnets ≡ some s
        → attach_workload splice persist p o w sid egress v ≡ some (o', v', err e)
        → (lookup w o'.attachments ≡ some prev) × ¬ (InUse o'.network prev.subnet_id n)
    unfolding attach_workload get_subnet release_prior
    attach_workload_stale p o w sid egress v {prev} {a} {n} good bound addressed fits pool host
          known h =
        let c = release_address o.network prev.subnet_id (address_or_empty prev) in
        let text : address_or_empty prev ≡ format_ipv4 n = rw addressed refl in
        let free : ¬ (
            InUse (release_address o.network prev.subnet_id (address_or_empty prev)) prev.subnet_id
              n) =
          rw text (
            release_address-InUse_not o.network prev.subnet_id a n
              (good.hosts prev.subnet_id a pool) fits host pool) in
        let prior : release_prior o.network (lookup w o.attachments)
            ≡ release_address o.network prev.subnet_id (address_or_empty prev) =
          rw bound refl in
        let (same, gone) =
          bind_stale p o w sid egress v (release_prior o.network (lookup w o.attachments)) _
            prev.subnet_id n (release_prior-AllHosts o.network (lookup w o.attachments) good.hosts)
            (rw prior free) refl (rw (known, get_subnet, attach_workload) at h) in
        (ap (lookup w) same ∙ bound, gone)
