-- ===== src/Api/Attachments/Laws.antt =====
-- crates/ocf-api/src/controller.rs: attaching and detaching keep the attachments and the allocators of
-- the subnets in step.
use open_compute_fabric_rs.Prelude.{
  ℕ, ◌+◌, ◌<◌, ◌^◌, ◌∙◌, ◌↔◌, subst, subst₂, ◌≡◌, ◌≢◌, refl, sym, ◌⊎◌, inl, inr, Bool, Option, none,
  some, arith, string_eq, Bool-cases, if◌then◌else◌,
}
use open_compute_fabric_rs.Prelude.Assoc.{lookup, remove, lookup-insert, lookup-remove}
use open_compute_fabric_rs.Prelude.Text.{Text}
use open_compute_fabric_rs.Core.Error.{Error, Result, ok, err}
use open_compute_fabric_rs.Core.Scope.{ResourceId}
use open_compute_fabric_rs.Network.Ipam.{Printer, SubnetAllocator, format_ipv4}
use open_compute_fabric_rs.Network.Ipam.Address.{parse-format_ipv4}
use open_compute_fabric_rs.Network.Model.{Subnet}
use open_compute_fabric_rs.Network.Controller.{
  NetworkController, get_subnet, allocate_address, release_address,
}
use open_compute_fabric_rs.Runtime.Workload.{NetworkAttachment}
use open_compute_fabric_rs.Api.Attachments.{
  Overlay, address_or_empty, attached, release_prior, bind, attach_workload, unbind,
  detach_workload,
}
use open_compute_fabric_rs.Api.Attachments.Held.{
  InUse, release_address-InUse, release_address-InUse_not, InUse-of_release, AllHosts,
  release_address-AllHosts, allocate_address-Allocates, allocate_address_total,
}
use open_compute_fabric_rs.Api.Attachments.Consistent.{
  IsConsistent, HeldBut, release-HeldBut, release_prior-HeldBut, release_prior-AllHosts,
  insert-IsConsistent,
}

module _ {W : Type 0} where
  module _ (splice : ResourceId → NetworkAttachment → W → W) (persist : W → W) where
    -- The outcomes of attaching: the workload is bound, in its subnet and with its egress, to an
    -- address, the others keep theirs, and all is consistent; or no attachment changes.
    abbrev pub Outcome :
        Overlay W
        → ResourceId
        → ResourceId
        → Bool
        → Option (Overlay W × W × Result NetworkAttachment)
        → Type 0
    Outcome o w sid egress r =
        ((o' : Overlay W) × (v : W) × (t : Text) × (r ≡ some (o', v, ok (attached sid egress t)))
          × IsConsistent o'
          × ((x : ResourceId)
              → lookup x o'.attachments ≡ (
                  if string_eq.beq w x
                  then some (attached sid egress t)
                  else lookup x o.attachments)))
        ⊎ ((o' : Overlay W) × (v : W) × (e : Error) × (r ≡ some (o', v, err e))
            × (o'.attachments ≡ o.attachments))

    bind-Outcome :
        (p : Printer) (o : Overlay W) (w sid : ResourceId) (egress : Bool) (v : W)
        (c : NetworkController W) (r : Option (NetworkController W × Result Text))
        → IsConsistent o
        → AllHosts c
        → HeldBut w c o.attachments
        → allocate_address p c sid ≡ r
        → Outcome o w sid egress (bind splice persist o.attachments w sid egress v r)
    unfolding bind
    bind-Outcome p o w sid egress v c none good all but e =
        absurd (allocate_address_total p c sid all e)
    bind-Outcome p o w sid egress v c (some (c', err q)) good all but e = inr (_, v, q, refl, refl)
    bind-Outcome p o w sid egress v c (some (c', ok t)) good all but e = inl (
      _,
      _,
      t,
      refl,
      insert-IsConsistent o c c' w sid egress t good but (allocate_address-Allocates p c sid all e),
      λ x. lookup-insert w x (attached sid egress t) o.attachments,
    )

    -- In a consistent overlay attaching a workload ends; where it succeeds the overlay stays
    -- consistent, so that no two workloads of a subnet share an address, and where it fails no
    -- attachment changes.
    pub attach_workload-Outcome :
        (p : Printer) (o : Overlay W) (w sid : ResourceId) (egress : Bool) (v : W)
        → IsConsistent o
        → Outcome o w sid egress (attach_workload splice persist p o w sid egress v)
    unfolding attach_workload
    attach_workload-Outcome p o w sid egress v good = by_subnet (get_subnet o.network sid)
      where
        by_subnet :
            (s : Result Subnet)
            → Outcome o w sid egress (elim s [
              | err e ↦ some (o, v, err e)
              | ok _ ↦
                  bind splice persist o.attachments w sid egress v
                    (allocate_address p (release_prior o.network (lookup w o.attachments)) sid)
            ])
        by_subnet (err e) = inr (o, v, e, refl, refl)
        by_subnet (ok s) =
            bind-Outcome p o w sid egress v (release_prior o.network (lookup w o.attachments)) _
              good (release_prior-AllHosts o.network (lookup w o.attachments) good.hosts)
              (release_prior-HeldBut o w good) refl

    remove-IsConsistent :
        (o : Overlay W) (w : ResourceId) (c : NetworkController W)
        → IsConsistent o
        → AllHosts c
        → HeldBut w c o.attachments
        → IsConsistent (record { network = c; attachments = remove w o.attachments })
    remove-IsConsistent o w c good all but = record {
      hosts = all;
      held = λ x att t f g. let (differ, k) = still f in but x att t differ k g;
      apart = λ x y a b t f g s p q. good.apart x y a b t (still f).1 (still g).1 s p q;
    }
      where
        still :
            {x : ResourceId} {att : NetworkAttachment}
            → lookup x (remove w o.attachments) ≡ some att
            → (x ≢ w) × (lookup x o.attachments ≡ some att)
        still {x} {att} f = elim (Bool-cases (string_eq.beq w x)) [
          | inl same ↦ absurd (ground (arith, lookup-remove w x o.attachments))
          | inr differ ↦ (
            (λ q. cc (differ, (string_eq.beq_iff w x).1 (sym q))),
            ground (arith, lookup-remove w x o.attachments),
          )
        ]

    unbind-IsConsistent :
        (o : Overlay W) (w : ResourceId) (v : W) (prev : Option NetworkAttachment)
        → IsConsistent o
        → lookup w o.attachments ≡ prev
        → IsConsistent (unbind splice persist o w v prev).0
          × ((x : ResourceId)
              → lookup x (unbind splice persist o w v prev).0.attachments
                ≡ (if string_eq.beq w x then none else lookup x o.attachments))
    unfolding unbind
    unbind-IsConsistent o w v none good e = (good, λ x. ground (arith, string_eq.beq_iff w x))
    unbind-IsConsistent o w v (some att) good e = (
      remove-IsConsistent o w _ good
          (release_address-AllHosts o.network att.subnet_id (address_or_empty att) good.hosts)
          (release-HeldBut o w att good e),
      λ x. lookup-remove w x o.attachments,
    )

    unbind_frees :
        (o : Overlay W) (w : ResourceId) (v : W) (att : NetworkAttachment) (a : SubnetAllocator)
        (n : ℕ)
        → IsConsistent o
        → att.address ≡ some (format_ipv4 n)
        → n < 2 ^ 32
        → lookup att.subnet_id o.network.ipam ≡ some a
        → n ≢ a.base + 1
        → (sid : ResourceId) (m : ℕ)
        → InUse (unbind splice persist o w v (some att)).0.network sid m
          ↔ (InUse o.network sid m × ¬ ((sid ≡ att.subnet_id) × (m ≡ n)))
    unfolding unbind
    unbind_frees o w v att a n good addressed fits pool host sid m =
        let text : address_or_empty att ≡ format_ipv4 n = rw addressed refl in
        let free =
          release_address-InUse_not o.network att.subnet_id a n (good.hosts att.subnet_id a pool)
            fits host pool in
        rw text (
          (λ used. (
            InUse-of_release o.network att.subnet_id sid (format_ipv4 n) m used,
            λ (q, e).
                free (
                  subst₂ (InUse (release_address o.network att.subnet_id (format_ipv4 n))) q e
                    used),
          )),
          λ (used, other).
              release_address-InUse o.network att.subnet_id sid (format_ipv4 n) m
                (λ q e.
                  let same : some n ≡ some m = sym (parse-format_ipv4 n fits) ∙ e in other (q, cc))
                used,
        )

    -- Detaching a workload that holds an address of a subnet with an allocator, other than its gateway,
    -- keeps a consistent overlay consistent. It removes exactly that workload's attachment, and of all
    -- addresses in use in all subnets exactly that one is no longer in use.
    pub detach_workload-IsConsistent :
        (o : Overlay W) (w : ResourceId) (v : W) {att : NetworkAttachment} {a : SubnetAllocator}
        {n : ℕ}
        → IsConsistent o
        → lookup w o.attachments ≡ some att
        → att.address ≡ some (format_ipv4 n)
        → n < 2 ^ 32
        → lookup att.subnet_id o.network.ipam ≡ some a
        → n ≢ a.base + 1
        → IsConsistent (detach_workload splice persist o w v).0
          × ((x : ResourceId)
              → lookup x (detach_workload splice persist o w v).0.attachments
                ≡ (if string_eq.beq w x then none else lookup x o.attachments))
          × ((sid : ResourceId) (m : ℕ)
              → InUse (detach_workload splice persist o w v).0.network sid m
                ↔ (InUse o.network sid m × ¬ ((sid ≡ att.subnet_id) × (m ≡ n))))
    unfolding detach_workload
    detach_workload-IsConsistent o w v {att} {a} {n} good bound addressed fits pool host =
        let (kept, gone) = unbind-IsConsistent o w v (lookup w o.attachments) good refl in
        (
          kept,
          gone,
          subst
              (λ p.
                (sid : ResourceId) (m : ℕ)
                → InUse (unbind splice persist o w v p).0.network sid m
                  ↔ (InUse o.network sid m × ¬ ((sid ≡ att.subnet_id) × (m ≡ n))))
              (sym bound) (λ sid m. unbind_frees o w v att a n good addressed fits pool host sid m),
        )
