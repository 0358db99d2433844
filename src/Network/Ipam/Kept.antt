-- ===== src/Network/Ipam/Kept.antt =====
-- crates/ocf-network/src/ipam.rs: what each call keeps of an allocator.
use open_compute_fabric_rs.Prelude.{
  ℕ, ◌≡◌, refl, ap, ◌∙◌, Option, none, some, arith, Option-cases, Bool-cases, inl, inr, ltb,
}
use open_compute_fabric_rs.Prelude.Text.{Text}
use open_compute_fabric_rs.Core.Error.{Result, ok}
use open_compute_fabric_rs.Network.Ipam
use open_compute_fabric_rs.Network.Ipam.{
  SubnetAllocator, Printer, Search, found, exhausted, out_of_fuel, allocated, search_free,
  last_host, first_host, reserve_parsed, release_parsed, parse_ipv4, in_subnet, is_gateway,
  parse_cidr, of_cidr,
}
use open_compute_fabric_rs.Network.Ipam.Invariant.{
  IsValid, allocate-IsValid, reserve_parsed-IsValid, release_parsed-IsValid,
}

-- The subnet stays the same, and a valid allocator stays valid.
pub record Keeps (a b : SubnetAllocator) : Type 0 where
  pub base : b.base ≡ a.base
  pub prefix : b.prefix ≡ a.prefix
  pub valid : IsValid a → IsValid b

allocated_keeps :
    (a : SubnetAllocator) (s : Search) {b : SubnetAllocator} {r : Result Text}
    → allocated a s ≡ some (b, r)
    → (b.base ≡ a.base) × (b.prefix ≡ a.prefix)
unfolding allocated
allocated_keeps a (found n) h = (cc, cc)
allocated_keeps a exhausted h = (cc, cc)
allocated_keeps a out_of_fuel h = absurd (cc)

pub allocate-Keeps :
    (p : Printer) (a : SubnetAllocator) {b : SubnetAllocator} {r : Result Text}
    → Ipam.allocate p a ≡ some (b, r)
    → Keeps a b
unfolding Ipam.allocate
allocate-Keeps p a {b} {r} h = record { base = same.0; prefix = same.1; valid = valid }
  where
    same : (b.base ≡ a.base) × (b.prefix ≡ a.prefix)
    same = elim (Bool-cases (ltb (last_host a) (first_host a))) [
      | inl empty ↦ let q = rw (empty, Ipam.allocate) at h in (cc, cc)
      | inr room ↦ allocated_keeps a _ (rw (room, Ipam.allocate) at h)
    ]

    valid : IsValid a → IsValid b
    valid v = let (made, e, v') = allocate-IsValid p a v in let q : made ≡ (b, r) = cc in rw q at v'

reserve_parsed-Keeps :
    (p : Printer) (a : SubnetAllocator) (t : Text) (o : Option ℕ)
    → Keeps a (reserve_parsed p a t o).0
unfolding reserve_parsed
reserve_parsed-Keeps p a t o = record {
  base = base o;
  prefix = prefix o;
  valid = reserve_parsed-IsValid p a t o;
}
  where
    base : (o : Option ℕ) → (reserve_parsed p a t o).0.base ≡ a.base
    base none = refl
    base (some n) = ground arith

    prefix : (o : Option ℕ) → (reserve_parsed p a t o).0.prefix ≡ a.prefix
    prefix none = refl
    prefix (some n) = ground arith

pub reserve-Keeps : (p : Printer) (a : SubnetAllocator) (t : Text) → Keeps a (Ipam.reserve p a t).0
unfolding Ipam.reserve
reserve-Keeps p a t = reserve_parsed-Keeps p a t (parse_ipv4 t)

release_parsed-Keeps : (a : SubnetAllocator) (o : Option ℕ) → Keeps a (release_parsed a o)
unfolding release_parsed
release_parsed-Keeps a o = record {
  base = base o;
  prefix = prefix o;
  valid = release_parsed-IsValid a o;
}
  where
    base : (o : Option ℕ) → (release_parsed a o).base ≡ a.base
    base none = refl
    base (some n) = ground arith

    prefix : (o : Option ℕ) → (release_parsed a o).prefix ≡ a.prefix
    prefix none = refl
    prefix (some n) = ground arith

pub release-Keeps : (a : SubnetAllocator) (t : Text) → Keeps a (Ipam.release a t)
unfolding Ipam.release
release-Keeps a t = release_parsed-Keeps a (parse_ipv4 t)

made_parsed :
    (parsed : ℕ × ℕ) (a : SubnetAllocator) → of_cidr parsed ≡ a → parsed ≡ (a.base, a.prefix)
unfolding of_cidr
made_parsed (b, k) a e = ap (λ (x : SubnetAllocator). (x.base, x.prefix)) e

-- A new allocator serves the parsed CIDR.
pub new_parsed :
    (p : Printer) (cidr : Text) (a : SubnetAllocator)
    → Ipam.new p cidr ≡ ok a
    → parse_cidr cidr ≡ some (a.base, a.prefix)
unfolding Ipam.new
new_parsed p cidr a h = elim (Option-cases (parse_cidr cidr)) [
  | inl bad ↦ absurd (cc (rw (bad, Ipam.new) at h))
  | inr (parsed, good) ↦ good ∙ ap some (made_parsed parsed a (cc (rw (good, Ipam.new) at h)))
]
