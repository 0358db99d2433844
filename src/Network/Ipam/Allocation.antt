-- ===== src/Network/Ipam/Allocation.antt =====
-- crates/ocf-network/src/ipam.rs: which address `allocate` hands out.
use open_compute_fabric_rs.Prelude.{
  ℕ, suc, ◌+◌, ◌-◌, ◌≤◌, ◌<◌, ◌≡◌, refl, ◌⊎◌, true, false, Option, some, arith, ltb, leb, nat_eq,
  inl, inr, String,
}
use open_compute_fabric_rs.Prelude.Sets.{contains as has, add}
use open_compute_fabric_rs.Prelude.Text.{Text}
use open_compute_fabric_rs.Core.Error.{Result, ok, err, conflict}
use open_compute_fabric_rs.Network.Ipam.{
  u32_mod, shl_one, SubnetAllocator, Printer, first_host, last_host, Search, found, exhausted,
  out_of_fuel, search_free, allocate, allocated, format_ipv4,
}
use open_compute_fabric_rs.Network.Ipam.Pool.{
  Lowest, search_free-Lowest, IsSubnet, prefix_facts, subnet_end, size,
}

-- A subnet with room for hosts.
pub record HasHosts (a : SubnetAllocator) : Type 0 where
  pub subnet : IsSubnet a.base a.prefix
  pub not_all : 1 ≤ a.prefix
  pub room : a.prefix ≤ 30

module _ (a : SubnetAllocator) (v : HasHosts a) where
  pub sized :
      (4 ≤ size a.prefix)
      × (shl_one (32 - a.prefix) ≡ size a.prefix)
      × (a.base + size a.prefix ≤ u32_mod)
  sized =
      let facts = prefix_facts a.prefix v.subnet.prefix_fits in
      (facts.2 v.room, facts.3 v.not_all, subnet_end a.base a.prefix v.subnet)

  first_host_lem : first_host a ≡ a.base + 2
  unfolding first_host
  first_host_lem = let s = sized in omega arith

  last_host_lem : last_host a ≡ a.base + size a.prefix - 2
  unfolding last_host
  last_host_lem =
      let s = sized in
      let room : leb 31 a.prefix ≡ false = ground (arith, v.room) in
      rw (room, s.1) (omega (arith, s.0, s.2))

-- The outcomes of an allocation: the lowest unused host, or a conflict where every host is used.
abbrev pub Allocated : SubnetAllocator → Option (SubnetAllocator × Result Text) → Type 0
Allocated a r =
    ((n : ℕ) × (r ≡ some (record a { used = add n a.used }, ok (format_ipv4 n)))
      × (a.base + 2 ≤ n)
      × (n + 2 ≤ a.base + size a.prefix)
      × (has n a.used ≡ false)
      × ((m : ℕ) → a.base + 2 ≤ m → m < n → has m a.used ≡ true))
    ⊎ ((message : String) × (r ≡ some (a, err (conflict message)))
        × ((m : ℕ) → a.base + 2 ≤ m → m + 2 ≤ a.base + size a.prefix → has m a.used ≡ true))

Allocated-of_Lowest :
    (a : SubnetAllocator) (s : Search)
    → 4 ≤ size a.prefix
    → Lowest a.used (a.base + 2) (a.base + size a.prefix - 2) s
    → Allocated a (allocated a s)
unfolding allocated
Allocated-of_Lowest a (found n) h l = inl (n, refl, l.0, omega (arith, l.1), l.2, l.3)
Allocated-of_Lowest a exhausted h l =
    inr ("subnet address pool exhausted", refl, λ m p q. l m p (omega arith))
Allocated-of_Lowest a out_of_fuel h l = absurd l

search_hosts :
    (a : SubnetAllocator)
    → HasHosts a
    → Lowest a.used
        (a.base + 2)
        (a.base + size a.prefix - 2)
        (search_free (suc (last_host a - first_host a)) a.used (last_host a) (first_host a))
search_hosts a v =
    let s = sized a v in
    rw (first_host_lem a v, last_host_lem a v)
      (search_free-Lowest (suc (a.base + size a.prefix - 2 - (a.base + 2))) a.used
        (a.base + size a.prefix - 2) (a.base + 2) (omega arith) (omega (arith, s.0))
        (omega (arith, s.2, s.0)))

-- On a subnet whose prefix lies between 1 and 30 an allocation always ends. It hands out the lowest
-- unused address that is neither the network address, the gateway nor the broadcast address, and
-- marks just that one as used; or, if all of these are used, it fails with a conflict and changes
-- nothing.
pub allocate_lem : (p : Printer) (a : SubnetAllocator) → HasHosts a → Allocated a (allocate p a)
unfolding allocate
allocate_lem p a v =
    let s = sized a v in
    let range : ltb (last_host a) (first_host a) ≡ false =
      ground (arith, first_host_lem a v, last_host_lem a v, s.0) in
    rw range (
      Allocated-of_Lowest a
        (search_free (suc (last_host a - first_host a)) a.used (last_host a) (first_host a)) s.0
        (search_hosts a v))
