-- ===== src/Network/Ipam/Invariant.antt =====
-- crates/ocf-network/src/ipam.rs: an invariant of allocators, and sequences of calls.
use open_compute_fabric_rs.Prelude.{
  ℕ, ◌+◌, ◌-◌, ◌*◌, ◌/◌, ◌%◌, ◌≤◌, ◌<◌, ◌≡◌, refl, sym, subst, subst₂, true, List, [], ◌∷◌, Option,
  none, some, arith, ltb, nat_beq, nat_eq, Bool-cases, Option-cases, inl, inr, any,
}
use native.Mathlib.Nat.{mod-lt, zero-mod, div-add-mod, mul-mod_right}
use open_compute_fabric_rs.Prelude.Sets.{contains as has, add, contains-add}
use open_compute_fabric_rs.Prelude.Text.{Text, parse_u8, split_once}
use open_compute_fabric_rs.Core.Error.{Result, ok}
use open_compute_fabric_rs.Network.Ipam
use open_compute_fabric_rs.Network.Ipam.{
  u32_mod, shl_one, masked, checked_host, SubnetAllocator, Printer, of_cidr, parse_ipv4,
  parse_octets, push_octet, parse_cidr, parse_parts, masked_cidr, release_parsed, without,
  is_gateway, reserve_parsed, in_subnet, reserved,
}
use open_compute_fabric_rs.Network.Ipam.Address.{parse_ipv4-lt}
use open_compute_fabric_rs.Network.Ipam.Pool.{IsSubnet, size}
use open_compute_fabric_rs.Network.Ipam.Allocation.{HasHosts, allocate_lem, sized}
use open_compute_fabric_rs.Network.Ipam.Reservation.{has-without, gateway_lem, is_gateway_lem}

-- The gateway is in use, and all that is in use lies in the subnet.
pub record IsValid (a : SubnetAllocator) : Type 0 where
  pub hosts : HasHosts a
  pub gateway : has (a.base + 1) a.used ≡ true
  pub inside : (x : ℕ) → has x a.used ≡ true → (a.base ≤ x) × (x < a.base + size a.prefix)

used-IsValid :
    (a : SubnetAllocator) (used : List ℕ)
    → IsValid a
    → has (a.base + 1) used ≡ true
    → ((x : ℕ) → has x used ≡ true → (a.base ≤ x) × (x < a.base + size a.prefix))
    → IsValid (record a { used = used })
used-IsValid a used v g i = record {
  hosts = record { subnet = v.hosts.subnet; not_all = v.hosts.not_all; room = v.hosts.room };
  gateway = g;
  inside = i;
}

add-IsValid :
    (a : SubnetAllocator) (n : ℕ)
    → IsValid a
    → a.base ≤ n
    → n < a.base + size a.prefix
    → IsValid (record a { used = add n a.used })
add-IsValid a n v lo hi =
    used-IsValid a (add n a.used) v (ground (arith, v.gateway, contains-add (a.base + 1) n a.used))
      λ x h. elim (Bool-cases (nat_beq n x)) [
        | inl e ↦ let same : x ≡ n = ground arith in rw same (lo, hi)
        | inr e ↦ v.inside x (ground (arith, contains-add x n a.used))
      ]

masked_bounds :
    (a : SubnetAllocator) (n : ℕ)
    → HasHosts a
    → in_subnet a n ≡ true
    → (a.base ≤ n) × (n < a.base + size a.prefix)
unfolding in_subnet
masked_bounds a n v h =
    let s = sized a v in
    let m : n % size a.prefix < size a.prefix = mod-lt n (omega (arith, s.0)) in
    ground (arith, v.not_all)

pub reserve_parsed-IsValid :
    (p : Printer) (a : SubnetAllocator) (addr : Text) (o : Option ℕ)
    → IsValid a
    → IsValid (reserve_parsed p a addr o).0
unfolding reserve_parsed
reserve_parsed-IsValid p a addr none v = v
reserve_parsed-IsValid p a addr (some n) v = elim (Bool-cases (in_subnet a n)) [
  | inl e ↦ let b = masked_bounds a n v.hosts e in rw e (add-IsValid a n v b.0 b.1)
  | inr e ↦ rw e v
]

pub release_parsed-IsValid :
    (a : SubnetAllocator) (o : Option ℕ) → IsValid a → IsValid (release_parsed a o)
unfolding release_parsed
release_parsed-IsValid a none v = v
release_parsed-IsValid a (some n) v = elim (Bool-cases (is_gateway a n)) [
  | inl e ↦ rw e v
  | inr e ↦ rw e (
      used-IsValid a (without n a.used) v
        (ground (arith, v.gateway, is_gateway_lem a v.hosts n, has-without (a.base + 1) n a.used))
        λ x h. v.inside x (ground (arith, has-without x n a.used)))
]

-- The calls of a client.
pub data Op : Type 0 where
  allocate : Op
  reserve : Text → Op
  release : Text → Op

-- The state after a call, whatever its result; `none` if `allocate` did not end.
pub after : Printer → SubnetAllocator → Op → Option SubnetAllocator
after p a Op.allocate = elim (Ipam.allocate p a) [ none ↦ none | some r ↦ some r.0 ]
after p a (Op.reserve t) = some (Ipam.reserve p a t).0
after p a (Op.release t) = some (Ipam.release a t)

pub run : Printer → SubnetAllocator → List Op → Option SubnetAllocator
run p a [] = some a
run p a (op ∷ ops) = elim (after p a op) [ none ↦ none | some a' ↦ run p a' ops ]

pub allocate-IsValid :
    (p : Printer) (a : SubnetAllocator)
    → IsValid a
    → (r : SubnetAllocator × Result Text) × (Ipam.allocate p a ≡ some r) × IsValid r.0
allocate-IsValid p a v = elim (allocate_lem p a v.hosts) [
  | inl r ↦ (_, r.1, add-IsValid a r.0 v (omega (arith, r.2)) (omega (arith, r.2, r.3)))
  | inr r ↦ (_, r.1, v)
]

after-IsValid :
    (p : Printer) (a : SubnetAllocator) (op : Op)
    → IsValid a
    → (a' : SubnetAllocator) × (after p a op ≡ some a') × IsValid a'
unfolding after Ipam.reserve Ipam.release
after-IsValid p a Op.allocate v = let r = allocate-IsValid p a v in (r.0.0, rw (r.1, after), r.2)
after-IsValid p a (Op.reserve t) v = (_, refl, reserve_parsed-IsValid p a t (parse_ipv4 t) v)
after-IsValid p a (Op.release t) v = (_, refl, release_parsed-IsValid a (parse_ipv4 t) v)

-- Any sequence of calls on a valid allocator ends, and leaves a valid one: its gateway is still in
-- use, and every address in use lies in the subnet.
pub run-IsValid :
    (p : Printer) (a : SubnetAllocator) (ops : List Op)
    → IsValid a
    → (a' : SubnetAllocator) × (run p a ops ≡ some a') × IsValid a'
unfolding run
run-IsValid p a [] v = (a, refl, v)
run-IsValid p a (op ∷ ops) v =
    let r = after-IsValid p a op v in
    let rest = run-IsValid p r.0 ops r.2 in (rest.0, rw (r.1, run) rest.1, rest.2)

of_cidr-IsValid :
    (base prefix : ℕ) → HasHosts (of_cidr (base, prefix)) → IsValid (of_cidr (base, prefix))
unfolding of_cidr reserved has any
of_cidr-IsValid base prefix h =
    let g = gateway_lem (of_cidr (base, prefix)) h in
    let s = sized (of_cidr (base, prefix)) h in
    record { hosts = h; gateway = rw g (ground arith); inside = λ x e. ground (arith, g, s.0) }

masked-IsSubnet :
    (addr prefix : ℕ) → addr < u32_mod → prefix ≤ 32 → IsSubnet (masked prefix addr) prefix
masked-IsSubnet addr prefix h le =
    let n = size prefix in
    let q = addr / n in
    let whole : n * q + addr % n ≡ addr = div-add-mod addr n in
    record {
      prefix_fits = le;
      base_fits = ground arith;
      aligned = elim (Bool-cases (nat_beq prefix 0)) [
        | inl e ↦ rw e (zero-mod n)
        | inr e ↦
            let base : addr - addr % n ≡ n * q = omega (arith, whole) in
            rw (e, base) (mul-mod_right n q)
      ];
    }

masked_cidr-IsSubnet :
    (addr prefix : ℕ) {b k : ℕ}
    → addr < u32_mod
    → masked_cidr addr prefix ≡ some (b, k)
    → IsSubnet b k
unfolding masked_cidr
masked_cidr-IsSubnet addr prefix {b} {k} h e = elim (Bool-cases (ltb 32 prefix)) [
  | inl wide ↦ absurd (cc (rw wide at e))
  | inr fits ↦
      let le : prefix ≤ 32 = ground arith in
      let parsed : some (masked prefix addr, prefix) ≡ some (b, k) = rw fits at e in
      let base : masked prefix addr ≡ b = cc parsed in
      let same : prefix ≡ k = cc parsed in
      subst₂ IsSubnet base same (masked-IsSubnet addr prefix h le)
]

parse_parts-IsSubnet :
    (parts : Text × Text) {b k : ℕ} → parse_parts parts ≡ some (b, k) → IsSubnet b k
unfolding parse_parts
parse_parts-IsSubnet (addr, prefix) {b} {k} e = elim (Option-cases (parse_ipv4 addr)) [
  | inl none_addr ↦ absurd (cc (rw (none_addr, parse_parts) at e))
  | inr (n, parsed) ↦ elim (Option-cases (parse_u8 prefix)) [
    | inl none_prefix ↦ absurd (cc (rw (parsed, none_prefix, parse_parts) at e))
    | inr (w, width) ↦
        masked_cidr-IsSubnet n w (parse_ipv4-lt addr parsed) (rw (parsed, width, parse_parts) at e)
  ]
]

-- The parsed base is aligned to the subnet's size and below 2 ^ 32, and the prefix is at most 32.
pub parse_cidr-IsSubnet : (cidr : Text) {b k : ℕ} → parse_cidr cidr ≡ some (b, k) → IsSubnet b k
unfolding parse_cidr
parse_cidr-IsSubnet cidr {b} {k} e = elim (Option-cases (split_once b'/' cidr)) [
  | inl missing ↦ absurd (cc (rw (missing, parse_cidr) at e))
  | inr (parts, found) ↦ parse_parts-IsSubnet parts (rw (found, parse_cidr) at e)
]

made-IsValid :
    (parsed : ℕ × ℕ) (a : SubnetAllocator)
    → IsSubnet parsed.0 parsed.1
    → of_cidr parsed ≡ a
    → 1 ≤ a.prefix
    → a.prefix ≤ 30
    → IsValid a
unfolding of_cidr
made-IsValid (b, k) a subnet made lo hi = subst IsValid made (
    of_cidr-IsValid b k (record {
      subnet = subnet;
      not_all = subst (λ x. 1 ≤ x.prefix) (sym made) lo;
      room = subst (λ x. x.prefix ≤ 30) (sym made) hi;
    }))

-- An allocator made from a CIDR text whose prefix lies between 1 and 30 is valid: its base is
-- aligned, its gateway is in use, and nothing outside the subnet is.
pub new-IsValid :
    (p : Printer) (cidr : Text) (a : SubnetAllocator)
    → Ipam.new p cidr ≡ ok a
    → 1 ≤ a.prefix
    → a.prefix ≤ 30
    → IsValid a
unfolding Ipam.new
new-IsValid p cidr a h lo hi = elim (Option-cases (parse_cidr cidr)) [
  | inl bad ↦ absurd (cc (rw (bad, Ipam.new) at h))
  | inr (parsed, good) ↦
      made-IsValid parsed a (parse_cidr-IsSubnet cidr good) (cc (rw (good, Ipam.new) at h)) lo hi
]
