-- ===== src/Network/Ipam.antt =====
-- crates/ocf-network/src/ipam.rs: the address allocator of a subnet. A `u32` is a number below
-- 2 ^ 32 with its wrap-around written out, as a release build computes. `addr & mask` clears the low
-- bits, so it is the largest multiple of the subnet's size that `addr` reaches.
pub mod Address
pub mod Pool
pub mod Allocation
pub mod Reservation
pub mod Invariant
pub mod Kept
use open_compute_fabric_rs.Prelude.{
  ℕ, zero, suc, ◌+◌, ◌-◌, ◌*◌, ◌/◌, ◌%◌, ◌^◌, String, Bool, true, false, List, [], ◌∷◌, ◌++◌,
  Option, none, some, length, filter, not, nat_eq, nat_beq, ltb, leb, if◌then◌else◌,
}
use open_compute_fabric_rs.Prelude.Sets.{contains as has, add}
use open_compute_fabric_rs.Prelude.Text.{Text, trim, split_on, split_once, parse_u8, print_u8}
use open_compute_fabric_rs.Core.Error.{Result, ok, err, invalid_argument, conflict, ok_or, concat}

abbrev pub u32_mod : ℕ
u32_mod = 2 ^ 32

-- `(acc << 8) | octet`: the low byte of the shifted value is zero.
abbrev pub push_octet : ℕ → ℕ → ℕ
push_octet acc octet = acc * 2 ^ 8 % u32_mod + octet

-- The loop over the octets.
parse_octets : ℕ → List Text → Option ℕ
parse_octets acc [] = some acc
parse_octets acc (octet ∷ octets) = elim (parse_u8 octet) [
  | none ↦ none
  | some v ↦ parse_octets (push_octet acc v) octets
]

unfoldable pub parse_ipv4 : Text → Option ℕ
unfolding parse_octets
parse_ipv4 s =
    let octets = split_on b'.' (trim s) in
    if nat_beq (length octets) 4 then parse_octets 0 octets else none

unfoldable pub format_ipv4 : ℕ → Text
format_ipv4 n =
    print_u8 (n / 2 ^ 24 % 256)
    ++ b'.'
      ∷ (print_u8 (n / 2 ^ 16 % 256)
          ++ b'.' ∷ (print_u8 (n / 2 ^ 8 % 256) ++ b'.' ∷ print_u8 (n % 256)))

-- `1u32 << k`: the amount of a shift is taken modulo 32.
abbrev pub shl_one : ℕ → ℕ
shl_one k = 2 ^ (k % 32)

-- `addr & mask`, with the mask of the prefix.
abbrev pub masked : ℕ → ℕ → ℕ
masked prefix addr = if nat_beq prefix 0 then 0 else addr - addr % 2 ^ (32 - prefix)

masked_cidr : ℕ → ℕ → Option (ℕ × ℕ)
masked_cidr addr prefix = if ltb 32 prefix then none else some (masked prefix addr, prefix)

parse_parts : Text × Text → Option (ℕ × ℕ)
parse_parts (addr, prefix) = elim (parse_ipv4 addr) [
  | none ↦ none
  | some a ↦ elim (parse_u8 prefix) [ none ↦ none | some p ↦ masked_cidr a p ]
]

unfoldable pub parse_cidr : Text → Option (ℕ × ℕ)
unfolding parse_parts masked_cidr
parse_cidr cidr = elim (split_once b'/' cidr) [ none ↦ none | some parts ↦ parse_parts parts ]

-- `base + offset`, if it lands inside the subnet.
unfoldable pub checked_host : ℕ → ℕ → ℕ → Option ℕ
checked_host base prefix offset =
    if leb 32 prefix
    then none
    else if ltb offset (shl_one (32 - prefix))
    then some ((base + offset) % u32_mod)
    else none

pub record SubnetAllocator : Type 0 where
  pub base : ℕ
  pub prefix : ℕ
  pub used : List ℕ

-- How the messages show a text and a number.
pub record Printer : Type 0 where
  pub text : Text → String
  pub number : ℕ → String

reserved : Option ℕ → List ℕ
reserved none = []
reserved (some gw) = gw ∷ []

unfoldable pub of_cidr : ℕ × ℕ → SubnetAllocator
unfolding reserved
of_cidr (base, prefix) = record {
  base = base;
  prefix = prefix;
  used = reserved (checked_host base prefix 1);
}

unfoldable pub new : Printer → Text → Result SubnetAllocator
new p cidr = elim (parse_cidr cidr) [
  | none ↦ err (invalid_argument (concat "invalid subnet CIDR `" (concat (p.text cidr) "`")))
  | some parsed ↦ ok (of_cidr parsed)
]

unfoldable pub first_host : SubnetAllocator → ℕ
first_host a = (a.base + 2) % u32_mod

unfoldable pub last_host : SubnetAllocator → ℕ
last_host a =
    if leb 31 a.prefix
    then a.base
    else ((a.base + shl_one (32 - a.prefix)) % u32_mod + u32_mod - 2) % u32_mod

pub data Search : Type 0 where
  found : ℕ → Search
  exhausted : Search
  out_of_fuel : Search

-- The loop of `allocate`: the lowest candidate up to `hi` that is not used.
unfoldable pub search_free : ℕ → List ℕ → ℕ → ℕ → Search
search_free zero used hi candidate = out_of_fuel
search_free (suc fuel) used hi candidate =
    let rest = search_free fuel used hi ((candidate + 1) % u32_mod) in
    if has candidate used then if nat_beq candidate hi then exhausted else rest else found candidate

-- The state and the result, or `none` where the loop ran out of fuel.
allocated : SubnetAllocator → Search → Option (SubnetAllocator × Result Text)
allocated a (found n) = some (record a { used = add n a.used }, ok (format_ipv4 n))
allocated a exhausted = some (a, err (conflict "subnet address pool exhausted"))
allocated a out_of_fuel = none

-- The loop visits at most the addresses from the first host to the last.
unfoldable pub allocate : Printer → SubnetAllocator → Option (SubnetAllocator × Result Text)
unfolding allocated
allocate p a =
    let lo = first_host a in
    let hi = last_host a in
    if ltb hi lo
    then some (
      a,
      err (
          conflict
            (concat "subnet /" (concat (p.number a.prefix) " has no assignable host addresses"))),
    )
    else allocated a (search_free (suc (hi - lo)) a.used hi lo)

unfoldable pub in_subnet : SubnetAllocator → ℕ → Bool
in_subnet a n = nat_beq (masked a.prefix n) a.base

pub reserve_parsed :
    Printer → SubnetAllocator → Text → Option ℕ → SubnetAllocator × Result (Unit {0})
reserve_parsed p a addr none =
    (a, err (invalid_argument (concat "invalid address `" (concat (p.text addr) "`"))))
reserve_parsed p a addr (some n) =
    if in_subnet a n then (record a { used = add n a.used }, ok tt) else (
      a,
      err (invalid_argument (concat "address `" (concat (p.text addr) "` is outside this subnet"))),
    )

unfoldable pub reserve : Printer → SubnetAllocator → Text → SubnetAllocator × Result (Unit {0})
unfolding reserve_parsed
reserve p a addr = reserve_parsed p a addr (parse_ipv4 addr)

pub is_gateway : SubnetAllocator → ℕ → Bool
is_gateway a n = elim (checked_host a.base a.prefix 1) [ none ↦ false | some gw ↦ nat_beq gw n ]

-- `BTreeSet::remove`
unfoldable pub without : ℕ → List ℕ → List ℕ
without n used = filter (λ m. not (nat_beq m n)) used

-- The gateway is never released.
pub release_parsed : SubnetAllocator → Option ℕ → SubnetAllocator
release_parsed a none = a
release_parsed a (some n) = if is_gateway a n then a else record a { used = without n a.used }

unfoldable pub release : SubnetAllocator → Text → SubnetAllocator
unfolding release_parsed is_gateway without
release a addr = release_parsed a (parse_ipv4 addr)

unfoldable pub used_count : SubnetAllocator → ℕ
used_count a = length a.used
