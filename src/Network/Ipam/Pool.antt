-- ===== src/Network/Ipam/Pool.antt =====
-- crates/ocf-network/src/ipam.rs: the search for a free address, and the bounds of a subnet.
use open_compute_fabric_rs.Prelude.{
  ℕ, zero, suc, ◌+◌, ◌-◌, ◌*◌, ◌/◌, ◌%◌, ◌^◌, ◌≤◌, ◌<◌, ◌≡◌, refl, Bool, true, false, ◌&&◌, ◌||◌,
  List, arith, ltb, leb, nat_beq, nat_eq, Bool-cases, inl, inr,
}
use native.Mathlib.Nat.{div-add-mod, mul-le-mul_left}
use native.Mathlib.Decide.{dec_lt}
use open_compute_fabric_rs.Prelude.Sets.{contains as has}
use open_compute_fabric_rs.Prelude.Table.{all_below, all_below_sound}
use open_compute_fabric_rs.Network.Ipam.{
  u32_mod, shl_one, Search, found, exhausted, out_of_fuel, search_free,
}

-- What the search from `lo` to `hi` comes to: the lowest unused address, or that all are used.
abbrev pub Lowest : List ℕ → ℕ → ℕ → Search → Type 0
Lowest used lo hi (found n) =
    (lo ≤ n) × (n ≤ hi) × (has n used ≡ false) × ((m : ℕ) → lo ≤ m → m < n → has m used ≡ true)
Lowest used lo hi exhausted = (m : ℕ) → lo ≤ m → m ≤ hi → has m used ≡ true
Lowest used lo hi out_of_fuel = ⊥

-- What holds from the next address on holds from a used one on.
Lowest-from :
    (used : List ℕ) (lo hi : ℕ) (s : Search)
    → has lo used ≡ true
    → Lowest used (lo + 1) hi s
    → Lowest used lo hi s
Lowest-from used lo hi (found n) h (a, b, c, d) = (
  omega arith,
  b,
  c,
  λ m p q. elim (Bool-cases (nat_beq m lo)) [
    | inl e ↦ let same : m ≡ lo = ground arith in rw same h
    | inr e ↦ d m (ground arith) q
  ],
)
Lowest-from used lo hi exhausted h d = λ m p q. elim (Bool-cases (nat_beq m lo)) [
  | inl e ↦ let same : m ≡ lo = ground arith in rw same h
  | inr e ↦ d m (ground arith) q
]
Lowest-from used lo hi out_of_fuel h d = d

-- With fuel for every address from the candidate to the last, the search never runs out.
pub search_free-Lowest :
    (fuel : ℕ) (used : List ℕ) (hi candidate : ℕ)
    → hi - candidate < fuel
    → candidate ≤ hi
    → hi < u32_mod
    → Lowest used candidate hi (search_free fuel used hi candidate)
unfolding search_free
search_free-Lowest zero used hi candidate h le fits = absurd (omega arith)
search_free-Lowest (suc fuel) used hi candidate h le fits = elim (Bool-cases (has candidate used)) [
  | inl taken ↦ rw taken (elim (Bool-cases (nat_beq candidate hi)) [
    | inl last ↦
        let same : candidate ≡ hi = ground arith in
        rw last (λ m p q. let e : m ≡ candidate = omega arith in rw e taken)
    | inr more ↦
        let below : candidate < hi = ground arith in
        let next : (candidate + 1) % u32_mod ≡ candidate + 1 = omega arith in
        rw (more, next)
          (Lowest-from used candidate hi _ taken
            (search_free-Lowest fuel used hi (candidate + 1) (omega arith) (omega arith) fits))
  ])
  | inr free ↦ rw free (omega arith, le, free, λ m p q. absurd (omega arith))
]

-- The size of a subnet, and what the powers of two give for every prefix.
abbrev pub size : ℕ → ℕ
size prefix = 2 ^ (32 - prefix)

prefix_ok : ℕ → Bool
prefix_ok k =
    nat_beq (size k * 2 ^ k) u32_mod
    && leb 1 (size k)
    && (leb k 30 && leb 4 (size k) || ltb 30 k)
    && (nat_beq k 0 || nat_beq (shl_one (32 - k)) (size k))

prefix_table : all_below 33 prefix_ok ≡ true
unfolding all_below prefix_ok
prefix_table = refl

pub prefix_facts :
    (k : ℕ)
    → k ≤ 32
    → (size k * 2 ^ k ≡ u32_mod)
      × (1 ≤ size k)
      × (k ≤ 30 → 4 ≤ size k)
      × (1 ≤ k → shl_one (32 - k) ≡ size k)
unfolding prefix_ok
prefix_facts k h =
    let t = all_below_sound 33 prefix_ok k prefix_table (omega arith) in
    (ground arith, ground arith, (λ le. ground arith), λ le. ground arith)

-- What `parse_cidr` establishes of a parsed subnet.
pub record IsSubnet (base prefix : ℕ) : Type 0 where
  pub prefix_fits : prefix ≤ 32
  pub base_fits : base < u32_mod
  pub aligned : base % size prefix ≡ 0

-- A multiple of a divisor of the total that lies below the total has room for one divisor more.
room_above : (n k total base : ℕ) → n * k ≡ total → base < total → base % n ≡ 0 → base + n ≤ total
room_above n k total base e lt aligned =
    let q = base / n in
    let multiple : n * q ≡ base = omega (arith, div-add-mod base n) in
    elim (dec_lt q k) [
      | yes below ↦
          let m : n * (q + 1) ≤ n * k = mul-le-mul_left n (omega arith) in
          omega (arith, multiple, e)
      | no above ↦
          let m : n * k ≤ n * q = mul-le-mul_left n (omega arith) in
          absurd (omega (arith, multiple, e))
    ]

-- The whole subnet lies below 2 ^ 32.
pub subnet_end : (base prefix : ℕ) → IsSubnet base prefix → base + size prefix ≤ u32_mod
subnet_end base prefix s =
    room_above (size prefix) (2 ^ prefix) u32_mod base (prefix_facts prefix s.prefix_fits).0
      s.base_fits s.aligned
