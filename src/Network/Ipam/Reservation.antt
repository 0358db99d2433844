-- ===== src/Network/Ipam/Reservation.antt =====
-- crates/ocf-network/src/ipam.rs: what `allocate` and `release` leave in use.
use open_compute_fabric_rs.Prelude.{
  ℕ, ◌+◌, ◌-◌, ◌^◌, ◌≤◌, ◌<◌, ◌≡◌, ◌≢◌, sym, ap, ◌∙◌, true, false, ◌&&◌, not, List, [], ◌∷◌, Option,
  none, some, arith, ltb, leb, nat_beq, nat_eq, Bool-cases, false≢true, inl, inr, filter, any,
  if◌then◌else◌,
}
use open_compute_fabric_rs.Prelude.Sets.{contains as has, add, contains-add}
use open_compute_fabric_rs.Prelude.Text.{Text}
use open_compute_fabric_rs.Core.Error.{ok}
use open_compute_fabric_rs.Network.Ipam.{
  shl_one, checked_host, SubnetAllocator, Printer, allocate, parse_ipv4, format_ipv4, release,
  without, is_gateway, release_parsed,
}
use open_compute_fabric_rs.Network.Ipam.Address.{parse-format_ipv4}
use open_compute_fabric_rs.Network.Ipam.Pool.{size}
use open_compute_fabric_rs.Network.Ipam.Allocation.{HasHosts, allocate_lem, sized}

pub has-without :
    (x n : ℕ) (used : List ℕ) → has x (without n used) ≡ (not (nat_beq x n) && has x used)
unfolding has without any filter
has-without x n [] = ground arith
has-without x n (y ∷ used) = ground (arith, has-without x n used)

pub gateway_lem :
    (a : SubnetAllocator) → HasHosts a → checked_host a.base a.prefix 1 ≡ some (a.base + 1)
unfolding checked_host
gateway_lem a v =
    let s = sized a v in
    let narrow : leb 32 a.prefix ≡ false = ground (arith, v.room) in
    let inside : ltb 1 (shl_one (32 - a.prefix)) ≡ true = ground (arith, s.0, s.1) in
    rw (narrow, inside) (ap some (omega (arith, s.0, s.2)))

pub is_gateway_lem :
    (a : SubnetAllocator) → HasHosts a → (n : ℕ) → is_gateway a n ≡ nat_beq (a.base + 1) n
unfolding is_gateway
is_gateway_lem a v n = rw (gateway_lem a v, is_gateway)

pub release_format :
    (a : SubnetAllocator) (n : ℕ)
    → n < 2 ^ 32
    → release a (format_ipv4 n) ≡ release_parsed a (some n)
unfolding release
release_format a n h = ap (release_parsed a) (parse-format_ipv4 n h)

pub has-release_parsed :
    (a : SubnetAllocator) (n x : ℕ)
    → HasHosts a
    → has x (release_parsed a (some n)).used
      ≡ (if nat_beq (a.base + 1) n then has x a.used else not (nat_beq x n) && has x a.used)
unfolding release_parsed
has-release_parsed a n x v = ground (arith, is_gateway_lem a v n, has-without x n a.used)

release_parsed_keeps :
    (a : SubnetAllocator) (o : Option ℕ) (m : ℕ)
    → o ≢ some m
    → has m a.used ≡ true
    → has m (release_parsed a o).used ≡ true
unfolding release_parsed
release_parsed_keeps a none m other h = h
release_parsed_keeps a (some n) m other h = elim (Bool-cases (nat_beq m n)) [
  | inl same ↦ let q : m ≡ n = ground (arith, same) in absurd (other (ap some (sym q)))
  | inr differ ↦ ground (arith, has-without m n a.used)
]

-- A release keeps every other address in use.
pub release_keeps :
    (a : SubnetAllocator) (t : Text) (m : ℕ)
    → parse_ipv4 t ≢ some m
    → has m a.used ≡ true
    → has m (release a t).used ≡ true
unfolding release
release_keeps a t m other h = release_parsed_keeps a (parse_ipv4 t) m other h

release_parsed_shrinks :
    (a : SubnetAllocator) (o : Option ℕ) (m : ℕ)
    → has m (release_parsed a o).used ≡ true
    → has m a.used ≡ true
unfolding release_parsed
release_parsed_shrinks a none m h = h
release_parsed_shrinks a (some n) m h = ground (arith, has-without m n a.used)

-- A release puts no address in use.
pub release_shrinks :
    (a : SubnetAllocator) (t : Text) (m : ℕ) → has m (release a t).used ≡ true → has m a.used ≡ true
unfolding release
release_shrinks a t m h = release_parsed_shrinks a (parse_ipv4 t) m h

-- What a successful allocation returns and leaves.
abbrev pub Fresh : SubnetAllocator → SubnetAllocator → Text → Type 0
Fresh a a' t =
    (n : ℕ) × (a' ≡ record a { used = add n a.used })
    × (t ≡ format_ipv4 n)
    × (a.base + 2 ≤ n)
    × (n + 2 ≤ a.base + size a.prefix)
    × (has n a.used ≡ false)

pub allocate-Fresh :
    (p : Printer) (a : SubnetAllocator) {a' : SubnetAllocator} {t : Text}
    → HasHosts a
    → allocate p a ≡ some (a', ok t)
    → Fresh a a' t
allocate-Fresh p a {a'} {t} v h = elim (allocate_lem p a v) [
  | inl r ↦
      let state : a' ≡ record a { used = add r.0 a.used } = cc (sym h ∙ r.1) in
      let text : t ≡ format_ipv4 r.0 = cc (sym h ∙ r.1) in (r.0, state, text, r.2, r.3, r.4)
  | inr r ↦ absurd (cc (sym h ∙ r.1))
]

pub HasHosts-of_used :
    (a : SubnetAllocator) (used : List ℕ) → HasHosts a → HasHosts (record a { used = used })
HasHosts-of_used a used v = record { subnet = v.subnet; not_all = v.not_all; room = v.room }

restored :
    (b x n : ℕ) (used : List ℕ)
    → b + 2 ≤ n
    → has n used ≡ false
    → (if nat_beq (b + 1) n then has x (add n used) else not (nat_beq x n) && has x (add n used))
      ≡ has x used
restored b x n used h free = elim (Bool-cases (nat_beq x n)) [
  | inl e ↦ let same : x ≡ n = ground arith in rw (same) (ground arith)
  | inr e ↦ ground (arith, contains-add x n used)
]

-- Releasing what has just been allocated restores the set of addresses in use.
pub release-allocate :
    (p : Printer) (a : SubnetAllocator) {a' : SubnetAllocator} {t : Text}
    → HasHosts a
    → allocate p a ≡ some (a', ok t)
    → (x : ℕ) → has x (release a' t).used ≡ has x a.used
release-allocate p a {a'} {t} v h x =
    let r = allocate-Fresh p a v h in
    let n = r.0 in
    let s = sized a v in
    let fits : n < 2 ^ 32 = omega (arith, r.4, s.2) in
    rw (r.1, r.2, release_format (record a { used = add n a.used }) n fits)
      (has-release_parsed (record a { used = add n a.used }) n x
          (HasHosts-of_used a (add n a.used) v)
        ∙ restored a.base x n a.used r.3 r.5)

-- Two allocations in a row never hand out the same address.
pub allocate_distinct :
    (p : Printer) (a : SubnetAllocator) {a' a'' : SubnetAllocator} {t u : Text}
    → HasHosts a
    → allocate p a ≡ some (a', ok t)
    → allocate p a' ≡ some (a'', ok u)
    → t ≢ u
allocate_distinct p a {a'} {a''} {t} {u} v h k e =
    let r = allocate-Fresh p a v h in
    let s = sized a v in
    let v' : HasHosts a' = rw r.1 (HasHosts-of_used a (add r.0 a.used) v) in
    let q = allocate-Fresh p a' v' k in
    let s' = sized a' v' in
    let same : some r.0 ≡ some q.0 =
      sym (parse-format_ipv4 r.0 (omega (arith, r.4, s.2)))
      ∙ ap parse_ipv4 (sym r.2 ∙ e ∙ q.2)
      ∙ parse-format_ipv4 q.0 (omega (arith, q.4, s'.2)) in
    let equal : r.0 ≡ q.0 = cc same in
    let marked : has r.0 a'.used ≡ true = rw r.1 (ground (arith, contains-add r.0 r.0 a.used)) in
    false≢true (sym q.5 ∙ ap (λ (z : ℕ). has z a'.used) (sym equal) ∙ marked)
