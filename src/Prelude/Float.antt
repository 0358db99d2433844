-- ===== src/Prelude/Float.antt =====
-- What the program uses of `f64`. Its values are finitely many and, NaN apart, totally preordered,
-- so each non-NaN value has a rank, with equal ranks for values that compare equal (-0.0 and 0.0).
-- Comparison is that of the ranks.
use Prim.Native.Nat.{ℕ, ◌+◌, ◌≤◌, compare, Ordering}
use mathlib.Core.Path.{◌≡◌, refl}
use mathlib.Core.Bool.{Bool, true, false}
use mathlib.Core.Option.{Option, none, some}
use mathlib.Core.Logic.{◌↔◌}
use native.Mathlib.Omega.{arith}
use open_compute_fabric_rs.Prelude.Tests.{leb, if◌then◌else◌}

pub record F64 : Type 1 where
  pub Carrier : Type 0
  -- `none` for a NaN
  pub rank : Carrier → Option ℕ
  pub zero : Carrier
  pub zero_rank : ℕ
  pub zero_ranked : rank zero ≡ some zero_rank

abbrev pub partial_cmp_ranks : Option ℕ → Option ℕ → Option Ordering
partial_cmp_ranks none b = none
partial_cmp_ranks (some m) none = none
partial_cmp_ranks (some m) (some n) = some (compare m n)

abbrev pub is_less : Ordering → Bool
is_less Ordering.lt = true
is_less _ = false

module _ (f : F64) where
  open f use {Carrier, rank}

  abbrev pub is_nan : Carrier → Bool
  is_nan a = elim (rank a) [ none ↦ true | some _ ↦ false ]

  -- `a.partial_cmp(&b)`
  abbrev pub partial_cmp : Carrier → Carrier → Option Ordering
  partial_cmp a b = partial_cmp_ranks (rank a) (rank b)

  -- `a < b`, false where either is a NaN
  abbrev pub lt : Carrier → Carrier → Bool
  lt a b = elim (partial_cmp a b) [ none ↦ false | some o ↦ is_less o ]

  -- The rank, 0 for a NaN.
  abbrev pub order : Carrier → ℕ
  order a = elim (rank a) [ none ↦ 0 | some n ↦ n ]

  -- A number that is not below zero.
  abbrev pub NonNeg : Carrier → Type 0
  NonNeg a = (is_nan a ≡ false) × (f.zero_rank ≤ order a)

-- The naturals with a NaN.
abbrev pub sample_f64 : F64
sample_f64 = record {
  Carrier = Option ℕ;
  rank = λ a. a;
  zero = some 0;
  zero_rank = 0;
  zero_ranked = refl;
}

-- Sums of `f64`: what IEEE 754 says of adding numbers that are not negative. Rounding keeps the
-- order, so a sum grows with its first summand and is at least that summand; it may overflow to
-- infinity.
pub record F64Sum : Type 1 where
  pub f64 : F64
  pub add : f64.Carrier → f64.Carrier → f64.Carrier
  pub infinity : f64.Carrier
  pub is_infinite : f64.Carrier → Bool
  pub add_NonNeg : (a b : f64.Carrier) → NonNeg f64 a → NonNeg f64 b → NonNeg f64 (add a b)
  pub add_grows :
      (a b : f64.Carrier) → NonNeg f64 a → NonNeg f64 b → order f64 a ≤ order f64 (add a b)
  pub add_mono :
      (a b c : f64.Carrier)
      → NonNeg f64 a
      → NonNeg f64 b
      → NonNeg f64 c
      → order f64 a ≤ order f64 b
      → order f64 (add a c) ≤ order f64 (add b c)
  pub infinity_NonNeg : NonNeg f64 infinity
  pub infinity_infinite : is_infinite infinity ≡ true
  pub infinity_top : (a : f64.Carrier) → order f64 a ≤ order f64 infinity
  pub infinite_iff :
      (a : f64.Carrier) → NonNeg f64 a → (is_infinite a ≡ true) ↔ (order f64 a ≡ order f64 infinity)
  pub zero_finite : is_infinite f64.zero ≡ false

-- The naturals up to an infinity, with a NaN: sums that reach 2 ^ 20 overflow.
abbrev pub sample_top : ℕ
sample_top = 1048576

abbrev pub capped : ℕ → ℕ
capped n = if leb sample_top n then sample_top else n

abbrev pub sample_rank : Option ℕ → Option ℕ
sample_rank none = none
sample_rank (some n) = some (capped n)

abbrev pub sample_add : Option ℕ → Option ℕ → Option ℕ
sample_add none b = none
sample_add (some m) none = none
sample_add (some m) (some n) = some (capped (m + n))

abbrev pub sample_is_infinite : Option ℕ → Bool
sample_is_infinite none = false
sample_is_infinite (some n) = leb sample_top n

-- The naturals with a NaN, where all from 2 ^ 20 on are infinity.
abbrev pub sample_capped : F64
sample_capped = record {
  Carrier = Option ℕ;
  rank = sample_rank;
  zero = some 0;
  zero_rank = 0;
  zero_ranked = refl;
}

pub sample_NonNeg :
    (a b : Option ℕ)
    → NonNeg sample_capped a
    → NonNeg sample_capped b
    → NonNeg sample_capped (sample_add a b)
sample_NonNeg a b p q = ground arith

pub sample_grows :
    (a b : Option ℕ)
    → NonNeg sample_capped a
    → NonNeg sample_capped b
    → order sample_capped a ≤ order sample_capped (sample_add a b)
sample_grows a b p q = ground arith

pub sample_mono :
    (a b c : Option ℕ)
    → NonNeg sample_capped a
    → NonNeg sample_capped b
    → NonNeg sample_capped c
    → order sample_capped a ≤ order sample_capped b
    → order sample_capped (sample_add a c) ≤ order sample_capped (sample_add b c)
sample_mono a b c p q r h = ground arith

pub sample_infinity_top : (a : Option ℕ) → order sample_capped a ≤ sample_top
sample_infinity_top a = ground arith

pub sample_infinite_iff :
    (a : Option ℕ)
    → NonNeg sample_capped a
    → (sample_is_infinite a ≡ true) ↔ (order sample_capped a ≡ sample_top)
sample_infinite_iff a p = ground arith

abbrev pub sample_sum : F64Sum
sample_sum = record {
  f64 = sample_capped;
  add = sample_add;
  infinity = some sample_top;
  is_infinite = sample_is_infinite;
  add_NonNeg = sample_NonNeg;
  add_grows = sample_grows;
  add_mono = sample_mono;
  infinity_NonNeg = (refl, omega arith);
  infinity_infinite = refl;
  infinity_top = sample_infinity_top;
  infinite_iff = sample_infinite_iff;
  zero_finite = refl;
}
